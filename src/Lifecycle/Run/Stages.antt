-- ===== src/Lifecycle/Run/Stages.antt =====
-- The stages of a run, which Start, Stop and Serve share: the opening, the callbacks, and the
-- shutdown.
use scaffold_go.Base.{
  ℕ, suc, ◌*◌, ◌≤◌, ◌<◌, ◌≡◌, refl, sym, ap, ap₂, subst, ◌∙◌, false, ◌||◌, Option, none, some, List,
  [], ◌∷◌, ◌++◌, map, reverse, length, append_assoc, All, All-reverse, arith,
}
use scaffold_go.Go.{Error, Logger}
use scaffold_go.Context.{Context}
use scaffold_go.Net.{Addr}
use scaffold_go.System.{
  Sys, Daemon, on_listen_ready_phase, before_shutdown_phase, on_start_call, on_stop_call,
  callback_call, clean_call, shutdown_call, calls, note, Call,
}
use scaffold_go.System.Rely.{Grows, Grows-trans, IsCivil, Does, Does-trans, note-Does, Rely-Does}
use scaffold_go.Platform.{Platform}
use scaffold_go.Lifecycle.Callbacks.{run_callbacks}
use scaffold_go.Lifecycle.Callbacks.Cost.{load, phase-load, load-run_callbacks}
use scaffold_go.Lifecycle.Callbacks.Order.{run_callbacks_total, run_callbacks-Does}
use scaffold_go.Lifecycle.Probe.{probe_timeout, probe_pause}
use scaffold_go.Lifecycle.Probe.Ends.{IsTimely}
use scaffold_go.Lifecycle.Open.{open_bindings}
use scaffold_go.Lifecycle.Open.Ends.{open_bindings_ends}
use scaffold_go.Lifecycle.Open.Frame.{LoopLeads, AreAllocated-Opens, open_bindings-LoopLeads}
use scaffold_go.Lifecycle.Shutdown.{teardown, run_shutdown}
use scaffold_go.Lifecycle.Shutdown.Servers.{AreAllocated, allocated-kept, servers-kept}
use scaffold_go.Lifecycle.Shutdown.Order.{IsCivilServer, teardown-IsTornDown}
use scaffold_go.Lifecycle.Shutdown.Ends.{run_shutdown_ends}
use scaffold_go.Lifecycle.Instance.{set_flag}
use scaffold_go.Lifecycle.Run.{IsBounded, IsServed, IsOpened, after_start, callback-phase}

All-prefix : (P : ℕ → Type 0) (xs ys : List ℕ) → All P (xs ++ ys) → All P xs
All-prefix P [] ys a = tt
All-prefix P (x ∷ xs) ys a = (a.0, All-prefix P xs ys a.1)

joined :
    {t v w : List Call} (u xs ys zs : List Call)
    → t ≡ v ++ zs
    → v ≡ w ++ ys
    → w ≡ u ++ xs
    → t ≡ u ++ (xs ++ (ys ++ zs))
joined u xs ys zs e f g =
    e
    ∙ ap (λ l. l ++ zs) (f ∙ ap (λ l. l ++ ys) g ∙ append_assoc u xs ys)
    ∙ append_assoc u (xs ++ ys) zs
    ∙ ap (λ l. u ++ l) (append_assoc xs ys zs)

module _ {World : Type 0} (d : Daemon World) (p : Platform World) (civil : IsCivil d)
    (credit : World → ℕ) (bounded : IsBounded d p credit) (rounds : ℕ) (log : Logger) where
  -- A state after the OnListenReady callbacks, where `u` is the one before.
  pub record IsUp (u w : Sys World) (ready : List ℕ) : Type 0 where
    pub does : Does (map (callback_call on_listen_ready_phase) ready) u w
    pub ready_grown : Grows u.on_listen_ready ready
    pub light : load credit w ≤ load credit u

  pub run_callbacks-IsUp :
      (ctx : Context) (u : Sys World)
      → load credit u ≤ rounds
      → (v : Sys World) × (run_callbacks d ctx log (suc rounds) (some on_listen_ready_phase) u
          ≡ some v)
        × IsUp u v v.on_listen_ready
  run_callbacks-IsUp ctx u h =
      let (v, ran) =
        run_callbacks_total d civil ctx log on_listen_ready_phase credit
          (callback-phase d p civil credit bounded ctx on_listen_ready_phase) (suc rounds) u
          (omega (arith, phase-load credit on_listen_ready_phase u)) in
      let does = run_callbacks-Does d civil ctx log (suc rounds) on_listen_ready_phase u v ran in
      (
        v,
        ran,
        record {
          does = does;
          ready_grown = does.steady.ready_grows;
          light =
              load-run_callbacks credit d ctx log (bounded.callback_spends ctx) (suc rounds)
                on_listen_ready_phase u v ran;
        },
      )

  module _ (civil_server : IsCivilServer p) (ctx : Context) where
    -- The shutdown after a failure.
    pub teardown-IsServed :
        (u : Sys World) (opened : List ℕ) (e : Error)
        → AreAllocated u.bindings.heap opened
        → (u.cleaner.running || u.cleaner.done) ≡ false
        → IsServed ctx u opened (some e) (teardown d p ctx log opened (set_flag u)).0
    teardown-IsServed u opened e a idle =
        let down = teardown-IsTornDown d p civil civil_server ctx log opened (set_flag u) a idle in
        record {
          ready = [];
          before = [];
          cleaned = down.cleaned;
          calls_made = down.calls_made;
          succeeded = λ n. cc;
          failed = λ f n. (refl, refl);
          cleaned_grown = down.cleaned_grown;
          cleaner_done = down.cleaner_done;
          cleaner_empty = down.cleaner_empty;
        }

    -- The shutdown of a daemon that is up.
    pub run_shutdown-IsServed :
        (u w : Sys World) (ready opened : List ℕ)
        → IsUp u w ready
        → AreAllocated u.bindings.heap opened
        → (u.cleaner.running || u.cleaner.done) ≡ false
        → load credit u ≤ rounds
        → (t : Sys World) × (errs : Option (List Error)) × (run_shutdown d p ctx log
              (suc rounds)
              (some before_shutdown_phase)
              opened
              (set_flag w)
            ≡ some (t, errs))
          × IsServed ctx u opened none t
    run_shutdown-IsServed u w ready opened up a idle h =
        let steady = up.does.steady in
        let (t, errs, ends, shut, _) =
          run_shutdown_ends d p civil civil_server ctx log before_shutdown_phase credit
            (callback-phase d p civil credit bounded ctx before_shutdown_phase) (suc rounds) opened
            (set_flag w) (allocated-kept _ _ steady.heap_kept opened a)
            (ap₂ ◌||◌ steady.running_kept steady.done_kept ∙ idle)
            (omega (arith, up.light, phase-load credit before_shutdown_phase (set_flag w))) in
        let down = shut.torn_down in
        let run = shut.callbacks_run in
        (
          t,
          errs,
          ends,
          record {
            ready = ready;
            before = shut.called_back.before_shutdown;
            cleaned = down.cleaned;
            calls_made =
                joined (calls u.trace) _ _ _
                  (down.calls_made
                    ∙ ap
                        (λ l.
                          calls shut.called_back.trace
                          ++ (map (λ r. shutdown_call r ctx) l
                              ++ on_stop_call ctx ∷ map clean_call (reverse down.cleaned)))
                        (shut.servers_same
                          ∙ servers-kept _ _ steady.heap_kept (reverse opened)
                              (All-reverse _ opened a)))
                  run.calls_made up.does.calls_made;
            succeeded =
                λ _. (up.ready_grown, Grows-trans steady.before_grows run.steady.before_grows);
            failed = λ e n. cc;
            cleaned_grown =
                Grows-trans steady.stack_grows
                  (Grows-trans run.steady.stack_grows down.cleaned_grown);
            cleaner_done = down.cleaner_done;
            cleaner_empty = down.cleaner_empty;
          },
        )

  -- The state in which openBindings has ended, with what the next stages need.
  pub record IsReached (ctx : Context) (order : List ℕ) (s u : Sys World) (opened : List ℕ)
      (failure : Option Error) : Type 0 where
    pub ends :
        open_bindings d p (suc rounds) ctx log order (after_start d ctx s)
        ≡ some (u, opened, failure)
    pub is_opened : IsOpened d p credit rounds ctx log order s u opened failure
    pub allocated : AreAllocated u.bindings.heap opened
    pub idle : (u.cleaner.running || u.cleaner.done) ≡ false
    pub light : load credit u ≤ rounds

  pub open_bindings-IsReached :
      (ctx : Context) (timely : (addr : Addr) → IsTimely p ctx addr)
      (enough : probe_timeout < probe_pause * rounds) (s : Sys World) (order : List ℕ)
      → (s.cleaner.running || s.cleaner.done) ≡ false
      → load credit s ≤ rounds
      → AreAllocated (after_start d ctx s).bindings.heap order
      → (u : Sys World) × (opened : List ℕ) × (failure : Option Error) × IsReached ctx order s u
          opened failure
  open_bindings-IsReached ctx timely enough s order idle h a =
      let s1 = after_start d ctx s in
      let starts =
        Does-trans (note-Does (on_start_call ctx) s)
          (Rely-Does (civil.on_start_rely ctx (note (on_start_call ctx) s))) in
      let (u, opened, failure, ends, opening) =
        open_bindings_ends d p rounds ctx log timely enough order s1 a in
      let opens = subst (LoopLeads credit s1) ends (
        open_bindings-LoopLeads credit d p (suc rounds) ctx log bounded.listen_free
          bounded.dial_free (bounded.sleep_free ctx) order s1) in
      (
        u,
        opened,
        failure,
        record {
          ends = ends;
          is_opened = record { started = starts.calls_made; opens = opens; opening = opening };
          allocated = All-prefix _ opened opening.rest (
              subst (AreAllocated u.bindings.heap)
                (opening.split ∙ ap (λ l. l ++ opening.rest) (sym opening.opened_are))
                (AreAllocated-Opens credit order opens a));
          idle =
              ap (λ c. c.running || c.done) opens.cleaner_kept
              ∙ ap₂ ◌||◌ starts.steady.running_kept starts.steady.done_kept
              ∙ idle;
          light = omega (
            arith,
            opens.spent,
            ap length opens.ready_kept,
            ap length opens.before_kept,
            bounded.on_start_spends ctx (note (on_start_call ctx) s),
            h,
          );
        },
      )
