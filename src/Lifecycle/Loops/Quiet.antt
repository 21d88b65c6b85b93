-- ===== src/Lifecycle/Loops/Quiet.antt =====
-- Which results the serve loops report as errors, as they run beside the lifecycle (scaffold.go).
use scaffold_go.Base.{
  ℕ, String, ◌≡◌, refl, sym, ap, subst, ◌∙◌, Bool, true, false, inl, inr, Option, none, some, [],
  get_elem?, get_elem?-set, set, length, ◌+◌, arith, Bool-cases,
}
use mathlib.Core.Bool.{false≢true}
use scaffold_go.Go.{Error, Logger}
use scaffold_go.System.{Sys}
use scaffold_go.Platform.{Platform}
use scaffold_go.Bindings.Store.{get_elem?-last}
use scaffold_go.Lifecycle.Open.{serve_returned}
use scaffold_go.Lifecycle.Loops.{
  LoopStage, serving, returned, observed, finished, Loop, Daemons, is_closed, started, with_loop,
  Step, starts, flags, shuts, returns, observes, logs, Reach, here, next,
}
use scaffold_go.Lifecycle.Loops.Errors.{
  errors, errors_one_more, unset_seen, unsettled, unsettled-set,
}

module _ {World : Type 0} (p : Platform World) (log : Logger) where
  -- A server that is shut down, or has returned because of it, has the flag before it.
  abbrev IsOrderedStage : Bool → LoopStage → Type 0
  IsOrderedStage flag (returned result) = is_closed p result ≡ true → flag ≡ true
  IsOrderedStage flag (observed seen result) =
      is_closed p result ≡ true → (seen ≡ true) × (flag ≡ true)
  IsOrderedStage flag serving = Unit
  IsOrderedStage flag finished = Unit

  record IsOrdered (flag : Bool) (l : Loop) : Type 0 where
    shut_flagged : l.shut ≡ true → flag ≡ true
    closed_flagged : l.custom ≡ false → IsOrderedStage flag l.stage

  abbrev AreOrdered : Daemons World → Type 0
  AreOrdered s = (i : ℕ) (l : Loop) → get_elem? s.loops i ≡ some l → IsOrdered s.sys.shutdown_flag l

  IsOrdered-flagged :
      (flag flag' : Bool) (l : Loop) → flag' ≡ true → IsOrdered flag l → IsOrdered flag' l
  IsOrdered-flagged flag flag' l set_now one = record {
    shut_flagged = λ _. set_now;
    closed_flagged = λ server. stage l.stage (one.closed_flagged server);
  }
    where
      stage : (st : LoopStage) → IsOrderedStage flag st → IsOrderedStage flag' st
      stage serving h = tt
      stage (returned result) h = λ _. set_now
      stage (observed seen result) h = λ closed. ((h closed).0, set_now)
      stage finished h = tt

  serve_returned-flag :
      (seen : Bool) (name : String) (result : Option Error) (s : Sys World)
      → (serve_returned p log seen name result s).shutdown_flag ≡ s.shutdown_flag
  unfolding serve_returned
  serve_returned-flag true name none s = refl
  serve_returned-flag false name none s = refl
  serve_returned-flag false name (some failed) s = refl
  serve_returned-flag true name (some failed) s = elim (Bool-cases (p.is_server_closed failed)) [
    | inl closed ↦ rw closed
    | inr other ↦ rw other
  ]

  -- Nothing is logged of a server that was closed, once the flag was seen.
  serve_returned-closed :
      (seen : Bool) (name : String) (failed : Error) (s : Sys World)
      → seen ≡ true
      → p.is_server_closed failed ≡ true
      → serve_returned p log seen name (some failed) s ≡ s
  unfolding serve_returned
  serve_returned-closed seen name failed s e closed = simp (e, closed)

  serve_returned-errors :
      (seen : Bool) (name : String) (result : Option Error) (s : Sys World)
      → length (errors (serve_returned p log seen name result s).trace)
        ≡ length (errors s.trace) + unset_seen (observed seen result)
  unfolding serve_returned
  serve_returned-errors true name none s = omega arith
  serve_returned-errors true name (some failed) s = elim (Bool-cases (p.is_server_closed failed)) [
    | inl closed ↦ rw closed (omega arith)
    | inr other ↦ rw other (errors_one_more s.trace _)
  ]
  serve_returned-errors false name none s = errors_one_more s.trace _
  serve_returned-errors false name (some failed) s = errors_one_more s.trace _

  replaced-AreOrdered :
      (s t : Daemons World) (i : ℕ) (l : Loop)
      → t.loops ≡ set s.loops i l
      → t.sys.shutdown_flag ≡ s.sys.shutdown_flag
      → IsOrdered s.sys.shutdown_flag l
      → AreOrdered s
      → AreOrdered t
  replaced-AreOrdered s t i l at_loops same_flag one all j m e =
      subst (λ b. IsOrdered b m) (sym same_flag)
        (elim (get_elem?-set s.loops i j m l (subst (λ ls. get_elem? ls j ≡ some m) at_loops e)) [
          | inl (_, same) ↦ subst (IsOrdered s.sys.shutdown_flag) same one
          | inr old ↦ all j m old
        ])

  Step-AreOrdered : {s t : Daemons World} → Step p log s t → AreOrdered s → AreOrdered t
  Step-AreOrdered (starts s name custom down) all = λ i l e.
      elim (get_elem?-last s.loops (started name custom) l i e) [
        | inl old ↦ all i l old
        | inr (_, same) ↦
            subst (IsOrdered s.sys.shutdown_flag) same
              (record { shut_flagged = λ h. absurd (false≢true h); closed_flagged = λ _. tt })
      ]
  Step-AreOrdered (flags s) all =
      λ i l e. IsOrdered-flagged s.sys.shutdown_flag true l refl (all i l e)
  Step-AreOrdered (shuts s i l at_i server flagged) all =
      replaced-AreOrdered s (with_loop p log i (record l { shut = true }) s) i
        (record l { shut = true }) refl refl
        (record { shut_flagged = λ _. flagged; closed_flagged = (all i l at_i).closed_flagged }) all
  Step-AreOrdered (returns s i l result at_i runs documented) all =
      replaced-AreOrdered s (with_loop p log i (record l { stage = returned result }) s) i
        (record l { stage = returned result }) refl refl
        (record {
          shut_flagged = (all i l at_i).shut_flagged;
          closed_flagged = λ server closed. (all i l at_i).shut_flagged (documented server closed);
        })
        all
  Step-AreOrdered (observes s i l result at_i back) all =
      replaced-AreOrdered s
        (with_loop p log i (record l { stage = observed s.sys.shutdown_flag result }) s) i
        (record l { stage = observed s.sys.shutdown_flag result }) refl refl
        (record {
          shut_flagged = (all i l at_i).shut_flagged;
          closed_flagged = λ server closed.
              let flagged =
                subst (IsOrderedStage s.sys.shutdown_flag) back
                  ((all i l at_i).closed_flagged server) closed in
              (flagged, flagged);
        })
        all
  Step-AreOrdered (logs s i l seen result at_i back) all =
      replaced-AreOrdered s
        (with_loop p log i (record l { stage = finished })
          (record s { sys = serve_returned p log seen l.name result s.sys }))
        i (record l { stage = finished }) refl (serve_returned-flag seen l.name result s.sys)
        (record { shut_flagged = (all i l at_i).shut_flagged; closed_flagged = λ _. tt }) all

  Reach-AreOrdered : {s t : Daemons World} → AreOrdered s → Reach p log s t → AreOrdered t
  Reach-AreOrdered all here = all
  Reach-AreOrdered all (next r st) = Step-AreOrdered st (Reach-AreOrdered all r)

  -- The errors in the log, and those that loops have decided on.
  abbrev pub reported : Daemons World → ℕ
  reported s = length (errors s.sys.trace) + unsettled s.loops

  -- What the serve loops keep to once the flag is set.
  record IsCalm (s t : Daemons World) : Type 0 where
    flagged : t.sys.shutdown_flag ≡ true
    no_errors : reported t ≡ reported s

  Step-IsCalm : {s t u : Daemons World} → Step p log t u → IsCalm s t → IsCalm s u
  Step-IsCalm (starts t name custom down) calm = absurd (false≢true (sym down ∙ calm.flagged))
  Step-IsCalm (flags t) calm = record { flagged = refl; no_errors = calm.no_errors }
  Step-IsCalm (shuts t i l at_i server flagged) calm = record {
    flagged = calm.flagged;
    no_errors =
        omega (arith, unsettled-set t.loops i l (record l { shut = true }) at_i, calm.no_errors);
  }
  Step-IsCalm (returns t i l result at_i runs documented) calm = record {
    flagged = calm.flagged;
    no_errors = omega (
      arith,
      unsettled-set t.loops i l (record l { stage = returned result }) at_i,
      ap unset_seen runs,
      calm.no_errors,
    );
  }
  Step-IsCalm (observes t i l result at_i back) calm = record {
    flagged = calm.flagged;
    no_errors = omega (
      arith,
      unsettled-set t.loops i l (record l { stage = observed t.sys.shutdown_flag result }) at_i,
      ap unset_seen back,
      ap (λ f. unset_seen (observed f result)) calm.flagged,
      calm.no_errors,
    );
  }
  Step-IsCalm (logs t i l seen result at_i back) calm = record {
    flagged = serve_returned-flag seen l.name result t.sys ∙ calm.flagged;
    no_errors = omega (
      arith,
      unsettled-set t.loops i l (record l { stage = finished }) at_i,
      ap unset_seen back,
      serve_returned-errors seen l.name result t.sys,
      calm.no_errors,
    );
  }

  Reach-IsCalm : {s t : Daemons World} → s.sys.shutdown_flag ≡ true → Reach p log s t → IsCalm s t
  Reach-IsCalm flagged here = record { flagged = flagged; no_errors = refl }
  Reach-IsCalm flagged (next r st) = Step-IsCalm st (Reach-IsCalm flagged r)

  -- However the serve loops interleave with the opening, the setting of the flag and the shutdown of
  -- the servers: when the serve function of an HTTP binding has returned ErrServerClosed and its loop
  -- has read the shutdown flag, the loop logs nothing of that, and the flag is set; from then on the
  -- errors in the log and those of the loops that read the flag unset before, and have not logged yet,
  -- are as many as they were: no loop decides to log an error any more, whatever it returns. net/http
  -- returns ErrServerClosed only of a server that is being shut down.
  pub Reach-quiet :
      (first : Sys World) (s t : Daemons World) (i : ℕ) (l : Loop) (seen : Bool) (failed : Error)
      → Reach p log (record { sys = first; loops = [] }) s
      → get_elem? s.loops i ≡ some l
      → l.custom ≡ false
      → l.stage ≡ observed seen (some failed)
      → p.is_server_closed failed ≡ true
      → Reach p log s t
      → (serve_returned p log seen l.name (some failed) s.sys ≡ s.sys)
        × (t.sys.shutdown_flag ≡ true)
        × (reported t ≡ reported s)
  Reach-quiet first s t i l seen failed reached at_i server back closed later =
      let ordered = Reach-AreOrdered (λ j m e. cc) reached i l at_i in
      let flagged =
        subst (IsOrderedStage s.sys.shutdown_flag) back (ordered.closed_flagged server) closed in
      let calm = Reach-IsCalm flagged.1 later in
      (
        serve_returned-closed seen l.name failed s.sys flagged.0 closed,
        calm.flagged,
        calm.no_errors,
      )
