-- ===== src/Lifecycle/Instance.antt =====
-- Instance and its Stop and Addr methods, of scaffold.go.
pub mod Once
use scaffold_go.Base.{
  ℕ, String, Bool, true, false, Option, none, some, List, [], ◌∷◌, get_elem?, if◌then◌else◌,
}
use scaffold_go.Go.{Outcome, returns, panics, sprintf, str, Error, Logger, Level, text_attr}
use scaffold_go.Context.{Context, enrich_ctx}
use scaffold_go.Net.{Addr}
use scaffold_go.System.{Sys, Daemon, before_shutdown_phase, log_record}
use scaffold_go.Platform.{Platform}
use scaffold_go.Bindings.{get}
use scaffold_go.Lifecycle.Options.{DaemonConfig}
use scaffold_go.Lifecycle.Shutdown.{run_shutdown}

-- `stopped` is what the sync.Once remembers.
pub record Instance : Type 0 where
  pub sc : DaemonConfig
  pub fw : Logger
  pub bindings_order : List ℕ
  pub stopped : Bool

module _ {World : Type 0} where
  abbrev pub set_flag : Sys World → Sys World
  set_flag s = record s { shutdown_flag = true }

  -- Instance.Addr: nil for a binding that has not been opened.
  unfoldable pub addr : String → Sys World → Outcome (Option Addr)
  unfolding get
  addr name s = elim (get name s.bindings) [
    | none ↦ panics (sprintf "scaffold: Instance.Addr: unknown binding %q" (str name ∷ []))
    | some r ↦ elim (get_elem? s.bindings.heap r) [ none ↦ returns none | some b ↦ returns b.addr ]
  ]

  abbrev pub stopped_with :
      Instance
      → Option (Sys World × Option (List Error))
      → Option (Instance × Sys World × Option (List Error))
  stopped_with i none = none
  stopped_with i (some (t, errs)) =
      some (record i { stopped = true }, log_record i.fw Level.info "daemon stopped" [] t, errs)

  -- The function that Stop runs once.
  abbrev stop_once :
      Daemon World
      → Platform World
      → ℕ
      → Context
      → Instance
      → Sys World
      → Option (Instance × Sys World × Option (List Error))
  stop_once d p fuel ctx i s =
      let enriched = enrich_ctx ctx i.sc.config i.sc.secrets i.sc.log in
      let t =
        log_record i.fw Level.info "shutdown initiated" (text_attr "reason" "instance_stop" ∷ [])
          (set_flag s) in
      stopped_with i
        (run_shutdown d p enriched i.fw fuel (some before_shutdown_phase) i.bindings_order t)

  -- Instance.Stop; `none` means that the fuel for the callbacks ran out.
  unfoldable pub stop :
      Daemon World
      → Platform World
      → ℕ
      → Context
      → Instance
      → Sys World
      → Option (Instance × Sys World × Option (List Error))
  stop d p fuel ctx i s = if i.stopped then some (i, s, none) else stop_once d p fuel ctx i s
