-- ===== src/Lifecycle/Loops.antt =====
-- The serve loops of the bindings as they run beside the lifecycle: runBindingServeLoop of scaffold.go
-- is a goroutine of its own for each binding, which reads the shutdown flag after its serve function
-- has returned, and logs after that.
pub mod Errors
pub mod Quiet
use scaffold_go.Base.{
  ℕ, String, Bool, true, false, ◌≡◌, Option, none, some, List, [], ◌∷◌, ◌++◌, get_elem?, set,
}
use scaffold_go.Go.{Error, Logger}
use scaffold_go.System.{Sys}
use scaffold_go.Platform.{Platform}
use scaffold_go.Lifecycle.Instance.{set_flag}
use scaffold_go.Lifecycle.Open.{serve_returned}

-- The serve function runs; it has returned nil or an error; `flag.Load()` has been seen after that;
-- the loop has ended.
pub data LoopStage : Type 0 where
  serving : LoopStage
  returned : Option Error → LoopStage
  observed : Bool → Option Error → LoopStage
  finished : LoopStage

-- `custom` is whether the binding has a serve function of its own, and `shut` whether `srv.Shutdown`
-- has been called for it.
pub record Loop : Type 0 where
  pub name : String
  pub custom : Bool
  pub stage : LoopStage
  pub shut : Bool

pub record Daemons (World : Type 0) : Type 0 where
  pub sys : Sys World
  pub loops : List Loop

-- `errors.Is(err, http.ErrServerClosed)` of a result.
abbrev pub is_closed : {World : Type 0} → Platform World → Option Error → Bool
is_closed p none = false
is_closed p (some e) = p.is_server_closed e

abbrev pub started : String → Bool → Loop
started name custom = record { name = name; custom = custom; stage = serving; shut = false }

module _ {World : Type 0} (p : Platform World) (log : Logger) where
  abbrev pub with_loop : ℕ → Loop → Daemons World → Daemons World
  with_loop i l s = record s { loops = set s.loops i l }

  -- openBindings starts loops before the flag is set, and runShutdown stops the servers of bindings
  -- without a serve function after it is set. net/http's own serve functions return ErrServerClosed
  -- only once the server is being shut down; one of the service may return it at any time.
  pub data Step : Daemons World → Daemons World → Type 0 where
    starts :
        (s : Daemons World) (name : String) (custom : Bool)
        → s.sys.shutdown_flag ≡ false
        → Step s (record s { loops = s.loops ++ started name custom ∷ [] })
    flags : (s : Daemons World) → Step s (record s { sys = set_flag s.sys })
    shuts :
        (s : Daemons World) (i : ℕ) (l : Loop)
        → get_elem? s.loops i ≡ some l
        → l.custom ≡ false
        → s.sys.shutdown_flag ≡ true
        → Step s (with_loop i (record l { shut = true }) s)
    returns :
        (s : Daemons World) (i : ℕ) (l : Loop) (result : Option Error)
        → get_elem? s.loops i ≡ some l
        → l.stage ≡ serving
        → (l.custom ≡ false → is_closed p result ≡ true → l.shut ≡ true)
        → Step s (with_loop i (record l { stage = returned result }) s)
    observes :
        (s : Daemons World) (i : ℕ) (l : Loop) (result : Option Error)
        → get_elem? s.loops i ≡ some l
        → l.stage ≡ returned result
        → Step s (with_loop i (record l { stage = observed s.sys.shutdown_flag result }) s)
    logs :
        (s : Daemons World) (i : ℕ) (l : Loop) (seen : Bool) (result : Option Error)
        → get_elem? s.loops i ≡ some l
        → l.stage ≡ observed seen result
        → Step s (
            with_loop i
              (record l { stage = finished })
              (record s { sys = serve_returned p log seen l.name result s.sys }))

  pub data Reach (s : Daemons World) : Daemons World → Type 0 where
    here : Reach s s
    next : {t u : Daemons World} → Reach s t → Step t u → Reach s u
