-- ===== src/Main.antt =====
-- `main` and `run` of main.go: the process reads its configuration, starts the service, waits for a
-- signal or a fatal error of the server, and closes the service, whichever of them came.
pub mod Exit
use dp_topic_api.Prelude.{ℕ, String, ◌≡◌, Option, none, some, List, []}
use dp_topic_api.Errors.{Error, GoError}
use dp_topic_api.Config.{Config, Gotten, get}
use dp_topic_api.Service.Outside.{Outside}
use dp_topic_api.Service.Start.{RunError, Ran, new_service_list, new, run}
use dp_topic_api.Service.Close.{Fault, Call, Closing, background, returned, Run}

-- The process's exit code, by what `run` returns after `Close`.
abbrev pub exit_code : Option Fault → ℕ
exit_code none = 0
exit_code (some fault) = 1

module _ {S C : Type 0} (process : Config → Config × GoError) (outside : Outside S C)
    (build_time git_commit version : String) where
  abbrev pub configured : Gotten
  configured = get process none

  abbrev pub started : Ran S
  started = run outside (new configured.config new_service_list) build_time git_commit version

  -- How the process ends: its exit code, and the calls with which `Close` stopped the services. It
  -- passes `Close` a context that nothing cancels.
  pub data Exits : ℕ → List Call → Type 0 where
    without_config : (e : Error) → configured.error ≡ some e → Exits 1 []
    without_service : (e : RunError) → configured.error ≡ none → started.error ≡ some e → Exits 1 []
    closed :
        (n : ℕ) (c : Closing) (r : Option Fault)
        → configured.error ≡ none
        → started.error ≡ none
        → Run started.service.service_list background n c
        → c.waiter ≡ returned r
        → Exits (exit_code r) c.calls
