-- ===== src/Main/Exit.antt =====
-- What the exit code of the process tells.
use dp_topic_api.Prelude.{
  ℕ, String, ◌≡◌, ◌∙◌, refl, ap, Option, none, some, Option-cases, List, [], ◌∷◌, inl, inr, arith,
  true,
}
use dp_topic_api.Errors.{GoError}
use dp_topic_api.Config.{Config}
use dp_topic_api.Service.{ServiceList}
use dp_topic_api.Service.Outside.{Outside}
use dp_topic_api.Service.Start.Outcomes.{
  without_mongo, without_health_check, without_checks, serving, run-Starts, with_flags,
}
use dp_topic_api.Service.Close.{
  Fault, Call, health_stopped, server_shutdown, mongo_closed, Closing, Parent, background, Run,
  begin, then_step,
}
use dp_topic_api.Service.Close.Calls.{Closes, gracefully, all_calls}
use dp_topic_api.Service.Close.Order.{close-Closes}
use dp_topic_api.Service.Close.Progress.{Unaided, stay, aside, close-Ends}
use dp_topic_api.Main.{
  Exits, without_config, without_service, closed, exit_code, configured, started,
}

abbrev graceful_calls : List Call
graceful_calls = health_stopped ∷ server_shutdown none ∷ mongo_closed none ∷ []

graceful-Closes :
    (list : ServiceList) (calls : List Call) (r : Option Fault)
    → list ≡ with_flags true true
    → exit_code r ≡ 0
    → Closes list calls r
    → calls ≡ graceful_calls
graceful-Closes list calls none h k (gracefully e) = e ∙ ap (λ l. all_calls l none none) h
graceful-Closes list calls (some fault) h k c = ground arith

Run-unaided :
    {list : ServiceList} {parent : Parent} {n : ℕ} {c z : Closing}
    → Run list parent n c
    → Unaided list parent c z
    → (m : ℕ) × Run list parent m z
Run-unaided run stay = (_, run)
Run-unaided run (aside s h u) = Run-unaided (then_step run s) u

module _ {S C : Type 0} (process : Config → Config × GoError) (outside : Outside S C)
    (build_time git_commit version : String) where
  started_flags :
      (started process outside build_time git_commit version).error ≡ none
      → (started process outside build_time git_commit version).service.service_list
        ≡ with_flags true true
  started_flags h =
      elim (run-Starts outside (configured process outside build_time git_commit version).config
        build_time git_commit version) [
          | without_mongo e o r f i ↦ ground arith
          | without_health_check e o v r f i ↦ ground arith
          | without_checks o v u r f i ↦ ground arith
          | serving o v u r f s a events ↦ f
        ]

  Exits-gracefully :
      {code : ℕ} {calls : List Call}
      → Exits process outside build_time git_commit version code calls
      → code ≡ 0
      → calls ≡ graceful_calls
  Exits-gracefully (without_config e h) k = ground arith
  Exits-gracefully (without_service e h l) k = ground arith
  Exits-gracefully (closed n c r h l run w) k =
      graceful-Closes _ c.calls r (started_flags l) k (close-Closes _ run w)

  -- The process exits with 0 only after it has stopped the health check, shut the server down and
  -- closed the database, in this order, each once and with no error.
  pub main-exit_code :
      {calls : List Call}
      → Exits process outside build_time git_commit version 0 calls
      → calls ≡ health_stopped ∷ server_shutdown none ∷ mongo_closed none ∷ []
  main-exit_code e = Exits-gracefully e refl

  Exits-closed :
      (configured process outside build_time git_commit version).error ≡ none
      → (started process outside build_time git_commit version).error ≡ none
      → (code : ℕ) × (calls : List Call) × Exits process outside build_time git_commit version code
          calls
  Exits-closed h k =
      let list = (started process outside build_time git_commit version).service.service_list in
      let (bound, (z, r, unaided, w)) = close-Ends list background begin in
      let (m, run) = Run-unaided begin unaided in (_, _, closed m z r h k run w)

  -- Whatever the environment and the services do, the process can come to an exit.
  pub main-Exits :
      (code : ℕ) × (calls : List Call) × Exits process outside build_time git_commit version code
        calls
  main-Exits =
      elim (Option-cases (configured process outside build_time git_commit version).error) [
        | inr (e, h) ↦ (_, _, without_config e h)
        | inl h ↦
            elim (Option-cases (started process outside build_time git_commit version).error) [
              | inr (e, k) ↦ (_, _, without_service e h k)
              | inl k ↦ Exits-closed h k
            ]
      ]
