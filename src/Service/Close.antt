-- ===== src/Service/Close.antt =====
-- `Service.Close` of service/service.go: the goroutine that stops the services, and the caller that
-- waits for it. They share the context, which ends once, and the flag `hasShutdownError`; the timer and
-- the context that the caller passed can end the context too. What the calls return is arbitrary.
pub mod Calls
pub mod Order
pub mod Progress
use dp_topic_api.Prelude.{
  ℕ, suc, Bool, true, false, ◌≡◌, ◌≢◌, ◌||◌, Option, none, some, List, [], ◌∷◌, ◌++◌, if◌then◌else◌,
}
use dp_topic_api.Errors.{GoError}
use dp_topic_api.Service.{ServiceList}

-- Where the goroutine stands.
pub data Closer : Type 0 where
  stopping_health shutting_server closing_mongo cancelling ended : Closer

-- The context with the timeout: what its `Err()` is.
pub data Context : Type 0 where
  live cancelled expired : Context

pub data Fault : Type 0 where
  timed_out ungraceful : Fault

-- Where the caller stands.
pub data Waiter : Type 0 where
  waiting woken : Waiter
  returned : Option Fault → Waiter

-- The calls that the goroutine makes, with what they returned.
pub data Call : Type 0 where
  health_stopped : Call
  server_shutdown mongo_closed : GoError → Call

pub record Closing : Type 0 where
  pub closer : Closer
  pub context : Context
  pub waiter : Waiter
  pub has_shutdown_error : Bool
  -- the calls made so far
  pub calls : List Call

-- The context that the caller passed: one that nothing cancels, as main.go does, or any other.
pub data Parent : Type 0 where
  background cancellable : Parent

abbrev pub start : Closing
start = record {
  closer = stopping_health;
  context = live;
  waiter = waiting;
  has_shutdown_error = false;
  calls = [];
}

abbrev pub failed : GoError → Bool
failed none = false
failed (some e) = true

-- `cancel`: a context that has ended keeps its error.
abbrev pub cancel : Context → Context
cancel live = cancelled
cancel expired = expired
cancel cancelled = cancelled

-- One statement of the goroutine; `e` is what its call returns.
unfoldable pub advance : ServiceList → GoError → Closer → Closing → Closing
advance list e stopping_health c = record c {
  closer = shutting_server;
  calls = if list.health_check then c.calls ++ health_stopped ∷ [] else c.calls;
}
advance list e shutting_server c = record c {
  closer = closing_mongo;
  calls = c.calls ++ server_shutdown e ∷ [];
  has_shutdown_error = c.has_shutdown_error || failed e;
}
advance list e closing_mongo c = record c {
  closer = cancelling;
  calls = if list.mongo_db then c.calls ++ mongo_closed e ∷ [] else c.calls;
  has_shutdown_error =
      if list.mongo_db then c.has_shutdown_error || failed e else c.has_shutdown_error;
}
advance list e cancelling c = record c { closer = ended; context = cancel c.context }
advance list e ended c = c

-- What the caller returns, by the context's error and the flag.
unfoldable pub outcome : Context → Bool → Option Fault
outcome expired has_shutdown_error = some timed_out
outcome _ true = some ungraceful
outcome _ false = none

-- The interleavings. `ctx.Err()` never changes once the context has ended, so that the caller reads it
-- and the flag in one step.
pub data Step (list : ServiceList) (parent : Parent) : Closing → Closing → Type 0 where
  closer_moves :
      {c : Closing} (e : GoError)
      → c.closer ≢ ended
      → Step list parent c (advance list e c.closer c)
  timer_fires :
      {c : Closing} → c.context ≡ live → Step list parent c (record c { context = expired })
  parent_ends :
      {c : Closing}
      → parent ≡ cancellable
      → c.context ≡ live
      → Step list parent c (record c { context = cancelled })
  waiter_wakes :
      {c : Closing}
      → c.waiter ≡ waiting
      → c.context ≢ live
      → Step list parent c (record c { waiter = woken })
  waiter_returns :
      {c : Closing}
      → c.waiter ≡ woken
      → Step list parent c (record c { waiter = returned (outcome c.context c.has_shutdown_error) })

-- A run of so many steps from the call of `Close`.
pub data Run (list : ServiceList) (parent : Parent) : ℕ → Closing → Type 0 where
  begin : Run list parent 0 start
  then_step :
      {n : ℕ} {c d : Closing}
      → Run list parent n c
      → Step list parent c d
      → Run list parent (suc n) d
