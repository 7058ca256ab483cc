-- ===== src/Api/Concurrent/Ends.antt =====
-- How many calls a request makes, whatever the requests beside it do.
use dp_topic_api.Prelude.{
  ℕ, zero, suc, ◌+◌, ◌-◌, ◌≤◌, ◌≡◌, refl, ap, some-injective, Option, none, some, List, [], ◌∷◌,
  ◌++◌, length, arith,
}
use dp_topic_api.Http.{Request}
use dp_topic_api.Models.Topic.{Time}
use dp_topic_api.Store.{Storer}
use dp_topic_api.Api.Env.{Env}
use dp_topic_api.Api.Concurrent.{
  Job, setting, dating, checking, updating, reading, writing, replied, crashed, Put,
  put_topic_state, put_topic_release_date, put_topic, first_job, call_store, call_store_at, World,
  Turn, arrives, calls, happen, proceed,
}

unfoldable pub get_elem? : {A : Type 0} → List A → ℕ → Option A
get_elem? [] n = none
get_elem? (x ∷ xs) zero = some x
get_elem? (x ∷ xs) (suc n) = get_elem? xs n

-- The calls of the store that a job has left at the most.
abbrev pub calls_left : Job → ℕ
calls_left (setting id state) = 1
calls_left (dating id date) = 1
calls_left (checking id u) = 4
calls_left (updating id u) = 3
calls_left (reading id) = 2
calls_left (writing id t) = 1
calls_left (replied e) = 0
calls_left crashed = 0

abbrev pub hits : ℕ → ℕ → ℕ
hits zero zero = 1
hits zero (suc n) = 0
hits (suc m) zero = 0
hits (suc m) (suc n) = hits m n

-- How often the turn of the job at one place comes in a run.
unfoldable pub calls_of : ℕ → List Turn → ℕ
calls_of n [] = 0
calls_of n (arrives put req ∷ events) = calls_of n events
calls_of n (calls m now ∷ events) = hits m n + calls_of n events

abbrev pub IsEnded : Job → Type 0
IsEnded (replied e) = Unit
IsEnded crashed = Unit
IsEnded _ = ⊥

-- The request at the place `n` is past its calls of the store.
abbrev pub EndedAt : ℕ → List Job → Type 0
EndedAt n jobs = (job : Job) × (get_elem? jobs n ≡ some job) × IsEnded job

pub none_left : (job : Job) → calls_left job ≤ 0 → IsEnded job
none_left (replied e) h = tt
none_left crashed h = tt
none_left (setting id state) h = omega arith
none_left (dating id date) h = omega arith
none_left (checking id u) h = omega arith
none_left (updating id u) h = omega arith
none_left (reading id) h = omega arith
none_left (writing id t) h = omega arith

module _ {S : Type 0} (env : Env) (storer : Storer S) where
  call_store-calls_left :
      (job : Job) (s : S) → calls_left (call_store env storer job s).0 ≤ calls_left job - 1
  unfolding call_store
  call_store-calls_left (setting id state) s = omega arith
  call_store-calls_left (dating id date) s = omega arith
  call_store-calls_left (checking id u) s = ground arith
  call_store-calls_left (updating id u) s = ground arith
  call_store-calls_left (reading id) s = ground arith
  call_store-calls_left (writing id t) s = ground arith
  call_store-calls_left (replied e) s = omega arith
  call_store-calls_left crashed s = omega arith

  -- The job at the place `n` after a call by the job at the place `m`.
  call_store_at-calls_left :
      (jobs : List Job) (m n : ℕ) (s : S) (job : Job)
      → get_elem? jobs n ≡ some job
      → (job' : Job) × (get_elem? (call_store_at env storer jobs m s).0 n ≡ some job')
        × (calls_left job' ≤ calls_left job - hits m n)
  unfolding call_store_at get_elem?
  call_store_at-calls_left [] m n s job h = cc
  call_store_at-calls_left (j ∷ jobs) zero zero s job h =
      let same : calls_left j ≡ calls_left job = ap calls_left (some-injective _ _ h) in
      ((call_store env storer j s).0, refl, omega (arith, call_store-calls_left j s))
  call_store_at-calls_left (j ∷ jobs) zero (suc n) s job h = (job, h, omega arith)
  call_store_at-calls_left (j ∷ jobs) (suc m) zero s job h = (job, h, omega arith)
  call_store_at-calls_left (j ∷ jobs) (suc m) (suc n) s job h =
      call_store_at-calls_left jobs m n s job h

get_elem?-append :
    {A : Type 0} (xs ys : List A) (n : ℕ) (x : A)
    → get_elem? xs n ≡ some x
    → get_elem? (xs ++ ys) n ≡ some x
unfolding get_elem?
get_elem?-append [] ys n x h = cc
get_elem?-append (y ∷ xs) ys zero x h = h
get_elem?-append (y ∷ xs) ys (suc n) x h = get_elem?-append xs ys n x h

get_elem?-last : {A : Type 0} (xs : List A) (x : A) → get_elem? (xs ++ x ∷ []) (length xs) ≡ some x
unfolding get_elem?
get_elem?-last [] x = refl
get_elem?-last (y ∷ xs) x = get_elem?-last xs x

first_job-calls_left :
    (env : Env) (put : Put) (req : Request) → calls_left (first_job env put req) ≤ 4
unfolding first_job
first_job-calls_left env put_topic_state req = ground arith
first_job-calls_left env put_topic_release_date req = ground arith
first_job-calls_left env put_topic req = ground arith

module _ {S : Type 0} (env : Env) (storer_at : Time → Storer S) where
  pub proceed-calls_left :
      (events : List Turn) (w : World S) (n : ℕ) (job : Job)
      → get_elem? w.jobs n ≡ some job
      → (job' : Job) × (get_elem? (proceed env storer_at events w).jobs n ≡ some job')
        × (calls_left job' ≤ calls_left job - calls_of n events)
  unfolding proceed happen calls_of
  proceed-calls_left [] w n job h = (job, h, omega arith)
  proceed-calls_left (arrives put req ∷ events) w n job h =
      proceed-calls_left events _ n job (get_elem?-append w.jobs _ n job h)
  proceed-calls_left (calls m now ∷ events) w n job h =
      let (job', at, fewer) =
        call_store_at-calls_left env (storer_at now) w.jobs m n w.store job h in
      let (job'', at'', fewer'') = proceed-calls_left events _ n job' at in
      (job'', at'', omega (arith, fewer, fewer''))

  -- Whatever requests are being served and arrive later, and in whatever order they make their calls
  -- of the store: a request that arrives is past its calls, with a reply or a panic, once its turn has
  -- come four times.
  pub arrives-EndedAt :
      (put : Put) (req : Request) (events : List Turn) (w : World S)
      → 4 ≤ calls_of (length w.jobs) events
      → EndedAt (length w.jobs) (proceed env storer_at (arrives put req ∷ events) w).jobs
  unfolding proceed happen
  arrives-EndedAt put req events w enough =
      let (job, at, fewer) =
        proceed-calls_left events _ (length w.jobs) (first_job env put req)
          (get_elem?-last w.jobs (first_job env put req)) in
      (job, at, none_left job (omega (arith, fewer, enough, first_job-calls_left env put req)))
