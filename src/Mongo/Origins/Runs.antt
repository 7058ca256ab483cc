-- ===== src/Mongo/Origins/Runs.antt =====
-- Requests to change topics that are served at once, and where the documents come from that the
-- website shows: api/topic_private.go over mongo/topic_store.go.
use dp_topic_api.Prelude.{
  ℕ, zero, suc, String, ◌≡◌, refl, Option, some, List, [], ◌∷◌, Memᴰ, All, All-append,
}
use dp_topic_api.Models.Topic.{Time, TopicResponse}
use dp_topic_api.Store.{Storer}
use dp_topic_api.Api.Env.{Env}
use dp_topic_api.Api.Concurrent.{
  Job, call_store_at, World, idle, Turn, arrives, calls, happen, proceed, stores,
}
use dp_topic_api.Mongo.{Driver, mongo_storer}
use dp_topic_api.Mongo.Origins.Calls.{call_store-HasOrigins}
use dp_topic_api.Mongo.Origins.{
  AsksToPublish, WriteLaws, Origin, HasOrigins, IsDue, first_job-IsDue,
}

module _ {S : Type 0} (stored : S → String → Option TopicResponse) (start : S) (Past : S → Type 0)
    (Asked : String → Type 0) (Ticked : Time → Type 0) where
  module _ (driver : Driver S) (laws : WriteLaws stored driver) (env : Env) where
    abbrev store_at : Time → Storer S
    store_at now = mongo_storer driver now

    call_store_at-HasOrigins :
        (now : Time) (jobs : List Job) (n : ℕ) (s : S)
        → Ticked now
        → Past s
        → All (IsDue stored start Past Asked Ticked) jobs
        → HasOrigins stored start Past Asked Ticked s
        → All
            (IsDue stored start Past Asked Ticked)
            (call_store_at env (mongo_storer driver now) jobs n s).0
          × HasOrigins stored start Past Asked Ticked
              (call_store_at env (mongo_storer driver now) jobs n s).1
    unfolding call_store_at
    call_store_at-HasOrigins now [] n s ticked past due origins = (tt, origins)
    call_store_at-HasOrigins now (job ∷ jobs) zero s ticked past (r, due) origins =
        let (r', origins') =
          call_store-HasOrigins stored start Past Asked Ticked driver now laws s origins ticked env
            job past r in
        ((r', due), origins')
    call_store_at-HasOrigins now (job ∷ jobs) (suc n) s ticked past (r, due) origins =
        let (due', origins') = call_store_at-HasOrigins now jobs n s ticked past due origins in
        ((r, due'), origins')

    proceed-HasOrigins :
        (events : List Turn) (w : World S)
        → ((s : S) → Memᴰ s (stores env store_at events w) → Past s)
        → ((k : String) (event : Turn) → Memᴰ event events → AsksToPublish env k event → Asked k)
        → ((n : ℕ) (now : Time) → Memᴰ (calls n now) events → Ticked now)
        → All (IsDue stored start Past Asked Ticked) w.jobs
        → HasOrigins stored start Past Asked Ticked w.store
        → HasOrigins stored start Past Asked Ticked (proceed env store_at events w).store
    unfolding proceed happen stores
    proceed-HasOrigins [] w within asking ticking due origins = origins
    proceed-HasOrigins (arrives put req ∷ events) w within asking ticking due origins =
        proceed-HasOrigins events _ (λ s m. within s (Memᴰ.tail m))
          (λ k e m. asking k e (Memᴰ.tail m)) (λ n t m. ticking n t (Memᴰ.tail m))
          (All-append (IsDue stored start Past Asked Ticked) w.jobs _ due (
            first_job-IsDue stored start Past Asked Ticked env put req
                (λ k. asking k _ (Memᴰ.head refl)),
            tt,
          ))
          origins
    proceed-HasOrigins (calls n now ∷ events) w within asking ticking due origins =
        let (due', origins') =
          call_store_at-HasOrigins now w.jobs n w.store (ticking n now (Memᴰ.head refl))
            (within w.store (Memᴰ.head refl)) due origins in
        proceed-HasOrigins events _ (λ s m. within s (Memᴰ.tail m))
          (λ k e m. asking k e (Memᴰ.tail m)) (λ n t m. ticking n t (Memᴰ.tail m)) due' origins'

-- Whatever requests to change topics arrive from a moment on when none is being served, and in
-- whatever order the calls of the store that they make follow each other: where the driver keeps to
-- its laws, each topic's current document in the database is the one that it had at that moment; or
-- one of the requests asked to publish that topic, and the document is the next document that the
-- topic had in one of the databases that the run went through, in the state published with the time
-- of one of the calls, each time in milliseconds.
pub proceed-Origin :
    {S : Type 0} (stored : S → String → Option TopicResponse) (driver : Driver S)
    → WriteLaws stored driver
    → (env : Env) (events : List Turn) (s : S) (k : String) (t : TopicResponse)
    → stored (proceed env (λ now. mongo_storer driver now) events (idle s)).store k ≡ some t
    → Origin stored s
        (λ past. Memᴰ past (stores env (λ now. mongo_storer driver now) events (idle s)))
        (λ id. (event : Turn) × Memᴰ event events × AsksToPublish env id event)
        (λ now. (n : ℕ) × Memᴰ (calls n now) events)
        k
        t.current
proceed-Origin stored driver laws env events s k t =
    proceed-HasOrigins stored s _ _ _ driver laws env events _ (λ past m. m)
      (λ id e m asks. (e, m, asks)) (λ n now m. (n, m)) tt (λ j u at. Origin.initial at refl) k t
