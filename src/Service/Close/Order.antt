-- ===== src/Service/Close/Order.antt =====
-- `Service.Close` stops the services in order, and its result tells how that went.
use dp_topic_api.Prelude.{
  ℕ, ◌≢◌, ◌⊎◌, inl, inr, Bool, true, false, ◌≡◌, refl, sym, ap, ◌∙◌, Option, none, some, List,
  arith,
}
use dp_topic_api.Errors.{GoError}
use dp_topic_api.Service.{ServiceList}
use dp_topic_api.Service.Close.{
  Closer, stopping_health, shutting_server, closing_mongo, cancelling, ended, Context, live,
  cancelled, expired, Fault, timed_out, Waiter, woken, returned, Call, Closing, Parent, background,
  start, advance, outcome, Step, closer_moves, timer_fires, parent_ends, waiter_wakes,
  waiter_returns, Run, begin, then_step,
}
use dp_topic_api.Service.Close.Calls.{
  all_calls, calls_upto, faulty, faulty_upto, Closes, gracefully, with_errors, too_late,
}

pub record Tracks (list : ServiceList) (parent : Parent) (c : Closing) : Type 0 where
  pub e : GoError
  pub f : GoError
  pub in_order : c.calls ≡ calls_upto list e f c.closer
  pub recorded : c.has_shutdown_error ≡ faulty_upto list e f c.closer
  pub by_closer : parent ≡ background → c.context ≡ cancelled → c.closer ≡ ended
  pub awake : c.waiter ≡ woken → c.context ≢ live
  pub told :
      (r : Option Fault)
      → parent ≡ background
      → c.waiter ≡ returned r
      → (r ≡ some timed_out) ⊎ ((c.closer ≡ ended) × (r ≡ outcome cancelled c.has_shutdown_error))

start-Tracks : (list : ServiceList) (parent : Parent) → Tracks list parent start
start-Tracks list parent = record {
  e = none;
  f = none;
  in_order = refl;
  recorded = refl;
  by_closer = λ b x. ground arith;
  awake = λ x. ground arith;
  told = λ r b x. ground arith;
}

Tracks-advance :
    (list : ServiceList) (parent : Parent) (e : GoError) (at : Closer) (c : Closing)
    → c.closer ≡ at
    → at ≢ ended
    → Tracks list parent c
    → Tracks list parent (advance list e at c)
unfolding advance
Tracks-advance list parent e stopping_health c h k t = record {
  e = t.e;
  f = t.f;
  in_order = ground (arith, t.in_order, h);
  recorded = ground (arith, t.recorded, h);
  by_closer = λ b x. ground (arith, t.by_closer b x, h);
  awake = t.awake;
  told = λ r b x. ground (arith, t.told r b x, h);
}
Tracks-advance list parent e shutting_server c h k t = record {
  e = e;
  f = t.f;
  in_order = ground (arith, t.in_order, h);
  recorded = ground (arith, t.recorded, h);
  by_closer = λ b x. ground (arith, t.by_closer b x, h);
  awake = t.awake;
  told = λ r b x. ground (arith, t.told r b x, h);
}
Tracks-advance list parent e closing_mongo c h k t = record {
  e = t.e;
  f = e;
  in_order = ground (arith, t.in_order, h);
  recorded = ground (arith, t.recorded, h);
  by_closer = λ b x. ground (arith, t.by_closer b x, h);
  awake = t.awake;
  told = λ r b x. ground (arith, t.told r b x, h);
}
Tracks-advance list parent e cancelling c h k t = record {
  e = t.e;
  f = t.f;
  in_order = ground (arith, t.in_order, h);
  recorded = ground (arith, t.recorded, h);
  by_closer = λ b x. refl;
  awake = λ w. ground (arith, t.awake w);
  told = λ r b x. ground (arith, t.told r b x, h);
}
Tracks-advance list parent e ended c h k t = elim (k refl) [ ]

Tracks-context :
    (list : ServiceList) (parent : Parent) (c : Closing) (x : Context)
    → x ≢ live
    → (parent ≡ background → x ≡ cancelled → c.closer ≡ ended)
    → Tracks list parent c
    → Tracks list parent (record c { context = x })
Tracks-context list parent c x h k t = record {
  e = t.e;
  f = t.f;
  in_order = t.in_order;
  recorded = t.recorded;
  by_closer = k;
  awake = λ w. h;
  told = t.told;
}

Tracks-waiter :
    (list : ServiceList) (parent : Parent) (c : Closing) (w : Waiter)
    → (w ≡ woken → c.context ≢ live)
    → ((r : Option Fault)
        → parent ≡ background
        → w ≡ returned r
        → (r ≡ some timed_out)
          ⊎ ((c.closer ≡ ended) × (r ≡ outcome cancelled c.has_shutdown_error)))
    → Tracks list parent c
    → Tracks list parent (record c { waiter = w })
Tracks-waiter list parent c w h k t = record {
  e = t.e;
  f = t.f;
  in_order = t.in_order;
  recorded = t.recorded;
  by_closer = t.by_closer;
  awake = h;
  told = k;
}

outcome-told :
    (x : Context) (flag : Bool) (closer : Closer) (r : Option Fault)
    → x ≢ live
    → (x ≡ cancelled → closer ≡ ended)
    → r ≡ outcome x flag
    → (r ≡ some timed_out) ⊎ ((closer ≡ ended) × (r ≡ outcome cancelled flag))
unfolding outcome
outcome-told live flag closer r h k e = elim (h refl) [ ]
outcome-told cancelled flag closer r h k e = inr (k refl, e)
outcome-told expired flag closer r h k e = inl e

Tracks-step :
    (list : ServiceList) (parent : Parent) {c d : Closing}
    → Step list parent c d
    → Tracks list parent c
    → Tracks list parent d
Tracks-step list parent (closer_moves {c} e h) t = Tracks-advance list parent e c.closer c refl h t
Tracks-step list parent (timer_fires {c} h) t =
    Tracks-context list parent c expired (ground arith) (λ b x. ground arith) t
Tracks-step list parent (parent_ends {c} b h) t =
    Tracks-context list parent c cancelled (ground arith) (λ b' x. cc (b, b')) t
Tracks-step list parent (waiter_wakes {c} h k) t =
    Tracks-waiter list parent c woken (λ w. k) (λ r b x. ground arith) t
Tracks-step list parent (waiter_returns {c} h) t =
    Tracks-waiter list parent c (returned (outcome c.context c.has_shutdown_error))
      (λ w. ground arith)
      (λ r b x.
        outcome-told c.context c.has_shutdown_error c.closer r (t.awake h) (t.by_closer b)
          (ground arith))
      t

Run-Tracks :
    (list : ServiceList) (parent : Parent) {n : ℕ} {c : Closing}
    → Run list parent n c
    → Tracks list parent c
Run-Tracks list parent begin = start-Tracks list parent
Run-Tracks list parent (then_step r s) = Tracks-step list parent s (Run-Tracks list parent r)

all_calls-clean :
    (list : ServiceList) (e f : GoError)
    → faulty list e f ≡ false
    → all_calls list e f ≡ all_calls list none none
all_calls-clean list e f h = ground arith

Closes-outcome :
    (list : ServiceList) (calls : List Call) (e f : GoError) (flag : Bool)
    → calls ≡ all_calls list e f
    → flag ≡ faulty list e f
    → Closes list calls (outcome cancelled flag)
unfolding outcome
Closes-outcome list calls e f true h k = with_errors e f h (sym k)
Closes-outcome list calls e f false h k = gracefully (h ∙ all_calls-clean list e f (sym k))

-- What the result of `Close` tells, where nothing cancels the context that its caller passed, in any
-- interleaving: nil, that the health check was stopped, the server shut down and the database closed,
-- each if it was created, in this order and with no error; "failed to shutdown gracefully", that all
-- this was done in this order and the server or the database gave an error; the deadline's error, that
-- a part of it was done, in this order.
pub close-Closes :
    (list : ServiceList) {n : ℕ} {c : Closing} {r : Option Fault}
    → Run list background n c
    → c.waiter ≡ returned r
    → Closes list c.calls r
close-Closes list {n} {c} {r} run h =
    let t = Run-Tracks list background run in
    elim (t.told r refl h) [
      | inl e ↦ rw e (too_late t.e t.f c.closer t.in_order)
      | inr (k, e) ↦ rw e (
          Closes-outcome list c.calls t.e t.f c.has_shutdown_error
            (t.in_order ∙ ap (calls_upto list t.e t.f) k)
            (t.recorded ∙ ap (faulty_upto list t.e t.f) k))
    ]

-- Whatever cancels the context, the calls are made in order and none is made twice: at every moment
-- they are those before some statement of the goroutine.
pub close-in_order :
    (list : ServiceList) (parent : Parent) {n : ℕ} {c : Closing}
    → Run list parent n c
    → (e : GoError) × (f : GoError) × (c.calls ≡ calls_upto list e f c.closer)
close-in_order list parent run = let t = Run-Tracks list parent run in (t.e, t.f, t.in_order)
