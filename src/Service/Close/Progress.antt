-- ===== src/Service/Close/Progress.antt =====
-- `Service.Close` ends: every run is short, and the caller returns even if the goroutine is stuck.
use dp_topic_api.Prelude.{ℕ, suc, ◌+◌, ◌≤◌, ◌≡◌, ◌≢◌, refl, Option, arith}
use dp_topic_api.Errors.{GoError}
use dp_topic_api.Service.{ServiceList}
use dp_topic_api.Service.Close.{
  Closer, stopping_health, shutting_server, closing_mongo, cancelling, ended, Context, live,
  cancelled, expired, Fault, Waiter, waiting, woken, returned, Closing, Parent, advance, Step,
  closer_moves, timer_fires, parent_ends, waiter_wakes, waiter_returns, Run, begin, then_step,
}

abbrev closer_left : Closer → ℕ
closer_left stopping_health = 4
closer_left shutting_server = 3
closer_left closing_mongo = 2
closer_left cancelling = 1
closer_left ended = 0

abbrev context_left : Context → ℕ
context_left live = 1
context_left _ = 0

abbrev waiter_left : Waiter → ℕ
waiter_left waiting = 2
waiter_left woken = 1
waiter_left _ = 0

-- A bound on the steps that are left.
abbrev left : Closing → ℕ
left c = closer_left c.closer + (context_left c.context + waiter_left c.waiter)

left-advance :
    (list : ServiceList) (e : GoError) (at : Closer) (c : Closing)
    → c.closer ≡ at
    → at ≢ ended
    → suc (left (advance list e at c)) ≤ left c
unfolding advance
left-advance list e stopping_health c h k = ground (arith, h)
left-advance list e shutting_server c h k = ground (arith, h)
left-advance list e closing_mongo c h k = ground (arith, h)
left-advance list e cancelling c h k = ground (arith, h)
left-advance list e ended c h k = elim (k refl) [ ]

left-step :
    (list : ServiceList) (parent : Parent) {c d : Closing}
    → Step list parent c d
    → suc (left d) ≤ left c
left-step list parent (closer_moves {c} e h) = left-advance list e c.closer c refl h
left-step list parent (timer_fires h) = ground arith
left-step list parent (parent_ends b h) = ground arith
left-step list parent (waiter_wakes h k) = ground arith
left-step list parent (waiter_returns h) = ground arith

left-run :
    (list : ServiceList) (parent : Parent) {n : ℕ} {c : Closing}
    → Run list parent n c
    → n + left c ≤ 7
left-run list parent begin = omega arith
left-run list parent (then_step run s) =
    omega (arith, left-run list parent run, left-step list parent s)

-- Steps that leave the goroutine where it stands.
pub data Unaided (list : ServiceList) (parent : Parent) : Closing → Closing → Type 0 where
  stay : {c : Closing} → Unaided list parent c c
  aside :
      {c d z : Closing}
      → Step list parent c d
      → d.closer ≡ c.closer
      → Unaided list parent d z
      → Unaided list parent c z

abbrev pub Returns : (list : ServiceList) (parent : Parent) → Closing → Type 0
Returns list parent c =
    (z : Closing) × (r : Option Fault) × Unaided list parent c z × (z.waiter ≡ returned r)

Returns-before :
    {list : ServiceList} {parent : Parent} {c d : Closing}
    → Step list parent c d
    → d.closer ≡ c.closer
    → Returns list parent d
    → Returns list parent c
Returns-before s h (z, r, u, w) = (z, r, aside s h u, w)

Returns-woken :
    (list : ServiceList) (parent : Parent) (c : Closing) → c.waiter ≡ woken → Returns list parent c
Returns-woken list parent c w = Returns-before (waiter_returns w) refl (_, _, stay, refl)

Returns-ended :
    (list : ServiceList) (parent : Parent) (c : Closing)
    → c.waiter ≡ waiting
    → c.context ≢ live
    → Returns list parent c
Returns-ended list parent c w h =
    Returns-before (waiter_wakes w h) refl (Returns-woken list parent _ refl)

Returns-waiting :
    (list : ServiceList) (parent : Parent) (c : Closing) (x : Context)
    → c.waiter ≡ waiting
    → c.context ≡ x
    → Returns list parent c
Returns-waiting list parent c live w h =
    Returns-before (timer_fires h) refl
      (Returns-ended list parent (record c { context = expired }) w (ground arith))
Returns-waiting list parent c cancelled w h = Returns-ended list parent c w (ground (arith, h))
Returns-waiting list parent c expired w h = Returns-ended list parent c w (ground (arith, h))

Returns-from :
    (list : ServiceList) (parent : Parent) (c : Closing) (w : Waiter)
    → c.waiter ≡ w
    → Returns list parent c
Returns-from list parent c waiting h = Returns-waiting list parent c c.context h refl
Returns-from list parent c woken h = Returns-woken list parent c h
Returns-from list parent c (returned r) h = (c, r, stay, h)

-- `Close` ends, in any interleaving: a run has at most seven steps, and from every state on it the
-- caller can return without a step of the goroutine, whose calls may block.
pub close-Ends :
    (list : ServiceList) (parent : Parent) {n : ℕ} {c : Closing}
    → Run list parent n c
    → (n ≤ 7) × Returns list parent c
close-Ends list parent {n} {c} run =
    (omega (arith, left-run list parent run), Returns-from list parent c c.waiter refl)
