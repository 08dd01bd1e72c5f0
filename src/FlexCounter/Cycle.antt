-- ===== src/FlexCounter/Cycle.antt =====
-- `flexCounterThreadRunFunction`: one cycle of the thread, and how long it waits for the next one.
use native.Mathlib.Nat.{mod-lt, mod-eq_of_lt, div-add-mod, mul-mod_right, add-mod_right}
use sonic_otairedis.Common.{
  ℕ, ◌+◌, ◌-◌, ◌*◌, ◌/◌, ◌^◌, ◌%◌, ◌≤◌, ◌<◌, ◌≡◌, ap, ◌∙◌, arith, true, false, not, ◌&&◌, List, [],
  map, ltb, if◌then◌else◌,
}
use sonic_otairedis.FlexCounter.{Collector, FlexCounter, all_ids_empty}

-- The thread sleeps for a time in milliseconds, or until it is notified.
pub data Wait : Type 0 where
  wait_for : ℕ → Wait
  wait_notified : Wait

-- The collectors in the order in which they collect; the round takes `ms` milliseconds.
unfoldable pub cycle : ℕ → FlexCounter → List Collector × Wait
cycle ms fc =
    let delay = ms % 2 ^ 32 in
    if fc.enable && not (all_ids_empty fc) && ltb 0 fc.poll_interval
    then (
      map (λ entry. entry.1) fc.collectors,
      wait_for (fc.poll_interval - delay % fc.poll_interval),
    )
    else ([], wait_notified)

-- A cycle of an enabled `FlexCounter` with collectors and an interval above 0, that takes less than
-- 2^32 milliseconds: every collector collects, and the thread then waits for at least one
-- millisecond and at most one interval, until a whole number of intervals has passed since the
-- cycle began.
pub cycle-Aligned :
    (ms : ℕ) (fc : FlexCounter)
    → ms < 2 ^ 32
    → fc.enable ≡ true
    → all_ids_empty fc ≡ false
    → 0 < fc.poll_interval
    → (w : ℕ) × (cycle ms fc ≡ (map (λ entry. entry.1) fc.collectors, wait_for w))
      × (0 < w)
      × (w ≤ fc.poll_interval)
      × ((ms + w) % fc.poll_interval ≡ 0)
unfolding cycle
cycle-Aligned ms fc small on some_ids positive =
    let p = fc.poll_interval in
    let delay = ms % 2 ^ 32 in
    let whole : delay ≡ ms = mod-eq_of_lt small in
    let r = ms % p in
    let below = mod-lt ms positive in
    let parts = div-add-mod ms p in
    let total : ms + (p - r) ≡ p * (ms / p) + p = ground arith in
    let multiple : (ms + (p - r)) % p ≡ 0 =
      ap (λ z. z % p) total ∙ add-mod_right (p * (ms / p)) p ∙ mul-mod_right p (ms / p) in
    let runs : (fc.enable && not (all_ids_empty fc) && ltb 0 p) ≡ true = ground arith in
    let waits : p - delay % p ≡ p - r = λ i. p - whole i % p in
    (
      p - r,
      rw (runs, cycle) (λ i. (map (λ entry. entry.1) fc.collectors, wait_for (waits i))),
      (ground arith),
      (ground arith),
      multiple,
    )
