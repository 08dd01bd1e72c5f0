-- ===== src/Collector/Times.antt =====
-- When the collectors open new windows.
use sonic_otairedis.Common.{ℕ, ◌+◌, ◌*◌, ◌≤◌, ◌<◌, ◌≡◌, ◌≢◌, Bool, true, false, arith}
use sonic_otairedis.Collector.{
  Clock, update_time_flags, pm_cycle_1_sec, pm_cycle_15_mins, pm_cycle_24_hours,
}

-- What the flag of a cycle and its count say at a time: a new window is that of the time, and it is
-- the first one, or a later one than before that began less than a unit ago; with no new window the
-- count stays.
abbrev pub Window : ℕ → ℕ → ℕ → Bool → ℕ → ℕ → Type 0
Window cycle unit now timeout counter before =
    (timeout ≡ true
      → (counter * cycle ≤ now)
        × (now < counter * cycle + cycle)
        × (before ≢ 0 → (before < counter) × (now < counter * cycle + unit)))
    × (timeout ≡ false → (before ≢ 0) × (counter ≡ before))

-- `updateTimeFlags` opens a window of 15 minutes in which the time lies, when it opens one: the
-- first one at any time, a later one only in the first minute of its 15, and then it is later than
-- the one before; else the count of windows stays. The windows of 24 hours are opened likewise, a
-- later one only in its first hour.
pub update_time_flags-Window :
    (now : ℕ) (c : Clock)
    → let c' = update_time_flags now c in
      Window pm_cycle_15_mins
        (60 * pm_cycle_1_sec)
        now
        c'.timeout15min
        c'.counter15min
        c.counter15min
      × Window pm_cycle_24_hours
          (60 * 60 * pm_cycle_1_sec)
          now
          c'.timeout24hour
          c'.counter24hour
          c.counter24hour
unfolding update_time_flags
update_time_flags-Window now c = (
  (
    λ on. (ground arith, ground arith, λ later. (ground arith, ground arith)),
    λ off. (λ e. ground arith, ground arith),
  ),
  (
    λ on. (ground arith, ground arith, λ later. (ground arith, ground arith)),
    λ off. (λ e. ground arith, ground arith),
  ),
)
