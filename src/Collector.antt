-- ===== src/Collector.antt =====
-- syncd/pm/Collector.cpp: the clock of the collectors, which closes the windows of 15 minutes and of
-- 24 hours.
pub mod Stat
pub mod Gauge
pub mod Copies
pub mod Attr
pub mod Times
use sonic_otairedis.Common.{
  ℕ, ◌+◌, ◌*◌, ◌/◌, ◌%◌, ◌≤◌, ◌<◌, ◌≡◌, Bool, true, false, ◌&&◌, ◌||◌, arith, ltb, ◌==◌,
  if◌then◌else◌,
}

-- validity_type
pub data Validity : Type 0 where
  complete incomplete invalid : Validity

-- PM_CYCLE_1_SEC, PM_CYCLE_15_MINS and PM_CYCLE_24_HOURS, in nanoseconds
abbrev pub pm_cycle_1_sec : ℕ
pm_cycle_1_sec = 1000000000

abbrev pub pm_cycle_15_mins : ℕ
pm_cycle_15_mins = 15 * 60 * pm_cycle_1_sec

abbrev pub pm_cycle_24_hours : ℕ
pm_cycle_24_hours = 24 * 60 * 60 * pm_cycle_1_sec

pub record Clock : Type 0 where
  pub collect_time : ℕ
  pub counter15min : ℕ
  pub counter24hour : ℕ
  pub timeout15min : Bool
  pub timeout24hour : Bool

-- A count of windows is started, or one of the cycle's length begins in this unit of time.
abbrev pub due : ℕ → ℕ → ℕ → Bool
due counter units cycle = counter == 0 || ((units % cycle == 0) && ltb counter (units / cycle))

-- `updateTimeFlags` at a time in nanoseconds since the epoch.
unfoldable pub update_time_flags : ℕ → Clock → Clock
update_time_flags now c =
    let minutes = now / (60 * pm_cycle_1_sec) in
    let hours = now / (60 * 60 * pm_cycle_1_sec) in
    let due15 = due c.counter15min minutes 15 in
    let due24 = due c.counter24hour hours 24 in
    record {
      collect_time = now;
      counter15min = if due15 then minutes / 15 else c.counter15min;
      counter24hour = if due24 then hours / 24 else c.counter24hour;
      timeout15min = due15;
      timeout24hour = due24;
    }
