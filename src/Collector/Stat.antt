-- ===== src/Collector/Stat.antt =====
-- syncd/pm/OtaiStatCollector.cpp: a counter is read from the vendor library, which clears it, and is
-- added up in full, for 15 minutes and for 24 hours. What a statistic's type decides, `inc_stat` and
-- `compare_stats` of meta/OtaiSerialize.cpp, is a record; `transfer_stat` copies.
pub mod Windows
use sonic_otairedis.Common.{
  ℕ, ◌+◌, ◌*◌, ◌%◌, ◌^◌, Bool, true, false, not, ◌||◌, ◌&&◌, List, [], ◌∷◌, ◌++◌, Option, none,
  some, ◌==◌, if◌then◌else◌,
}
use sonic_otairedis.Otai.{Status, success}
use sonic_otairedis.Collector.{
  Validity, complete, incomplete, Clock, update_time_flags, pm_cycle_15_mins, pm_cycle_24_hours,
}

-- The sum, and whether the comparison is not zero.
pub record StatType (A : Type 0) : Type 0 where
  pub inc_stat : A → A → A
  pub differs : A → A → Bool

-- OTAI_STAT_VALUE_TYPE_UINT32 and _UINT64: the sum wraps around, and `memcmp` tells any two apart.
unfoldable pub unsigned : ℕ → StatType ℕ
unsigned bits = record { inc_stat = λ a b. (a + b) % 2 ^ bits; differs = λ a b. not (a == b) }

-- `AccumulativeValue`
pub record Accumulated (A : Type 0) : Type 0 where
  pub init : Bool
  pub interval : ℕ
  pub starttime : ℕ
  pub expiretime : ℕ
  pub stataccvalue : A
  pub statvaluedb : A
  pub validity : Validity
  pub failurecount : ℕ

-- A row of the history table, with the time that it is kept.
pub record History (A : Type 0) : Type 0 where
  pub starttime : ℕ
  pub interval : ℕ
  pub validity : Validity
  pub value : A
  pub expire : ℕ

-- What is written to Redis: the fields of the row in the counters table, and rows of history.
pub data Write (A : Type 0) : Type 0 where
  write_value : A → Write A
  write_interval : ℕ → Write A
  write_starttime : ℕ → Write A
  write_validity : Validity → Write A
  write_history : History A → Write A

-- `entry`, with the three sums of a statistic.
pub record Entry (A : Type 0) : Type 0 where
  pub accvalue : Accumulated A
  pub accvalue15min : Accumulated A
  pub accvalue24hour : Accumulated A

-- What is written to the three rows.
pub record Written (A : Type 0) : Type 0 where
  pub current : List (Write A)
  pub pm15 : List (Write A)
  pub pm24 : List (Write A)

abbrev pub is_incomplete : Validity → Bool
is_incomplete incomplete = true
is_incomplete _ = false

module _ {A : Type 0} where
  -- The validity that the history is given.
  abbrev pub final_validity : Accumulated A → Validity
  final_validity v =
      if is_incomplete v.validity && (v.failurecount == 0) then complete else v.validity

  -- What is written of the window that ends, if there is one.
  close_window : Accumulated A → List (Write A)
  close_window v =
      if v.init
      then write_interval v.interval ∷ []
      else write_history (record {
        starttime = v.starttime;
        interval = v.interval;
        validity = final_validity v;
        value = v.stataccvalue;
        expire = v.expiretime;
      })
        ∷ []

  -- The status was no success: the window counts it, and goes on.
  pub count_failure : Accumulated A → Accumulated A
  count_failure v = record v { failurecount = (v.failurecount + 1) % 2 ^ 32 }

module _ {A : Type 0} (st : StatType A) where
  open st use {inc_stat, differs}

  -- A sum is written where it differs from what was written last.
  abbrev pub accumulate : A → Accumulated A → Accumulated A × List (Write A)
  accumulate x v =
      let sum = inc_stat v.stataccvalue x in
      if differs sum v.statvaluedb
      then (record v { stataccvalue = sum; statvaluedb = sum }, write_value sum ∷ [])
      else (record v { stataccvalue = sum }, [])

  pub update_current_value : A → Accumulated A → Accumulated A × List (Write A)
  update_current_value x v =
      if v.init
      then (record v { init = false; stataccvalue = x; statvaluedb = x }, write_value x ∷ [])
      else accumulate x v

  -- `updatePeriodicValue`, with the cycle's timeout and the start of the window that begins.
  pub update_periodic_value : Bool → ℕ → A → Accumulated A → Accumulated A × List (Write A)
  unfolding close_window
  update_periodic_value timeout start x v =
      if v.init || timeout
      then (
        record v {
          init = false;
          starttime = start;
          stataccvalue = x;
          statvaluedb = x;
          validity = incomplete;
          failurecount = 0;
        },
        close_window v ++ write_starttime start ∷ write_value x ∷ write_validity incomplete ∷ [],
      )
      else accumulate x v

  -- The body of the loop of `collect`, with the answer of `getStats`.
  pub collect_entry : Clock → Status × A → Entry A → Entry A × Written A
  unfolding update_current_value update_periodic_value count_failure
  collect_entry c (success, x) e =
      let now = update_current_value x e.accvalue in
      let quarter =
        update_periodic_value c.timeout15min (c.counter15min * pm_cycle_15_mins) x
          e.accvalue15min in
      let day =
        update_periodic_value c.timeout24hour (c.counter24hour * pm_cycle_24_hours) x
          e.accvalue24hour in
      (
        record { accvalue = now.0; accvalue15min = quarter.0; accvalue24hour = day.0 },
        record { current = now.1; pm15 = quarter.1; pm24 = day.1 },
      )
  collect_entry c (status, x) e = (
    record e {
      accvalue15min = count_failure e.accvalue15min;
      accvalue24hour = count_failure e.accvalue24hour;
    },
    record { current = []; pm15 = []; pm24 = [] },
  )

-- The statistics of an object by their ids, each with the type of its metadata; `get_stats` holds
-- what the vendor library answers for each in this round.
module _ {A : Type 0} (types : ℕ → StatType A) (get_stats : ℕ → Status × A) where
  -- The loop over the entries.
  collect_entries : Clock → List (ℕ × Entry A) → List (ℕ × Entry A) × List (ℕ × Written A)
  unfolding collect_entry
  collect_entries c [] = ([], [])
  collect_entries c ((statid, e) ∷ rest) =
      let one = collect_entry (types statid) c (get_stats statid) e in
      let others = collect_entries c rest in
      ((statid, one.0) ∷ others.0, (statid, one.1) ∷ others.1)

  unfoldable pub collect :
      ℕ → Clock → List (ℕ × Entry A) → Clock × List (ℕ × Entry A) × List (ℕ × Written A)
  unfolding collect_entries
  collect now c entries =
      let c' = update_time_flags now c in
      let done = collect_entries c' entries in (c', done.0, done.1)
