-- ===== src/Collector/Gauge.antt =====
-- syncd/pm/OtaiGaugeCollector.cpp: the greatest, the least, the last and the mean reading of a
-- statistic in windows of 15 minutes and of 24 hours. What a statistic's type and unit decide
-- (`compare_stats`, `inc_stat`, `div_stat` of meta/OtaiSerialize.cpp and the conversions of dBm) is a
-- record; `transfer_stat` copies.
pub mod Bytes
pub mod Extremes
use sonic_otairedis.Common.{
  ℕ, zero, suc, ◌+◌, ◌*◌, ◌/◌, ◌%◌, ◌^◌, Bool, true, false, ◌||◌, ◌&&◌, List, [], ◌∷◌, ◌++◌, ltb,
  ◌==◌, if◌then◌else◌,
}
use sonic_otairedis.Otai.{Status, success}
use sonic_otairedis.Collector.{
  Validity, complete, incomplete, Clock, update_time_flags, pm_cycle_15_mins, pm_cycle_24_hours,
}
use sonic_otairedis.Collector.Stat.{is_incomplete}

-- The sign of what a comparison returns.
pub data Sign : Type 0 where
  less same greater : Sign

abbrev pub is_greater : Sign → Bool
is_greater greater = true
is_greater _ = false

abbrev pub is_less : Sign → Bool
is_less less = true
is_less _ = false

abbrev pub is_same : Sign → Bool
is_same same = true
is_same _ = false

pub record GaugeType (A : Type 0) : Type 0 where
  pub compare_stats : A → A → Sign
  -- The sum begins with a reading, goes on with others, and is divided by their number.
  pub first_stat : A → A
  pub inc_stat : A → A → A
  pub div_stat : A → ℕ → A

-- `compare_primitive`: `memcmp` on the bytes of two numbers, of which a little-endian machine holds
-- the lowest first.
pub compare_primitive : ℕ → ℕ → ℕ → Sign
compare_primitive zero a b = same
compare_primitive (suc bytes) a b =
    let rest = compare_primitive bytes (a / 256) (b / 256) in
    if ltb (a % 256) (b % 256) then less else if a % 256 == b % 256 then rest else greater

-- OTAI_STAT_VALUE_TYPE_UINT32 and _UINT64, with 4 and 8 bytes.
unfoldable pub unsigned_gauge : ℕ → GaugeType ℕ
unfolding compare_primitive
unsigned_gauge bytes = record {
  compare_stats = compare_primitive bytes;
  first_stat = λ a. a;
  inc_stat = λ a b. (a + b) % 2 ^ (8 * bytes);
  div_stat = λ a n. a / n % 2 ^ (8 * bytes);
}

-- `AvgMinMaxValue`
pub record AvgMinMax (A : Type 0) : Type 0 where
  pub init : Bool
  pub maxvalue : A
  pub maxtime : ℕ
  pub minvalue : A
  pub mintime : ℕ
  pub instantvalue : A
  pub starttime : ℕ
  pub interval : ℕ
  pub expiretime : ℕ
  pub avgvalue : A
  pub accvalue : A
  pub accnum : ℕ
  pub validity : Validity
  pub current_validity : Validity
  pub failurecount : ℕ

-- A row of the history table, with the time that it is kept.
pub record GaugeHistory (A : Type 0) : Type 0 where
  pub starttime : ℕ
  pub interval : ℕ
  pub validity : Validity
  pub maxvalue : A
  pub maxtime : ℕ
  pub minvalue : A
  pub mintime : ℕ
  pub avgvalue : A
  pub instantvalue : A
  pub expire : ℕ

-- What is written to Redis: the fields of the row in the counters table, and rows of history.
pub data GaugeWrite (A : Type 0) : Type 0 where
  write_interval write_starttime write_max_time write_min_time : ℕ → GaugeWrite A
  write_max write_min write_instant write_avg : A → GaugeWrite A
  write_current_validity write_validity : Validity → GaugeWrite A
  write_history : GaugeHistory A → GaugeWrite A

module _ {A : Type 0} where
  abbrev pub gauge_validity : AvgMinMax A → Validity
  gauge_validity v =
      if is_incomplete v.validity && (v.failurecount == 0) then complete else v.validity

  close_gauge : AvgMinMax A → List (GaugeWrite A)
  close_gauge v =
      if v.init
      then write_interval v.interval ∷ []
      else write_history (record {
        starttime = v.starttime;
        interval = v.interval;
        validity = gauge_validity v;
        maxvalue = v.maxvalue;
        maxtime = v.maxtime;
        minvalue = v.minvalue;
        mintime = v.mintime;
        avgvalue = v.avgvalue;
        instantvalue = v.instantvalue;
        expire = v.expiretime;
      })
        ∷ []

  -- The status was no success: the window counts it, and goes on.
  unfoldable pub miss_gauge : AvgMinMax A → AvgMinMax A
  miss_gauge v = record v { failurecount = (v.failurecount + 1) % 2 ^ 64 }

module _ {A : Type 0} (g : GaugeType A) where
  open g use {compare_stats, first_stat, inc_stat, div_stat}

  pub raise_max : ℕ → A → AvgMinMax A → AvgMinMax A × List (GaugeWrite A)
  raise_max now x v =
      if is_greater (compare_stats x v.maxvalue)
      then (record v { maxvalue = x; maxtime = now }, write_max x ∷ write_max_time now ∷ [])
      else (v, [])

  pub lower_min : ℕ → A → AvgMinMax A → AvgMinMax A × List (GaugeWrite A)
  lower_min now x v =
      if is_less (compare_stats x v.minvalue)
      then (record v { minvalue = x; mintime = now }, write_min x ∷ write_min_time now ∷ [])
      else (v, [])

  pub set_instant : A → AvgMinMax A → AvgMinMax A × List (GaugeWrite A)
  set_instant x v =
      if is_same (compare_stats x v.instantvalue)
      then (v, [])
      else (record v { instantvalue = x }, write_instant x ∷ [])

  pub set_avg : A → AvgMinMax A → AvgMinMax A × List (GaugeWrite A)
  set_avg x v =
      let sum = inc_stat v.accvalue x in
      let count = (v.accnum + 1) % 2 ^ 64 in
      let mean = div_stat sum count in
      let v' = record v { accvalue = sum; accnum = count } in
      if is_same (compare_stats mean v.avgvalue)
      then (v', [])
      else (record v' { avgvalue = mean }, write_avg mean ∷ [])

  -- A window begins with a reading.
  unfoldable pub open_gauge : ℕ → ℕ → A → AvgMinMax A → AvgMinMax A
  open_gauge start now x v = record v {
    init = false;
    failurecount = 0;
    maxvalue = x;
    minvalue = x;
    accvalue = first_stat x;
    avgvalue = x;
    instantvalue = x;
    maxtime = now;
    mintime = now;
    starttime = start;
    accnum = 1;
    current_validity = complete;
    validity = incomplete;
  }

  -- A reading inside a window.
  unfoldable pub read_gauge : ℕ → A → AvgMinMax A → AvgMinMax A × List (GaugeWrite A)
  unfolding raise_max lower_min set_instant set_avg
  read_gauge now x v =
      let raised = raise_max now x v in
      let lowered = lower_min now x raised.0 in
      let instant = set_instant x lowered.0 in
      let mean = set_avg x instant.0 in (mean.0, raised.1 ++ lowered.1 ++ instant.1 ++ mean.1)

  -- `updatePeriodicValue`, with the cycle's timeout and the start of the window that begins.
  pub update_periodic_gauge : Bool → ℕ → ℕ → A → AvgMinMax A → AvgMinMax A × List (GaugeWrite A)
  unfolding close_gauge open_gauge read_gauge
  update_periodic_gauge timeout start now x v =
      if v.init || timeout
      then (
        open_gauge start now x v,
        close_gauge v
            ++ write_starttime start
              ∷ write_max x
              ∷ write_max_time now
              ∷ write_min x
              ∷ write_min_time now
              ∷ write_instant x
              ∷ write_avg x
              ∷ write_current_validity complete
              ∷ write_validity incomplete
              ∷ [],
      )
      else read_gauge now x v

-- `entry`, with the two windows of a statistic, and what is written to their rows.
pub record GaugeEntry (A : Type 0) : Type 0 where
  pub statvalue15min : AvgMinMax A
  pub statvalue24hour : AvgMinMax A

module _ {A : Type 0} where
  -- The body of the loop of `collect`, with the answer of `getStats`.
  collect_gauge :
      GaugeType A
      → Clock
      → Status × A
      → GaugeEntry A
      → GaugeEntry A × (List (GaugeWrite A) × List (GaugeWrite A))
  unfolding update_periodic_gauge miss_gauge
  collect_gauge g c (success, x) e =
      let quarter =
        update_periodic_gauge g c.timeout15min (c.counter15min * pm_cycle_15_mins) c.collect_time x
          e.statvalue15min in
      let day =
        update_periodic_gauge g c.timeout24hour (c.counter24hour * pm_cycle_24_hours) c.collect_time
          x e.statvalue24hour in
      (record { statvalue15min = quarter.0; statvalue24hour = day.0 }, (quarter.1, day.1))
  collect_gauge g c (status, x) e = (
    record {
      statvalue15min = miss_gauge e.statvalue15min;
      statvalue24hour = miss_gauge e.statvalue24hour;
    },
    ([], []),
  )

  collect_each :
      (ℕ → GaugeType A)
      → (ℕ → Status × A)
      → Clock
      → List (ℕ × GaugeEntry A)
      → List (ℕ × GaugeEntry A) × List (ℕ × (List (GaugeWrite A) × List (GaugeWrite A)))
  unfolding collect_gauge
  collect_each types get_stats c [] = ([], [])
  collect_each types get_stats c ((statid, e) ∷ rest) =
      let one = collect_gauge (types statid) c (get_stats statid) e in
      let others = collect_each types get_stats c rest in
      ((statid, one.0) ∷ others.0, (statid, one.1) ∷ others.1)

  -- The statistics by their ids, each with the type of its metadata; `get_stats` holds what the vendor
  -- library answers for each in this round.
  unfoldable pub collect_gauges :
      (ℕ → GaugeType A)
      → (ℕ → Status × A)
      → ℕ
      → Clock
      → List (ℕ × GaugeEntry A)
      → Clock × (List (ℕ × GaugeEntry A) × List (ℕ × (List (GaugeWrite A) × List (GaugeWrite A))))
  unfolding collect_each
  collect_gauges types get_stats now c entries =
      let c' = update_time_flags now c in (c', collect_each types get_stats c' entries)
