-- ===== src/Tests/Gauges.antt =====
-- Gauges that are 32-bit integers.
use sonic_otairedis.Common.{ℕ, ◌≡◌, refl, true, false, arith, List, [], ◌∷◌, Option, none, some}
use sonic_otairedis.Otai.{success, failure}
use sonic_otairedis.Collector.{update_time_flags, Clock, invalid, pm_cycle_15_mins}
use sonic_otairedis.Collector.Gauge.{
  miss_gauge, read_gauge, AvgMinMax, GaugeEntry, compare_primitive, unsigned_gauge, raise_max,
  open_gauge, collect_gauges,
}
use sonic_otairedis.Collector.Gauge.Extremes.{sign, taken, gauge_rounds, Extremes, window-Extremes}
use sonic_otairedis.Collector.Gauge.Bytes.{reversed, compare_primitive-reversed, raise_max_low_byte}

abbrev fresh : AvgMinMax ℕ
fresh = record {
  init = true;
  maxvalue = 1;
  maxtime = 0;
  minvalue = 1;
  mintime = 0;
  instantvalue = 0;
  starttime = 0;
  interval = pm_cycle_15_mins;
  expiretime = 172800;
  avgvalue = 0;
  accvalue = 0;
  accnum = 0;
  validity = invalid;
  current_validity = invalid;
  failurecount = 0;
}

abbrev readings : List (Option ℕ × ℕ)
readings = (some 9, 11) ∷ (none, 12) ∷ (some 256, 13) ∷ (some 4, 14) ∷ []

ordered : (a b : ℕ) → (unsigned_gauge 4).compare_stats a b ≡ sign (reversed 4 a) (reversed 4 b)
unfolding unsigned_gauge
ordered a b = compare_primitive-reversed 4 a b

window-Extremes_example :
    Extremes (unsigned_gauge 4) (reversed 4) ordered (taken readings ((5, 10) ∷ [])) (
      gauge_rounds
        (unsigned_gauge 4)
        (reversed 4)
        ordered
        readings
        (open_gauge (unsigned_gauge 4) 0 10 5 fresh))
window-Extremes_example =
    window-Extremes (unsigned_gauge 4) (reversed 4) ordered 0 10 5 fresh readings (omega arith)

-- The least value is said to be 256, and the mean is one of four readings: 5, 9, 256 and 4.
readings_test :
    let v =
      gauge_rounds
        (unsigned_gauge 4)
        (reversed 4)
        ordered
        readings
        (open_gauge (unsigned_gauge 4) 0 10 5 fresh) in
    (v.maxvalue ≡ 9)
    × (v.minvalue ≡ 256)
    × (v.mintime ≡ 13)
    × (v.avgvalue ≡ 68)
    × (v.instantvalue ≡ 4)
    × (v.failurecount ≡ 1)
unfolding open_gauge unsigned_gauge read_gauge miss_gauge
readings_test = (refl, refl, refl, refl, refl, refl)

compare_primitive-reversed_example :
    compare_primitive 4 256 1 ≡ sign (reversed 4 256) (reversed 4 1)
compare_primitive-reversed_example = compare_primitive-reversed 4 256 1

raise_max_low_byte_example : raise_max (unsigned_gauge 4) 20 256 fresh ≡ (fresh, [])
raise_max_low_byte_example = raise_max_low_byte 3 20 256 fresh (omega arith)

abbrev clock : Clock
clock = record {
  collect_time = 0;
  counter15min = 0;
  counter24hour = 0;
  timeout15min = false;
  timeout24hour = false;
}

-- A first round with an answer, and a second in which the vendor library fails.
abbrev entries : List (ℕ × GaugeEntry ℕ)
entries = (3, record { statvalue15min = fresh; statvalue24hour = fresh }) ∷ []

collect_test :
    let first =
      collect_gauges (λ stat. unsigned_gauge 4) (λ stat. (success, 7)) 60000000000 clock entries in
    let second =
      collect_gauges
        (λ stat. unsigned_gauge 4)
        (λ stat. (failure, 0))
        61000000000
        first.0
        first.1.0 in
    second.1.0
    ≡ (
      3,
      record {
        statvalue15min = record (open_gauge (unsigned_gauge 4) 0 60000000000 7 fresh) {
          failurecount = 1;
        };
        statvalue24hour = record (open_gauge (unsigned_gauge 4) 0 60000000000 7 fresh) {
          failurecount = 1;
        };
      },
    )
      ∷ []
unfolding collect_gauges update_time_flags
collect_test = refl
