-- ===== src/Tests/Counters.antt =====
-- A 32-bit counter over a window of 15 minutes that starts at the epoch's third quarter of an hour.
use sonic_otairedis.Common.{
  ℕ, ◌+◌, ◌*◌, ◌%◌, ◌^◌, ◌≡◌, refl, true, false, not, arith, List, [], ◌∷◌, none, some, ◌==◌,
  if◌then◌else◌,
}
use sonic_otairedis.Otai.{success, failure}
use sonic_otairedis.Collector.{
  complete, incomplete, Clock, update_time_flags, pm_cycle_1_sec, pm_cycle_15_mins,
  pm_cycle_24_hours,
}
use sonic_otairedis.Collector.Times.{Window, update_time_flags-Window}
use sonic_otairedis.Collector.Stat.{
  StatType, unsigned, Accumulated, Entry, write_value, write_starttime, write_interval,
  write_validity, write_history, update_periodic_value, collect,
}
use sonic_otairedis.Collector.Stat.Windows.{
  rounds, total, failures, window_history, Round, play_all, Mirrors, row_shows_sum,
}

abbrev counter32 : StatType ℕ
counter32 = record { inc_stat = λ a b. (a + b) % 2 ^ 32; differs = λ a b. not (a == b) }

unsigned_test : unsigned 32 ≡ counter32
unfolding unsigned
unsigned_test = refl

abbrev fresh : Accumulated ℕ
fresh = record {
  init = true;
  interval = pm_cycle_15_mins;
  starttime = 0;
  expiretime = 172800;
  stataccvalue = 0;
  statvaluedb = 0;
  validity = incomplete;
  failurecount = 0;
}

window_history_example :
    (update_periodic_value counter32 true 900 9 (
      rounds counter32
        (some 4 ∷ none ∷ some 5 ∷ [])
        (update_periodic_value counter32 false 0 7 fresh).0)).1
    ≡ write_history (record {
      starttime = 0;
      interval = pm_cycle_15_mins;
      validity =
          if failures counter32 (some 4 ∷ none ∷ some 5 ∷ []) == 0 then complete else incomplete;
      value = total counter32 7 (some 4 ∷ none ∷ some 5 ∷ []);
      expire = 172800;
    })
      ∷ write_starttime 900
      ∷ write_value 9
      ∷ write_validity incomplete
      ∷ []
window_history_example =
    window_history counter32 false 0 900 7 9 (some 4 ∷ none ∷ some 5 ∷ []) fresh refl (omega arith)

total_test : total counter32 7 (some 4 ∷ none ∷ some 5 ∷ []) ≡ 16
total_test = refl

counter32_exact : (a b : ℕ) → counter32.differs a b ≡ false → a ≡ b
counter32_exact a b h = ground arith

abbrev two_rounds : List (Round ℕ)
two_rounds =
    record { reading = some 7; timeout = true; start = 0 }
    ∷ record { reading = some 4; timeout = false; start = 0 }
    ∷ []

fresh-Mirrors : Mirrors counter32 (fresh, none)
fresh-Mirrors = record { shows = λ h. cc }

row_shows_sum_example : Mirrors counter32 (play_all counter32 two_rounds (fresh, none))
row_shows_sum_example =
    row_shows_sum counter32 counter32_exact two_rounds (fresh, none) fresh-Mirrors

abbrev clock : Clock
clock = record {
  collect_time = 0;
  counter15min = 2;
  counter24hour = 1;
  timeout15min = false;
  timeout24hour = false;
}

-- 45 minutes and 2 seconds.
abbrev now : ℕ
now = 2702 * pm_cycle_1_sec

update_time_flags-Window_example :
    let c' = update_time_flags now clock in
    Window pm_cycle_15_mins (60 * pm_cycle_1_sec) now c'.timeout15min c'.counter15min 2
    × Window pm_cycle_24_hours (60 * 60 * pm_cycle_1_sec) now c'.timeout24hour c'.counter24hour 1
update_time_flags-Window_example = update_time_flags-Window now clock

abbrev entry : Entry ℕ
entry = record { accvalue = fresh; accvalue15min = fresh; accvalue24hour = fresh }

-- One statistic is read, and one fails.
collect_test :
    (collect
      (λ id. counter32)
      (λ id. if id == 1 then (success, 7) else (failure, 0))
      now
      clock
      ((1, entry) ∷ (2, entry) ∷ [])).2
    ≡ (
      1,
      record {
        current = write_value 7 ∷ [];
        pm15 =
            write_interval pm_cycle_15_mins
            ∷ write_starttime (3 * pm_cycle_15_mins)
            ∷ write_value 7
            ∷ write_validity incomplete
            ∷ [];
        pm24 =
            write_interval pm_cycle_15_mins
            ∷ write_starttime pm_cycle_24_hours
            ∷ write_value 7
            ∷ write_validity incomplete
            ∷ [];
      },
    )
      ∷ (2, record { current = []; pm15 = []; pm24 = [] })
      ∷ []
unfolding collect update_time_flags
collect_test = refl
