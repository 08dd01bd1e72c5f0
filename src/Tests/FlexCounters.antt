-- ===== src/Tests/FlexCounters.antt =====
-- A group of gauges that is polled every 1000 milliseconds, and requests on its counters.
use sonic_otairedis.Common.{
  ℕ, ◌+◌, ◌<◌, ◌≤◌, ◌%◌, ◌≡◌, refl, arith, List, [], ◌∷◌, map, ok, throws, true, false,
}
use sonic_otairedis.Serialize.ObjectId.{Text, text, otai_deserialize_object_id}
use sonic_otairedis.Serialize.Stoi.{stoi}
use sonic_otairedis.Serialize.Texts.{Without}
use sonic_otairedis.Redis.Client.{get_rid_for_vid}
use sonic_otairedis.Oid.VidManager
use sonic_otairedis.Oid.Virtual
use sonic_otairedis.Translator.{
  Translator, insert_rid_and_vid, translate_vid_to_rid, try_translate_vid_to_rid,
}
use sonic_otairedis.Reinit.{type_text, get_object_id_from_asic_key}
use sonic_otairedis.FlexCounter.{FieldNames, Collector, FlexCounter, new_counter, group_gauge}
use sonic_otairedis.FlexCounter.Cycle.{wait_for, wait_notified, cycle, cycle-Aligned}
use sonic_otairedis.FlexCounter.Manager.{
  FlexCounterManager, call_add_plugin, call_remove_plugins, call_add, call_remove, Call, add_plugin,
  add_to, run,
}
use sonic_otairedis.FlexCounter.Manager.Counters.{IsManager}
use sonic_otairedis.FlexCounter.Manager.Kept.{NoneDiscarded, run-NoneDiscarded}
use sonic_otairedis.FlexCounter.Events.{
  Commands, process_flex_counter_group_event, process_flex_counter_event, reinit_groups,
  reinit_counters,
}
use sonic_otairedis.FlexCounter.Events.Outcome.{
  counter_key, Served, process_flex_counter_event-Served,
}
use sonic_otairedis.Tests.World.{types, stored_map, started}

abbrev names : FieldNames
names = record {
  poll_interval_field = text "POLL_INTERVAL";
  flex_counter_status_field = text "FLEX_COUNTER_STATUS";
  stats_mode_field = text "STATS_MODE";
  stats_mode_read = text "STATS_MODE_READ";
  stats_mode_read_and_clear = text "STATS_MODE_READ_AND_CLEAR";
}

abbrev commands : Commands
commands = record { set_command = text "SET"; del_command = text "DEL" }

abbrev whole : Text → List Text
whole s = s ∷ []

stoi_test :
    (stoi (text " +42ms") ≡ ok 42)
    × (stoi (text "-1") ≡ ok 0xFFFFFFFF)
    × (stoi (text "2147483648") ≡ throws "stoi")
    × (stoi (text "fast") ≡ throws "stoi")
stoi_test = (refl, refl, refl, refl)

abbrev thing : ℕ
thing = 0x0003000000000005

abbrev gauges : Text
gauges = text "1S_STAT_GAUGE"

abbrev power : List (Text × Text)
power = (text "PORT_COUNTER_ID_LIST", text "POWER") ∷ []

abbrev collector : Collector
collector = record {
  group = group_gauge;
  object_type = 3;
  vid = thing;
  rid = 77;
  counter_ids = text "POWER" ∷ [];
}

abbrev polled : FlexCounter
polled = record (new_counter gauges) {
  poll_interval = 1000;
  enable = true;
  collectors = (thing, collector) ∷ [];
}

abbrev settings : List (Text × Text)
settings = (text "POLL_INTERVAL", text "1000") ∷ (text "FLEX_COUNTER_STATUS", text "enable") ∷ []

groups_test :
    (process_flex_counter_group_event names commands
      (record { key = gauges; op = text "SET"; values = settings })
      []).1
    ≡ (gauges, record polled { collectors = [] }) ∷ []
unfolding process_flex_counter_group_event add_plugin
groups_test = refl

reinit_groups_test :
    (reinit_groups names
      (λ key. settings)
      (text "FLEX_COUNTER_GROUP_TABLE:1S_STAT_GAUGE" ∷ [])
      []).1
    ≡ (gauges, record polled { collectors = [] }) ∷ []
unfolding reinit_groups add_plugin
reinit_groups_test = refl

abbrev calls : List Call
calls =
    call_add_plugin gauges settings
    ∷ call_add thing 77 gauges power
    ∷ call_remove_plugins gauges
    ∷ call_remove thing gauges
    ∷ []

-- The group leaves the map with its last counter.
run_test :
    (run whole names calls [] ≡ [])
    × (run whole names (call_add_plugin gauges settings ∷ call_add thing 77 gauges power ∷ []) []
        ≡ (gauges, polled) ∷ [])
unfolding add_plugin add_to VidManager.object_type_query Virtual.object_type_query Virtual.type_bits
run_test = (refl, refl)

run-NoneDiscarded_example : NoneDiscarded (run whole names calls ((gauges, polled) ∷ []))
run-NoneDiscarded_example = run-NoneDiscarded whole names calls ((gauges, polled) ∷ []) (refl, tt)

-- A round of 2300 milliseconds, and 700 more.
cycle_test :
    (cycle 2300 polled ≡ (collector ∷ [], wait_for 700))
    × (cycle 0 (record polled { enable = false }) ≡ ([], wait_notified))
unfolding cycle
cycle_test = (refl, refl)

cycle-Aligned_example :
    (w : ℕ) × (cycle 2300 polled ≡ (map (λ entry. entry.1) polled.collectors, wait_for w))
    × (0 < w)
    × (w ≤ 1000)
    × ((2300 + w) % 1000 ≡ 0)
cycle-Aligned_example = cycle-Aligned 2300 polled (omega arith) refl refl (omega arith)

abbrev mapped : Translator stored_map
mapped = insert_rid_and_vid stored_map 77 thing started

plain_gauges : Without b':' gauges
plain_gauges = (
  refl,
  (
    refl,
    (refl, (refl, (refl, (refl, (refl, (refl, (refl, (refl, (refl, (refl, (refl, tt))))))))))),
  ),
)

abbrev groups : FlexCounterManager
groups = (gauges, polled) ∷ []

groups-IsManager : IsManager groups
groups-IsManager = (refl, (refl, tt), refl, tt)

process_flex_counter_event-Served_example :
    let end =
      process_flex_counter_event stored_map whole commands
        (record { key = counter_key gauges thing; op = text "SET"; values = power })
        (mapped, groups) in
    let looked = try_translate_vid_to_rid stored_map thing mapped in
    (end.1.0 ≡ looked.1)
    × Served stored_map whole commands gauges thing
        (text "SET")
        power
        groups
        looked
        (end.0, end.1.1)
process_flex_counter_event-Served_example =
    process_flex_counter_event-Served stored_map whole commands gauges thing (text "SET") power
      mapped groups plain_gauges (omega arith) (omega arith) groups-IsManager

-- A request to set a counter of a VID that is not known removes the counter.
unknown_test :
    (process_flex_counter_event stored_map whole commands
      (record { key = text "1S_STAT_GAUGE:oid:0x3000000000005"; op = text "SET"; values = power })
      (started, (gauges, polled) ∷ [])).1.1
    ≡ (gauges, record polled { collectors = [] }) ∷ []
unfolding process_flex_counter_event try_translate_vid_to_rid translate_vid_to_rid get_rid_for_vid
    otai_deserialize_object_id
unknown_test = refl

-- After a restart the counter of such a VID comes in, with what the variable happened to hold.
garbage_test :
    (reinit_counters stored_map whole
      (λ key. power)
      13
      (text "FLEX_COUNTER_TABLE:1S_STAT_GAUGE:oid:0x3000000000005" ∷ [])
      (started, [])).1.1
    ≡ (
      gauges,
      record (new_counter gauges) { collectors = (thing, record collector { rid = 13 }) ∷ [] },
    )
      ∷ []
unfolding reinit_counters try_translate_vid_to_rid translate_vid_to_rid get_rid_for_vid add_to
    otai_deserialize_object_id VidManager.object_type_query Virtual.object_type_query
    Virtual.type_bits type_text get_object_id_from_asic_key
garbage_test = refl
