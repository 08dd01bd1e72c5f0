-- ===== src/FlexCounter.antt =====
-- syncd/FlexCounter.cpp: the collectors of one group of counters, and how often they are polled. The
-- thread is a sequence of cycles; its locks are left out. The names of the fields stand in a header
-- of sonic-swss-common, as does `tokenize`, and are arguments. `m_statsMode` has no value at first.
pub mod Cycle
pub mod Manager
pub mod Events
use Prim.Native.String.{String}
use sonic_otairedis.Common.{
  ℕ, zero, suc, ◌+◌, ◌*◌, ◌-◌, ◌^◌, ◌%◌, Bool, true, false, not, ◌&&◌, ◌||◌, List, [], ◌∷◌, Option,
  none, some, Result, ok, throws, Method, after, ltb, leb, ◌==◌, if◌then◌else◌,
}
use sonic_otairedis.Common.Assoc.{insert, remove}
use sonic_otairedis.Serialize.ObjectId.{Text, text}
use sonic_otairedis.Serialize.Stoi.{stoi}
use sonic_otairedis.Serialize.Texts.{same_text}
use sonic_otairedis.Otai.{ObjectTypes}
use sonic_otairedis.Oid.VidManager

pub data PropertyGroup : Type 0 where
  group_null group_attr group_gauge group_stat group_max : PropertyGroup

pub data StatsMode : Type 0 where
  mode_read mode_read_and_clear : StatsMode

pub record FieldNames : Type 0 where
  pub poll_interval_field : Text
  pub flex_counter_status_field : Text
  pub stats_mode_field : Text
  pub stats_mode_read : Text
  pub stats_mode_read_and_clear : Text

-- What a collector is made with; its class is that of the group.
pub record Collector : Type 0 where
  pub group : PropertyGroup
  pub object_type : ℕ
  pub vid : ℕ
  pub rid : ℕ
  pub counter_ids : List Text

pub record FlexCounter : Type 0 where
  pub poll_interval : ℕ
  pub stats_mode : Option StatsMode
  pub enable : Bool
  pub is_discarded : Bool
  pub prop_group : PropertyGroup
  pub collectors : List (ℕ × Collector)

-- s.find(p) != npos
abbrev starts_with : Text → Text → Bool
starts_with [] s = true
starts_with (c ∷ cs) [] = false
starts_with (c ∷ cs) (d ∷ ds) = (c == d) && starts_with cs ds

abbrev has_part : Text → Text → Bool
has_part p [] = starts_with p []
has_part p (c ∷ cs) = starts_with p (c ∷ cs) || has_part p cs

abbrev group_of : Text → PropertyGroup
group_of instance_id =
    if has_part (text "1S_STAT_STATUS") instance_id
    then group_attr
    else if has_part (text "1S_STAT_GAUGE") instance_id
    then group_gauge
    else if has_part (text "1S_STAT_COUNTER") instance_id
    then group_stat
    else group_null

-- The constructor.
abbrev pub new_counter : Text → FlexCounter
new_counter instance_id = record {
  poll_interval = 0;
  stats_mode = none;
  enable = false;
  is_discarded = false;
  prop_group = group_of instance_id;
  collectors = [];
}

module _ (names : FieldNames) where
  abbrev set_status : Text → FlexCounter → FlexCounter
  set_status status fc =
      if same_text status (text "enable")
      then record fc { enable = true }
      else if same_text status (text "disable")
      then record fc { enable = false }
      else fc

  abbrev set_stats_mode : Text → FlexCounter → FlexCounter
  set_stats_mode mode fc =
      if same_text mode names.stats_mode_read
      then record fc { stats_mode = some mode_read }
      else if same_text mode names.stats_mode_read_and_clear
      then record fc { stats_mode = some mode_read_and_clear }
      else fc

  abbrev pub set_poll_interval : FlexCounter → Result ℕ → Result (Unit {0}) × FlexCounter
  set_poll_interval fc (ok n) = (ok tt, record fc { poll_interval = n })
  set_poll_interval fc (throws message) = (throws message, fc)

  pub apply_field : Text × Text → Method FlexCounter (Unit {0})
  apply_field (field, value) fc =
      if same_text field names.poll_interval_field
      then set_poll_interval fc (stoi value)
      else if same_text field names.flex_counter_status_field
      then (ok tt, set_status value fc)
      else if same_text field names.stats_mode_field
      then (ok tt, set_stats_mode value fc)
      else (ok tt, fc)

  pub apply_fields : List (Text × Text) → Method FlexCounter (Unit {0})
  unfolding apply_field
  apply_fields [] fc = (ok tt, fc)
  apply_fields (f ∷ rest) fc =
      after (λ done. apply_fields rest) (apply_field f fc).0 (apply_field f fc).1

  pub add_counter_plugin : List (Text × Text) → Method FlexCounter (Unit {0})
  unfolding apply_fields
  add_counter_plugin values fc = apply_fields values (record fc { is_discarded = false })

abbrev pub remove_counter_plugins : FlexCounter → FlexCounter
remove_counter_plugins fc = record fc { is_discarded = true }

abbrev pub all_ids_empty : FlexCounter → Bool
all_ids_empty fc = elim fc.collectors [ [] ↦ true | _ ∷ _ ↦ false ]

-- `isDiscarded`; the plugins are always empty.
abbrev pub discarded : FlexCounter → Bool
discarded fc = all_ids_empty fc && fc.is_discarded

abbrev pub remove_counter : ℕ → FlexCounter → FlexCounter
remove_counter vid fc = record fc { collectors = remove ◌==◌ vid fc.collectors }

abbrev collects : PropertyGroup → Bool
collects group_null = false
collects group_attr = true
collects group_gauge = true
collects group_stat = true
collects group_max = false

module _ (tokenize : Text → List Text) where
  -- Each value makes a collector, which takes the place of the one before.
  abbrev pub add_collectors : ℕ → ℕ → ℕ → List (Text × Text) → FlexCounter → FlexCounter
  add_collectors object_type vid rid [] fc = fc
  add_collectors object_type vid rid ((field, value) ∷ rest) fc =
      add_collectors object_type vid rid rest (
        if collects fc.prop_group
        then record fc {
          collectors =
              insert ◌==◌ vid
                (record {
                  group = fc.prop_group;
                  object_type = object_type;
                  vid = vid;
                  rid = rid;
                  counter_ids = tokenize value;
                })
                fc.collectors;
        }
        else fc)

  module _ ⦃t : ObjectTypes⦄ where
    abbrev pub add_counter : ℕ → ℕ → List (Text × Text) → Method FlexCounter (Unit {0})
    add_counter vid rid values fc =
        after (λ object_type s. (ok tt, add_collectors object_type vid rid values s))
          (VidManager.object_type_query vid) fc
