-- ===== src/FlexCounter/Events.antt =====
-- processFlexCounterGroupEvent and processFlexCounterEvent of syncd/Syncd.cpp, on a request that was
-- popped, and syncd/FlexCounterReiniter.cpp, which makes the same calls from the keys in Redis. The
-- words for the operations stand in a header of sonic-swss-common. The variable `rid` of
-- prepareFlexCounterState has no value before it is written: `garbage` is what it holds.
pub mod Outcome
use sonic_otairedis.Common.{
  ℕ, List, [], ◌∷◌, Option, none, some, Result, ok, throws, Method, after, ◌==◌, if◌then◌else◌,
}
use sonic_otairedis.Serialize.ObjectId.{Text, otai_deserialize_object_id}
use sonic_otairedis.Serialize.Texts.{same_text, find_char, next, npos, take, drop}
use sonic_otairedis.Otai.{ObjectTypes}
use sonic_otairedis.Redis.VidMap.{VidMap}
use sonic_otairedis.Translator.{Translator, try_translate_vid_to_rid}
use sonic_otairedis.Reinit.{type_text, get_object_id_from_asic_key}
use sonic_otairedis.FlexCounter.{FieldNames}
use sonic_otairedis.FlexCounter.Manager.{
  FlexCounterManager, add_plugin, remove_plugins, add_to, remove_from,
}

pub record Commands : Type 0 where
  pub set_command : Text
  pub del_command : Text

-- A request: its key, its operation, and its fields with their values.
pub record Request : Type 0 where
  pub key : Text
  pub op : Text
  pub values : List (Text × Text)

module _ (names : FieldNames) (commands : Commands) where
  unfoldable pub process_flex_counter_group_event : Request → Method FlexCounterManager (Unit {0})
  process_flex_counter_group_event q m =
      if same_text q.op commands.set_command
      then add_plugin names q.key q.values m
      else if same_text q.op commands.del_command
      then (ok tt, remove_plugins q.key m)
      else (ok tt, m)

module _ (names : FieldNames) (get_attributes : Text → List (Text × Text)) where
  abbrev get_group_name_from_group_key : Text → Text
  get_group_name_from_group_key key = drop (next (find_char b':' 0 key)) key

  unfoldable pub reinit_groups : List Text → Method FlexCounterManager (Unit {0})
  reinit_groups [] m = (ok tt, m)
  reinit_groups (key ∷ keys) m =
      let added = add_plugin names (get_group_name_from_group_key key) (get_attributes key) m in
      after (λ done. reinit_groups keys) added.0 added.1

-- `m_translator` and `m_manager`.
abbrev pub Counters : VidMap → Type 0
Counters v = Translator v × FlexCounterManager

module _ ⦃t : ObjectTypes⦄ (v : VidMap) (tokenize : Text → List Text) where
  module _ (commands : Commands) where
    -- A request on a VID that is not known is one to remove it.
    pub serve_counter : ℕ → Text → Request → Option ℕ → Method FlexCounterManager (Unit {0})
    serve_counter vid group_name q none m = (ok tt, remove_from vid group_name m)
    serve_counter vid group_name q (some rid) m =
        if same_text q.op commands.set_command
        then add_to tokenize vid rid group_name q.values m
        else if same_text q.op commands.del_command
        then (ok tt, remove_from vid group_name m)
        else (ok tt, m)

    pub translate_and_serve : Text → Request → ℕ → Method (Counters v) (Unit {0})
    unfolding serve_counter try_translate_vid_to_rid
    translate_and_serve group_name q vid (tr, m) =
        let looked = try_translate_vid_to_rid v vid tr in
        let served = serve_counter vid group_name q looked.0 m in (served.0, (looked.1, served.1))

    unfoldable pub process_flex_counter_event : Request → Method (Counters v) (Unit {0})
    unfolding translate_and_serve
    process_flex_counter_event q w =
        let delimiter = find_char b':' 0 q.key in
        if delimiter == npos
        then (ok tt, w)
        else after (translate_and_serve (take delimiter q.key) q)
            (otai_deserialize_object_id (drop (next delimiter) q.key)) w

  module _ (get_attributes : Text → List (Text × Text)) (garbage : ℕ) where
    abbrev known_or : Option ℕ → ℕ
    known_or none = garbage
    known_or (some rid) = rid

    -- The body of the loop, for a VID that was read from the key.
    restore_counter : Text → ℕ → Method (Counters v) (Unit {0})
    unfolding try_translate_vid_to_rid
    restore_counter key vid (tr, m) =
        let looked = try_translate_vid_to_rid v vid tr in
        let added =
          add_to tokenize vid (known_or looked.0) (type_text key) (get_attributes key) m in
        (added.0, (looked.1, added.1))

    unfoldable pub reinit_counters : List Text → Method (Counters v) (Unit {0})
    unfolding restore_counter
    reinit_counters [] w = (ok tt, w)
    reinit_counters (key ∷ keys) w =
        after
          (λ vid w'.
            after (λ done. reinit_counters keys) (restore_counter key vid w').0
              (restore_counter key vid w').1)
          (otai_deserialize_object_id (get_object_id_from_asic_key key)) w
