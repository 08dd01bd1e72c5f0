-- ===== src/FlexCounter/Manager.antt =====
-- syncd/FlexCounterManager.cpp: the `FlexCounter`s by the text of their group. A `FlexCounter` that
-- leaves the map ends its thread. The mutex is left out.
pub mod Kept
pub mod Counters
use sonic_otairedis.Common.{
  ℕ, Bool, List, [], ◌∷◌, Option, none, some, Result, ok, throws, Method, if◌then◌else◌,
}
use sonic_otairedis.Common.Assoc.{find, insert, remove}
use sonic_otairedis.Serialize.ObjectId.{Text}
use sonic_otairedis.Serialize.Texts.{same_text}
use sonic_otairedis.Otai.{ObjectTypes}
use sonic_otairedis.FlexCounter.{
  FieldNames, FlexCounter, new_counter, add_counter_plugin, remove_counter_plugins, discarded,
  remove_counter, add_counter,
}

abbrev pub FlexCounterManager : Type 0
FlexCounterManager = List (Text × FlexCounter)

abbrev pub get_instance : Text → FlexCounterManager → FlexCounter × FlexCounterManager
get_instance instance_id m = elim (find same_text instance_id m) [
  | some fc ↦ (fc, m)
  | none ↦ (new_counter instance_id, insert same_text instance_id (new_counter instance_id) m)
]

abbrev pub remove_instance : Text → FlexCounterManager → FlexCounterManager
remove_instance instance_id m = remove same_text instance_id m

-- A `FlexCounter` after a call that may have left it with nothing to do.
abbrev pub settle : Text → FlexCounter → FlexCounterManager → FlexCounterManager
settle instance_id fc m =
    if discarded fc
    then remove_instance instance_id (insert same_text instance_id fc m)
    else insert same_text instance_id fc m

abbrev pub remove_plugins : Text → FlexCounterManager → FlexCounterManager
remove_plugins instance_id m =
    let instance' = get_instance instance_id m in
    settle instance_id (remove_counter_plugins instance'.0) instance'.1

abbrev pub remove_from : ℕ → Text → FlexCounterManager → FlexCounterManager
remove_from vid instance_id m =
    let instance' = get_instance instance_id m in
    settle instance_id (remove_counter vid instance'.0) instance'.1

unfoldable pub add_plugin :
    FieldNames → Text → List (Text × Text) → Method FlexCounterManager (Unit {0})
unfolding add_counter_plugin
add_plugin names instance_id values m =
    let instance' = get_instance instance_id m in
    let changed = add_counter_plugin names values instance'.0 in
    (changed.0, insert same_text instance_id changed.1 instance'.1)

-- What the end of `addCounter` does is not done where the call of the `FlexCounter` threw.
abbrev pub finish_add :
    Text
    → FlexCounterManager
    → Result (Unit {0}) × FlexCounter
    → Result (Unit {0}) × FlexCounterManager
finish_add instance_id m (ok done, fc) = (ok tt, settle instance_id fc m)
finish_add instance_id m (throws message, fc) = (throws message, insert same_text instance_id fc m)

-- The calls that the requests on flex counters make.
pub data Call : Type 0 where
  call_add_plugin : Text → List (Text × Text) → Call
  call_remove_plugins : Text → Call
  call_add : ℕ → ℕ → Text → List (Text × Text) → Call
  call_remove : ℕ → Text → Call
  call_remove_instance : Text → Call
  call_remove_all : Call

module _ ⦃t : ObjectTypes⦄ (tokenize : Text → List Text) where
  unfoldable pub add_to : ℕ → ℕ → Text → List (Text × Text) → Method FlexCounterManager (Unit {0})
  add_to vid rid instance_id values m =
      let instance' = get_instance instance_id m in
      finish_add instance_id instance'.1 (add_counter tokenize vid rid values instance'.0)

  module _ (names : FieldNames) where
    abbrev pub step : Call → FlexCounterManager → FlexCounterManager
    step (call_add_plugin instance_id values) m = (add_plugin names instance_id values m).1
    step (call_remove_plugins instance_id) m = remove_plugins instance_id m
    step (call_add vid rid instance_id values) m = (add_to vid rid instance_id values m).1
    step (call_remove vid instance_id) m = remove_from vid instance_id m
    step (call_remove_instance instance_id) m = remove_instance instance_id m
    step call_remove_all m = []

    abbrev pub run : List Call → FlexCounterManager → FlexCounterManager
    run [] m = m
    run (c ∷ cs) m = run cs (step c m)
