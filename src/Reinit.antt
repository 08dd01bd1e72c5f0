-- ===== src/Reinit.antt =====
-- syncd/SingleReiniter.cpp: the objects of ASIC_STATE are created again on hardware that has lost
-- them. This module reads the keys; the children create the objects and compare the maps.
pub mod Keys
pub mod Objects
pub mod BoardMode
pub mod Linecards
pub mod Check
pub mod HardReinit
pub mod Soft
use sonic_otairedis.Common.{
  ℕ, true, false, ◌+◌, ◌-◌, ◌^◌, ◌%◌, List, [], ◌∷◌, Result, ok, throws, ◌==◌, if◌then◌else◌,
}
use sonic_otairedis.Common.Assoc.{insert}
use sonic_otairedis.Otai.{ObjectTypes}
use sonic_otairedis.Metadata.{Attribute}
use sonic_otairedis.Serialize.ObjectId.{Text}
use sonic_otairedis.Serialize.Texts.{same_text, find_char, next, substr, drop}

-- `ObjectIdMap`, `StringHash` and the lists of attributes by key.
abbrev pub ObjectIdMap : Type 0
ObjectIdMap = List (ℕ × ℕ)

abbrev pub StringHash : Type 0
StringHash = List (Text × Text)

-- What `prepareAsicState` fills: objects and linecards by the text of their VID.
pub record AsicState : Type 0 where
  pub oids : StringHash
  pub linecards : StringHash
  pub attributes_lists : List (Text × List Attribute)

-- The text of the type in a key is what stands between its first two colons.
abbrev type_start : Text → ℕ
type_start key = next (find_char b':' 0 key)

abbrev type_end : Text → ℕ
type_end key = find_char b':' (type_start key) (drop (type_start key) key)

unfoldable pub type_text : Text → Text
type_text key = substr (type_start key) ((type_end key + 2 ^ 64 - type_start key) % 2 ^ 64) key

unfoldable pub get_object_id_from_asic_key : Text → Text
get_object_id_from_asic_key key = drop (next (type_end key)) key

-- `otai_deserialize_object_type` and `redisGetAttributesFromAsicKey` are arguments.
module _ ⦃t : ObjectTypes⦄ (deserialize_object_type : Text → Result ℕ) where
  open t use {linecard, is_object_type_valid}

  pub get_object_type_from_asic_key : Text → Result ℕ
  unfolding type_text
  get_object_type_from_asic_key key = elim (deserialize_object_type (type_text key)) [
    | throws message ↦ throws message
    | ok object_type ↦
        if is_object_type_valid object_type then ok object_type else throws "invalid object type"
  ]

  module _ (get_attributes : ℕ → Text → Result (List Attribute)) where
    -- The body of the loop over the keys, for a type and a list that were read.
    keep : Text → ℕ → List Attribute → AsicState → AsicState
    unfolding get_object_id_from_asic_key
    keep key object_type attrs s =
        let id = get_object_id_from_asic_key key in
        record {
          oids = insert same_text id key s.oids;
          linecards =
              if object_type == linecard then insert same_text id key s.linecards else s.linecards;
          attributes_lists = insert same_text key attrs s.attributes_lists;
        }

    pub prepare_asic_state : List Text → AsicState → Result AsicState
    unfolding keep get_object_type_from_asic_key
    prepare_asic_state [] s = ok s
    prepare_asic_state (key ∷ keys) s = elim (get_object_type_from_asic_key key) [
      | throws message ↦ throws message
      | ok object_type ↦ elim (get_attributes object_type key) [
        | throws message ↦ throws message
        | ok attrs ↦ prepare_asic_state keys (keep key object_type attrs s)
      ]
    ]
