-- ===== src/Reinit/Soft.antt =====
-- syncd/SoftReiniter.cpp: the hardware has kept its objects, and their attributes are set again. What
-- it has in common with `SingleReiniter` is used from there. `readAsicState` sorts the keys by
-- linecard, and comes as an argument; the reiniters of the flex counters are left out.
pub mod Linecards
pub mod Stored
pub mod Whole
use Prim.Native.String.{String}
use sonic_otairedis.Common.{
  ℕ, Bool, true, false, not, List, [], ◌∷◌, Option, none, some, Result, ok, throws, Method, after,
  ◌==◌, if◌then◌else◌,
}
use sonic_otairedis.Common.Assoc.{find, insert}
use sonic_otairedis.Otai.{ObjectTypes, Status, is_success}
use sonic_otairedis.Metadata.{Attribute, AttrMeta, Metadata}
use sonic_otairedis.Serialize.ObjectId.{Text, otai_serialize_object_id, otai_deserialize_object_id}
use sonic_otairedis.Serialize.Texts.{same_text}
use sonic_otairedis.Oid.VidManager
use sonic_otairedis.Requests.{Vendor}
use sonic_otairedis.Reinit.{ObjectIdMap, StringHash, AsicState, prepare_asic_state}
use sonic_otairedis.Reinit.Objects.{Reiniter}
use sonic_otairedis.Reinit.BoardMode.{LinecardAttrs, flag_attr, set_board_mode}
use sonic_otairedis.Reinit.Linecards.{
  one_linecard, linecard_vid, set_on_linecard, set_left, previous_rid, stop_pre_config_linecards,
}

-- `memset` of the attribute before every `get` of the board mode.
abbrev cleared : List Attribute → List Attribute
cleared [] = []
cleared (a ∷ rest) = record a { value = record a.value { chardata = [] } } ∷ rest

abbrev pub clearing : {V : Type 0} → Vendor V → Vendor V
clearing vendor = record vendor { get = λ ty rid attrs. vendor.get ty rid (cleared attrs) }

-- What the loop over the attributes of the linecard finds.
pub record Chosen : Type 0 where
  pub mode : Option Text
  pub attrs : List Attribute

module _ (meta : Metadata) where
  -- The attributes that are not CREATE_ONLY.
  pub settable : ℕ → List Attribute → Result (List Attribute)
  settable object_type [] = ok []
  settable object_type (a ∷ rest) = elim (meta.get_attr_metadata object_type a.id) [
    | none ↦ throws "null pointer: metadata"
    | some md ↦ elim (settable object_type rest) [
      | throws message ↦ throws message
      | ok later ↦ ok (if md.create_only then later else a ∷ later)
    ]
  ]

  choose_one : ℕ → AttrMeta → Attribute → Chosen → Chosen
  choose_one board_mode md a later =
      if a.id == board_mode
      then record later {
        mode = elim later.mode [ none ↦ some a.value.chardata | some mode ↦ some mode ];
      }
      else if md.create_only
      then later
      else record later { attrs = a ∷ later.attrs }

  -- The last board mode on the list is the one that stays.
  pub choose : ℕ → ℕ → List Attribute → Result Chosen
  unfolding choose_one
  choose board_mode linecard [] = ok (record { mode = none; attrs = [] })
  choose board_mode linecard (a ∷ rest) = elim (meta.get_attr_metadata linecard a.id) [
    | none ↦ throws "null pointer: metadata"
    | some md ↦ elim (choose board_mode linecard rest) [
      | throws message ↦ throws message
      | ok later ↦ ok (choose_one board_mode md a later)
    ]
  ]

-- The attributes of an object one by one; what fails is logged.
pub set_attributes : {V : Type 0} → Vendor V → ℕ → ℕ → List Attribute → V → V
set_attributes vendor object_type rid [] hw = hw
set_attributes vendor object_type rid (a ∷ rest) hw =
    set_attributes vendor object_type rid rest (vendor.set object_type rid (a ∷ []) hw).1

module _ ⦃t : ObjectTypes⦄ (meta : Metadata) {V : Type 0} (vendor : Vendor V) (asic : AsicState)
    (vid_to_rid : ObjectIdMap) where
  open t use {null_object_id}

  -- The object keeps its RID.
  pub keep_object : ℕ → ℕ → List Attribute → ℕ → Method (Reiniter V) ℕ
  unfolding set_attributes settable
  keep_object object_type vid attrs rid s = elim (settable meta object_type attrs) [
    | throws message ↦ (throws message, s)
    | ok chosen ↦ (
      ok rid,
      record s {
        hardware = set_attributes vendor object_type rid chosen s.hardware;
        translated_v2r = insert ◌==◌ vid rid s.translated_v2r;
        translated_r2v = insert ◌==◌ rid vid s.translated_r2v;
      },
    )
  ]

  pub soft_object : ℕ → ℕ → Method (Reiniter V) ℕ
  unfolding keep_object
  soft_object vid object_type s = elim (find same_text (otai_serialize_object_id vid) asic.oids) [
    | none ↦ (throws "failed to find VID in OIDs map", s)
    | some asic_key ↦ elim (find same_text asic_key asic.attributes_lists) [
      | none ↦ (throws "null pointer: attribute list", s)
      | some attrs ↦ elim (find ◌==◌ vid vid_to_rid) [
        | none ↦ (throws "failed to find VID in VIDTORID map", s)
        | some rid ↦ keep_object object_type vid attrs rid s
      ]
    ]
  ]

  pub soft_single_vid : ℕ → Method (Reiniter V) ℕ
  unfolding soft_object
  soft_single_vid vid s =
      if vid == null_object_id
      then (ok null_object_id, s)
      else elim (find ◌==◌ vid s.translated_v2r) [
        | some rid ↦ (ok rid, s)
        | none ↦ after (soft_object vid) (VidManager.object_type_query vid) s
      ]

  pub soft_each : StringHash → Method (Reiniter V) (Unit {0})
  unfolding soft_single_vid
  soft_each [] s = (ok tt, s)
  soft_each ((str_object_id, asic_key) ∷ rest) s =
      after
        (λ vid s'.
          after (λ rid. soft_each rest) (soft_single_vid vid s').0 (soft_single_vid vid s').1)
        (otai_deserialize_object_id str_object_id) s

  unfoldable pub soft_oids : Method (Reiniter V) (Unit {0})
  unfolding soft_each
  soft_oids s = soft_each asic.oids s
