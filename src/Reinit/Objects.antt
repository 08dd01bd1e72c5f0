-- ===== src/Reinit/Objects.antt =====
-- `processSingleVid` and `processAttributesForOids`, which call each other, and `processOids`.
-- The source updates the ids on a list in place, and an attribute keeps no pointer here, so
-- `updateNotificationsPointers` changes nothing. `createObject` is always true: the branch for false,
-- which sets `attrs_left`, is never taken and is left out.
pub mod Renamed
pub mod Recreated
pub mod Complete
pub mod Keeps
use sonic_otairedis.Common.{
  ℕ, zero, suc, Bool, true, false, ◌||◌, List, [], ◌∷◌, Option, none, some, Result, ok, throws,
  Method, after, ltb, ◌==◌, if◌then◌else◌,
}
use sonic_otairedis.Common.Assoc.{find, insert}
use sonic_otairedis.Otai.{ObjectTypes, Status, success}
use sonic_otairedis.Metadata.{ListOf, null_list, items, Attribute, AttrMeta, Metadata}
use sonic_otairedis.Serialize.ObjectId.{Text, otai_serialize_object_id, otai_deserialize_object_id}
use sonic_otairedis.Serialize.Texts.{same_text}
use sonic_otairedis.Oid.VidManager
use sonic_otairedis.Translator.Attributes.{
  Ids, one_id, many_ids, no_ids, ids_by, with_oid, with_objlist,
}
use sonic_otairedis.Requests.{Vendor}
use sonic_otairedis.Reinit.{ObjectIdMap, StringHash, AsicState}

pub record Reiniter (V : Type 0) : Type 0 where
  pub translated_v2r : ObjectIdMap
  pub translated_r2v : ObjectIdMap
  pub linecard_rid : ℕ
  pub hardware : V

-- What the attribute holds of ids; one of another type that may hold ids is refused.
abbrev pub oids_of : AttrMeta → Attribute → Ids
oids_of md a = ids_by md.attrvaluetype (ltb 0 md.allowedobjecttypeslength) a

module _ {S : Type 0} (one : ℕ → Method S ℕ) where
  pub process_ids : List ℕ → Method S (List ℕ)
  process_ids [] s = (ok [], s)
  process_ids (vid ∷ vids) s =
      after
        (λ rid s'.
          after (λ rids s''. (ok (rid ∷ rids), s'')) (process_ids vids s').0
            (process_ids vids s').1)
        (one vid s).0 (one vid s).1

  pub process_value : Attribute → Ids → Method S Attribute
  unfolding process_ids
  process_value a (one_id oid) s =
      after (λ rid s'. (ok (with_oid a rid), s')) (one oid s).0 (one oid s).1
  process_value a (many_ids (null_list zero)) s = (ok a, s)
  process_value a (many_ids (null_list (suc n))) s = (throws "null pointer: object list", s)
  process_value a (many_ids (items oids)) s =
      after (λ rids s'. (ok (with_objlist a rids), s')) (process_ids oids s).0
        (process_ids oids s).1
  process_value a (no_ids true) s =
      (throws "attribute is oid attribute, but not processed, FIXME", s)
  process_value a (no_ids false) s = (ok a, s)

  module _ (meta : Metadata) where
    pub process_attributes_for_oids : ℕ → List Attribute → Method S (List Attribute)
    unfolding process_value
    process_attributes_for_oids object_type [] s = (ok [], s)
    process_attributes_for_oids object_type (a ∷ rest) s =
        elim (meta.get_attr_metadata object_type a.id) [
          | none ↦ (throws "unable to get metadata for object type", s)
          | some md ↦
              after
                (λ a' s'.
                  after (λ rest' s''. (ok (a' ∷ rest'), s''))
                    (process_attributes_for_oids object_type rest s').0
                    (process_attributes_for_oids object_type rest s').1)
                (process_value a (oids_of md a) s).0 (process_value a (oids_of md a) s).1
        ]

module _ (meta : Metadata) where
  -- The flags MANDATORY_ON_CREATE and CREATE_ONLY; metadata that are NULL were refused before.
  abbrev pub needed_on_create : ℕ → Attribute → Bool
  needed_on_create object_type a = elim (meta.get_attr_metadata object_type a.id) [
    | none ↦ false
    | some md ↦ md.mandatory_on_create || md.create_only
  ]

  -- `attrs`: what the object is created with.
  abbrev pub attrs_for_create : ℕ → List Attribute → List Attribute
  attrs_for_create object_type [] = []
  attrs_for_create object_type (a ∷ rest) =
      if needed_on_create object_type a
      then a ∷ attrs_for_create object_type rest
      else attrs_for_create object_type rest

module _ ⦃t : ObjectTypes⦄ (meta : Metadata) {V : Type 0} (vendor : Vendor V) (asic : AsicState)
    (vid_to_rid : ObjectIdMap) where
  open t use {null_object_id}

  pub save_object : ℕ → Status × ℕ → Method (Reiniter V) ℕ
  save_object vid (success, rid) s = (
    ok rid,
    record s {
      translated_v2r = insert ◌==◌ vid rid s.translated_v2r;
      translated_r2v = insert ◌==◌ rid vid s.translated_r2v;
    },
  )
  save_object vid (status, rid) s = (throws "failed to create object", s)

  pub create_object : ℕ → ℕ → List Attribute → Method (Reiniter V) ℕ
  unfolding save_object
  create_object object_type vid attrs s = elim (find ◌==◌ vid vid_to_rid) [
    | none ↦ (throws "failed to find VID in VIDTORID map", s)
    | some previous ↦
        let (answer, hw) =
          vendor.create object_type s.linecard_rid (attrs_for_create meta object_type attrs)
            s.hardware in
        save_object vid answer (record s { hardware = hw })
  ]

  pub process_object : (ℕ → Method (Reiniter V) ℕ) → ℕ → ℕ → Method (Reiniter V) ℕ
  unfolding process_attributes_for_oids create_object
  process_object one vid object_type s =
      elim (find same_text (otai_serialize_object_id vid) asic.oids) [
        | none ↦ (throws "failed to find VID in OIDs map", s)
        | some asic_key ↦ elim (find same_text asic_key asic.attributes_lists) [
          | none ↦ (throws "null pointer: attribute list", s)
          | some attrs ↦
              after (create_object object_type vid)
                (process_attributes_for_oids one meta object_type attrs s).0
                (process_attributes_for_oids one meta object_type attrs s).1
        ]
      ]

  -- `depth` is the room on the stack: objects that refer to each other in a circle take all of it.
  unfoldable pub process_single_vid : ℕ → ℕ → Method (Reiniter V) ℕ
  unfolding process_object
  process_single_vid zero vid s = (throws "stack overflow", s)
  process_single_vid (suc depth) vid s = elim (vid == null_object_id) [
    | true ↦ (ok null_object_id, s)
    | false ↦ elim (find ◌==◌ vid s.translated_v2r) [
      | some rid ↦ (ok rid, s)
      | none ↦
          after (process_object (process_single_vid depth) vid) (VidManager.object_type_query vid) s
    ]
  ]

  pub process_each : ℕ → StringHash → Method (Reiniter V) (Unit {0})
  unfolding process_single_vid
  process_each depth [] s = (ok tt, s)
  process_each depth ((str_object_id, asic_key) ∷ rest) s =
      after
        (λ vid s'.
          after (λ rid. process_each depth rest) (process_single_vid depth vid s').0
            (process_single_vid depth vid s').1)
        (otai_deserialize_object_id str_object_id) s

  unfoldable pub process_oids : ℕ → Method (Reiniter V) (Unit {0})
  unfolding process_each
  process_oids depth s = process_each depth asic.oids s
