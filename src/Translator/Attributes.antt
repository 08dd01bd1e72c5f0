-- ===== src/Translator/Attributes.antt =====
-- The overloads of syncd/VirtualOidTranslator.cpp for attributes and for object keys. What a throw
-- leaves of the caller's list is not kept.
pub mod One
pub mod Back
pub mod Kept
use sonic_otairedis.Common.{
  ℕ, Bool, true, false, List, [], ◌∷◌, Option, none, some, Result, ok, throws, Method, after, ◌==◌,
  if◌then◌else◌,
}
use sonic_otairedis.Otai.{ObjectTypes}
use sonic_otairedis.Metadata.{
  ValueType, type_object_id, type_object_list, ListOf, null_list, items, Attribute, AttrMeta,
  Metadata,
}
use sonic_otairedis.Redis.VidMap.{VidMap}
use sonic_otairedis.Translator.{
  Translator, translate_rid_to_vid, translate_rids, translate_vid_to_rid, translate_vids,
}

-- What an attribute holds of object ids.
pub data Ids : Type 0 where
  one_id : ℕ → Ids
  many_ids : ListOf ℕ → Ids
  no_ids : Bool → Ids

-- The switch over the type of the value; an attribute of another type may still be said to hold ids.
abbrev pub ids_by : ValueType → Bool → Attribute → Ids
ids_by type_object_id isoid a = one_id a.value.oid
ids_by type_object_list isoid a = many_ids a.value.objlist
ids_by _ isoid a = no_ids isoid

abbrev pub ids_of : AttrMeta → Attribute → Ids
ids_of md a = ids_by md.attrvaluetype md.isoidattribute a

abbrev pub with_oid : Attribute → ℕ → Attribute
with_oid a oid = record a { value = record a.value { oid = oid } }

abbrev pub with_objlist : Attribute → List ℕ → Attribute
with_objlist a oids = record a { value = record a.value { objlist = items oids } }

module _ {S : Type 0} (one : ℕ → Method S ℕ) (many : List ℕ → Method S (List ℕ)) where
  -- One attribute, with the translation of an id and of a list.
  pub translate_ids : Attribute → Ids → Method S Attribute
  translate_ids a (one_id oid) s =
      after (λ oid' s'. (ok (with_oid a oid'), s')) (one oid s).0 (one oid s).1
  translate_ids a (many_ids (null_list n)) s =
      if n == 0 then (ok a, s) else (throws "null pointer: object list", s)
  translate_ids a (many_ids (items oids)) s =
      after (λ oids' s'. (ok (with_objlist a oids'), s')) (many oids s).0 (many oids s).1
  translate_ids a (no_ids true) s = (throws "attribute is object id, but not processed, FIXME", s)
  translate_ids a (no_ids false) s = (ok a, s)

  -- The loop over the attributes.
  pub translate_attributes : (ℕ → Option AttrMeta) → List Attribute → Method S (List Attribute)
  unfolding translate_ids
  translate_attributes lookup [] s = (ok [], s)
  translate_attributes lookup (a ∷ rest) s = elim (lookup a.id) [
    | none ↦ (throws "unable to get metadata for object type", s)
    | some md ↦
        after
          (λ a' s'.
            after (λ rest' s''. (ok (a' ∷ rest'), s'')) (translate_attributes lookup rest s').0
              (translate_attributes lookup rest s').1)
          (translate_ids a (ids_of md a) s).0 (translate_ids a (ids_of md a) s).1
  ]

module _ ⦃t : ObjectTypes⦄ (m : VidMap) (meta : Metadata) where
  unfoldable pub translate_attributes_to_rids :
      ℕ → List Attribute → Method (Translator m) (List Attribute)
  unfolding translate_attributes
  translate_attributes_to_rids object_type attrs =
      translate_attributes (translate_vid_to_rid m) (translate_vids m)
        (meta.get_attr_metadata object_type) attrs

  unfoldable pub translate_attributes_to_vids :
      (ℕ → ℕ) → ℕ → ℕ → List Attribute → Bool → Method (Translator m) (List Attribute)
  unfolding translate_attributes
  translate_attributes_to_vids vendor_type object_type linecard_vid attrs translate_removed =
      translate_attributes
        (λ rid. translate_rid_to_vid m vendor_type rid linecard_vid translate_removed)
        (λ rids. translate_rids m vendor_type rids linecard_vid translate_removed)
        (meta.get_attr_metadata object_type) attrs

-- `tryTranslateVidToRid` of an object key, whose id is written where the translation does not throw.
module _ ⦃t : ObjectTypes⦄ (m : VidMap) where
  unfoldable pub try_translate_meta_key : ℕ × ℕ → Translator m → Bool × (ℕ × ℕ) × Translator m
  try_translate_meta_key (object_type, vid) s =
      let (r, s') = translate_vid_to_rid m vid s in
      (
        elim r [ throws message ↦ false | ok rid ↦ true ],
        (elim r [ throws message ↦ (object_type, vid) | ok rid ↦ (object_type, rid) ]),
        s',
      )
