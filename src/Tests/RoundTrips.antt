-- ===== src/Tests/RoundTrips.antt =====
-- Lists of RIDs and attributes with RIDs, translated to VIDs and back.
use sonic_otairedis.Common.{ℕ, ◌≡◌, refl, subst, false, arith, List, [], ◌∷◌, some, ok}
use sonic_otairedis.Serialize.ObjectId.{otai_serialize_object_id, otai_deserialize_object_id}
use sonic_otairedis.Oid.Virtual
use sonic_otairedis.Redis.Client.{get_rid_for_vid, get_vid_for_rid, insert_vid_and_rid, increment}
use sonic_otairedis.Translator.{
  Translator, insert_rid_and_vid, translate_vid_to_rid, translate_rid_to_vid, translate_rids,
  translate_vids,
}
use sonic_otairedis.Translator.Coherence.{Coherent}
use sonic_otairedis.Translator.Linked.{Linked}
use sonic_otairedis.Translator.RoundTrip.{translate_rids_back}
use sonic_otairedis.Tests.World.{
  types, types-IsOtai, no_objects, stored_map, stored_map-IsVidMap, started,
}
use sonic_otairedis.Metadata.{items, Attribute, AttrMeta}
use sonic_otairedis.Tests.Checks.{plain, ports, meta}
use sonic_otairedis.Translator.Attributes.{
  ids_of, translate_attributes_to_rids, translate_attributes_to_vids, try_translate_meta_key,
}
use sonic_otairedis.Translator.Attributes.Back.{AllSmallIds, translate_attributes_back}
use sonic_otairedis.Translator.Attributes.One.{SmallIds}

abbrev card : ℕ
card = 0x0001000000000000

-- Translation of RIDs and back, from an empty database; the vendor gives every RID the type 3.
abbrev vendor_type : ℕ → ℕ
vendor_type rid = 3

started-Coherent : Coherent stored_map started
started-Coherent = record { rids = λ r v e. cc; vids = λ v r e. cc }

no_objects-Linked : Linked stored_map no_objects
unfolding get_vid_for_rid get_rid_for_vid
no_objects-Linked = record {
  back = λ rid vid e ne. absurd (ground arith);
  old = λ rid vid e ne. absurd (ground arith);
}

abbrev one : Translator stored_map
one = (translate_rid_to_vid stored_map vendor_type 77 card false started).1

abbrev first : ℕ
first = 0x0003000000000001

abbrev second : ℕ
second = 0x0003000000000002

first_test : translate_rid_to_vid stored_map vendor_type 77 card false started ≡ (ok first, one)
unfolding translate_rid_to_vid get_vid_for_rid Virtual.allocate_new_object_id
    Virtual.otai_object_type_query Virtual.type_bits increment Virtual.construct_object_id
    Virtual.linecard_bits
first_test = refl

abbrev two : Translator stored_map
two = (translate_rids stored_map vendor_type (77 ∷ 78 ∷ 77 ∷ []) card false started).1

list_test :
    translate_rids stored_map vendor_type (77 ∷ 78 ∷ 77 ∷ []) card false started
    ≡ (ok (first ∷ second ∷ first ∷ []), two)
unfolding translate_rids translate_rid_to_vid insert_rid_and_vid insert_vid_and_rid
    otai_serialize_object_id otai_deserialize_object_id get_vid_for_rid
    Virtual.allocate_new_object_id Virtual.otai_object_type_query Virtual.type_bits increment
    Virtual.construct_object_id Virtual.linecard_bits
list_test = refl

translate_rids_back_example :
    (translate_vids stored_map (first ∷ second ∷ first ∷ []) two).0 ≡ ok (77 ∷ 78 ∷ 77 ∷ [])
translate_rids_back_example =
    translate_rids_back stored_map stored_map-IsVidMap types-IsOtai vendor_type card
      (77 ∷ 78 ∷ 77 ∷ []) started (first ∷ second ∷ first ∷ []) two
      (omega arith, (omega arith, (omega arith, tt))) started-Coherent no_objects-Linked list_test

abbrev members : List ℕ → List Attribute
members oids = record { id = 2; value = record plain { objlist = items oids } } ∷ []

abbrev three : Translator stored_map
three =
    (translate_attributes_to_vids stored_map meta vendor_type 3 card (members (77 ∷ 0 ∷ [])) false
      started).1

forth_test :
    translate_attributes_to_vids stored_map meta vendor_type 3 card
      (members (77 ∷ 0 ∷ []))
      false
      started
    ≡ (ok (members (first ∷ 0 ∷ [])), three)
unfolding translate_attributes_to_vids translate_rids translate_rid_to_vid get_vid_for_rid
    Virtual.allocate_new_object_id Virtual.otai_object_type_query Virtual.type_bits increment
    Virtual.construct_object_id Virtual.linecard_bits
forth_test = refl

members_small :
    AllSmallIds stored_map stored_map-IsVidMap types-IsOtai vendor_type card
      (meta.get_attr_metadata 3)
      (members (77 ∷ 0 ∷ []))
members_small = (
  (λ md e.
      subst
        (λ z.
          SmallIds stored_map stored_map-IsVidMap types-IsOtai vendor_type card
            (ids_of z (record { id = 2; value = record plain { objlist = items (77 ∷ 0 ∷ []) } })))
        (known md e) (omega arith, (omega arith, tt))),
  tt,
)
  where
    known : (md : AttrMeta) → meta.get_attr_metadata 3 2 ≡ some md → ports ≡ md
    known md e = ground arith

translate_attributes_back_example :
    (translate_attributes_to_rids stored_map meta 3 (members (first ∷ 0 ∷ [])) three).0
    ≡ ok (members (77 ∷ 0 ∷ []))
translate_attributes_back_example =
    translate_attributes_back stored_map stored_map-IsVidMap types-IsOtai vendor_type card meta 3
      (members (77 ∷ 0 ∷ [])) (members (first ∷ 0 ∷ [])) started three members_small
      started-Coherent no_objects-Linked forth_test

key_test : (try_translate_meta_key stored_map (3, first) three).1 ≡ (3, 77)
unfolding try_translate_meta_key translate_vid_to_rid translate_attributes_to_vids translate_rids
    translate_rid_to_vid get_vid_for_rid Virtual.allocate_new_object_id
    Virtual.otai_object_type_query Virtual.type_bits increment Virtual.construct_object_id
    Virtual.linecard_bits
key_test = refl
