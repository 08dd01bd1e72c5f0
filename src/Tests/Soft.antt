-- ===== src/Tests/Soft.antt =====
-- Hardware that has kept its objects: their attributes are set again, and they keep their RIDs.
use sonic_otairedis.Common.{◌≡◌, refl, [], ◌∷◌, ok, Result}
use sonic_otairedis.Serialize.ObjectId.{text, otai_serialize_object_id, otai_deserialize_object_id}
use sonic_otairedis.Oid.VidManager
use sonic_otairedis.Oid.Virtual
use sonic_otairedis.Reinit.Objects.{Reiniter}
use sonic_otairedis.Reinit.Objects.Renamed.{Extends, AllTranslated}
use sonic_otairedis.Reinit.BoardMode.{text_attr}
use sonic_otairedis.Reinit.Soft.{soft_oids}
use sonic_otairedis.Reinit.Soft.Linecards.{Soft, soft_reinit}
use sonic_otairedis.Reinit.Soft.Linecards.Kept.{RidsKept, soft_reinit-RidsKept}
use sonic_otairedis.Reinit.Soft.Whole.{soft_oids-AllTranslated}
use sonic_otairedis.Tests.World.{types}
use sonic_otairedis.Tests.Reinit.{
  card, parent, child, meta, Calls, vendor, number, gain, names, stored,
}
use sonic_otairedis.Tests.Linecards.{attrs_of_linecards, state, empty, read_type, read_attrs, keys}

abbrev objects : Result (Unit {0}) × Reiniter Calls
objects = soft_oids meta vendor state stored empty

-- Each attribute is set by a call of its own, with the VIDs that it holds.
soft_oids_test :
    (objects.0 ≡ ok tt)
    × (objects.1.translated_v2r ≡ (card, 1) ∷ (child, 3) ∷ (parent, 2) ∷ [])
    × (objects.1.hardware
        ≡ (3, names 0 ∷ [])
          ∷ (3, number ∷ [])
          ∷ (4, number ∷ [])
          ∷ (4, names parent ∷ [])
          ∷ (4, gain ∷ [])
          ∷ (1, gain ∷ [])
          ∷ (1, text_attr 4 (text "400G") ∷ [])
          ∷ (1, number ∷ [])
          ∷ [])
unfolding soft_oids otai_deserialize_object_id VidManager.object_type_query
    Virtual.object_type_query Virtual.type_bits otai_serialize_object_id
soft_oids_test = (refl, refl, refl)

abbrev after_all : Result (Unit {0}) × Soft Calls
after_all =
    soft_reinit meta attrs_of_linecards vendor read_type read_attrs (keys ∷ [])
      (record { oids = []; linecards = []; attributes_lists = [] }) (empty, stored)

soft_reinit_test :
    (after_all.0 ≡ ok tt)
    × (after_all.1.0.translated_v2r ≡ (card, 1) ∷ (parent, 2) ∷ [])
    × (after_all.1.1 ≡ stored)
unfolding soft_reinit otai_deserialize_object_id VidManager.object_type_query
    Virtual.object_type_query Virtual.type_bits otai_serialize_object_id
soft_reinit_test = (refl, refl, refl)

soft_oids-AllTranslated_example :
    Extends empty.translated_v2r objects.1.translated_v2r
    × AllTranslated state.oids objects.1.translated_v2r
soft_oids-AllTranslated_example =
    soft_oids-AllTranslated meta vendor state stored empty objects.1
      (λ i. (soft_oids_test.0 i, objects.1))

soft_reinit-RidsKept_example : RidsKept stored after_all.1
soft_reinit-RidsKept_example =
    soft_reinit-RidsKept meta attrs_of_linecards vendor read_type read_attrs (keys ∷ [])
      (record { oids = []; linecards = []; attributes_lists = [] }) stored empty
      (λ k r h. absurd cc)

-- A linecard that the stored map does not have is translated to RID 0.
unknown_card_test :
    (soft_reinit meta attrs_of_linecards vendor read_type read_attrs
      (keys ∷ [])
      (record { oids = []; linecards = []; attributes_lists = [] })
      (empty, (parent, 2) ∷ [])).1.0.translated_v2r
    ≡ (card, 0) ∷ (parent, 2) ∷ []
unfolding soft_reinit otai_deserialize_object_id VidManager.object_type_query
    Virtual.object_type_query Virtual.type_bits otai_serialize_object_id
unknown_card_test = refl
