-- ===== src/Tests/Reinit.antt =====
-- Two objects, a child and the parent that it names, are created again; the vendor library keeps a
-- list of its calls and numbers the objects from 100.
use sonic_otairedis.Common.{
  ℕ, ◌+◌, ◌<◌, ◌≡◌, ◌⊎◌, inl, inr, refl, subst, sym, arith, Bool, true, false, List, [], ◌∷◌, some,
  ok, length, Returns, ◌==◌, Bool-cases, if◌then◌else◌,
}
use sonic_otairedis.Common.Assoc.{find}
use sonic_otairedis.Otai.{success}
use sonic_otairedis.Metadata.{Attribute, Metadata, type_object_id}
use sonic_otairedis.Serialize.ObjectId.{text, otai_serialize_object_id, otai_deserialize_object_id}
use sonic_otairedis.Serialize.ObjectId.RoundTrip.{serialize_injective}
use sonic_otairedis.Serialize.Texts.{same_text, same_text_eq}
use sonic_otairedis.Oid.VidManager
use sonic_otairedis.Oid.Virtual
use sonic_otairedis.Requests.{Vendor}
use sonic_otairedis.Reinit.{ObjectIdMap, AsicState}
use sonic_otairedis.Reinit.Objects.{Reiniter, process_oids}
use sonic_otairedis.Reinit.Objects.Renamed.{AllTranslated}
use sonic_otairedis.Reinit.Objects.Renamed.Loops.{OfAttributes}
use sonic_otairedis.Reinit.Objects.Recreated.{Listed, Below, Ranked, AllRecreated}
use sonic_otairedis.Reinit.Objects.Recreated.Whole.{process_oids-Recreated}
use sonic_otairedis.Reinit.Objects.Complete.{Met, AllMet, Creatable, Readable, process_oids-Returns}
use sonic_otairedis.Tests.World.{types}
use sonic_otairedis.Tests.Checks.{plain, mode}

abbrev pub card : ℕ
card = 0x0001000000000000

abbrev pub parent : ℕ
parent = 0x0003000000000001

abbrev pub child : ℕ
child = 0x0004000000000002

-- Attribute 1 is a number, 2 names the parent, and 3 is a number that no creation needs.
abbrev pub meta : Metadata
meta = record {
  get_attr_metadata = λ ty id.
      if id == 1
      then some mode
      else if id == 2
      then some (record mode { attrvaluetype = type_object_id; allowedobjecttypeslength = 1 })
      else some (record mode { mandatory_on_create = false });
  attributes_metadata = λ ty. [];
  query_object_type = λ oid. 0;
  query_linecard_id = λ oid. 0;
}

abbrev pub Calls : Type 0
Calls = List (ℕ × List Attribute)

abbrev pub vendor : Vendor Calls
vendor = record {
  create = λ ty lc attrs hw. ((success, 100 + length hw), (ty, attrs) ∷ hw);
  remove = λ ty rid hw. (success, hw);
  set = λ ty rid attrs hw. (success, (ty, attrs) ∷ hw);
  get = λ ty rid attrs hw. ((success, attrs), hw);
}

abbrev pub number : Attribute
number = record { id = 1; value = plain }

abbrev pub names : ℕ → Attribute
names oid = record { id = 2; value = record plain { oid = oid } }

abbrev pub gain : Attribute
gain = record { id = 3; value = plain }

abbrev pub child_attrs : List Attribute
child_attrs = gain ∷ names parent ∷ number ∷ []

abbrev pub parent_attrs : List Attribute
parent_attrs = number ∷ names 0 ∷ []

abbrev asic : AsicState
asic = record {
  oids = (text "oid:0x4000000000002", text "c") ∷ (text "oid:0x3000000000001", text "p") ∷ [];
  linecards = [];
  attributes_lists = (text "c", child_attrs) ∷ (text "p", parent_attrs) ∷ [];
}

abbrev pub stored : ObjectIdMap
stored = (card, 1) ∷ (parent, 2) ∷ (child, 3) ∷ []

abbrev start : Reiniter Calls
start = record {
  translated_v2r = (card, 7) ∷ [];
  translated_r2v = (7, card) ∷ [];
  linecard_rid = 7;
  hardware = [];
}

abbrev finished : Reiniter Calls
finished = record {
  translated_v2r = (card, 7) ∷ (parent, 100) ∷ (child, 101) ∷ [];
  translated_r2v = (7, card) ∷ (100, parent) ∷ (101, child) ∷ [];
  linecard_rid = 7;
  hardware = (4, names 100 ∷ number ∷ []) ∷ (3, parent_attrs) ∷ [];
}

-- The child is first in the table, its parent is created first; its gain is never set.
process_oids_test : process_oids meta vendor asic stored 3 start ≡ (ok tt, finished)
unfolding process_oids otai_deserialize_object_id VidManager.object_type_query
    Virtual.object_type_query Virtual.type_bits otai_serialize_object_id
process_oids_test = refl

abbrev child_text : ℕ → Bool
child_text vid = same_text (otai_serialize_object_id vid) (text "oid:0x4000000000002")

abbrev rank : ℕ → ℕ
rank vid = if child_text vid then 1 else 0

rank-parent : rank parent ≡ 0
unfolding otai_serialize_object_id
rank-parent = refl

-- An object of the table is the child or the parent.
Listed-attrs :
    (vid : ℕ) (l : Listed asic vid)
    → ((child_text vid ≡ true) × (child_attrs ≡ l.attrs))
      ⊎ ((child_text vid ≡ false) × (parent_attrs ≡ l.attrs))
Listed-attrs vid l = elim (Bool-cases (child_text vid)) [
  | inl is_child ↦
      let key : text "c" ≡ l.asic_key = let h = l.named in ground arith in
      let kept =
        subst (λ z. find same_text z asic.attributes_lists ≡ some l.attrs) (sym key) l.kept in
      inl (is_child, ground arith)
  | inr other ↦
      elim (Bool-cases (same_text (otai_serialize_object_id vid) (text "oid:0x3000000000001"))) [
        | inl is_parent ↦
            let key : text "p" ≡ l.asic_key = let h = l.named in ground arith in
            let kept =
              subst (λ z. find same_text z asic.attributes_lists ≡ some l.attrs) (sym key) l.kept in
            inr (other, ground arith)
        | inr neither ↦ let h = l.named in absurd (ground arith)
      ]
]

ranked : Ranked meta asic rank
ranked vid l = elim (Listed-attrs vid l) [
  | inl (is_child, e) ↦
      let lt : rank parent < rank vid = let low = rank-parent in ground arith in
      subst (λ z. OfAttributes meta (Below meta asic rank (rank vid)) l.object_type z) e
        (tt, (inr lt, (tt, tt)))
  | inr (is_parent, e) ↦
      subst (λ z. OfAttributes meta (Below meta asic rank (rank vid)) l.object_type z) e
        (tt, (inl refl, tt))
]

process_oids-Recreated_example :
    AllTranslated asic.oids finished.translated_v2r
    × ((vid rid : ℕ)
        → find ◌==◌ vid start.translated_v2r ≡ some rid
        → find ◌==◌ vid finished.translated_v2r ≡ some rid)
    × AllRecreated meta vendor asic start finished
process_oids-Recreated_example =
    process_oids-Recreated meta vendor asic stored rank ranked start 3 finished process_oids_test

child_vid : (vid : ℕ) → child_text vid ≡ true → vid ≡ child
unfolding otai_serialize_object_id
child_vid vid h = serialize_injective vid child (same_text_eq (otai_serialize_object_id vid) _ h)

parent_vid :
    (vid : ℕ)
    → same_text (otai_serialize_object_id vid) (text "oid:0x3000000000001") ≡ true
    → vid ≡ parent
unfolding otai_serialize_object_id
parent_vid vid h = serialize_injective vid parent (same_text_eq (otai_serialize_object_id vid) _ h)

parent-Listed : Listed asic parent
unfolding otai_serialize_object_id VidManager.object_type_query Virtual.object_type_query
    Virtual.type_bits
parent-Listed = record {
  object_type = 3;
  asic_key = text "p";
  attrs = parent_attrs;
  typed = refl;
  named = refl;
  kept = refl;
}

child-Listed : Listed asic child
unfolding otai_serialize_object_id VidManager.object_type_query Virtual.object_type_query
    Virtual.type_bits
child-Listed = record {
  object_type = 4;
  asic_key = text "c";
  attrs = child_attrs;
  typed = refl;
  named = refl;
  kept = refl;
}

Listed-stored :
    (vid : ℕ) → Listed asic vid → (previous : ℕ) × (find ◌==◌ vid stored ≡ some previous)
Listed-stored vid l = elim (Bool-cases (child_text vid)) [
  | inl is_child ↦ rw (child_vid vid is_child) (3, refl)
  | inr other ↦
      elim (Bool-cases (same_text (otai_serialize_object_id vid) (text "oid:0x3000000000001"))) [
        | inl is_parent ↦ rw (parent_vid vid is_parent) (2, refl)
        | inr neither ↦ let h = l.named in absurd (ground arith)
      ]
]

creatable : Creatable meta vendor asic stored rank
creatable vid l = (
  Listed-stored vid l,
  elim (Listed-attrs vid l) [
    | inl (is_child, e) ↦
        let lt : rank parent < rank vid = let low = rank-parent in ground arith in
        subst (λ z. Readable meta (Met meta vendor asic stored rank (rank vid)) l.object_type z) e
          ((_, refl, tt), ((_, refl, inr (parent-Listed, lt)), ((_, refl, tt), tt)))
    | inr (is_parent, e) ↦
        subst (λ z. Readable meta (Met meta vendor asic stored rank (rank vid)) l.object_type z) e
          ((_, refl, tt), ((_, refl, inl refl), tt))
  ],
)

all_met : AllMet meta vendor asic stored rank 2 asic.oids
unfolding otai_deserialize_object_id otai_serialize_object_id
all_met = (
  (child, refl, inr (child-Listed, omega arith)),
  ((parent, refl, inr (parent-Listed, omega arith)), tt),
)

process_oids-Returns_example : Returns (process_oids meta vendor asic stored 3 start)
process_oids-Returns_example =
    process_oids-Returns meta vendor asic stored rank creatable (λ ty lc attrs v. refl) 2 all_met
      start
