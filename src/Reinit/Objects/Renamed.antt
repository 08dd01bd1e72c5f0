-- ===== src/Reinit/Objects/Renamed.antt =====
-- What the loops over attributes do, for any way to process one VID: the ids of the attributes are
-- renamed by the map of the translated VIDs, as it is in the end.
pub mod Loops
use sonic_otairedis.Common.{
  ℕ, zero, suc, ◌≡◌, refl, arith, true, false, List, [], ◌∷◌, Option, none, some, ok, Result,
  Method, after, after-ok, ◌==◌, if◌then◌else◌, Option-cases, inl, inr,
}
use sonic_otairedis.Common.Assoc.{find}
use sonic_otairedis.Otai.{ObjectTypes}
use sonic_otairedis.Metadata.{null_list, items, Attribute, Metadata}
use sonic_otairedis.Translator.Attributes.{Ids, one_id, many_ids, no_ids, with_oid, with_objlist}
use sonic_otairedis.Serialize.ObjectId.{otai_deserialize_object_id}
use sonic_otairedis.Reinit.{ObjectIdMap, StringHash}
use sonic_otairedis.Reinit.Objects.{
  Reiniter, oids_of, process_ids, process_value, process_attributes_for_oids,
}

-- Every id that the map holds has the same place in the other.
abbrev pub Extends : ObjectIdMap → ObjectIdMap → Type 0
Extends m m' = (vid rid : ℕ) → find ◌==◌ vid m ≡ some rid → find ◌==◌ vid m' ≡ some rid

abbrev pub cons_option {ℓ} : {A : Type ℓ} → Option A → Option (List A) → Option (List A)
cons_option none rest = none
cons_option (some a) none = none
cons_option (some a) (some rest) = some (a ∷ rest)

module _ ⦃t : ObjectTypes⦄ where
  open t use {null_object_id}

  -- The RID of a VID: null for null, and otherwise what the map holds.
  abbrev pub renamed_id : ObjectIdMap → ℕ → Option ℕ
  renamed_id m vid = if vid == null_object_id then some null_object_id else find ◌==◌ vid m

  abbrev pub renamed_ids : ObjectIdMap → List ℕ → Option (List ℕ)
  renamed_ids m [] = some []
  renamed_ids m (vid ∷ vids) = cons_option (renamed_id m vid) (renamed_ids m vids)

  abbrev pub map_option {ℓ κ} : {A : Type ℓ} {B : Type κ} → (A → B) → Option A → Option B
  map_option f none = none
  map_option f (some a) = some (f a)

  abbrev pub renamed_value : ObjectIdMap → Attribute → Ids → Option Attribute
  renamed_value m a (one_id oid) = map_option (with_oid a) (renamed_id m oid)
  renamed_value m a (many_ids (null_list zero)) = some a
  renamed_value m a (many_ids (null_list (suc n))) = none
  renamed_value m a (many_ids (items oids)) = map_option (with_objlist a) (renamed_ids m oids)
  renamed_value m a (no_ids true) = none
  renamed_value m a (no_ids false) = some a

  module _ (meta : Metadata) where
    -- The attributes with RIDs for their VIDs, if each VID has one.
    abbrev pub renamed : ℕ → ObjectIdMap → List Attribute → Option (List Attribute)
    renamed object_type m [] = some []
    renamed object_type m (a ∷ rest) = elim (meta.get_attr_metadata object_type a.id) [
      | none ↦ none
      | some md ↦ cons_option (renamed_value m a (oids_of md a)) (renamed object_type m rest)
    ]

  -- Each text is one of a VID that is null or has an RID.
  abbrev pub AllTranslated : StringHash → ObjectIdMap → Type 0
  AllTranslated [] m = Unit
  AllTranslated ((str_object_id, asic_key) ∷ rest) m =
      ((vid : ℕ) × (rid : ℕ) × (otai_deserialize_object_id str_object_id ≡ ok vid)
        × (renamed_id m vid ≡ some rid))
      × AllTranslated rest m

  pub renamed_id-Extends :
      (m m' : ObjectIdMap) (e : Extends m m') (vid rid : ℕ)
      → renamed_id m vid ≡ some rid
      → renamed_id m' vid ≡ some rid
  renamed_id-Extends m m' e vid rid h = let there = e vid rid in ground arith

  cons_option-some :
      {A : Type 0} (a : Option A) (rest : Option (List A)) (whole : List A)
      → cons_option a rest ≡ some whole
      → (x : A) × (xs : List A) × (a ≡ some x) × (rest ≡ some xs)
  cons_option-some none rest whole h = cc
  cons_option-some (some a) none whole h = cc
  cons_option-some (some a) (some rest) whole h = (a, rest, refl, refl)

  renamed_ids-Extends :
      (m m' : ObjectIdMap) (e : Extends m m') (vids rids : List ℕ)
      → renamed_ids m vids ≡ some rids
      → renamed_ids m' vids ≡ some rids
  renamed_ids-Extends m m' e [] rids h = h
  renamed_ids-Extends m m' e (vid ∷ vids) rids h =
      let parts = cons_option-some (renamed_id m vid) (renamed_ids m vids) rids h in
      let head = renamed_id-Extends m m' e vid parts.0 parts.2 in
      let tail = renamed_ids-Extends m m' e vids parts.1 parts.3 in
      let was = parts.2 in let were = parts.3 in ground arith

  renamed_value-Extends :
      (m m' : ObjectIdMap) (e : Extends m m') (a : Attribute) (ids : Ids) (a' : Attribute)
      → renamed_value m a ids ≡ some a'
      → renamed_value m' a ids ≡ some a'
  renamed_value-Extends m m' e a (one_id oid) a' h = elim (Option-cases (renamed_id m oid)) [
    | inl n ↦ absurd (ground arith)
    | inr (rid, s) ↦ let there = renamed_id-Extends m m' e oid rid s in ground arith
  ]
  renamed_value-Extends m m' e a (many_ids (null_list zero)) a' h = h
  renamed_value-Extends m m' e a (many_ids (null_list (suc n))) a' h = h
  renamed_value-Extends m m' e a (many_ids (items oids)) a' h =
      elim (Option-cases (renamed_ids m oids)) [
        | inl n ↦ absurd (ground arith)
        | inr (rids, s) ↦ let there = renamed_ids-Extends m m' e oids rids s in ground arith
      ]
  renamed_value-Extends m m' e a (no_ids true) a' h = h
  renamed_value-Extends m m' e a (no_ids false) a' h = h

  pub renamed-Extends :
      (meta : Metadata) (object_type : ℕ) (m m' : ObjectIdMap) (e : Extends m m')
      (attrs attrs' : List Attribute)
      → renamed meta object_type m attrs ≡ some attrs'
      → renamed meta object_type m' attrs ≡ some attrs'
  renamed-Extends meta object_type m m' e [] attrs' h = h
  renamed-Extends meta object_type m m' e (a ∷ rest) attrs' h =
      elim (Option-cases (meta.get_attr_metadata object_type a.id)) [
        | inl n ↦ absurd (ground arith)
        | inr (md, found) ↦
            let h' : cons_option (renamed_value m a (oids_of md a))
                  (renamed meta object_type m rest)
                ≡ some attrs' =
              ground arith in
            let parts = cons_option-some _ _ attrs' h' in
            let head = renamed_value-Extends m m' e a (oids_of md a) parts.0 parts.2 in
            let tail = renamed-Extends meta object_type m m' e rest parts.1 parts.3 in
            let was = parts.2 in let were = parts.3 in ground arith
      ]
