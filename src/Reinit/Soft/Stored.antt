-- ===== src/Reinit/Soft/Stored.antt =====
-- What a soft reinitialisation keeps: no object gets another RID than it had, whether the methods
-- return or throw.
use sonic_otairedis.Common.{
  ℕ, ◌≡◌, inl, inr, arith, List, [], ◌∷◌, some, after-state, ◌==◌, ==_eq, Bool-cases, Option-cases,
  Result-cases,
}
use sonic_otairedis.Common.Assoc.{find, insert, find-insert}
use sonic_otairedis.Otai.{ObjectTypes}
use sonic_otairedis.Metadata.{Attribute, Metadata}
use sonic_otairedis.Serialize.ObjectId.{otai_serialize_object_id, otai_deserialize_object_id}
use sonic_otairedis.Serialize.Texts.{same_text}
use sonic_otairedis.Oid.VidManager
use sonic_otairedis.Requests.{Vendor}
use sonic_otairedis.Reinit.{ObjectIdMap, StringHash, AsicState}
use sonic_otairedis.Reinit.Objects.{Reiniter}
use sonic_otairedis.Reinit.Objects.Renamed.{Extends}
use sonic_otairedis.Reinit.Soft.{settable, keep_object, soft_object, soft_single_vid, soft_each}

-- An entry of `stored` comes into a map that agrees with it.
pub insert-Extends :
    (m stored : ObjectIdMap) (vid rid : ℕ)
    → find ◌==◌ vid stored ≡ some rid
    → Extends m stored
    → Extends (insert ◌==◌ vid rid m) stored
insert-Extends m stored vid rid h e k r there =
    let found = find-insert k vid rid m in
    elim (Bool-cases (k == vid)) [
      | inl same ↦
          let k_vid : k ≡ vid = ==_eq k vid same in
          let at : some r ≡ some rid = ground arith in ground arith
      | inr other ↦ e k r (ground arith)
    ]

module _ ⦃t : ObjectTypes⦄ (meta : Metadata) {V : Type 0} (vendor : Vendor V) (asic : AsicState)
    (stored : ObjectIdMap) where
  abbrev pub AsStored : Reiniter V → Type 0
  AsStored s = Extends s.translated_v2r stored

  keep_object-AsStored :
      (object_type vid : ℕ) (attrs : List Attribute) (rid : ℕ) (s : Reiniter V)
      → find ◌==◌ vid stored ≡ some rid
      → AsStored s
      → AsStored (keep_object meta vendor asic stored object_type vid attrs rid s).1
  unfolding keep_object
  keep_object-AsStored object_type vid attrs rid s h a =
      elim (Result-cases (settable meta object_type attrs)) [
        | inl (message, e) ↦ rw (e, keep_object) a
        | inr (chosen, e) ↦ rw (e, keep_object) (insert-Extends s.translated_v2r stored vid rid h a)
      ]

  soft_object-AsStored :
      (vid object_type : ℕ) (s : Reiniter V)
      → AsStored s
      → AsStored (soft_object meta vendor asic stored vid object_type s).1
  unfolding soft_object
  soft_object-AsStored vid object_type s a =
      elim (Option-cases (find same_text (otai_serialize_object_id vid) asic.oids)) [
        | inl n ↦ rw (n, soft_object) a
        | inr (asic_key, f) ↦ elim (Option-cases (find same_text asic_key asic.attributes_lists)) [
          | inl n ↦ rw (f, n, soft_object) a
          | inr (attrs, g) ↦ elim (Option-cases (find ◌==◌ vid stored)) [
            | inl n ↦ rw (f, g, n, soft_object) a
            | inr (rid, h) ↦
                rw (f, g, h, soft_object) (keep_object-AsStored object_type vid attrs rid s h a)
          ]
        ]
      ]

  pub soft_single_vid-AsStored :
      (vid : ℕ) (s : Reiniter V)
      → AsStored s
      → AsStored (soft_single_vid meta vendor asic stored vid s).1
  unfolding soft_single_vid
  soft_single_vid-AsStored vid s a = elim (Bool-cases (vid == t.null_object_id)) [
    | inl e ↦ rw (e, soft_single_vid) a
    | inr e ↦ elim (Option-cases (find ◌==◌ vid s.translated_v2r)) [
      | inr (rid, f) ↦ rw (e, f, soft_single_vid) a
      | inl n ↦
          rw (e, n, soft_single_vid)
            (after-state {P = AsStored} _ (VidManager.object_type_query vid) s a
              (soft_object-AsStored vid))
    ]
  ]

  pub soft_each-AsStored :
      (oids : StringHash) (s : Reiniter V)
      → AsStored s
      → AsStored (soft_each meta vendor asic stored oids s).1
  unfolding soft_each
  soft_each-AsStored [] s a = a
  soft_each-AsStored ((str_object_id, asic_key) ∷ rest) s a =
      after-state {P = AsStored} _ (otai_deserialize_object_id str_object_id) s a (λ vid s1 a1.
        after-state {P = AsStored} _ (soft_single_vid meta vendor asic stored vid s1).0
          (soft_single_vid meta vendor asic stored vid s1).1 (soft_single_vid-AsStored vid s1 a1)
          (λ rid. soft_each-AsStored rest))
