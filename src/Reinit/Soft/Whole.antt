-- ===== src/Reinit/Soft/Whole.antt =====
-- When the `processOids` of `SoftReiniter` returns, it has been at every object.
use sonic_otairedis.Common.{
  ℕ, ◌≡◌, inl, inr, subst, arith, false, List, [], ◌∷◌, none, some, ok, Result, after-ok, ◌==◌,
  ==_refl, Bool-cases, Option-cases, Result-cases,
}
use sonic_otairedis.Common.Assoc.{find, find-insert}
use sonic_otairedis.Otai.{ObjectTypes}
use sonic_otairedis.Metadata.{Attribute, Metadata}
use sonic_otairedis.Serialize.ObjectId.{otai_serialize_object_id, otai_deserialize_object_id}
use sonic_otairedis.Serialize.Texts.{same_text}
use sonic_otairedis.Oid.VidManager
use sonic_otairedis.Requests.{Vendor}
use sonic_otairedis.Reinit.{ObjectIdMap, StringHash, AsicState}
use sonic_otairedis.Reinit.Objects.{Reiniter}
use sonic_otairedis.Reinit.Objects.Renamed.{Extends, AllTranslated, renamed_id, renamed_id-Extends}
use sonic_otairedis.Reinit.Linecards.Known.{insert_new-Extends}
use sonic_otairedis.Reinit.Soft.{
  settable, keep_object, soft_object, soft_single_vid, soft_each, soft_oids,
}

module _ ⦃t : ObjectTypes⦄ (meta : Metadata) {V : Type 0} (vendor : Vendor V) (asic : AsicState)
    (stored : ObjectIdMap) where
  -- What it means for one VID that the method returns.
  abbrev Translates : ℕ → Reiniter V → Result ℕ × Reiniter V → Type 0
  Translates vid s r =
      (rid : ℕ)
      → r.0 ≡ ok rid
      → Extends s.translated_v2r r.1.translated_v2r × (renamed_id r.1.translated_v2r vid ≡ some rid)

  keep_object-Translates :
      (object_type vid : ℕ) (attrs : List Attribute) (rid : ℕ) (s : Reiniter V)
      → (vid == t.null_object_id) ≡ false
      → find ◌==◌ vid s.translated_v2r ≡ none
      → Translates vid s (keep_object meta vendor asic stored object_type vid attrs rid s)
  unfolding keep_object
  keep_object-Translates object_type vid attrs rid s real new =
      elim (Result-cases (settable meta object_type attrs)) [
        | inl (message, e) ↦ rw (e, keep_object) (λ r h. absurd cc)
        | inr (chosen, e) ↦
            rw (e, keep_object)
              (λ r h.
                let found = find-insert vid vid rid s.translated_v2r in
                let same = ==_refl vid in
                (insert_new-Extends vid rid s.translated_v2r new, ground arith))
      ]

  soft_object-Translates :
      (vid object_type : ℕ) (s : Reiniter V)
      → (vid == t.null_object_id) ≡ false
      → find ◌==◌ vid s.translated_v2r ≡ none
      → Translates vid s (soft_object meta vendor asic stored vid object_type s)
  unfolding soft_object
  soft_object-Translates vid object_type s real new =
      elim (Option-cases (find same_text (otai_serialize_object_id vid) asic.oids)) [
        | inl n ↦ rw (n, soft_object) (λ r h. absurd cc)
        | inr (asic_key, f) ↦ elim (Option-cases (find same_text asic_key asic.attributes_lists)) [
          | inl n ↦ rw (f, n, soft_object) (λ r h. absurd cc)
          | inr (attrs, g) ↦ elim (Option-cases (find ◌==◌ vid stored)) [
            | inl n ↦ rw (f, g, n, soft_object) (λ r h. absurd cc)
            | inr (rid, k) ↦
                rw (f, g, k, soft_object)
                  (keep_object-Translates object_type vid attrs rid s real new)
          ]
        ]
      ]

  soft_single_vid-Translates :
      (vid : ℕ) (s : Reiniter V) → Translates vid s (soft_single_vid meta vendor asic stored vid s)
  unfolding soft_single_vid
  soft_single_vid-Translates vid s = elim (Bool-cases (vid == t.null_object_id)) [
    | inl e ↦ rw (e, soft_single_vid) (λ r h. ((λ k j there. there), ground arith))
    | inr e ↦ elim (Option-cases (find ◌==◌ vid s.translated_v2r)) [
      | inr (rid, f) ↦ rw (e, f, soft_single_vid) (λ r h. ((λ k j there. there), ground arith))
      | inl n ↦ elim (Result-cases (VidManager.object_type_query vid)) [
        | inl (message, g) ↦ rw (e, n, g, soft_single_vid) (λ r h. absurd cc)
        | inr (object_type, g) ↦
            let done = soft_object-Translates vid object_type s e n in
            rw (e, n, g, soft_single_vid)
              (λ r h. let found = (done r h).1 in ((done r h).0, ground arith))
      ]
    ]
  ]

  soft_each-AllTranslated :
      (oids : StringHash) (s s' : Reiniter V)
      → soft_each meta vendor asic stored oids s ≡ (ok tt, s')
      → Extends s.translated_v2r s'.translated_v2r × AllTranslated oids s'.translated_v2r
  unfolding soft_each
  soft_each-AllTranslated [] s s' h =
      let e : s ≡ s' = λ i. (h i).1 in
      (subst (λ z. Extends s.translated_v2r z.translated_v2r) e (λ k r there. there), tt)
  soft_each-AllTranslated ((str_object_id, asic_key) ∷ rest) s s' h =
      let first = after-ok _ (otai_deserialize_object_id str_object_id) s tt s' h in
      let vid = first.0 in
      let one = soft_single_vid meta vendor asic stored vid s in
      let second = after-ok _ one.0 one.1 tt s' first.2 in
      let done = soft_single_vid-Translates vid s second.0 second.1 in
      let ih = soft_each-AllTranslated rest one.1 s' second.2 in
      (
        (λ k r there. ih.0 k r (done.0 k r there)),
        (
          (
            vid,
            second.0,
            first.1,
            renamed_id-Extends one.1.translated_v2r s'.translated_v2r ih.0 vid second.0 done.1,
          ),
          ih.1,
        ),
      )

  -- `processOids` on any hardware and any maps: when it returns, each object of the ASIC_STATE is
  -- null or has an RID, and the VIDs that had an RID in the map of the translated ones have kept it.
  pub soft_oids-AllTranslated :
      (s s' : Reiniter V)
      → soft_oids meta vendor asic stored s ≡ (ok tt, s')
      → Extends s.translated_v2r s'.translated_v2r × AllTranslated asic.oids s'.translated_v2r
  unfolding soft_oids
  soft_oids-AllTranslated s s' h = soft_each-AllTranslated asic.oids s s' h
