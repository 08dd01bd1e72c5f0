-- ===== src/Translator/Attributes/Back.antt =====
-- Attributes whose RIDs were translated to VIDs are translated back to what they were.
use sonic_otairedis.Common.{
  ℕ, ◌≡◌, refl, sym, ap, subst, ◌∙◌, inl, inr, false, arith, List, [], ◌∷◌, Option, some, ok,
  after-ok, Option-cases,
}
use sonic_otairedis.Otai.{ObjectTypes, IsOtai}
use sonic_otairedis.Metadata.{null_list, items, Attribute, AttrMeta, Metadata}
use sonic_otairedis.Redis.VidMap.{VidMap, IsVidMap}
use sonic_otairedis.Translator.{Translator, translate_vid_to_rid, translate_vids}
use sonic_otairedis.Translator.Coherence.{Coherent}
use sonic_otairedis.Translator.Linked.{Linked}
use sonic_otairedis.Translator.Attributes.{
  Ids, one_id, many_ids, no_ids, ids_of, translate_ids, translate_attributes,
  translate_attributes_to_rids, translate_attributes_to_vids,
}
use sonic_otairedis.Translator.Attributes.One.{
  SmallIds, IdsStand, IdsStand-kept, Later, to_vid, to_vids, ids_forth, ids_back,
}

module _ ⦃t : ObjectTypes⦄ (m : VidMap) (law : IsVidMap t.null_object_id m) (o : IsOtai t)
    (vendor_type : ℕ → ℕ) (lc : ℕ) where
  -- The object ids of the attributes are 64-bit numbers.
  abbrev pub AllSmallIds : (ℕ → Option AttrMeta) → List Attribute → Type 0
  AllSmallIds lookup [] = Unit {0}
  AllSmallIds lookup (a ∷ attrs) =
      ((md : AttrMeta) → lookup a.id ≡ some md → SmallIds m law o vendor_type lc (ids_of md a))
      × AllSmallIds lookup attrs

  AllIdsStand : (ℕ → Option AttrMeta) → m.Db → List Attribute → List Attribute → Type 0
  AllIdsStand lookup db [] [] = Unit {0}
  AllIdsStand lookup db (a ∷ attrs) (b ∷ bs) =
      ((md : AttrMeta) × (lookup b.id ≡ some md)
        × IdsStand m law o vendor_type lc db a b (ids_of md a))
      × AllIdsStand lookup db attrs bs
  AllIdsStand lookup db _ _ = ⊥

  same_id :
      (db : m.Db) (a b : Attribute) (i : Ids)
      → IdsStand m law o vendor_type lc db a b i
      → b.id ≡ a.id
  same_id db a b (one_id oid) (vid, w, p) = ap (λ z. z.id) w
  same_id db a b (many_ids (items oids)) (vids, w, p) = ap (λ z. z.id) w
  same_id db a b (many_ids (null_list n)) (w, z) = ap (λ z. z.id) w
  same_id db a b (no_ids isoid) (w, z) = ap (λ z. z.id) w

  attributes_forth :
      (lookup : ℕ → Option AttrMeta) (attrs : List Attribute) (s : Translator m)
      (bs : List Attribute) (s' : Translator m)
      → AllSmallIds lookup attrs
      → Coherent m s
      → Linked m s.db
      → translate_attributes
          (to_vid m law o vendor_type lc)
          (to_vids m law o vendor_type lc)
          lookup
          attrs
          s
        ≡ (ok bs, s')
      → Later m law o vendor_type lc s s' × AllIdsStand lookup s'.db attrs bs
  unfolding translate_attributes AllIdsStand
  attributes_forth lookup [] s bs s' small c l h =
      let whole : ◌≡◌ {A = List Attribute × Translator m} ([], s) (bs, s') = ground arith in
      subst
        (λ (z : List Attribute × Translator m).
          Later m law o vendor_type lc s z.1 × AllIdsStand lookup z.1.db [] z.0)
        whole (record { coherent = c; linked = l; kept = λ r v p. p }, tt)
  attributes_forth lookup (a ∷ attrs) s bs s' small c l h = elim (Option-cases (lookup a.id)) [
    | inl e ↦ cc (rw (e, translate_attributes) at h)
    | inr (md, e) ↦
        let run = rw (e, translate_attributes) at h in
        let one =
          translate_ids (to_vid m law o vendor_type lc) (to_vids m law o vendor_type lc) a
            (ids_of md a) s in
        let first = after-ok _ one.0 one.1 bs s' run in
        let b = first.0 in
        let forth =
          ids_forth m law o vendor_type lc a (ids_of md a) s b one.1 (small.0 md e) c l
            (λ i. (first.1 i, one.1)) in
        let more =
          translate_attributes (to_vid m law o vendor_type lc) (to_vids m law o vendor_type lc)
            lookup attrs one.1 in
        let second = after-ok _ more.0 more.1 bs s' first.2 in
        let rest =
          attributes_forth lookup attrs one.1 second.0 more.1 small.1 forth.0.coherent
            forth.0.linked (λ i. (second.1 i, more.1)) in
        let whole : ◌≡◌ {A = List Attribute × Translator m} (b ∷ second.0, more.1) (bs, s') =
          ground arith in
        subst
          (λ (z : List Attribute × Translator m).
            Later m law o vendor_type lc s z.1 × AllIdsStand lookup z.1.db (a ∷ attrs) z.0)
          whole
          (
            record {
              coherent = rest.0.coherent;
              linked = rest.0.linked;
              kept = λ r v p. rest.0.kept r v (forth.0.kept r v p);
            },
            (
              (
                md,
                ap lookup (same_id one.1.db a b (ids_of md a) forth.1) ∙ e,
                IdsStand-kept m law o vendor_type lc one.1 more.1 a b (ids_of md a) rest.0 forth.1,
              ),
              rest.1,
            ),
          )
  ]

  attributes_return :
      (lookup : ℕ → Option AttrMeta) (attrs bs : List Attribute) (s : Translator m)
      → Coherent m s
      → Linked m s.db
      → AllIdsStand lookup s.db attrs bs
      → (translate_attributes (translate_vid_to_rid m) (translate_vids m) lookup bs s).0 ≡ ok attrs
  unfolding translate_attributes AllIdsStand
  attributes_return lookup [] [] s c l a = refl
  attributes_return lookup [] (b ∷ bs) s c l a = absurd a
  attributes_return lookup (x ∷ attrs) [] s c l a = absurd a
  attributes_return lookup (x ∷ attrs) (b ∷ bs) s c l ((md, e, p), others) =
      let one = ids_back m law o vendor_type lc md s x b (ids_of md x) refl c l p in
      let next = (translate_ids (translate_vid_to_rid m) (translate_vids m) b (ids_of md b) s).1 in
      let rest =
        attributes_return lookup attrs bs next one.still (subst (Linked m) (sym one.same_db) l)
          (subst (λ db. AllIdsStand lookup db attrs bs) (sym one.same_db) others) in
      rw (e, translate_attributes, one.result, rest) refl

  -- Where the local maps are coherent and the stored ones linked, attributes whose object ids are
  -- 64-bit numbers, and were translated from RIDs to VIDs, removed ids not being asked for, are
  -- translated back from VIDs to RIDs as they were, all other values included.
  pub translate_attributes_back :
      (meta : Metadata) (object_type : ℕ) (attrs bs : List Attribute) (s s' : Translator m)
      → AllSmallIds (meta.get_attr_metadata object_type) attrs
      → Coherent m s
      → Linked m s.db
      → translate_attributes_to_vids m meta vendor_type object_type lc attrs false s ≡ (ok bs, s')
      → (translate_attributes_to_rids m meta object_type bs s').0 ≡ ok attrs
  unfolding translate_attributes_to_vids translate_attributes_to_rids
  translate_attributes_back meta object_type attrs bs s s' small c l h =
      let done = attributes_forth (meta.get_attr_metadata object_type) attrs s bs s' small c l h in
      attributes_return (meta.get_attr_metadata object_type) attrs bs s' done.0.coherent
        done.0.linked done.1
