-- ===== src/Reinit/Objects/Renamed/Loops.antt =====
-- The loops of `processAttributesForOids` over any way to process one VID that renames it and keeps
-- a relation between the states before and after.
use sonic_otairedis.Common.{
  ℕ, zero, suc, ◌≡◌, arith, true, false, List, [], ◌∷◌, Option, none, some, ok, Method, after,
  after-ok, Option-cases, inl, inr, subst,
}
use sonic_otairedis.Otai.{ObjectTypes}
use sonic_otairedis.Metadata.{null_list, items, Attribute, AttrMeta, Metadata}
use sonic_otairedis.Translator.Attributes.{Ids, one_id, many_ids, no_ids, with_oid, with_objlist}
use sonic_otairedis.Reinit.Objects.{
  Reiniter, oids_of, process_ids, process_value, process_attributes_for_oids,
}
use sonic_otairedis.Reinit.Objects.Renamed.{
  Extends, renamed_id, renamed_ids, renamed_value, renamed, renamed_id-Extends,
  renamed_value-Extends,
}

abbrev pub AllIds : (ℕ → Type 0) → List ℕ → Type 0
AllIds P [] = Unit
AllIds P (vid ∷ vids) = P vid × AllIds P vids

abbrev pub OfValue : (ℕ → Type 0) → Ids → Type 0
OfValue P (one_id oid) = P oid
OfValue P (many_ids (items oids)) = AllIds P oids
OfValue P _ = Unit

-- Every id of every attribute.
abbrev pub OfAttributes : Metadata → (ℕ → Type 0) → ℕ → List Attribute → Type 0
OfAttributes meta P object_type [] = Unit
OfAttributes meta P object_type (a ∷ rest) =
    (elim (meta.get_attr_metadata object_type a.id) [
      | none ↦ Unit
      | some md ↦ OfValue P (oids_of md a)
    ])
    × OfAttributes meta P object_type rest

module _ ⦃t : ObjectTypes⦄ {V : Type 0} (R : Reiniter V → Reiniter V → Type 0)
    (R-refl : (s : Reiniter V) → R s s) (R-trans : (a b c : Reiniter V) → R a b → R b c → R a c)
    (R-Extends : (a b : Reiniter V) → R a b → Extends a.translated_v2r b.translated_v2r)
    (Fine : ℕ → Type 0) (one : ℕ → Method (Reiniter V) ℕ)
    (one-R : (vid : ℕ) (s : Reiniter V) (rid : ℕ) (s' : Reiniter V)
      → Fine vid
      → one vid s ≡ (ok rid, s')
      → R s s' × (renamed_id s'.translated_v2r vid ≡ some rid)) where
  process_ids-R :
      (vids : List ℕ) (s : Reiniter V) (rids : List ℕ) (s' : Reiniter V)
      → AllIds Fine vids
      → process_ids one vids s ≡ (ok rids, s')
      → R s s' × (renamed_ids s'.translated_v2r vids ≡ some rids)
  unfolding process_ids
  process_ids-R [] s rids s' fine h =
      let e : s ≡ s' = ground arith in (subst (λ z. R s z) e (R-refl s), ground arith)
  process_ids-R (vid ∷ vids) s rids s' fine h =
      let first = after-ok _ (one vid s).0 (one vid s).1 rids s' h in
      let s1 = (one vid s).1 in
      let head = one-R vid s first.0 s1 fine.0 (λ i. (first.1 i, s1)) in
      let second =
        after-ok _ (process_ids one vids s1).0 (process_ids one vids s1).1 rids s' first.2 in
      let s2 = (process_ids one vids s1).1 in
      let tail = process_ids-R vids s1 second.0 s2 fine.1 (λ i. (second.1 i, s2)) in
      let e : s2 ≡ s' = ground arith in
      let here =
        renamed_id-Extends s1.translated_v2r s2.translated_v2r (R-Extends s1 s2 tail.0) vid first.0
          head.1 in
      let there = tail.1 in
      let whole : first.0 ∷ second.0 ≡ rids = ground arith in
      (
        subst (λ z. R s z) e (R-trans s s1 s2 head.0 tail.0),
        subst (λ z. renamed_ids z.translated_v2r (vid ∷ vids) ≡ some rids) e (ground arith),
      )

  process_value-R :
      (a : Attribute) (ids : Ids) (s : Reiniter V) (a' : Attribute) (s' : Reiniter V)
      → OfValue Fine ids
      → process_value one a ids s ≡ (ok a', s')
      → R s s' × (renamed_value s'.translated_v2r a ids ≡ some a')
  unfolding process_value
  process_value-R a (one_id oid) s a' s' fine h =
      let first = after-ok _ (one oid s).0 (one oid s).1 a' s' h in
      let s1 = (one oid s).1 in
      let head = one-R oid s first.0 s1 fine (λ i. (first.1 i, s1)) in
      let e : s1 ≡ s' = ground arith in
      let there = head.1 in
      let whole : with_oid a first.0 ≡ a' = ground arith in
      (
        subst (λ z. R s z) e head.0,
        subst (λ z. renamed_value z.translated_v2r a (one_id oid) ≡ some a') e (ground arith),
      )
  process_value-R a (many_ids (null_list zero)) s a' s' fine h =
      let e : s ≡ s' = ground arith in (subst (λ z. R s z) e (R-refl s), ground arith)
  process_value-R a (many_ids (null_list (suc n))) s a' s' fine h = absurd (ground arith)
  process_value-R a (many_ids (items oids)) s a' s' fine h =
      let first = after-ok _ (process_ids one oids s).0 (process_ids one oids s).1 a' s' h in
      let s1 = (process_ids one oids s).1 in
      let head = process_ids-R oids s first.0 s1 fine (λ i. (first.1 i, s1)) in
      let e : s1 ≡ s' = ground arith in
      let there = head.1 in
      let whole : with_objlist a first.0 ≡ a' = ground arith in
      (
        subst (λ z. R s z) e head.0,
        subst (λ z. renamed_value z.translated_v2r a (many_ids (items oids)) ≡ some a') e
            (ground arith),
      )
  process_value-R a (no_ids true) s a' s' fine h = absurd (ground arith)
  process_value-R a (no_ids false) s a' s' fine h =
      let e : s ≡ s' = ground arith in (subst (λ z. R s z) e (R-refl s), ground arith)

  pub process_attributes_for_oids-R :
      (meta : Metadata) (object_type : ℕ) (attrs : List Attribute) (s : Reiniter V)
      (attrs' : List Attribute) (s' : Reiniter V)
      → OfAttributes meta Fine object_type attrs
      → process_attributes_for_oids one meta object_type attrs s ≡ (ok attrs', s')
      → R s s' × (renamed meta object_type s'.translated_v2r attrs ≡ some attrs')
  unfolding process_attributes_for_oids
  process_attributes_for_oids-R meta object_type [] s attrs' s' fine h =
      let e : s ≡ s' = ground arith in (subst (λ z. R s z) e (R-refl s), ground arith)
  process_attributes_for_oids-R meta object_type (a ∷ rest) s attrs' s' fine h =
      elim (Option-cases (meta.get_attr_metadata object_type a.id)) [
        | inl n ↦ absurd (ground arith)
        | inr (md, found) ↦
            let fine' : OfValue Fine (oids_of md a) =
              subst
                (λ (z : Option AttrMeta). elim z [
                  | none ↦ Unit
                  | some md' ↦ OfValue Fine (oids_of md' a)
                ])
                found fine.0 in
            let one_value = process_value one a (oids_of md a) s in
            let s1 = one_value.1 in
            let others = process_attributes_for_oids one meta object_type rest s1 in
            let s2 = others.1 in
            let h' : after
                  (λ a' s'.
                    after (λ rest' s''. (ok (a' ∷ rest'), s''))
                      (process_attributes_for_oids one meta object_type rest s').0
                      (process_attributes_for_oids one meta object_type rest s').1)
                  one_value.0 one_value.1
                ≡ (ok attrs', s') =
              ground arith in
            let first = after-ok _ one_value.0 s1 attrs' s' h' in
            let head = process_value-R a (oids_of md a) s first.0 s1 fine' (λ i. (first.1 i, s1)) in
            let second = after-ok _ others.0 s2 attrs' s' first.2 in
            let tail =
              process_attributes_for_oids-R meta object_type rest s1 second.0 s2 fine.1
                (λ i. (second.1 i, s2)) in
            let e : s2 ≡ s' = ground arith in
            let here =
              renamed_value-Extends s1.translated_v2r s2.translated_v2r (R-Extends s1 s2 tail.0) a
                (oids_of md a) first.0 head.1 in
            let there = tail.1 in
            let whole : first.0 ∷ second.0 ≡ attrs' = ground arith in
            (
              subst (λ z. R s z) e (R-trans s s1 s2 head.0 tail.0),
              subst (λ z. renamed meta object_type z.translated_v2r (a ∷ rest) ≡ some attrs') e
                  (rw (found, renamed) (ground arith)),
            )
      ]
