-- ===== src/Reinit/Objects/Keeps.antt =====
-- What the objects keep of the map, with no condition on their references: no entry is changed, and
-- no VID comes in twice.
use sonic_otairedis.Common.{
  ℕ, zero, suc, ◌≡◌, inl, inr, subst, arith, List, [], ◌∷◌, none, some, ok, Method, after, after-ok,
  ◌==◌, ==_refl, ==_eq, Bool-cases, Option-cases,
}
use sonic_otairedis.Common.Assoc.{find, Distinct, find-insert, insert-Distinct}
use sonic_otairedis.Otai.{ObjectTypes}
use sonic_otairedis.Metadata.{null_list, items, Attribute, Metadata}
use sonic_otairedis.Serialize.ObjectId.{otai_serialize_object_id, otai_deserialize_object_id}
use sonic_otairedis.Serialize.Texts.{same_text}
use sonic_otairedis.Oid.VidManager
use sonic_otairedis.Translator.Attributes.{Ids, one_id, many_ids, no_ids}
use sonic_otairedis.Requests.{Vendor}
use sonic_otairedis.Reinit.{ObjectIdMap, StringHash, AsicState}
use sonic_otairedis.Reinit.Objects.{
  Reiniter, oids_of, attrs_for_create, process_attributes_for_oids, save_object, create_object,
  process_object, process_single_vid, process_each,
}
use sonic_otairedis.Reinit.Objects.Renamed.{
  Extends, renamed_id, renamed_id-Extends, renamed, AllTranslated,
}
use sonic_otairedis.Reinit.Objects.Renamed.Loops.{
  AllIds, OfValue, OfAttributes, process_attributes_for_oids-R,
}
use sonic_otairedis.Reinit.Objects.Recreated.Step.{saved, save_object-cases}

abbrev pub Any : ℕ → Type 0
Any vid = Unit

Any-ids : (vids : List ℕ) → AllIds Any vids
Any-ids [] = tt
Any-ids (vid ∷ vids) = (tt, Any-ids vids)

Any-value : (ids : Ids) → OfValue Any ids
Any-value (one_id oid) = tt
Any-value (many_ids (null_list n)) = tt
Any-value (many_ids (items oids)) = Any-ids oids
Any-value (no_ids isoid) = tt

Any-attributes :
    (meta : Metadata) (object_type : ℕ) (attrs : List Attribute)
    → OfAttributes meta Any object_type attrs
Any-attributes meta object_type [] = tt
Any-attributes meta object_type (a ∷ rest) =
    elim (Option-cases (meta.get_attr_metadata object_type a.id)) [
      | inl missing ↦ rw missing (tt, Any-attributes meta object_type rest)
      | inr (md, found) ↦ rw found (Any-value (oids_of md a), Any-attributes meta object_type rest)
    ]

module _ {V : Type 0} where
  pub record Keeps (a b : Reiniter V) : Type 0 where
    pub extends : Extends a.translated_v2r b.translated_v2r
    pub distinct : Distinct ◌==◌ a.translated_v2r → Distinct ◌==◌ b.translated_v2r

  pub Keeps-refl : (s : Reiniter V) → Keeps s s
  Keeps-refl s = record { extends = λ vid rid h. h; distinct = λ d. d }

  pub Keeps-trans : (a b c : Reiniter V) → Keeps a b → Keeps b c → Keeps a c
  Keeps-trans a b c g h = record {
    extends = λ vid rid k. h.extends vid rid (g.extends vid rid k);
    distinct = λ d. h.distinct (g.distinct d);
  }

module _ ⦃t : ObjectTypes⦄ (meta : Metadata) {V : Type 0} (vendor : Vendor V) (asic : AsicState)
    (vid_to_rid : ObjectIdMap) where
  open t use {null_object_id}

  abbrev pub KeepsOne : (ℕ → Method (Reiniter V) ℕ) → Type 0
  KeepsOne one =
      (vid : ℕ) (s : Reiniter V) (rid : ℕ) (s' : Reiniter V)
      → one vid s ≡ (ok rid, s')
      → Keeps s s' × (renamed_id s'.translated_v2r vid ≡ some rid)

  -- The attributes of an object, or those that are left of a linecard.
  pub process_attributes_for_oids-Keeps :
      (one : ℕ → Method (Reiniter V) ℕ)
      → KeepsOne one
      → (object_type : ℕ) (attrs : List Attribute) (s : Reiniter V) (attrs' : List Attribute)
        (s' : Reiniter V)
      → process_attributes_for_oids one meta object_type attrs s ≡ (ok attrs', s')
      → Keeps s s' × (renamed meta object_type s'.translated_v2r attrs ≡ some attrs')
  process_attributes_for_oids-Keeps one each object_type attrs s attrs' s' h =
      process_attributes_for_oids-R Keeps Keeps-refl Keeps-trans (λ a b g. g.extends) Any one
        (λ vid s1 rid s2 fine k. each vid s1 rid s2 k) meta object_type attrs s attrs' s'
        (Any-attributes meta object_type attrs) h

  -- An object of a VID that was new when its attributes were begun.
  create_object-Keeps :
      (object_type vid : ℕ) (attrs : List Attribute) (before s : Reiniter V) (rid : ℕ)
      (s' : Reiniter V)
      → find ◌==◌ vid before.translated_v2r ≡ none
      → Keeps before s
      → create_object meta vendor asic vid_to_rid object_type vid attrs s ≡ (ok rid, s')
      → Keeps before s' × (find ◌==◌ vid s'.translated_v2r ≡ some rid)
  unfolding create_object
  create_object-Keeps object_type vid attrs before s rid s' new kept h =
      elim (Option-cases (find ◌==◌ vid vid_to_rid)) [
        | inl n ↦ absurd (ground arith)
        | inr (previous, found) ↦
            let call =
              vendor.create object_type s.linecard_rid (attrs_for_create meta object_type attrs)
                s.hardware in
            let h' : save_object meta vendor asic vid_to_rid vid call.0
                  (record s { hardware = call.1 })
                ≡ (ok rid, s') =
              ground arith in
            let done =
              save_object-cases meta vendor asic vid_to_rid vid call.0.0 call.0.1 rid
                (record s { hardware = call.1 }) s' h' in
            let at : (k : ℕ) → _ = λ k. find-insert k vid rid s.translated_v2r in
            let there = at vid in
            let same = ==_refl vid in
            let result : Keeps before (saved vid rid call.1 s) = record {
              extends = λ k r known.
                  let here = at k in
                  let still = kept.extends k r known in
                  elim (Bool-cases (k == vid)) [
                    | inl e ↦
                        let gone : find ◌==◌ vid before.translated_v2r ≡ some r =
                          subst (λ z. find ◌==◌ z before.translated_v2r ≡ some r) (==_eq k vid e)
                            known in
                        absurd (ground arith)
                    | inr other ↦ ground arith
                  ];
              distinct = λ d. insert-Distinct vid rid s.translated_v2r (kept.distinct d);
            } in
            (
              subst (λ z. Keeps before z) done.2 result,
              subst (λ z. find ◌==◌ vid z.translated_v2r ≡ some rid) done.2 (ground arith),
            )
      ]

  process_object-Keeps :
      (one : ℕ → Method (Reiniter V) ℕ)
      → KeepsOne one
      → (vid object_type : ℕ) (s : Reiniter V) (rid : ℕ) (s' : Reiniter V)
      → find ◌==◌ vid s.translated_v2r ≡ none
      → process_object meta vendor asic vid_to_rid one vid object_type s ≡ (ok rid, s')
      → Keeps s s' × (find ◌==◌ vid s'.translated_v2r ≡ some rid)
  unfolding process_object
  process_object-Keeps one each vid object_type s rid s' new h =
      elim (Option-cases (find same_text (otai_serialize_object_id vid) asic.oids)) [
        | inl n ↦ absurd (ground arith)
        | inr (key, named) ↦ elim (Option-cases (find same_text key asic.attributes_lists)) [
          | inl n ↦ absurd (ground arith)
          | inr (attrs, listed) ↦
              let loop = process_attributes_for_oids one meta object_type attrs s in
              let h' : after (create_object meta vendor asic vid_to_rid object_type vid) loop.0
                    loop.1
                  ≡ (ok rid, s') =
                ground arith in
              let first = after-ok _ loop.0 loop.1 rid s' h' in
              let attributes =
                process_attributes_for_oids-Keeps one each object_type attrs s first.0 loop.1
                  (λ i. (first.1 i, loop.1)) in
              create_object-Keeps object_type vid first.0 s loop.1 rid s' new attributes.0 first.2
        ]
      ]

  pub process_single_vid-Keeps :
      (depth : ℕ) → KeepsOne (process_single_vid meta vendor asic vid_to_rid depth)
  unfolding process_single_vid
  process_single_vid-Keeps zero vid s rid s' h = absurd (ground arith)
  process_single_vid-Keeps (suc depth) vid s rid s' h = elim (Bool-cases (vid == null_object_id)) [
    | inl is_null ↦
        let e : s ≡ s' = ground arith in (subst (λ z. Keeps s z) e (Keeps-refl s), ground arith)
    | inr other ↦ elim (Option-cases (find ◌==◌ vid s.translated_v2r)) [
      | inr (known, found) ↦
          let e : s ≡ s' = ground arith in
          (
            subst (λ z. Keeps s z) e (Keeps-refl s),
            subst (λ z. renamed_id z.translated_v2r vid ≡ some rid) e (ground arith),
          )
      | inl new ↦
          let one = process_single_vid meta vendor asic vid_to_rid depth in
          let query = VidManager.object_type_query vid in
          let h' : after (process_object meta vendor asic vid_to_rid one vid) query s
              ≡ (ok rid, s') =
            ground arith in
          let first = after-ok _ query s rid s' h' in
          let made =
            process_object-Keeps one (process_single_vid-Keeps depth) vid first.0 s rid s' new
              first.2 in
          let there = made.1 in (made.0, ground arith)
    ]
  ]

  pub process_each-Keeps :
      (depth : ℕ) (oids : StringHash) (s s' : Reiniter V)
      → process_each meta vendor asic vid_to_rid depth oids s ≡ (ok tt, s')
      → Keeps s s' × AllTranslated oids s'.translated_v2r
  unfolding process_each
  process_each-Keeps depth [] s s' h =
      let e : s ≡ s' = ground arith in (subst (λ z. Keeps s z) e (Keeps-refl s), tt)
  process_each-Keeps depth ((str_object_id, asic_key) ∷ rest) s s' h =
      let first = after-ok _ (otai_deserialize_object_id str_object_id) s tt s' h in
      let vid = first.0 in
      let one = process_single_vid meta vendor asic vid_to_rid depth vid s in
      let second = after-ok _ one.0 one.1 tt s' first.2 in
      let head = process_single_vid-Keeps depth vid s second.0 one.1 (λ i. (second.1 i, one.1)) in
      let tail = process_each-Keeps depth rest one.1 s' second.2 in
      let known =
        renamed_id-Extends one.1.translated_v2r s'.translated_v2r tail.0.extends vid second.0
          head.1 in
      (Keeps-trans s one.1 s' head.0 tail.0, ((vid, second.0, first.1, known), tail.1))
