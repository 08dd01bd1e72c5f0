-- ===== src/Translator/Attributes/Kept.antt =====
-- The translation of a request's attributes leaves the database as it is.
use sonic_otairedis.Common.{
  ℕ, ◌≡◌, inl, inr, refl, ◌∙◌, true, false, arith, List, [], ◌∷◌, Option, Method, Bool-cases,
  Option-cases, Result-cases, ◌==◌,
}
use sonic_otairedis.Otai.{ObjectTypes}
use sonic_otairedis.Metadata.{null_list, items, Attribute, AttrMeta, Metadata}
use sonic_otairedis.Redis.VidMap.{VidMap}
use sonic_otairedis.Translator.{Translator, translate_vid_to_rid, translate_vids}
use sonic_otairedis.Translator.Attributes.{
  Ids, one_id, many_ids, no_ids, ids_of, translate_ids, translate_attributes,
  translate_attributes_to_rids,
}

-- A part of the state that a translation of ids keeps, it keeps over whole attributes.
module _ {S D : Type 0} (part : S → D) (one : ℕ → Method S ℕ) (many : List ℕ → Method S (List ℕ))
    (one-part : (vid : ℕ) (s : S) → part (one vid s).1 ≡ part s)
    (many-part : (vids : List ℕ) (s : S) → part (many vids s).1 ≡ part s) where
  translate_ids-part :
      (a : Attribute) (ids : Ids) (s : S) → part (translate_ids one many a ids s).1 ≡ part s
  unfolding translate_ids
  translate_ids-part a (one_id oid) s = elim (Result-cases (one oid s).0) [
    | inl (message, e) ↦ rw (e, translate_ids) (one-part oid s)
    | inr (rid, e) ↦ rw (e, translate_ids) (one-part oid s)
  ]
  translate_ids-part a (many_ids (null_list n)) s = elim (Bool-cases (n == 0)) [
    | inl e ↦ rw (e, translate_ids) refl
    | inr e ↦ rw (e, translate_ids) refl
  ]
  translate_ids-part a (many_ids (items oids)) s = elim (Result-cases (many oids s).0) [
    | inl (message, e) ↦ rw (e, translate_ids) (many-part oids s)
    | inr (rids, e) ↦ rw (e, translate_ids) (many-part oids s)
  ]
  translate_ids-part a (no_ids true) s = refl
  translate_ids-part a (no_ids false) s = refl

  translate_attributes-part :
      (lookup : ℕ → Option AttrMeta) (attrs : List Attribute) (s : S)
      → part (translate_attributes one many lookup attrs s).1 ≡ part s
  unfolding translate_attributes
  translate_attributes-part lookup [] s = refl
  translate_attributes-part lookup (a ∷ rest) s = elim (Option-cases (lookup a.id)) [
    | inl e ↦ rw (e, translate_attributes) refl
    | inr (md, e) ↦
        let value = translate_ids one many a (ids_of md a) s in
        let first = translate_ids-part a (ids_of md a) s in
        let others = translate_attributes one many lookup rest value.1 in
        let later = translate_attributes-part lookup rest value.1 in
        elim (Result-cases value.0) [
          | inl (message, e') ↦ rw (e, e', translate_attributes) first
          | inr (a', e') ↦ elim (Result-cases others.0) [
            | inl (message, e'') ↦ rw (e, e', e'', translate_attributes) (later ∙ first)
            | inr (rest', e'') ↦ rw (e, e', e'', translate_attributes) (later ∙ first)
          ]
        ]
  ]

module _ ⦃t : ObjectTypes⦄ (m : VidMap) where
  pub translate_vid_to_rid-db :
      (vid : ℕ) (tr : Translator m) → (translate_vid_to_rid m vid tr).1.db ≡ tr.db
  unfolding translate_vid_to_rid
  translate_vid_to_rid-db vid tr = ground arith

  translate_vids-db : (vids : List ℕ) (tr : Translator m) → (translate_vids m vids tr).1.db ≡ tr.db
  unfolding translate_vids
  translate_vids-db [] tr = refl
  translate_vids-db (vid ∷ vids) tr =
      let one = translate_vid_to_rid m vid tr in
      let first = translate_vid_to_rid-db vid tr in
      let others = translate_vids m vids one.1 in
      let later = translate_vids-db vids one.1 in
      elim (Result-cases one.0) [
        | inl (message, e) ↦ rw (e, translate_vids) first
        | inr (rid, e) ↦ elim (Result-cases others.0) [
          | inl (message, e') ↦ rw (e, e', translate_vids) (later ∙ first)
          | inr (rids, e') ↦ rw (e, e', translate_vids) (later ∙ first)
        ]
      ]

  pub translate_attributes_to_rids-db :
      (meta : Metadata) (object_type : ℕ) (attrs : List Attribute) (tr : Translator m)
      → (translate_attributes_to_rids m meta object_type attrs tr).1.db ≡ tr.db
  unfolding translate_attributes_to_rids
  translate_attributes_to_rids-db meta object_type attrs tr =
      translate_attributes-part (λ (s : Translator m). s.db) (translate_vid_to_rid m)
        (translate_vids m) translate_vid_to_rid-db translate_vids-db
        (meta.get_attr_metadata object_type) attrs tr
