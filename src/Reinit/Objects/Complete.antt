-- ===== src/Reinit/Objects/Complete.antt =====
-- When `processOids` returns: enough room on the stack, and an ASIC_STATE that is complete.
use sonic_otairedis.Common.{
  ℕ, zero, suc, ◌≤◌, ◌<◌, ◌≡◌, ◌⊎◌, inl, inr, refl, arith, true, false, List, [], ◌∷◌, some, ok,
  Method, after, Returns, after-Returns, ◌==◌, ==_refl, Bool-cases, Option-cases,
}
use sonic_otairedis.Common.Assoc.{find}
use sonic_otairedis.Otai.{ObjectTypes, Status, success}
use sonic_otairedis.Metadata.{null_list, items, Attribute, AttrMeta, Metadata}
use sonic_otairedis.Serialize.ObjectId.{otai_deserialize_object_id}
use sonic_otairedis.Translator.Attributes.{Ids, one_id, many_ids, no_ids}
use sonic_otairedis.Requests.{Vendor}
use sonic_otairedis.Reinit.{ObjectIdMap, StringHash, AsicState}
use sonic_otairedis.Reinit.Objects.{
  Reiniter, oids_of, attrs_for_create, process_ids, process_value, process_attributes_for_oids,
  save_object, create_object, process_object, process_single_vid, process_each, process_oids,
}
use sonic_otairedis.Reinit.Objects.Renamed.Loops.{AllIds}
use sonic_otairedis.Reinit.Objects.Recreated.{Listed}

-- Values that the loop does not refuse.
abbrev pub ReadableValue : (ℕ → Type 0) → Ids → Type 0
ReadableValue P (one_id oid) = P oid
ReadableValue P (many_ids (null_list zero)) = Unit
ReadableValue P (many_ids (null_list (suc n))) = ⊥
ReadableValue P (many_ids (items oids)) = AllIds P oids
ReadableValue P (no_ids true) = ⊥
ReadableValue P (no_ids false) = Unit

abbrev pub Readable : Metadata → (ℕ → Type 0) → ℕ → List Attribute → Type 0
Readable meta P object_type [] = Unit
Readable meta P object_type (a ∷ rest) =
    ((md : AttrMeta) × (meta.get_attr_metadata object_type a.id ≡ some md)
      × ReadableValue P (oids_of md a))
    × Readable meta P object_type rest

module _ {S : Type 0} (P : ℕ → Type 0) (one : ℕ → Method S ℕ)
    (returns : (vid : ℕ) → P vid → (s : S) → Returns (one vid s)) where
  process_ids-Returns : (vids : List ℕ) → AllIds P vids → (s : S) → Returns (process_ids one vids s)
  unfolding process_ids
  process_ids-Returns [] p s = ([], s, refl)
  process_ids-Returns (vid ∷ vids) p s =
      after-Returns _ (one vid s).0 (one vid s).1 (returns vid p.0 s) λ rid s1 h k.
        after-Returns _ (process_ids one vids s1).0 (process_ids one vids s1).1
          (process_ids-Returns vids p.1 s1) λ rids s2 h' k'. (rid ∷ rids, s2, refl)

  process_value-Returns :
      (a : Attribute) (ids : Ids)
      → ReadableValue P ids
      → (s : S) → Returns (process_value one a ids s)
  unfolding process_value
  process_value-Returns a (one_id oid) p s =
      after-Returns _ (one oid s).0 (one oid s).1 (returns oid p s) λ rid s1 h k. (_, s1, refl)
  process_value-Returns a (many_ids (null_list zero)) p s = (a, s, refl)
  process_value-Returns a (many_ids (null_list (suc n))) p s = absurd p
  process_value-Returns a (many_ids (items oids)) p s =
      after-Returns _ (process_ids one oids s).0 (process_ids one oids s).1
        (process_ids-Returns oids p s) λ rids s1 h k. (_, s1, refl)
  process_value-Returns a (no_ids true) p s = absurd p
  process_value-Returns a (no_ids false) p s = (a, s, refl)

  process_attributes_for_oids-Returns :
      (meta : Metadata) (object_type : ℕ) (attrs : List Attribute)
      → Readable meta P object_type attrs
      → (s : S) → Returns (process_attributes_for_oids one meta object_type attrs s)
  unfolding process_attributes_for_oids
  process_attributes_for_oids-Returns meta object_type [] p s = ([], s, refl)
  process_attributes_for_oids-Returns meta object_type (a ∷ rest) p s =
      let md = p.0.0 in
      let value = process_value one a (oids_of md a) s in
      let whole : Returns (
          after
            (λ a' s'.
              after (λ rest' s''. (ok (a' ∷ rest'), s''))
                (process_attributes_for_oids one meta object_type rest s').0
                (process_attributes_for_oids one meta object_type rest s').1)
            value.0 value.1) =
        after-Returns _ value.0 value.1 (process_value-Returns a (oids_of md a) p.0.2 s)
          λ a' s1 h k.
            after-Returns _ (process_attributes_for_oids one meta object_type rest s1).0
              (process_attributes_for_oids one meta object_type rest s1).1
              (process_attributes_for_oids-Returns meta object_type rest p.1 s1)
              λ rest' s2 h' k'. (a' ∷ rest', s2, refl) in
      rw (p.0.1, process_attributes_for_oids) whole

module _ ⦃t : ObjectTypes⦄ (meta : Metadata) {V : Type 0} (vendor : Vendor V) (asic : AsicState)
    (vid_to_rid : ObjectIdMap) where
  open t use {null_object_id}

  -- An id that `processSingleVid` can meet: null, or that of an object of the ASIC_STATE, of a rank
  -- below the bound.
  abbrev pub Met : (ℕ → ℕ) → ℕ → ℕ → Type 0
  Met rank bound vid = (vid ≡ null_object_id) ⊎ (Listed asic vid × (rank vid < bound))

  -- The object of a VID can be created: the stored map has the VID, and the metadata know its
  -- attributes, which refer to null and to objects of lower rank.
  abbrev pub Creatable : (ℕ → ℕ) → Type 0
  Creatable rank =
      (vid : ℕ) (l : Listed asic vid)
      → ((previous : ℕ) × (find ◌==◌ vid vid_to_rid ≡ some previous))
        × Readable meta (Met rank (rank vid)) l.object_type l.attrs

  -- Every text is that of an id that can be met.
  abbrev pub AllMet : (ℕ → ℕ) → ℕ → StringHash → Type 0
  AllMet rank bound [] = Unit
  AllMet rank bound ((str_object_id, asic_key) ∷ rest) =
      ((vid : ℕ) × (otai_deserialize_object_id str_object_id ≡ ok vid) × Met rank bound vid)
      × AllMet rank bound rest

  -- The vendor library creates what it is asked for.
  abbrev pub AlwaysCreates : Type 0
  AlwaysCreates =
      (object_type linecard_rid : ℕ) (attrs : List Attribute) (v : V)
      → (vendor.create object_type linecard_rid attrs v).0.0 ≡ success

  module _ (rank : ℕ → ℕ) (creatable : Creatable rank) (always : AlwaysCreates) where
    save_object-Returns :
        (vid : ℕ) (status : Status) (rid : ℕ) (s : Reiniter V)
        → status ≡ success
        → Returns (save_object meta vendor asic vid_to_rid vid (status, rid) s)
    unfolding save_object
    save_object-Returns vid status rid s h = rw (h, save_object) (rid, _, refl)

    create_object-Returns :
        (object_type vid : ℕ) (attrs : List Attribute) (s : Reiniter V)
        → ((previous : ℕ) × (find ◌==◌ vid vid_to_rid ≡ some previous))
        → Returns (create_object meta vendor asic vid_to_rid object_type vid attrs s)
    unfolding create_object
    create_object-Returns object_type vid attrs s (previous, found) =
        let chosen = attrs_for_create meta object_type attrs in
        let call = vendor.create object_type s.linecard_rid chosen s.hardware in
        rw (found, create_object)
          (save_object-Returns vid call.0.0 call.0.1 (record s { hardware = call.1 })
            (always object_type s.linecard_rid chosen s.hardware))

    process_object-Returns :
        (one : ℕ → Method (Reiniter V) ℕ) (vid : ℕ) (l : Listed asic vid)
        → ((v : ℕ) → Met rank (rank vid) v → (s : Reiniter V) → Returns (one v s))
        → (s : Reiniter V)
        → Returns (process_object meta vendor asic vid_to_rid one vid l.object_type s)
    unfolding process_object
    process_object-Returns one vid l met s =
        let loop = process_attributes_for_oids one meta l.object_type l.attrs s in
        let fine = creatable vid l in
        rw (l.named, l.kept, process_object)
          (after-Returns (create_object meta vendor asic vid_to_rid l.object_type vid) loop.0 loop.1
            (process_attributes_for_oids-Returns (Met rank (rank vid)) one met meta l.object_type
              l.attrs fine.1 s)
            λ attrs s1 h k. create_object-Returns l.object_type vid attrs s1 fine.0)

    Met-weaken : (low high vid : ℕ) → low ≤ high → Met rank low vid → Met rank high vid
    Met-weaken low high vid le (inl e) = inl e
    Met-weaken low high vid le (inr (l, lt)) = inr (l, omega arith)

    -- The object of a VID, for a way to process those below it.
    single-Returns :
        (depth vid : ℕ) (l : Listed asic vid)
        → ((v : ℕ)
            → Met rank (rank vid) v
            → (s : Reiniter V) → Returns (process_single_vid meta vendor asic vid_to_rid depth v s))
        → (s : Reiniter V)
        → Returns (process_single_vid meta vendor asic vid_to_rid (suc depth) vid s)
    unfolding process_single_vid
    single-Returns depth vid l met s = elim (Bool-cases (vid == null_object_id)) [
      | inl is_null ↦ (null_object_id, s, ground arith)
      | inr other ↦ elim (Option-cases (find ◌==◌ vid s.translated_v2r)) [
        | inr (rid, found) ↦ (rid, s, ground arith)
        | inl new ↦
            rw (other, new, l.typed, process_single_vid)
              (process_object-Returns (process_single_vid meta vendor asic vid_to_rid depth) vid l
                met s)
      ]
    ]

    process_single_vid-Returns :
        (depth vid : ℕ)
        → Met rank depth vid
        → (s : Reiniter V)
        → Returns (process_single_vid meta vendor asic vid_to_rid (suc depth) vid s)
    unfolding process_single_vid
    process_single_vid-Returns depth vid (inl e) s =
        let same = ==_refl null_object_id in (null_object_id, s, ground arith)
    process_single_vid-Returns zero vid (inr (l, lt)) s = absurd (omega arith)
    process_single_vid-Returns (suc depth) vid (inr (l, lt)) s =
        single-Returns (suc depth) vid l
          (λ v met s'.
            process_single_vid-Returns depth v (Met-weaken (rank vid) depth v (omega arith) met) s')
          s

    process_each-Returns :
        (depth : ℕ) (oids : StringHash)
        → AllMet rank depth oids
        → (s : Reiniter V) → Returns (process_each meta vendor asic vid_to_rid (suc depth) oids s)
    unfolding process_each
    process_each-Returns depth [] met s = (tt, s, refl)
    process_each-Returns depth ((str_object_id, asic_key) ∷ rest) met s =
        let vid = met.0.0 in
        let one = process_single_vid meta vendor asic vid_to_rid (suc depth) vid s in
        let whole : Returns
            (after (λ rid. process_each meta vendor asic vid_to_rid (suc depth) rest) one.0 one.1) =
          after-Returns _ one.0 one.1 (process_single_vid-Returns depth vid met.0.2 s)
            λ rid s1 h k. process_each-Returns depth rest met.1 s1 in
        rw (met.0.1, process_each) whole

    -- `processOids` returns, and neither throws nor overflows the stack, if the texts of the
    -- ASIC_STATE are those of ids that are null or of objects of it, each object can be created (the
    -- stored map has its VID, the metadata know its attributes, and these refer to null and to objects
    -- of lower rank), the vendor library creates every object that it is asked for, and the stack has
    -- room for one call more than a bound above all the ranks.
    pub process_oids-Returns :
        (depth : ℕ)
        → AllMet rank depth asic.oids
        → (s : Reiniter V) → Returns (process_oids meta vendor asic vid_to_rid (suc depth) s)
    unfolding process_oids
    process_oids-Returns depth met s = process_each-Returns depth asic.oids met s
