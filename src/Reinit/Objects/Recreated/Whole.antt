-- ===== src/Reinit/Objects/Recreated/Whole.antt =====
-- The recursion over the objects, and `processOids`.
use sonic_otairedis.Common.{
  ℕ, zero, suc, ◌+◌, ◌≡◌, inl, inr, refl, subst, ◌∙◌, arith, [], ◌∷◌, none, some, ok, Method, after,
  after-ok, ◌==◌, Bool-cases, Option-cases,
}
use sonic_otairedis.Common.Assoc.{find}
use sonic_otairedis.Otai.{ObjectTypes}
use sonic_otairedis.Metadata.{Metadata}
use sonic_otairedis.Serialize.ObjectId.{otai_serialize_object_id, otai_deserialize_object_id}
use sonic_otairedis.Serialize.Texts.{same_text}
use sonic_otairedis.Oid.VidManager
use sonic_otairedis.Requests.{Vendor}
use sonic_otairedis.Reinit.{ObjectIdMap, StringHash, AsicState}
use sonic_otairedis.Reinit.Objects.{
  Reiniter, process_attributes_for_oids, create_object, process_object, process_single_vid,
  process_each, process_oids,
}
use sonic_otairedis.Reinit.Objects.Renamed.{renamed_id, renamed_id-Extends, AllTranslated}
use sonic_otairedis.Reinit.Objects.Renamed.Loops.{process_attributes_for_oids-R}
use sonic_otairedis.Reinit.Objects.Recreated.{
  Creates, Listed, Below, Ranked, AllRecreated, Grows, Grows-refl, Grows-trans, Grows-weaken,
}
use sonic_otairedis.Reinit.Objects.Recreated.Step.{process_single_vid-null, create_object-Grows}

module _ ⦃t : ObjectTypes⦄ (meta : Metadata) {V : Type 0} (vendor : Vendor V) (asic : AsicState)
    (vid_to_rid : ObjectIdMap) (rank : ℕ → ℕ) (ranked : Ranked meta asic rank)
    (start : Reiniter V) where
  open t use {null_object_id}

  abbrev Step : ℕ → Reiniter V → Reiniter V → Type 0
  Step bound a b = Grows meta vendor asic rank bound start a b

  abbrev OneStep : (ℕ → Method (Reiniter V) ℕ) → Type 0
  OneStep one =
      (vid : ℕ) (s : Reiniter V) (rid : ℕ) (s' : Reiniter V)
      → one vid s ≡ (ok rid, s')
      → Step (suc (rank vid)) s s' × (renamed_id s'.translated_v2r vid ≡ some rid)

  abbrev NullStep : (ℕ → Method (Reiniter V) ℕ) → Type 0
  NullStep one =
      (s : Reiniter V) (rid : ℕ) (s' : Reiniter V)
      → one null_object_id s ≡ (ok rid, s')
      → (s ≡ s') × (null_object_id ≡ rid)

  -- A step for a VID that an object refers to stays below the object.
  Below-Step :
      (one : ℕ → Method (Reiniter V) ℕ)
      → OneStep one
      → NullStep one
      → (bound vid : ℕ) (s : Reiniter V) (rid : ℕ) (s' : Reiniter V)
      → Below meta asic rank bound vid
      → one vid s ≡ (ok rid, s')
      → Step bound s s' × (renamed_id s'.translated_v2r vid ≡ some rid)
  Below-Step one each null bound vid s rid s' (inl e) h =
      let h' = subst (λ z. one z s ≡ (ok rid, s')) e h in
      let stays = null s rid s' h' in
      let known = each vid s rid s' h in
      (
        subst (λ z. Step bound s z) stays.0 (Grows-refl meta vendor asic rank bound start s),
        known.1,
      )
  Below-Step one each null bound vid s rid s' (inr lt) h =
      let known = each vid s rid s' h in
      (
        Grows-weaken meta vendor asic rank (suc (rank vid)) bound start s s' (omega arith) known.0,
        known.1,
      )

  process_object-Step :
      (one : ℕ → Method (Reiniter V) ℕ)
      → OneStep one
      → NullStep one
      → (vid object_type : ℕ) (s : Reiniter V) (rid : ℕ) (s' : Reiniter V)
      → VidManager.object_type_query vid ≡ ok object_type
      → find ◌==◌ vid s.translated_v2r ≡ none
      → process_object meta vendor asic vid_to_rid one vid object_type s ≡ (ok rid, s')
      → Step (suc (rank vid)) s s' × (find ◌==◌ vid s'.translated_v2r ≡ some rid)
  unfolding process_object
  process_object-Step one each null vid object_type s rid s' typed new h =
      elim (Option-cases (find same_text (otai_serialize_object_id vid) asic.oids)) [
        | inl n ↦ absurd (ground arith)
        | inr (key, named) ↦ elim (Option-cases (find same_text key asic.attributes_lists)) [
          | inl n ↦ absurd (ground arith)
          | inr (attrs, kept) ↦
              let l : Listed asic vid = record {
                object_type = object_type;
                asic_key = key;
                attrs = attrs;
                typed = typed;
                named = named;
                kept = kept;
              } in
              let loop = process_attributes_for_oids one meta object_type attrs s in
              let h' : after (create_object meta vendor asic vid_to_rid object_type vid) loop.0
                    loop.1
                  ≡ (ok rid, s') =
                ground arith in
              let first = after-ok _ loop.0 loop.1 rid s' h' in
              let attributes =
                process_attributes_for_oids-R (Step (rank vid))
                  (Grows-refl meta vendor asic rank (rank vid) start)
                  (Grows-trans meta vendor asic rank (rank vid) start) (λ a b g. g.extends)
                  (Below meta asic rank (rank vid)) one (Below-Step one each null (rank vid)) meta
                  object_type attrs s first.0 loop.1 (ranked vid l) (λ i. (first.1 i, loop.1)) in
              let still : find ◌==◌ vid loop.1.translated_v2r ≡ none =
                attributes.0.above vid (omega arith) ∙ new in
              let made =
                create_object-Grows meta vendor asic vid_to_rid rank start loop.1 vid l first.0 rid
                  s' still attributes.1 first.2 in
              let weak =
                Grows-weaken meta vendor asic rank (rank vid) (suc (rank vid)) start s loop.1
                  (omega arith) attributes.0 in
              (
                Grows-trans meta vendor asic rank (suc (rank vid)) start s loop.1 s' weak made.0,
                made.1,
              )
        ]
      ]

  process_single_vid-Step :
      (depth : ℕ) → OneStep (process_single_vid meta vendor asic vid_to_rid depth)
  unfolding process_single_vid
  process_single_vid-Step zero vid s rid s' h = absurd (ground arith)
  process_single_vid-Step (suc depth) vid s rid s' h =
      let stay = Grows-refl meta vendor asic rank (suc (rank vid)) start s in
      elim (Bool-cases (vid == null_object_id)) [
        | inl is_null ↦
            let e : s ≡ s' = ground arith in
            (subst (λ z. Step (suc (rank vid)) s z) e stay, ground arith)
        | inr other ↦ elim (Option-cases (find ◌==◌ vid s.translated_v2r)) [
          | inr (known, found) ↦
              let e : s ≡ s' = ground arith in
              (
                subst (λ z. Step (suc (rank vid)) s z) e stay,
                subst (λ z. renamed_id z.translated_v2r vid ≡ some rid) e (ground arith),
              )
          | inl new ↦
              let one = process_single_vid meta vendor asic vid_to_rid depth in
              let query = VidManager.object_type_query vid in
              let h' : after (process_object meta vendor asic vid_to_rid one vid) query s
                  ≡ (ok rid, s') =
                ground arith in
              let first = after-ok _ query s rid s' h' in
              let made =
                process_object-Step one (process_single_vid-Step depth)
                  (process_single_vid-null meta vendor asic vid_to_rid depth) vid first.0 s rid s'
                  first.1 new first.2 in
              let there = made.1 in (made.0, ground arith)
        ]
      ]

  process_each-Step :
      (depth : ℕ) (oids : StringHash) (s s' : Reiniter V)
      → process_each meta vendor asic vid_to_rid depth oids s ≡ (ok tt, s')
      → (bound : ℕ) × Step bound s s' × AllTranslated oids s'.translated_v2r
  unfolding process_each
  process_each-Step depth [] s s' h =
      let e : s ≡ s' = ground arith in
      (0, subst (λ z. Step 0 s z) e (Grows-refl meta vendor asic rank 0 start s), tt)
  process_each-Step depth ((str_object_id, asic_key) ∷ rest) s s' h =
      let first = after-ok _ (otai_deserialize_object_id str_object_id) s tt s' h in
      let vid = first.0 in
      let one = process_single_vid meta vendor asic vid_to_rid depth vid s in
      let second = after-ok _ one.0 one.1 tt s' first.2 in
      let head = process_single_vid-Step depth vid s second.0 one.1 (λ i. (second.1 i, one.1)) in
      let tail = process_each-Step depth rest one.1 s' second.2 in
      let low = suc (rank vid) in
      let bound = low + tail.0 in
      let left = Grows-weaken meta vendor asic rank low bound start s one.1 (omega arith) head.0 in
      let right =
        Grows-weaken meta vendor asic rank tail.0 bound start one.1 s' (omega arith) tail.1 in
      (
        bound,
        Grows-trans meta vendor asic rank bound start s one.1 s' left right,
        (
          (
            vid,
            second.0,
            first.1,
            renamed_id-Extends one.1.translated_v2r s'.translated_v2r right.extends vid second.0
                head.1,
          ),
          tail.2,
        ),
      )

  -- For objects whose references form no circle: when `processOids` returns, every id of the
  -- ASIC_STATE is null or translated, what was translated before is as it was, and every VID
  -- translated since was created on the hardware by one of a sequence of calls of `create`, of the
  -- type of the VID and with those attributes of the object that a creation needs, the VIDs in them
  -- replaced by the RIDs of the final map; its RID is the answer of that call.
  pub process_oids-Recreated :
      (depth : ℕ) (s' : Reiniter V)
      → process_oids meta vendor asic vid_to_rid depth start ≡ (ok tt, s')
      → AllTranslated asic.oids s'.translated_v2r
        × ((vid rid : ℕ)
            → find ◌==◌ vid start.translated_v2r ≡ some rid
            → find ◌==◌ vid s'.translated_v2r ≡ some rid)
        × AllRecreated meta vendor asic start s'
  unfolding process_oids
  process_oids-Recreated depth s' h =
      let all = process_each-Step depth asic.oids start s' h in
      (all.2, all.1.extends, all.1.recreated refl Creates.done (λ vid rid k. inl k))
