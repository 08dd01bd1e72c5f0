-- ===== src/Reinit/Linecards/Kept.antt =====
-- What the loops over the linecards keep of the maps: no VID comes in twice, and none is lost.
use sonic_otairedis.Common.{
  ℕ, ◌≡◌, inl, inr, refl, subst, sym, ◌∙◌, arith, true, List, [], ◌∷◌, ok, Method, after, after-ok,
  ◌==◌, Bool-cases, Option-cases, Result-cases,
}
use sonic_otairedis.Common.Assoc.{find, contains, Distinct, insert-Distinct, contains-insert}
use sonic_otairedis.Otai.{ObjectTypes, Status, success, is_success}
use sonic_otairedis.Metadata.{Attribute, Metadata}
use sonic_otairedis.Serialize.ObjectId.{Text}
use sonic_otairedis.Requests.{Vendor}
use sonic_otairedis.Reinit.{ObjectIdMap, StringHash, AsicState}
use sonic_otairedis.Reinit.Objects.{Reiniter, process_attributes_for_oids, process_single_vid}
use sonic_otairedis.Reinit.Objects.Keeps.{
  process_single_vid-Keeps, process_attributes_for_oids-Keeps,
}
use sonic_otairedis.Reinit.BoardMode.{LinecardAttrs, flag_attr}
use sonic_otairedis.Reinit.Linecards.{
  Split, set_on_linecard, set_left, configure, begin_config, save_linecard, create_linecard,
  linecard_vid, linecard_split, process_linecard, process_linecards, one_linecard, previous_rid,
  stop_pre_config, stop_pre_config_linecards,
}

module _ {S : Type 0} (f : Text → Text → Method S (Unit {0})) (P : S → S → Type 0)
    (P-refl : (s : S) → P s s) where
  one_linecard-ok :
      ((str_vid asic_key : Text) (s s' : S) → f str_vid asic_key s ≡ (ok tt, s') → P s s')
      → (linecards : StringHash) (s s' : S) → one_linecard f linecards s ≡ (ok tt, s')
      → P s s'
  one_linecard-ok each [] s s' h = let e : s ≡ s' = ground arith in subst (λ z. P s z) e (P-refl s)
  one_linecard-ok each ((str_vid, asic_key) ∷ []) s s' h = each str_vid asic_key s s' h
  one_linecard-ok each (_ ∷ _ ∷ _) s s' h = absurd (ground arith)

  pub one_linecard-state :
      ((str_vid asic_key : Text) (s : S) → P s (f str_vid asic_key s).1)
      → (linecards : StringHash) (s : S) → P s (one_linecard f linecards s).1
  one_linecard-state each [] s = P-refl s
  one_linecard-state each ((str_vid, asic_key) ∷ []) s = each str_vid asic_key s
  one_linecard-state each (_ ∷ _ ∷ _) s = P-refl s

module _ ⦃t : ObjectTypes⦄ (meta : Metadata) (linecard_attrs : LinecardAttrs) {V : Type 0}
    (vendor : Vendor V) (start_linecard : ℕ → ℕ → Method V (Unit {0})) (asic : AsicState)
    (vid_to_rid : ObjectIdMap) where
  open t use {null_object_id, linecard}

  abbrev pub DistinctMap : Reiniter V → Type 0
  DistinctMap s = Distinct ◌==◌ s.translated_v2r

  pub set_left_same :
      (attrs : List Attribute) (s : Reiniter V)
      → (set_left meta linecard_attrs vendor start_linecard asic vid_to_rid attrs
          s).1.translated_v2r
        ≡ s.translated_v2r
  unfolding set_left set_on_linecard
  set_left_same [] s = refl
  set_left_same (a ∷ rest) s =
      let answer = vendor.set linecard s.linecard_rid (a ∷ []) s.hardware in
      let ih = set_left_same rest (record s { hardware = answer.1 }) in
      elim (Bool-cases (is_success answer.0)) [ inl e ↦ rw e ih | inr e ↦ rw e refl ]

  configure_rest-Distinct :
      (depth : ℕ) (attrs : List Attribute) (s s' : Reiniter V)
      → let one = process_single_vid meta vendor asic vid_to_rid depth in
        let left = process_attributes_for_oids one meta linecard attrs s in
        after (set_left meta linecard_attrs vendor start_linecard asic vid_to_rid) left.0 left.1
          ≡ (ok tt, s')
        → DistinctMap s
        → DistinctMap s'
  configure_rest-Distinct depth attrs s s' h d =
      let one = process_single_vid meta vendor asic vid_to_rid depth in
      let left = process_attributes_for_oids one meta linecard attrs s in
      let first = after-ok _ left.0 left.1 tt s' h in
      let kept =
        process_attributes_for_oids-Keeps meta vendor asic vid_to_rid one
          (process_single_vid-Keeps meta vendor asic vid_to_rid depth) linecard attrs s first.0
          left.1 (λ i. (first.1 i, left.1)) in
      let same = set_left_same first.0 left.1 in
      let end : left.1.translated_v2r ≡ s'.translated_v2r =
        sym same ∙ (λ i. (first.2 i).1.translated_v2r) in
      subst (λ z. Distinct ◌==◌ z) end (kept.0.distinct d)

  begin_config-Distinct :
      (depth vid : ℕ) (parts : Split) (s s' : Reiniter V)
      → begin_config meta linecard_attrs vendor start_linecard asic vid_to_rid depth vid parts s
        ≡ (ok tt, s')
      → DistinctMap s
      → DistinctMap s'
  unfolding begin_config configure set_on_linecard
  begin_config-Distinct depth vid parts s s' h d =
      let started = start_linecard vid s.linecard_rid s.hardware in
      let first = after-ok _ started.0 (record s { hardware = started.1 }) tt s' h in
      let told =
        set_on_linecard meta linecard_attrs vendor start_linecard asic vid_to_rid
          "failed to start pre-config linecard" (flag_attr linecard_attrs.start_pre_configuration)
          (record s { hardware = started.1 }) in
      let second = after-ok _ told.0 told.1 tt s' first.2 in
      configure_rest-Distinct depth parts.attrs_left _ s' second.2 d

  save_linecard-Distinct :
      (depth vid : ℕ) (parts : Split) (status : Status) (rid : ℕ) (s s' : Reiniter V)
      → save_linecard meta linecard_attrs vendor start_linecard asic vid_to_rid depth vid parts
          (status, rid)
          s
        ≡ (ok tt, s')
      → DistinctMap s
      → DistinctMap s'
  unfolding save_linecard
  save_linecard-Distinct depth vid parts success rid s s' h d =
      begin_config-Distinct depth vid parts _ s' h (insert-Distinct vid rid s.translated_v2r d)
  save_linecard-Distinct depth vid parts status rid s s' h d = absurd (ground arith)

  create_linecard-Distinct :
      (depth vid : ℕ) (parts : Split) (s s' : Reiniter V)
      → create_linecard meta linecard_attrs vendor start_linecard asic vid_to_rid depth vid parts s
        ≡ (ok tt, s')
      → DistinctMap s
      → DistinctMap s'
  unfolding create_linecard
  create_linecard-Distinct depth vid parts s s' h d =
      let answer = vendor.create linecard 0 parts.attrs s.hardware in
      save_linecard-Distinct depth vid parts answer.0.0 answer.0.1
        (record s { hardware = answer.1 }) s' h d

  process_linecard-Distinct :
      (depth : ℕ) (str_vid asic_key : Text) (s s' : Reiniter V)
      → process_linecard meta linecard_attrs vendor start_linecard asic vid_to_rid depth str_vid
          asic_key s
        ≡ (ok tt, s')
      → DistinctMap s
      → DistinctMap s'
  unfolding process_linecard
  process_linecard-Distinct depth str_vid asic_key s s' h d =
      let vid = linecard_vid meta linecard_attrs vendor start_linecard asic vid_to_rid str_vid in
      let parts =
        linecard_split meta linecard_attrs vendor start_linecard asic vid_to_rid asic_key in
      let first = after-ok _ vid s tt s' h in
      let second = after-ok _ parts s tt s' first.2 in
      create_linecard-Distinct depth first.0 second.0 s s' second.2 d

  pub process_linecards-Distinct :
      (depth : ℕ) (s s' : Reiniter V)
      → process_linecards meta linecard_attrs vendor start_linecard asic vid_to_rid depth s
        ≡ (ok tt, s')
      → DistinctMap s
      → DistinctMap s'
  unfolding process_linecards
  process_linecards-Distinct depth s s' h d =
      one_linecard-ok _ (λ a b. DistinctMap a → DistinctMap b) (λ a k. k)
        (process_linecard-Distinct depth) asic.linecards s s' h d

  -- What the stop of the configuration leaves of the two maps: the new one, and the stored one with
  -- at most one VID more.
  abbrev pub StopKeeps : Reiniter V × ObjectIdMap → Reiniter V × ObjectIdMap → Type 0
  StopKeeps a b =
      (b.0.translated_v2r ≡ a.0.translated_v2r)
      × (Distinct ◌==◌ a.1 → Distinct ◌==◌ b.1)
      × ((k : ℕ) → contains ◌==◌ k a.1 ≡ true → contains ◌==◌ k b.1 ≡ true)

  previous_rid-Distinct :
      (vid : ℕ) (m : ObjectIdMap)
      → (Distinct ◌==◌ m
          → Distinct ◌==◌
              (previous_rid meta linecard_attrs vendor start_linecard asic vid_to_rid vid m).1)
        × ((k : ℕ)
            → contains ◌==◌ k m ≡ true
            → contains ◌==◌ k
                (previous_rid meta linecard_attrs vendor start_linecard asic vid_to_rid vid m).1
              ≡ true)
  previous_rid-Distinct vid m = elim (Option-cases (find ◌==◌ vid m)) [
    | inr (rid, found) ↦ rw (found, previous_rid) ((λ d. d), (λ k h. h))
    | inl new ↦
        rw (new, previous_rid)
          (insert-Distinct vid 0 m, (λ k h. let e = contains-insert k vid 0 m in ground arith))
  ]

  stop_pre_config-Keeps :
      (vid : ℕ) (w : Reiniter V × ObjectIdMap)
      → StopKeeps w
          (stop_pre_config meta linecard_attrs vendor start_linecard asic vid_to_rid vid w).1
  unfolding stop_pre_config set_on_linecard
  stop_pre_config-Keeps vid (s, m) =
      let known = previous_rid-Distinct vid m in (refl, known.0, known.1)

  pub stop_linecards-Keeps :
      (w : Reiniter V × ObjectIdMap)
      → StopKeeps w
          (stop_pre_config_linecards meta linecard_attrs vendor start_linecard asic vid_to_rid w).1
  unfolding stop_pre_config_linecards
  stop_linecards-Keeps w =
      one_linecard-state _ StopKeeps (λ a. (refl, (λ d. d), (λ k h. h)))
        (λ str_vid asic_key a.
          elim (Result-cases
            (linecard_vid meta linecard_attrs vendor start_linecard asic vid_to_rid str_vid)) [
              | inl (message, e) ↦ rw e (refl, (λ d. d), (λ k h. h))
              | inr (vid, e) ↦ rw e (stop_pre_config-Keeps vid a)
            ])
        asic.linecards w
