-- ===== src/Translator/RoundTrip.antt =====
-- RIDs that were translated to VIDs are translated back, one by one and as lists.
use sonic_otairedis.Common.{
  ℕ, ◌^◌, ◌<◌, ◌≡◌, ◌≢◌, ◌⊎◌, refl, sym, ap, subst, inl, inr, false, arith, List, [], ◌∷◌, ok, ◌==◌,
  ==_eq, Bool-cases, Option-cases, after-ok,
}
use sonic_otairedis.Otai.{ObjectTypes, IsOtai}
use sonic_otairedis.Redis.VidMap.{VidMap, IsVidMap}
use sonic_otairedis.Translator.{
  Translator, translate_vid_to_rid, translate_rid_to_vid, translate_rids, translate_vids,
}
use sonic_otairedis.Translator.Linked.{Linked, translate_rid-Translated}
use sonic_otairedis.Translator.Coherence.{Coherent, translate_rid-Coherent, translate_vid-Coherent}

module _ ⦃t : ObjectTypes⦄ (m : VidMap) (law : IsVidMap t.null_object_id m) where
  open t use {null_object_id}

  -- A VID whose RID is stored is translated to it, and the database stays.
  translate_vid-stored :
      (s : Translator m) (rid vid : ℕ)
      → Coherent m s
      → vid ≢ null_object_id
      → rid ≢ null_object_id
      → m.get_rid_for_vid s.db vid ≡ ok rid
      → ((translate_vid_to_rid m vid s).0 ≡ ok rid) × ((translate_vid_to_rid m vid s).1.db ≡ s.db)
  unfolding translate_vid_to_rid
  translate_vid-stored s rid vid c nv nr stored = elim (Option-cases (s.vid2rid vid)) [
    | inl missing ↦ (ground arith, ground arith)
    | inr (r, found) ↦ let known = c.vids vid r found in (ground arith, ground arith)
  ]

  -- What stands for a RID in a translated list.
  abbrev pub Stands : m.Db → ℕ → ℕ → Type 0
  Stands db rid vid =
      ((rid ≡ null_object_id) × (vid ≡ null_object_id))
      ⊎ ((rid ≢ null_object_id) × (vid ≢ null_object_id) × (m.get_vid_for_rid db rid ≡ ok vid))

  pub translate_vid-Stands :
      (s : Translator m) (rid vid : ℕ)
      → Coherent m s
      → Linked m s.db
      → Stands s.db rid vid
      → ((translate_vid_to_rid m vid s).0 ≡ ok rid) × ((translate_vid_to_rid m vid s).1.db ≡ s.db)
  unfolding translate_vid_to_rid
  translate_vid-Stands s rid vid c l (inl (nr, nv)) = (ground arith, ground arith)
  translate_vid-Stands s rid vid c l (inr (nr, nv, stored)) =
      translate_vid-stored s rid vid c nv nr (l.back rid vid stored nv)

  translate_null :
      (vendor_type : ℕ → ℕ) (rid lc : ℕ) (s : Translator m)
      → rid ≡ null_object_id
      → translate_rid_to_vid m vendor_type rid lc false s ≡ (ok null_object_id, s)
  unfolding translate_rid_to_vid
  translate_null vendor_type rid lc s e = ground arith

  module _ (o : IsOtai t) (vendor_type : ℕ → ℕ) (lc : ℕ) where
    -- A translation that returns a VID, null included.
    pub record Made (rid : ℕ) (s : Translator m) (vid : ℕ) (s' : Translator m) : Type 0 where
      pub coherent : Coherent m s'
      pub linked : Linked m s'.db
      pub stands : Stands s'.db rid vid
      pub kept : (r v : ℕ) → Stands s.db r v → Stands s'.db r v

    pub translate_rid-Made :
        (rid : ℕ) (s : Translator m) (vid : ℕ) (s' : Translator m)
        → rid < 2 ^ 64
        → Coherent m s
        → Linked m s.db
        → translate_rid_to_vid m vendor_type rid lc false s ≡ (ok vid, s')
        → Made rid s vid s'
    translate_rid-Made rid s vid s' hr c l h = elim (Bool-cases (rid == null_object_id)) [
      | inl null ↦
          let e = translate_null vendor_type rid lc s (==_eq rid null_object_id null) in
          subst (Made rid s vid) (ground arith) (record {
            coherent = c;
            linked = l;
            stands = inl (==_eq rid null_object_id null, ground arith);
            kept = λ r v p. p;
          })
      | inr proper ↦
          let nr : rid ≢ null_object_id = ground arith in
          let done = translate_rid-Translated m law o vendor_type rid lc s vid s' hr nr c l h in
          record {
            coherent =
                subst (Coherent m) (ap (λ z. z.1) h)
                  (translate_rid-Coherent m law o vendor_type rid lc false s hr c);
            linked = done.linked;
            stands = inr (nr, done.present, done.stored);
            kept = λ r v p. elim p [
              | inl null ↦ inl null
              | inr (nr', nv, stored) ↦ inr (nr', nv, done.kept r v stored nv)
            ];
          }
    ]

    -- Where the local maps are coherent and the stored ones linked, a VID that a 64-bit RID is
    -- translated to, removed ids not being asked for, is translated back to the RID, and the maps
    -- are coherent and linked again.
    pub translate_rid_back :
        (rid : ℕ) (s : Translator m) (vid : ℕ) (s' : Translator m)
        → rid < 2 ^ 64
        → Coherent m s
        → Linked m s.db
        → translate_rid_to_vid m vendor_type rid lc false s ≡ (ok vid, s')
        → ((translate_vid_to_rid m vid s').0 ≡ ok rid) × Coherent m s' × Linked m s'.db
    translate_rid_back rid s vid s' hr c l h =
        let done = translate_rid-Made rid s vid s' hr c l h in
        (
          (translate_vid-Stands s' rid vid done.coherent done.linked done.stands).0,
          done.coherent,
          done.linked,
        )

    abbrev pub AllSmall : List ℕ → Type 0
    AllSmall [] = Unit {0}
    AllSmall (rid ∷ rids) = (rid < 2 ^ 64) × AllSmall rids

    abbrev pub AllStand : m.Db → List ℕ → List ℕ → Type 0
    AllStand db [] [] = Unit {0}
    AllStand db (rid ∷ rids) (vid ∷ vids) = Stands db rid vid × AllStand db rids vids
    AllStand db _ _ = ⊥

    -- A list that was translated.
    pub record AllMade (rids : List ℕ) (s : Translator m) (vids : List ℕ) (s' : Translator m)
        : Type 0 where
      pub coherent : Coherent m s'
      pub linked : Linked m s'.db
      pub stand : AllStand s'.db rids vids
      pub kept : (r v : ℕ) → Stands s.db r v → Stands s'.db r v

    pub translate_rids-AllMade :
        (rids : List ℕ) (s : Translator m) (vids : List ℕ) (s' : Translator m)
        → AllSmall rids
        → Coherent m s
        → Linked m s.db
        → translate_rids m vendor_type rids lc false s ≡ (ok vids, s')
        → AllMade rids s vids s'
    unfolding translate_rids
    translate_rids-AllMade [] s vids s' small c l h =
        let whole : ◌≡◌ {A = List ℕ × Translator m} ([], s) (vids, s') = ground arith in
        subst (λ (z : List ℕ × Translator m). AllMade [] s z.0 z.1) whole
          (record { coherent = c; linked = l; stand = tt; kept = λ r v p. p })
    translate_rids-AllMade (rid ∷ rids) s vids s' small c l h =
        let one = translate_rid_to_vid m vendor_type rid lc false s in
        let first = after-ok _ one.0 one.1 vids s' h in
        let vid = first.0 in
        let more = translate_rids m vendor_type rids lc false one.1 in
        let made = translate_rid-Made rid s vid one.1 small.0 c l (λ i. (first.1 i, one.1)) in
        let second = after-ok _ more.0 more.1 vids s' first.2 in
        let tail = second.0 in
        let rest =
          translate_rids-AllMade rids one.1 tail more.1 small.1 made.coherent made.linked
            (λ i. (second.1 i, more.1)) in
        let whole : ◌≡◌ {A = List ℕ × Translator m} (vid ∷ tail, more.1) (vids, s') =
          ground arith in
        subst (λ (z : List ℕ × Translator m). AllMade (rid ∷ rids) s z.0 z.1) whole
          (record {
            coherent = rest.coherent;
            linked = rest.linked;
            stand = (rest.kept rid vid made.stands, rest.stand);
            kept = λ r v p. rest.kept r v (made.kept r v p);
          })

    pub translate_vids-AllStand :
        (rids vids : List ℕ) (s : Translator m)
        → Coherent m s
        → Linked m s.db
        → AllStand s.db rids vids
        → (translate_vids m vids s).0 ≡ ok rids
    unfolding translate_vids
    translate_vids-AllStand [] [] s c l a = refl
    translate_vids-AllStand [] (vid ∷ vids) s c l a = absurd a
    translate_vids-AllStand (rid ∷ rids) [] s c l a = absurd a
    translate_vids-AllStand (rid ∷ rids) (vid ∷ vids) s c l a =
        let one = translate_vid-Stands s rid vid c l a.0 in
        let next = (translate_vid_to_rid m vid s).1 in
        let rest =
          translate_vids-AllStand rids vids next (translate_vid-Coherent m law vid s c)
            (subst (Linked m) (sym one.1) l)
            (subst (λ db. AllStand db rids vids) (sym one.1) a.1) in
        rw (one.0, rest) refl

    -- Where the local maps are coherent and the stored ones linked, the VIDs that a list of 64-bit
    -- RIDs is translated to, removed ids not being asked for, are translated back to the same list.
    pub translate_rids_back :
        (rids : List ℕ) (s : Translator m) (vids : List ℕ) (s' : Translator m)
        → AllSmall rids
        → Coherent m s
        → Linked m s.db
        → translate_rids m vendor_type rids lc false s ≡ (ok vids, s')
        → (translate_vids m vids s').0 ≡ ok rids
    translate_rids_back rids s vids s' small c l h =
        let done = translate_rids-AllMade rids s vids s' small c l h in
        translate_vids-AllStand rids vids s' done.coherent done.linked done.stand
