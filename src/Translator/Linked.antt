-- ===== src/Translator/Linked.antt =====
-- The stored maps of syncd/VirtualOidTranslator.cpp are linked: a VID stored for a RID leads back to
-- it, and its index was counted.
use sonic_otairedis.Common.{
  ℕ, ◌+◌, ◌^◌, ◌≤◌, ◌<◌, ◌≡◌, ◌≢◌, ◌⊎◌, sym, ap, subst, ◌∙◌, inl, inr, false, arith, ok,
  Option-cases,
}
use sonic_otairedis.Otai.{ObjectTypes, IsOtai}
use sonic_otairedis.Redis.VidMap.{VidMap, IsVidMap}
use sonic_otairedis.Oid.Virtual.{index_bits, allocate_new_object_id}
use sonic_otairedis.Oid.Virtual.Allocation.{allocate-fields}
use sonic_otairedis.Translator.{
  Translator, insert_rid_and_vid, erase_rid_and_vid, translate_rid_to_vid, save_new,
}
use sonic_otairedis.Translator.NewRid.{saved}
use sonic_otairedis.Translator.Coherence.{Coherent, allocate-vid}

module _ ⦃t : ObjectTypes⦄ (m : VidMap) where
  open t use {null_object_id}

  -- A VID stored for a RID leads back to it, and has an index that was counted.
  pub record Linked (db : m.Db) : Type 0 where
    pub back :
        (rid vid : ℕ)
        → m.get_vid_for_rid db rid ≡ ok vid
        → vid ≢ null_object_id
        → m.get_rid_for_vid db vid ≡ ok rid
    pub old :
        (rid vid : ℕ)
        → m.get_vid_for_rid db rid ≡ ok vid
        → vid ≢ null_object_id
        → index_bits vid ≤ m.counter db

module _ ⦃t : ObjectTypes⦄ (m : VidMap) (law : IsVidMap t.null_object_id m) where
  open t use {null_object_id}

  increment-Linked : (db : m.Db) → Linked m db → Linked m (m.increment db).1
  increment-Linked db l = record {
    back = λ rid vid e ne.
        law.get_rid-increment db vid ∙ l.back rid vid (sym (law.get_vid-increment db rid) ∙ e) ne;
    old = λ rid vid e ne. omega (
      arith,
      law.counter-increment db,
      l.old rid vid (sym (law.get_vid-increment db rid) ∙ e) ne,
    );
  }

  -- A pair with a VID that is younger than all that are stored.
  insert-Linked :
      (db : m.Db) (rid vid : ℕ)
      → rid < 2 ^ 64
      → vid < 2 ^ 64
      → ((r v : ℕ)
          → m.get_vid_for_rid db r ≡ ok v
          → v ≢ null_object_id
          → index_bits v < index_bits vid)
      → index_bits vid ≤ m.counter db
      → Linked m db
      → Linked m (m.insert_vid_and_rid db vid rid)
  insert-Linked db rid vid hr hv young counted l = record {
    back = λ r v e ne.
        let stored = sym (law.get_vid-insert db vid rid r hv) ∙ e in
        law.get_rid-insert db vid rid v hr
        ∙ ground (arith, l.back r v, young r v, λ (h : vid ≡ v). ap index_bits h);
    old = λ r v e ne.
        let stored = sym (law.get_vid-insert db vid rid r hv) ∙ e in
        let kept = law.counter-insert db vid rid in ground (arith, l.old r v);
  }

  -- The mapping that is erased is a stored one.
  pub erase-Linked :
      (s : Translator m) (rid vid : ℕ)
      → m.get_vid_for_rid s.db rid ≡ ok vid
      → vid ≢ null_object_id
      → Linked m s.db
      → Linked m (erase_rid_and_vid m rid vid s).db
  unfolding erase_rid_and_vid
  erase-Linked s rid vid stored present l = record {
    back = λ r v e ne.
        let here = sym (law.get_vid-remove s.db vid rid r) ∙ e in
        law.get_rid-remove s.db vid rid v
        ∙ ground (arith, l.back r v, l.back rid vid stored present);
    old = λ r v e ne.
        let here = sym (law.get_vid-remove s.db vid rid r) ∙ e in
        let kept = law.counter-remove s.db vid rid in ground (arith, l.old r v);
  }

  module _ (o : IsOtai t) (vendor_type : ℕ → ℕ) (rid lc : ℕ) where
    -- Where a VID comes from: it was stored, or it is allocated for a RID that was not.
    translate_rid_cases :
        (s : Translator m) (vid : ℕ) (s' : Translator m)
        → Coherent m s
        → rid ≢ null_object_id
        → translate_rid_to_vid m vendor_type rid lc false s ≡ (ok vid, s')
        → ((s' ≡ s) × (m.get_vid_for_rid s.db rid ≡ ok vid) × (vid ≢ null_object_id))
          ⊎ ((m.get_vid_for_rid s.db rid ≡ ok null_object_id)
              × (save_new m rid (allocate_new_object_id m.increment (vendor_type rid) lc s.db) s
                  ≡ (ok vid, s')))
    unfolding translate_rid_to_vid
    translate_rid_cases s vid s' c nr h = elim (Option-cases (s.rid2vid rid)) [
      | inl missing ↦ ground arith
      | inr (v, found) ↦
          let known = c.rids rid v found in inl (ground arith, ground arith, ground arith)
    ]

    -- What a translation that returns a VID says of the state that it leaves.
    pub record Translated (s : Translator m) (vid : ℕ) (s' : Translator m) : Type 0 where
      pub stored : m.get_vid_for_rid s'.db rid ≡ ok vid
      pub present : vid ≢ null_object_id
      pub linked : Linked m s'.db
      pub kept :
          (r v : ℕ)
          → m.get_vid_for_rid s.db r ≡ ok v
          → v ≢ null_object_id
          → m.get_vid_for_rid s'.db r ≡ ok v

    new-Translated :
        (s : Translator m) (vid : ℕ) (db : m.Db)
        → rid < 2 ^ 64
        → Linked m s.db
        → m.get_vid_for_rid s.db rid ≡ ok null_object_id
        → allocate_new_object_id m.increment (vendor_type rid) lc s.db ≡ (ok vid, db)
        → Translated s vid (insert_rid_and_vid m rid vid (record s { db = db }))
    unfolding insert_rid_and_vid
    new-Translated s vid db hr l fresh made =
        let f = allocate-fields o m.increment (vendor_type rid) lc s.db vid db made in
        let fine = allocate-vid m law o (vendor_type rid) lc s.db vid db made in
        let next = law.increment_value s.db in
        let index : index_bits vid ≡ m.counter s.db + 1 = f.3 ∙ next in
        let count : m.counter db ≡ m.counter s.db + 1 =
          ap m.counter f.5 ∙ law.counter-increment s.db in
        let same : (r : ℕ) → m.get_vid_for_rid db r ≡ m.get_vid_for_rid s.db r =
          λ r. ap (λ z. m.get_vid_for_rid z r) f.5 ∙ law.get_vid-increment s.db r in
        let linked : Linked m db = subst (Linked m) (sym f.5) (increment-Linked s.db l) in
        record {
          stored = law.get_vid-insert db vid rid rid fine.0 ∙ ground arith;
          present = fine.1;
          linked =
              insert-Linked db rid vid hr fine.0
                (λ r v e ne. omega (arith, index, l.old r v (sym (same r) ∙ e) ne))
                (omega (arith, index, count)) linked;
          kept = λ r v e ne. law.get_vid-insert db vid rid r fine.0 ∙ ground (arith, same r);
        }

    pub translate_rid-Translated :
        (s : Translator m) (vid : ℕ) (s' : Translator m)
        → rid < 2 ^ 64
        → rid ≢ null_object_id
        → Coherent m s
        → Linked m s.db
        → translate_rid_to_vid m vendor_type rid lc false s ≡ (ok vid, s')
        → Translated s vid s'
    translate_rid-Translated s vid s' hr nr c l h = elim (translate_rid_cases s vid s' c nr h) [
      | inl (same, stored, present) ↦
          subst (Translated s vid) (sym same)
            (record { stored = stored; present = present; linked = l; kept = λ r v e ne. e })
      | inr (fresh, made) ↦
          let (r, db) = allocate_new_object_id m.increment (vendor_type rid) lc s.db in
          let done = saved m law o vendor_type rid lc false s r db vid s' made in
          subst (Translated s vid) (sym done.1)
            (new-Translated s vid db hr l fresh (λ i. (done.0 i, db)))
    ]
