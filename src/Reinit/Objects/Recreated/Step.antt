-- ===== src/Reinit/Objects/Recreated/Step.antt =====
-- One VID: its attributes first, then its object.
use sonic_otairedis.Common.{
  ℕ, zero, suc, ◌≤◌, ◌≡◌, inl, inr, refl, subst, sym, arith, List, none, some, ok, ◌==◌, ==_eq,
  ==_refl, Bool-cases, Option-cases,
}
use sonic_otairedis.Common.Assoc.{find, insert, find-insert}
use sonic_otairedis.Otai.{ObjectTypes, Status, success}
use sonic_otairedis.Metadata.{Attribute, Metadata}
use sonic_otairedis.Requests.{Vendor}
use sonic_otairedis.Reinit.{ObjectIdMap, AsicState}
use sonic_otairedis.Reinit.Objects.{
  Reiniter, attrs_for_create, save_object, create_object, process_single_vid,
}
use sonic_otairedis.Reinit.Objects.Renamed.{Extends, renamed, renamed-Extends}
use sonic_otairedis.Reinit.Objects.Recreated.{Creates, Creates_trans, Listed, Recreated, Grows}

abbrev pub saved : {V : Type 0} → ℕ → ℕ → V → Reiniter V → Reiniter V
saved vid rid hw s = record {
  translated_v2r = insert ◌==◌ vid rid s.translated_v2r;
  translated_r2v = insert ◌==◌ rid vid s.translated_r2v;
  linecard_rid = s.linecard_rid;
  hardware = hw;
}

module _ ⦃t : ObjectTypes⦄ (meta : Metadata) {V : Type 0} (vendor : Vendor V) (asic : AsicState)
    (vid_to_rid : ObjectIdMap) where
  open t use {null_object_id}

  pub save_object-cases :
      (vid : ℕ) (status : Status) (answer rid : ℕ) (s s' : Reiniter V)
      → save_object meta vendor asic vid_to_rid vid (status, answer) s ≡ (ok rid, s')
      → (status ≡ success) × (answer ≡ rid) × (saved vid rid s.hardware s ≡ s')
  unfolding save_object
  save_object-cases vid success answer rid s s' h =
      let e : answer ≡ rid = ground arith in
      let e' : saved vid answer s.hardware s ≡ s' = ground arith in
      (refl, e, subst (λ (z : ℕ). saved vid z s.hardware s ≡ s') e e')
  save_object-cases vid status answer rid s s' h = absurd (ground arith)

  pub saved-Extends :
      (vid rid : ℕ) (hw : V) (s : Reiniter V)
      → find ◌==◌ vid s.translated_v2r ≡ none
      → Extends s.translated_v2r (saved vid rid hw s).translated_v2r
  saved-Extends vid rid hw s new k r h =
      let e = find-insert k vid rid s.translated_v2r in
      elim (Bool-cases (k == vid)) [
        | inl same ↦
            let there : find ◌==◌ vid s.translated_v2r ≡ some r =
              subst (λ (z : ℕ). find ◌==◌ z s.translated_v2r ≡ some r) (==_eq k vid same) h in
            absurd (ground arith)
        | inr other ↦ ground arith
      ]

  -- An object that was created stays so when others are.
  Recreated-later :
      (lc : ℕ) (m m' : ObjectIdMap) (from to to' : V) (vid rid : ℕ)
      → Extends m m'
      → Creates vendor lc to to'
      → Recreated meta vendor asic lc m from to vid rid
      → Recreated meta vendor asic lc m' from to' vid rid
  Recreated-later lc m m' from to to' vid rid e k r = record {
    listed = r.listed;
    attrs = r.attrs;
    before = r.before;
    attrs_renamed =
        renamed-Extends meta r.listed.object_type m m' e r.listed.attrs r.attrs r.attrs_renamed;
    reached = r.reached;
    answered = r.answered;
    rest = Creates_trans vendor lc r.rest k;
  }

  saved-Grows :
      (rank : ℕ → ℕ) (start s : Reiniter V) (vid rid : ℕ) (l : Listed asic vid)
      (attrs : List Attribute)
      → find ◌==◌ vid s.translated_v2r ≡ none
      → renamed meta l.object_type s.translated_v2r l.attrs ≡ some attrs
      → (vendor.create l.object_type s.linecard_rid
          (attrs_for_create meta l.object_type attrs)
          s.hardware).0
        ≡ (success, rid)
      → Grows meta vendor asic rank (suc (rank vid)) start s (
          saved vid rid
            (vendor.create l.object_type s.linecard_rid
              (attrs_for_create meta l.object_type attrs)
              s.hardware).1
            s)
  saved-Grows rank start s vid rid l attrs new known answer =
      let lc = s.linecard_rid in
      let chosen = attrs_for_create meta l.object_type attrs in
      let hw = (vendor.create l.object_type lc chosen s.hardware).1 in
      let s' = saved vid rid hw s in
      let step : Creates vendor lc s.hardware hw =
        Creates.create_then l.object_type chosen Creates.done in
      let extends = saved-Extends vid rid hw s new in
      let at : (k : ℕ) → _ = λ k. find-insert k vid rid s.translated_v2r in
      record {
        extends = extends;
        above = λ k h. elim (Bool-cases (k == vid)) [
          | inl same ↦
              let e = ==_eq k vid same in
              absurd (omega (arith, subst (λ z. suc (rank vid) ≤ rank z) e h))
          | inr other ↦ let here = at k in ground arith
        ];
        same_linecard = refl;
        creates = step;
        recreated = λ same_lc reached all k r h. elim (Bool-cases (k == vid)) [
          | inl same ↦
              let here = at k in
              let e : rid ≡ r = ground arith in
              let fresh : Recreated meta vendor asic lc s'.translated_v2r start.hardware hw vid
                  rid =
                record {
                  listed = l;
                  attrs = attrs;
                  before = s.hardware;
                  attrs_renamed =
                      renamed-Extends meta l.object_type s.translated_v2r s'.translated_v2r extends
                        l.attrs attrs known;
                  reached =
                      subst (λ z. Creates vendor z start.hardware s.hardware) (sym same_lc) reached;
                  answered = answer;
                  rest = Creates.done;
                } in
              let moved =
                subst
                  (λ z. Recreated meta vendor asic z s'.translated_v2r start.hardware hw vid rid)
                  same_lc fresh in
              let named =
                subst
                  (λ z.
                    Recreated meta vendor asic start.linecard_rid s'.translated_v2r start.hardware
                      hw z rid)
                  (sym (==_eq k vid same)) moved in
              inr (
                subst
                  (λ z.
                    Recreated meta vendor asic start.linecard_rid s'.translated_v2r start.hardware
                      hw k z)
                  e named)
          | inr other ↦
              let here = at k in
              let was : find ◌==◌ k s.translated_v2r ≡ some r = ground arith in
              elim (all k r was) [
                | inl first ↦ inl first
                | inr rec ↦ inr (
                    Recreated-later start.linecard_rid s.translated_v2r s'.translated_v2r
                      start.hardware s.hardware hw k r extends
                      (subst (λ z. Creates vendor z s.hardware hw) same_lc step) rec)
              ]
        ];
      }

  pub process_single_vid-null :
      (depth : ℕ) (s : Reiniter V) (rid : ℕ) (s' : Reiniter V)
      → process_single_vid meta vendor asic vid_to_rid depth null_object_id s ≡ (ok rid, s')
      → (s ≡ s') × (null_object_id ≡ rid)
  unfolding process_single_vid
  process_single_vid-null zero s rid s' h = absurd (ground arith)
  process_single_vid-null (suc depth) s rid s' h =
      let e = ==_refl null_object_id in (ground arith, ground arith)

  pub create_object-Grows :
      (rank : ℕ → ℕ) (start s : Reiniter V) (vid : ℕ) (l : Listed asic vid) (attrs : List Attribute)
      (rid : ℕ) (s' : Reiniter V)
      → find ◌==◌ vid s.translated_v2r ≡ none
      → renamed meta l.object_type s.translated_v2r l.attrs ≡ some attrs
      → create_object meta vendor asic vid_to_rid l.object_type vid attrs s ≡ (ok rid, s')
      → Grows meta vendor asic rank (suc (rank vid)) start s s'
        × (find ◌==◌ vid s'.translated_v2r ≡ some rid)
  unfolding create_object
  create_object-Grows rank start s vid l attrs rid s' new known h =
      elim (Option-cases (find ◌==◌ vid vid_to_rid)) [
        | inl n ↦ absurd (ground arith)
        | inr (previous, found) ↦
            let call =
              vendor.create l.object_type s.linecard_rid (attrs_for_create meta l.object_type attrs)
                s.hardware in
            let h' : save_object meta vendor asic vid_to_rid vid call.0
                  (record s { hardware = call.1 })
                ≡ (ok rid, s') =
              ground arith in
            let saved_now =
              save_object-cases vid call.0.0 call.0.1 rid (record s { hardware = call.1 }) s' h' in
            let answer : call.0 ≡ (success, rid) = λ i. (saved_now.0 i, saved_now.1 i) in
            let e : saved vid rid call.1 s ≡ s' = saved_now.2 in
            let there = find-insert vid vid rid s.translated_v2r in
            let same = ==_refl vid in
            (
              subst (λ z. Grows meta vendor asic rank (suc (rank vid)) start s z) e
                  (saved-Grows rank start s vid rid l attrs new known answer),
              subst (λ z. find ◌==◌ vid z.translated_v2r ≡ some rid) e (ground arith),
            )
      ]
