-- ===== src/Reinit/BoardMode/Polls.antt =====
-- How often `setBoardMode` asks for the mode, and when it stops.
use sonic_otairedis.Common.{
  ℕ, zero, suc, ◌-◌, ◌≤◌, ◌<◌, ◌≡◌, ◌⊎◌, inl, inr, refl, arith, Bool, true, false, List, [], ◌∷◌,
  Bool-cases,
}
use sonic_otairedis.Otai.{Status, is_success}
use sonic_otairedis.Metadata.{Attribute}
use sonic_otairedis.Serialize.ObjectId.{Text}
use sonic_otairedis.Serialize.Texts.{take}
use sonic_otairedis.Requests.{Vendor}
use sonic_otairedis.Reinit.BoardMode.{
  LinecardAttrs, text_attr, reached, wait_board_mode, set_board_mode,
}

module _ (linecard : ℕ) {V : Type 0} (vendor : Vendor V) (rid : ℕ) where
  -- The answer to a poll, where the first has number 0, and the hardware after it.
  abbrev pub nth_poll : ℕ → List Attribute → V → (Status × List Attribute) × V
  nth_poll zero attrs hw = vendor.get linecard rid attrs hw
  nth_poll (suc n) attrs hw =
      let polled = vendor.get linecard rid attrs hw in nth_poll n polled.0.1 polled.1

  -- The polls from a list and a hardware on end with number `last`: none before it had the mode, and
  -- it had the mode if there were rounds left.
  pub record Stops (linecard_attrs : LinecardAttrs) (mode : Text) (rounds : ℕ)
      (attrs : List Attribute) (hw to : V) : Type 0 where
    pub last : ℕ
    pub within : last ≤ rounds
    pub ends : to ≡ (nth_poll last attrs hw).1
    pub not_before :
        (n : ℕ)
        → n < last
        → reached linecard_attrs linecard vendor mode (nth_poll n attrs hw).0 ≡ false
    pub because :
        last < rounds
        → reached linecard_attrs linecard vendor mode (nth_poll last attrs hw).0 ≡ true

  module _ (linecard_attrs : LinecardAttrs) (mode : Text) where
    abbrev has_mode : Status × List Attribute → Bool
    has_mode answer = reached linecard_attrs linecard vendor mode answer

    -- A poll without the mode, and what the others do.
    Stops-later :
        (rounds : ℕ) (attrs : List Attribute) (hw to : V)
        → has_mode (vendor.get linecard rid attrs hw).0 ≡ false
        → Stops linecard_attrs mode rounds
            (vendor.get linecard rid attrs hw).0.1
            (vendor.get linecard rid attrs hw).1
            to
        → Stops linecard_attrs mode (suc rounds) attrs hw to
    Stops-later rounds attrs hw to missing r = record {
      last = suc r.last;
      within = let le = r.within in omega arith;
      ends = r.ends;
      not_before = earlier;
      because = λ h. r.because (omega arith);
    }
      where
        earlier : (n : ℕ) → n < suc r.last → has_mode (nth_poll n attrs hw).0 ≡ false
        earlier zero h = missing
        earlier (suc n) h = r.not_before n (omega arith)

    Stops-now :
        (rounds : ℕ) (attrs : List Attribute) (hw : V)
        → (rounds ≡ 0) ⊎ (has_mode (vendor.get linecard rid attrs hw).0 ≡ true)
        → Stops linecard_attrs mode rounds attrs hw (vendor.get linecard rid attrs hw).1
    Stops-now rounds attrs hw why = record {
      last = 0;
      within = omega arith;
      ends = refl;
      not_before = λ n h. absurd (omega arith);
      because = λ h. elim why [ inl e ↦ absurd (omega arith) | inr there ↦ there ];
    }

    pub wait_board_mode-Stops :
        (rounds : ℕ) (attrs : List Attribute) (hw : V)
        → Stops linecard_attrs mode rounds attrs hw
            (wait_board_mode linecard_attrs linecard vendor (suc rounds) mode rid attrs hw)
    unfolding wait_board_mode
    wait_board_mode-Stops zero attrs hw =
        elim (Bool-cases (has_mode (vendor.get linecard rid attrs hw).0)) [
          | inl there ↦ rw (there, wait_board_mode) (Stops-now zero attrs hw (inl refl))
          | inr missing ↦ rw (missing, wait_board_mode) (Stops-now zero attrs hw (inl refl))
        ]
    wait_board_mode-Stops (suc rounds) attrs hw =
        let polled = vendor.get linecard rid attrs hw in
        elim (Bool-cases (has_mode polled.0)) [
          | inl there ↦ rw (there, wait_board_mode) (Stops-now (suc rounds) attrs hw (inr there))
          | inr missing ↦
              let rest = wait_board_mode-Stops rounds polled.0.1 polled.1 in
              rw (missing, wait_board_mode) (Stops-later rounds attrs hw _ missing rest)
        ]

    -- The calls of `setBoardMode` by the answers to them.
    abbrev pub Polls : V → Type 0
    Polls hw =
        let current = vendor.get linecard rid (text_attr linecard_attrs.board_mode [] ∷ []) hw in
        let wanted =
          text_attr linecard_attrs.board_mode (take (linecard_attrs.chardata_size - 1) mode) ∷ [] in
        let answer = vendor.set linecard rid wanted current.1 in
        let end = set_board_mode linecard_attrs linecard vendor mode rid hw in
        ((has_mode current.0 ≡ true) × (end ≡ current.1))
        ⊎ ((has_mode current.0 ≡ false)
            × (((is_success answer.0 ≡ false) × (end ≡ answer.1))
                ⊎ ((is_success answer.0 ≡ true)
                    × Stops linecard_attrs mode 599 wanted answer.1 end)))

    -- `setBoardMode` asks the linecard for its mode first. If the answer is the wanted mode, that
    -- is all it does. Otherwise it sets the mode, as much of it as the attribute holds; if that
    -- fails, it does nothing more. If it succeeds, it asks for the mode between 1 and 600 times,
    -- and stops with the first answer that is the wanted mode.
    pub set_board_mode-Polls : (hw : V) → Polls hw
    unfolding set_board_mode
    set_board_mode-Polls hw =
        let current = vendor.get linecard rid (text_attr linecard_attrs.board_mode [] ∷ []) hw in
        let wanted =
          text_attr linecard_attrs.board_mode (take (linecard_attrs.chardata_size - 1) mode) ∷ [] in
        let answer = vendor.set linecard rid wanted current.1 in
        elim (Bool-cases (has_mode current.0)) [
          | inl same ↦ inl (same, ground arith)
          | inr differs ↦ inr (
            differs,
            elim (Bool-cases (is_success answer.0)) [
              | inl set ↦ inr (
                set,
                rw (differs, set, set_board_mode) (wait_board_mode-Stops 599 wanted answer.1),
              )
              | inr failed ↦ inl (failed, ground arith)
            ],
          )
        ]
