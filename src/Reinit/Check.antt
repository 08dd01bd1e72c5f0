-- ===== src/Reinit/Check.antt =====
-- `checkAllIds`: the new map is compared with the map from before.
use sonic_otairedis.Common.{
  ℕ, ◌≡◌, ◌↔◌, refl, subst, sym, arith, true, false, [], ◌∷◌, Result, ok, throws, ◌==◌, ==_eq,
  ==_refl, Bool-cases, inl, inr,
}
use sonic_otairedis.Common.Assoc.{contains, remove, Distinct, contains-remove, remove-Distinct}
use sonic_otairedis.Reinit.{ObjectIdMap}

check_rest : ObjectIdMap → Result (Unit {0})
check_rest [] = ok tt
check_rest (entry ∷ rest) = throws "vid to rid map is not empty after translation"

-- `vid_to_rid` loses what was translated, and must be empty then.
unfoldable pub check_all_ids : ObjectIdMap → ObjectIdMap → Result (Unit {0})
unfolding check_rest
check_all_ids [] vid_to_rid = check_rest vid_to_rid
check_all_ids ((vid, rid) ∷ translated) vid_to_rid = elim (contains ◌==◌ vid vid_to_rid) [
  | false ↦ throws "failed to find vid in previous map"
  | true ↦ check_all_ids translated (remove ◌==◌ vid vid_to_rid)
]

abbrev SameKeys : ObjectIdMap → ObjectIdMap → Type 0
SameKeys m m' = (k : ℕ) → contains ◌==◌ k m ≡ contains ◌==◌ k m'

check_rest-SameKeys : (m : ObjectIdMap) → check_rest m ≡ ok tt ↔ SameKeys [] m
unfolding check_rest
check_rest-SameKeys [] = (λ h k. refl, λ h. refl)
check_rest-SameKeys ((vid, rid) ∷ rest) = (
  λ h. absurd (ground arith),
  λ h. let here = h vid in let same = ==_refl vid in absurd (ground arith),
)

-- Taking one entry away from both sides.
SameKeys-remove :
    (vid rid : ℕ) (translated m : ObjectIdMap)
    → contains ◌==◌ vid translated ≡ false
    → Distinct ◌==◌ m
    → contains ◌==◌ vid m ≡ true
    → SameKeys translated (remove ◌==◌ vid m) ↔ SameKeys ((vid, rid) ∷ translated) m
SameKeys-remove vid rid translated m alone d there = (
  (λ h k.
      let here = h k in
      let less = contains-remove k vid m d in
      let e : (k == vid) ≡ true → k ≡ vid = ==_eq k vid in
      elim (Bool-cases (k == vid)) [
        | inl same ↦
            let found : contains ◌==◌ k m ≡ true =
              subst (λ z. contains ◌==◌ z m ≡ true) (sym (==_eq k vid same)) there in
            ground arith
        | inr other ↦ ground arith
      ]),
  (λ h k.
      let here = h k in
      let less = contains-remove k vid m d in
      elim (Bool-cases (k == vid)) [
        | inl same ↦
            let found : contains ◌==◌ k translated ≡ false =
              subst (λ z. contains ◌==◌ z translated ≡ false) (sym (==_eq k vid same)) alone in
            ground arith
        | inr other ↦ ground arith
      ]),
)

-- For maps, which hold no VID twice: `checkAllIds` returns if and only if the VIDs that were
-- translated are those of the map from before.
pub check_all_ids_iff :
    (translated vid_to_rid : ObjectIdMap)
    → Distinct ◌==◌ translated
    → Distinct ◌==◌ vid_to_rid
    → check_all_ids translated vid_to_rid ≡ ok tt
      ↔ ((k : ℕ) → contains ◌==◌ k translated ≡ contains ◌==◌ k vid_to_rid)
unfolding check_all_ids
check_all_ids_iff [] vid_to_rid d d' = check_rest-SameKeys vid_to_rid
check_all_ids_iff ((vid, rid) ∷ translated) vid_to_rid d d' =
    elim (Bool-cases (contains ◌==◌ vid vid_to_rid)) [
      | inl there ↦
          let rest =
            check_all_ids_iff translated (remove ◌==◌ vid vid_to_rid) d.1
              (remove-Distinct vid vid_to_rid d') in
          let step = SameKeys-remove vid rid translated vid_to_rid d.0 d' there in
          (
            (λ h. step.0 (rest.0 (ground arith))),
            (λ h. let r = rest.1 (step.1 h) in rw (there, check_all_ids) r),
          )
      | inr missing ↦ (
        (λ h. absurd (ground arith)),
        (λ h. let here = h vid in let same = ==_refl vid in absurd (ground arith)),
      )
    ]
