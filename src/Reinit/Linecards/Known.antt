-- ===== src/Reinit/Linecards/Known.antt =====
-- The map of VIDs from before: reading it for a linecard, as both loops over the linecards do,
-- changes the RID of no VID that it has.
use sonic_otairedis.Common.{
  ℕ, ◌≡◌, ◌⊎◌, inl, inr, refl, arith, none, some, Method, after-state, ◌==◌, ==_eq, ==_refl,
  Bool-cases, Option-cases,
}
use sonic_otairedis.Common.Assoc.{find, insert, find-insert}
use sonic_otairedis.Otai.{ObjectTypes}
use sonic_otairedis.Metadata.{Metadata}
use sonic_otairedis.Requests.{Vendor}
use sonic_otairedis.Reinit.{ObjectIdMap, AsicState}
use sonic_otairedis.Reinit.Objects.{Reiniter}
use sonic_otairedis.Reinit.Objects.Renamed.{Extends}
use sonic_otairedis.Reinit.Linecards.{
  linecard_vid, set_on_linecard, previous_rid, stop_pre_config, stop_pre_config_linecards,
}
use sonic_otairedis.Reinit.Linecards.Kept.{one_linecard-state}
use sonic_otairedis.Reinit.BoardMode.{LinecardAttrs}

-- A VID that the map does not have comes in, and the others stay.
pub insert_new-Extends :
    (vid rid : ℕ) (m : ObjectIdMap) → find ◌==◌ vid m ≡ none → Extends m (insert ◌==◌ vid rid m)
insert_new-Extends vid rid m new k r there =
    let found = find-insert k vid rid m in
    elim (Bool-cases (k == vid)) [
      | inl same ↦ let k_vid : k ≡ vid = ==_eq k vid same in absurd (ground arith)
      | inr other ↦ ground arith
    ]

-- A map that has no RIDs but those of `first`, and 0 for VIDs that `first` did not have.
abbrev pub FromBefore : ObjectIdMap → ObjectIdMap → Type 0
FromBefore first m =
    (vid rid : ℕ)
    → find ◌==◌ vid m ≡ some rid
    → (find ◌==◌ vid first ≡ some rid) ⊎ ((find ◌==◌ vid first ≡ none) × (rid ≡ 0))

absent :
    (first m : ObjectIdMap) (vid : ℕ)
    → Extends first m
    → find ◌==◌ vid m ≡ none
    → find ◌==◌ vid first ≡ none
absent first m vid e new = elim (Option-cases (find ◌==◌ vid first)) [
  | inl none_there ↦ none_there
  | inr (rid, there) ↦ let there' = e vid rid there in absurd cc
]

insert_zero-FromBefore :
    (first m : ObjectIdMap) (vid : ℕ)
    → find ◌==◌ vid first ≡ none
    → FromBefore first m
    → FromBefore first (insert ◌==◌ vid 0 m)
insert_zero-FromBefore first m vid new from k r there =
    let found = find-insert k vid 0 m in
    elim (Bool-cases (k == vid)) [
      | inl same ↦ let k_vid : k ≡ vid = ==_eq k vid same in inr (ground arith, ground arith)
      | inr other ↦ from k r (ground arith)
    ]

module _ ⦃t : ObjectTypes⦄ (meta : Metadata) (linecard_attrs : LinecardAttrs) {V : Type 0}
    (vendor : Vendor V) (start_linecard : ℕ → ℕ → Method V (Unit {0})) (asic : AsicState)
    (vid_to_rid : ObjectIdMap) where
  pub previous_rid-Extends :
      (vid : ℕ) (m : ObjectIdMap)
      → let known = previous_rid meta linecard_attrs vendor start_linecard asic vid_to_rid vid m in
        (find ◌==◌ vid known.1 ≡ some known.0) × Extends m known.1
  previous_rid-Extends vid m = elim (Option-cases (find ◌==◌ vid m)) [
    | inr (rid, h) ↦ rw (h, previous_rid) (h, (λ k r there. there))
    | inl new ↦
        rw (new, previous_rid)
          (
            let found = find-insert vid vid 0 m in let e = ==_refl vid in ground arith,
            insert_new-Extends vid 0 m new,
          )
  ]

  pub previous_rid-FromBefore :
      (first m : ObjectIdMap) (vid : ℕ)
      → Extends first m
      → FromBefore first m
      → FromBefore first
          (previous_rid meta linecard_attrs vendor start_linecard asic vid_to_rid vid m).1
  previous_rid-FromBefore first m vid e from = elim (Option-cases (find ◌==◌ vid m)) [
    | inr (rid, h) ↦ rw (h, previous_rid) from
    | inl new ↦
        rw (new, previous_rid) (insert_zero-FromBefore first m vid (absent first m vid e new) from)
  ]

  abbrev StopExtends : Reiniter V × ObjectIdMap → Reiniter V × ObjectIdMap → Type 0
  StopExtends a b =
      (b.0.translated_v2r ≡ a.0.translated_v2r)
      × Extends a.1 b.1
      × ((first : ObjectIdMap) → Extends first a.1 → FromBefore first a.1 → FromBefore first b.1)

  pub stop_linecards-Extends :
      (w : Reiniter V × ObjectIdMap)
      → StopExtends w
          (stop_pre_config_linecards meta linecard_attrs vendor start_linecard asic vid_to_rid w).1
  unfolding stop_pre_config_linecards stop_pre_config set_on_linecard
  stop_linecards-Extends w =
      one_linecard-state _ StopExtends (λ a. (refl, (λ k r h. h), (λ first e from. from)))
        (λ str_vid asic_key a.
          after-state {P = StopExtends a} _
            (linecard_vid meta linecard_attrs vendor start_linecard asic vid_to_rid str_vid) a
            (refl, (λ k r h. h), (λ first e from. from))
            (λ vid b kept.
              let known =
                previous_rid meta linecard_attrs vendor start_linecard asic vid_to_rid vid b.1 in
              let previous = previous_rid-Extends vid b.1 in
              let later : Extends a.1 known.1 = λ k r h. previous.1 k r (kept.1 k r h) in
              (
                kept.0,
                later,
                (λ first e from.
                    previous_rid-FromBefore first b.1 vid (λ k r h. kept.1 k r (e k r h))
                      (kept.2 first e from)),
              )))
        asic.linecards w
