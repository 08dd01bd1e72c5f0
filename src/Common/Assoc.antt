-- ===== src/Common/Assoc.antt =====
-- Maps that are walked and counted, as the lists of what they hold; the order is that of the walk.
use sonic_otairedis.Common.{
  ℕ, ◌≡◌, inl, inr, arith, Bool, true, false, List, [], ◌∷◌, Option, none, some, ◌==◌, ==_eq,
  Bool-cases, if◌then◌else◌, refl,
}

module _ {ℓ} {K : Type 0} {V : Type ℓ} (same : K → K → Bool) where
  abbrev pub find : K → List (K × V) → Option V
  find k [] = none
  find k ((j, v) ∷ rest) = if same k j then some v else find k rest

  abbrev pub contains : K → List (K × V) → Bool
  contains k [] = false
  contains k ((j, v) ∷ rest) = if same k j then true else contains k rest

  -- m[k] = v
  abbrev pub insert : K → V → List (K × V) → List (K × V)
  insert k v [] = (k, v) ∷ []
  insert k v ((j, w) ∷ rest) = if same k j then (j, v) ∷ rest else (j, w) ∷ insert k v rest

  -- m.erase(k)
  abbrev pub remove : K → List (K × V) → List (K × V)
  remove k [] = []
  remove k ((j, v) ∷ rest) = if same k j then rest else (j, v) ∷ remove k rest

  -- What a map is: no key twice.
  abbrev pub Distinct : List (K × V) → Type 0
  Distinct [] = Unit
  Distinct ((k, v) ∷ rest) = (contains k rest ≡ false) × Distinct rest

-- Maps with numbers for keys.
module _ {ℓ} {V : Type ℓ} where
  pub find-insert :
      (k j : ℕ) (v : V) (m : List (ℕ × V))
      → find ◌==◌ k (insert ◌==◌ j v m) ≡ (if k == j then some v else find ◌==◌ k m)
  find-insert k j v [] = refl
  find-insert k j v ((i, w) ∷ rest) = let ih = find-insert k j v rest in ground arith

  pub contains-insert :
      (k j : ℕ) (v : V) (m : List (ℕ × V))
      → contains ◌==◌ k (insert ◌==◌ j v m) ≡ (if k == j then true else contains ◌==◌ k m)
  contains-insert k j v [] = refl
  contains-insert k j v ((i, w) ∷ rest) = let ih = contains-insert k j v rest in ground arith

  pub insert-Distinct :
      (j : ℕ) (v : V) (m : List (ℕ × V)) → Distinct ◌==◌ m → Distinct ◌==◌ (insert ◌==◌ j v m)
  insert-Distinct j v [] d = (refl, tt)
  insert-Distinct j v ((i, w) ∷ rest) d =
      let ih = insert-Distinct j v rest d.1 in
      let found = contains-insert i j v rest in
      elim (Bool-cases (j == i)) [ inl e ↦ rw e d | inr e ↦ rw e ((ground arith), ih) ]

  pub contains-remove :
      (k j : ℕ) (m : List (ℕ × V))
      → Distinct ◌==◌ m
      → contains ◌==◌ k (remove ◌==◌ j m) ≡ (if k == j then false else contains ◌==◌ k m)
  contains-remove k j [] d = ground arith
  contains-remove k j ((i, w) ∷ rest) d =
      let ih = contains-remove k j rest d.1 in
      let alone = d.0 in
      elim (Bool-cases (j == i)) [
        | inl e ↦
            let e' = ==_eq j i e in
            elim (Bool-cases (k == j)) [
              | inl f ↦ let f' = ==_eq k j f in rw (e, f, f', e') alone
              | inr f ↦ ground arith
            ]
        | inr e ↦ ground arith
      ]

  pub remove-Distinct :
      (j : ℕ) (m : List (ℕ × V)) → Distinct ◌==◌ m → Distinct ◌==◌ (remove ◌==◌ j m)
  remove-Distinct j [] d = tt
  remove-Distinct j ((i, w) ∷ rest) d =
      let ih = remove-Distinct j rest d.1 in
      let found = contains-remove i j rest d.1 in
      elim (Bool-cases (j == i)) [ inl e ↦ rw e (d.1) | inr e ↦ rw e ((ground arith), ih) ]

  pub find-contains :
      (k : ℕ) (m : List (ℕ × V)) (v : V) → find ◌==◌ k m ≡ some v → contains ◌==◌ k m ≡ true
  find-contains k [] v h = cc
  find-contains k ((j, w) ∷ rest) v h = let ih = find-contains k rest v in ground arith

  absent_find : (k : ℕ) (m : List (ℕ × V)) → contains ◌==◌ k m ≡ false → find ◌==◌ k m ≡ none
  absent_find k [] h = refl
  absent_find k ((i, w) ∷ rest) h = let ih = absent_find k rest in ground arith

  pub find-remove :
      (k j : ℕ) (m : List (ℕ × V))
      → Distinct ◌==◌ m
      → find ◌==◌ k (remove ◌==◌ j m) ≡ (if k == j then none else find ◌==◌ k m)
  find-remove k j [] d = ground arith
  find-remove k j ((i, w) ∷ rest) d =
      let ih = find-remove k j rest d.1 in
      elim (Bool-cases (j == i)) [
        | inl e ↦
            let e' = ==_eq j i e in
            elim (Bool-cases (k == j)) [
              | inl f ↦
                  let f' = ==_eq k j f in
                  let gone = absent_find i rest d.0 in rw (e, f, f', e') gone
              | inr f ↦ ground arith
            ]
        | inr e ↦ ground arith
      ]
