-- ===== src/Serialize/TextMaps.antt =====
-- Maps with texts for keys.
use sonic_otairedis.Common.{
  ◌≡◌, inl, inr, refl, sym, ◌∙◌, ap, arith, true, false, List, [], ◌∷◌, none, some, Bool-cases,
  if◌then◌else◌,
}
use sonic_otairedis.Common.Assoc.{find, contains, insert, remove, Distinct}
use sonic_otairedis.Serialize.ObjectId.{Text}
use sonic_otairedis.Serialize.Texts.{same_text, same_text_eq, same_text_other}

module _ {V : Type 0} where
  absent_find :
      (k : Text) (m : List (Text × V)) → contains same_text k m ≡ false → find same_text k m ≡ none
  absent_find k [] h = refl
  absent_find k ((i, w) ∷ rest) h = let ih = absent_find k rest in ground arith

  pub find-insert :
      (k j : Text) (v : V) (m : List (Text × V))
      → find same_text k (insert same_text j v m)
        ≡ (if same_text k j then some v else find same_text k m)
  find-insert k j v [] = refl
  find-insert k j v ((i, w) ∷ rest) = elim (Bool-cases (same_text j i)) [
    | inl e ↦
        let same : same_text k i ≡ same_text k j = ap (same_text k) (sym (same_text_eq j i e)) in
        elim (Bool-cases (same_text k j)) [
          | inl f ↦ rw (e, f, same ∙ f) refl
          | inr f ↦ rw (e, f, same ∙ f) refl
        ]
    | inr e ↦ elim (Bool-cases (same_text k i)) [
      | inr f ↦ rw (e, f) (find-insert k j v rest)
      | inl f ↦ elim (Bool-cases (same_text k j)) [
        | inr other ↦ rw (e, f, other) refl
        | inl both ↦
            let j_k : j ≡ k = sym (same_text_eq k j both) in
            let again : same_text j i ≡ true = ap (λ z. same_text z i) j_k ∙ f in absurd cc
      ]
    ]
  ]

  pub find-remove :
      (k j : Text) (m : List (Text × V))
      → Distinct same_text m
      → find same_text k (remove same_text j m)
        ≡ (if same_text k j then none else find same_text k m)
  find-remove k j [] d = elim (Bool-cases (same_text k j)) [ inl f ↦ rw f refl | inr f ↦ rw f refl ]
  find-remove k j ((i, w) ∷ rest) d = elim (Bool-cases (same_text j i)) [
    | inl e ↦
        let i_j : i ≡ j = sym (same_text_eq j i e) in
        let same : same_text k i ≡ same_text k j = ap (same_text k) i_j in
        elim (Bool-cases (same_text k j)) [
          | inr f ↦ rw (e, f, same ∙ f) refl
          | inl f ↦
              let k_i : k ≡ i = same_text_eq k j f ∙ sym i_j in
              let gone : find same_text k rest ≡ none =
                absent_find k rest (ap (λ z. contains same_text z rest) k_i ∙ d.0) in
              rw (e, f) gone
        ]
    | inr e ↦ elim (Bool-cases (same_text k i)) [
      | inr f ↦ rw (e, f) (find-remove k j rest d.1)
      | inl f ↦ elim (Bool-cases (same_text k j)) [
        | inr other ↦ rw (e, f, other) refl
        | inl both ↦
            let j_k : j ≡ k = sym (same_text_eq k j both) in
            let again : same_text j i ≡ true = ap (λ z. same_text z i) j_k ∙ f in absurd cc
      ]
    ]
  ]

  pub contains-insert :
      (k j : Text) (v : V) (m : List (Text × V))
      → contains same_text k m ≡ false
      → same_text k j ≡ false
      → contains same_text k (insert same_text j v m) ≡ false
  contains-insert k j v [] c other = rw other refl
  contains-insert k j v ((i, w) ∷ rest) c other = elim (Bool-cases (same_text k i)) [
    | inl f ↦ absurd (cc (rw f at c))
    | inr f ↦
        let c' : contains same_text k rest ≡ false = rw f at c in
        elim (Bool-cases (same_text j i)) [
          | inl e ↦ rw (e, f) c'
          | inr e ↦ rw (e, f) (contains-insert k j v rest c' other)
        ]
  ]

  pub insert-Distinct :
      (j : Text) (v : V) (m : List (Text × V))
      → Distinct same_text m
      → Distinct same_text (insert same_text j v m)
  insert-Distinct j v [] d = (refl, tt)
  insert-Distinct j v ((i, w) ∷ rest) d = elim (Bool-cases (same_text j i)) [
    | inl e ↦ rw e d
    | inr e ↦
        let other : same_text i j ≡ false = same_text_other j i e in
        rw e (contains-insert i j v rest d.0 other, insert-Distinct j v rest d.1)
  ]
