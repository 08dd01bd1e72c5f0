-- ===== src/Serialize/Texts.antt =====
-- What the program asks of `std::string`: equality, a search for a character, and parts.
use sonic_otairedis.Common.{
  ℕ, zero, suc, ◌+◌, ◌-◌, ◌^◌, ◌%◌, ◌≡◌, inl, inr, refl, subst, ap, arith, Bool, true, false, ◌&&◌,
  [], ◌∷◌, ◌++◌, ◌==◌, ==_refl, Bool-cases, if◌then◌else◌, length,
}
use sonic_otairedis.Serialize.ObjectId.{Text}

abbrev pub same_text : Text → Text → Bool
same_text [] [] = true
same_text [] (d ∷ s) = false
same_text (c ∷ r) [] = false
same_text (c ∷ r) (d ∷ s) = (c == d) && same_text r s

pub same_text_refl : (s : Text) → same_text s s ≡ true
same_text_refl [] = refl
same_text_refl (c ∷ s) = ground (arith, ==_refl c, same_text_refl s)

pub same_text_eq : (r s : Text) → same_text r s ≡ true → r ≡ s
same_text_eq [] [] h = refl
same_text_eq [] (d ∷ s) h = cc
same_text_eq (c ∷ r) [] h = cc
same_text_eq (c ∷ r) (d ∷ s) h = let ih = same_text_eq r s in ground arith

pub same_text_other : (a b : Text) → same_text a b ≡ false → same_text b a ≡ false
same_text_other a b other = elim (Bool-cases (same_text b a)) [
  | inr e ↦ e
  | inl e ↦
      let same : same_text a b ≡ true =
        subst (λ z. same_text z b ≡ true) (same_text_eq b a e) (same_text_refl b) in
      absurd cc
]

abbrev pub drop : ℕ → Text → Text
drop zero s = s
drop (suc n) [] = []
drop (suc n) (c ∷ s) = drop n s

abbrev pub take : ℕ → Text → Text
take zero s = []
take (suc n) [] = []
take (suc n) (c ∷ s) = c ∷ take n s

-- size_t, and `std::string::npos`.
abbrev pub npos : ℕ
npos = 2 ^ 64 - 1

-- The place of the first c in s, where s is what follows the first `at` characters.
abbrev pub find_char : ℕ → ℕ → Text → ℕ
find_char c at [] = npos
find_char c at (d ∷ s) = if c == d then at else find_char c (at + 1) s

-- One more, in a size_t: after npos comes 0.
abbrev pub next : ℕ → ℕ
next at = (at + 1) % 2 ^ 64

-- `s.substr(at, count)` for an `at` within s; a count that is too large takes all.
abbrev pub substr : ℕ → ℕ → Text → Text
substr at count s = take count (drop at s)

-- All of s before the first c.
abbrev pub Without : ℕ → Text → Type 0
Without c [] = Unit
Without c (d ∷ s) = ((c == d) ≡ false) × Without c s

pub find_char-append :
    (c at : ℕ) (r s : Text) → Without c r → find_char c at (r ++ c ∷ s) ≡ at + length r
find_char-append c at [] s w = ground arith
find_char-append c at (d ∷ r) s w =
    let ih = find_char-append c (at + 1) r s w.1 in let other = w.0 in ground arith

pub drop-append : (r s : Text) → drop (length r) (r ++ s) ≡ s
drop-append [] s = refl
drop-append (d ∷ r) s = drop-append r s

pub take-append : (r s : Text) → take (length r) (r ++ s) ≡ r
take-append [] s = refl
take-append (d ∷ r) s = ap (λ rest. d ∷ rest) (take-append r s)
