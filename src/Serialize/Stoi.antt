-- ===== src/Serialize/Stoi.antt =====
-- `stoi` of the C++ library, where its int is passed for a uint32_t: blanks, a sign and digits, and
-- what follows is not read.
use sonic_otairedis.Common.{
  ℕ, ◌+◌, ◌*◌, ◌-◌, ◌^◌, ◌%◌, Bool, not, ◌&&◌, ◌||◌, [], ◌∷◌, Result, ok, throws, leb, ◌==◌,
  if◌then◌else◌,
}
use sonic_otairedis.Serialize.ObjectId.{Text}

abbrev is_space : ℕ → Bool
is_space c = (c == 32) || (leb 9 c && leb c 13)

abbrev is_digit : ℕ → Bool
is_digit c = leb 48 c && leb c 57

abbrev skip_spaces : Text → Text
skip_spaces [] = []
skip_spaces (c ∷ cs) = if is_space c then skip_spaces cs else c ∷ cs

abbrev digits : ℕ → Text → ℕ
digits n [] = n
digits n (c ∷ cs) = if is_digit c then digits (n * 10 + (c - 48)) cs else n

-- The number is at most `limit`, and is taken by `number`.
abbrev magnitude : ℕ → (ℕ → ℕ) → Text → Result ℕ
magnitude limit number [] = throws "stoi"
magnitude limit number (c ∷ cs) =
    if not (is_digit c)
    then throws "stoi"
    else if leb (digits 0 (c ∷ cs)) limit
    then ok (number (digits 0 (c ∷ cs)))
    else throws "stoi"

abbrev signed : Text → Result ℕ
signed [] = throws "stoi"
signed (c ∷ cs) =
    if c == 45
    then magnitude (2 ^ 31) (λ n. (2 ^ 32 - n) % 2 ^ 32) cs
    else if c == 43
    then magnitude (2 ^ 31 - 1) (λ n. n) cs
    else magnitude (2 ^ 31 - 1) (λ n. n) (c ∷ cs)

-- The int as the uint32_t that it is passed for.
abbrev pub stoi : Text → Result ℕ
stoi s = signed (skip_spaces s)
