-- ===== src/Common/Bits.antt =====
-- `|` of fields that do not overlap and `&` with a mask of low ones, as arithmetic.
use Prim.Native.Nat.{
  ℕ, zero, suc, ◌+◌, ◌-◌, ◌*◌, ◌/◌, ◌%◌, ◌^◌, ◌≤◌, ◌<◌, max, min, bit_and, bit_or, digits,
  bit_and-bitwise, bit_or-bitwise,
}
use mathlib.Core.Path.{◌≡◌, refl, ap}
use native.Mathlib.Nat.{pow-suc, one-le-pow, div-add-mod, div-div-eq-div-mul}
use native.Mathlib.Omega.{arith}

-- Rounds beyond the first number do not change the result.
module _ (rest : ℕ → ℕ) (op : ℕ → ℕ → ℕ) where
  digits_rounds : (m n a b : ℕ) → a ≤ m → a ≤ n → digits rest op m a b ≡ digits rest op n a b
  digits_rounds zero zero zero b h k = refl
  digits_rounds zero (suc n) zero b h k = refl
  digits_rounds (suc m) zero zero b h k = refl
  digits_rounds (suc m) (suc n) zero b h k = refl
  digits_rounds zero n (suc a) b h k = absurd (omega arith)
  digits_rounds (suc m) zero (suc a) b h k = absurd (omega arith)
  digits_rounds (suc m) (suc n) (suc a) b h k =
      let ih = digits_rounds m n (suc a / 2) (b / 2) (omega arith) (omega arith) in
      ap (λ t. t * 2 + op (suc a % 2) (b % 2)) ih

or_lowest : (a b : ℕ) → bit_or a b ≡ 2 * bit_or (a / 2) (b / 2) + max (a % 2) (b % 2)
or_lowest zero b = omega (arith, bit_or-bitwise zero b, bit_or-bitwise zero (b / 2))
or_lowest (suc a) b = omega (
  arith,
  bit_or-bitwise (suc a) b,
  bit_or-bitwise (suc a / 2) (b / 2),
  digits_rounds (λ y. y) max a (suc a / 2) (suc a / 2) (b / 2) (omega arith) (omega arith),
)

and_lowest : (a b : ℕ) → bit_and a b ≡ 2 * bit_and (a / 2) (b / 2) + min (a % 2) (b % 2)
and_lowest zero b = omega (arith, bit_and-bitwise zero b, bit_and-bitwise zero (b / 2))
and_lowest (suc a) b = omega (
  arith,
  bit_and-bitwise (suc a) b,
  bit_and-bitwise (suc a / 2) (b / 2),
  digits_rounds (λ y. 0) min a (suc a / 2) (suc a / 2) (b / 2) (omega arith) (omega arith),
)

or_nothing : (bound a : ℕ) → a ≤ bound → bit_or a 0 ≡ a
or_nothing bound zero h = bit_or-bitwise zero zero
or_nothing zero (suc a) h = absurd (omega arith)
or_nothing (suc bound) (suc a) h =
    omega (arith, or_lowest (suc a) 0, or_nothing bound (suc a / 2) (omega arith))

and_nothing : (bound a : ℕ) → a ≤ bound → bit_and a 0 ≡ 0
and_nothing bound zero h = bit_and-bitwise zero zero
and_nothing zero (suc a) h = absurd (omega arith)
and_nothing (suc bound) (suc a) h =
    omega (arith, and_lowest (suc a) 0, and_nothing bound (suc a / 2) (omega arith))

double_pow : (high k : ℕ) → high * 2 ^ suc k ≡ high * 2 ^ k + high * 2 ^ k
double_pow high k = omega (arith, ap (λ (t : ℕ). high * t) (pow-suc 2 k))

-- A field shifted above the other one.
pub or-eq-add : (k high low : ℕ) → low < 2 ^ k → bit_or (high * 2 ^ k) low ≡ high * 2 ^ k + low
or-eq-add zero high zero h = ground (arith, or_nothing high high)
or-eq-add zero high (suc low) h = absurd (omega arith)
or-eq-add (suc k) high low h =
    let below : low / 2 < 2 ^ k = omega (arith, pow-suc 2 k) in
    ground
      (arith, or_lowest (high * 2 ^ suc k) low, double_pow high k, or-eq-add k high (low / 2) below)

-- The same for terms that are known to be the two fields.
pub or-fields :
    (k high low x y : ℕ)
    → x ≡ high * 2 ^ k
    → y ≡ low
    → low < 2 ^ k
    → bit_or x y ≡ high * 2 ^ k + low
or-fields k high low x y ex ey h = rw (ex, ey) (or-eq-add k high low h)

mod_double : (m a : ℕ) → a % (2 * m) ≡ 2 * (a / 2 % m) + a % 2
mod_double m a = omega (
  arith,
  div-add-mod a (2 * m),
  div-add-mod (a / 2) m,
  ap (λ (t : ℕ). m * t) (div-div-eq-div-mul a 2 m),
)

-- The mask has `k` ones.
pub and-eq-mod : (k a : ℕ) → bit_and a (2 ^ k - 1) ≡ a % 2 ^ k
and-eq-mod zero a = ground (arith, and_nothing a a)
and-eq-mod (suc k) a =
    let halved : (2 ^ suc k - 1) / 2 ≡ 2 ^ k - 1 = omega (arith, pow-suc 2 k, one-le-pow k 2) in
    let odd : (2 ^ suc k - 1) % 2 ≡ 1 = omega (arith, pow-suc 2 k, one-le-pow k 2) in
    let doubled : 2 ^ suc k ≡ 2 * 2 ^ k = omega (arith, pow-suc 2 k) in
    omega (
      arith,
      and_lowest a (2 ^ suc k - 1),
      ap (bit_and (a / 2)) halved,
      odd,
      and-eq-mod k (a / 2),
      mod_double (2 ^ k) a,
      ap (λ (t : ℕ). a % t) doubled,
    )
