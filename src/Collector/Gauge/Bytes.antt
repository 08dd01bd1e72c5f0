-- ===== src/Collector/Gauge/Bytes.antt =====
-- In which order `compare_primitive` puts the integers on a little-endian machine.
use native.Mathlib.Nat.{add-mul}
use sonic_otairedis.Common.{
  ℕ, zero, suc, ◌+◌, ◌-◌, ◌*◌, ◌/◌, ◌%◌, ◌^◌, ◌<◌, ◌≡◌, refl, ap, ◌∙◌, inl, inr, arith, ltb, ◌==◌,
  Bool-cases, ==_eq, [],
}
use sonic_otairedis.Collector.Gauge.{compare_primitive, AvgMinMax, raise_max, unsigned_gauge}
use sonic_otairedis.Collector.Gauge.Extremes.{sign}

-- The number that the bytes in reverse make.
abbrev pub reversed : ℕ → ℕ → ℕ
reversed zero a = 0
reversed (suc bytes) a = (a % 256) * 256 ^ bytes + reversed bytes (a / 256)

scaled-lt : (q q' p r r' : ℕ) → q < q' → r < p → q * p + r < q' * p + r'
scaled-lt q q' p r r' lt small =
    let d = q' - suc q in
    let e : q' ≡ (q + 1) + d = omega arith in
    let split : ((q + 1) + d) * p ≡ q * p + 1 * p + d * p =
      add-mul (q + 1) d p ∙ ap (λ z. z + d * p) (add-mul q 1 p) in
    let whole : q' * p ≡ q * p + 1 * p + d * p = ap (λ z. z * p) e ∙ split in omega arith

reversed-lt : (bytes a : ℕ) → reversed bytes a < 256 ^ bytes
reversed-lt zero a = omega arith
reversed-lt (suc bytes) a =
    let ih = reversed-lt bytes (a / 256) in
    let below =
      scaled-lt (a % 256) 256 (256 ^ bytes) (reversed bytes (a / 256)) 0 (omega arith) ih in
    omega arith

-- `compare_primitive` on unsigned integers, on a little-endian machine, compares the numbers that
-- their bytes make in reverse.
pub compare_primitive-reversed :
    (bytes a b : ℕ) → compare_primitive bytes a b ≡ sign (reversed bytes a) (reversed bytes b)
unfolding compare_primitive
compare_primitive-reversed zero a b = refl
compare_primitive-reversed (suc bytes) a b =
    let ih = compare_primitive-reversed bytes (a / 256) (b / 256) in
    let p = 256 ^ bytes in
    let r = reversed bytes (a / 256) in
    let r' = reversed bytes (b / 256) in
    let small = reversed-lt bytes (a / 256) in
    let small' = reversed-lt bytes (b / 256) in
    elim (Bool-cases (ltb (a % 256) (b % 256))) [
      | inl lt ↦
          let below : (a % 256) * p + r < (b % 256) * p + r' =
            scaled-lt (a % 256) (b % 256) p r r' (ground arith) small in
          ground arith
      | inr ge ↦ elim (Bool-cases (a % 256 == b % 256)) [
        | inl eq ↦
            let e : (a % 256) * p ≡ (b % 256) * p =
              ap (λ z. z * p) (==_eq (a % 256) (b % 256) eq) in
            ground arith
        | inr ne ↦
            let below : (b % 256) * p + r' < (a % 256) * p + r =
              scaled-lt (b % 256) (a % 256) p r' r (ground arith) small' in
            ground arith
      ]
    ]

-- The greatest value of a gauge that is an unsigned integer stays whatever reading comes, however
-- large, if the lowest byte of the reading is below that of the greatest value.
pub raise_max_low_byte :
    (bytes now x : ℕ) (v : AvgMinMax ℕ)
    → x % 256 < v.maxvalue % 256
    → raise_max (unsigned_gauge (suc bytes)) now x v ≡ (v, [])
unfolding raise_max unsigned_gauge compare_primitive
raise_max_low_byte bytes now x v h = ground arith
