-- ===== src/Serialize/ObjectId/RoundTrip.antt =====
-- What is written is read back, and different ids are written differently.
use sonic_otairedis.Common.{
  ℕ, zero, suc, ◌+◌, ◌*◌, ◌/◌, ◌%◌, ◌^◌, ◌≤◌, ◌<◌, ◌≡◌, ◌≢◌, refl, ap, ◌∙◌, inl, inr, arith, [],
  ◌∷◌, ◌++◌, some, ok, ltb, Bool-cases, Option-cases,
}
use sonic_otairedis.Serialize.ObjectId.{
  Text, text, hex_digit, hex, hex_value, read_hex, strip, read_id, otai_serialize_object_id,
  otai_deserialize_object_id,
}

hex_value-hex_digit : (d : ℕ) → d < 16 → hex_value (hex_digit d) ≡ some d
unfolding hex_value hex_digit
hex_value-hex_digit d h = ground arith

read_hex-hex_digit : (v d : ℕ) → d < 16 → read_hex v (hex_digit d ∷ []) ≡ some (v * 16 + d)
unfolding read_hex
read_hex-hex_digit v d h = rw (hex_value-hex_digit d h, read_hex)

read_hex-append :
    (v : ℕ) (xs : Text) (w d : ℕ)
    → read_hex v xs ≡ some w
    → d < 16
    → read_hex v (xs ++ hex_digit d ∷ []) ≡ some (w * 16 + d)
unfolding read_hex
read_hex-append v [] w d e h = read_hex-hex_digit v d h ∙ ground arith
read_hex-append v (x ∷ xs) w d e h = elim (Option-cases (hex_value x)) [
  | inl bad ↦ absurd (cc (rw (bad, read_hex) at e))
  | inr (k, good) ↦
      rw (good, read_hex) (read_hex-append (v * 16 + k) xs w d (rw (good, read_hex) at e) h)
]

read_hex-hex : (rounds n : ℕ) → n ≤ rounds → read_hex 0 (hex rounds n) ≡ some n
unfolding hex
read_hex-hex zero n h = read_hex-hex_digit 0 (n % 16) (omega arith) ∙ ap some (omega arith)
read_hex-hex (suc rounds) n h = elim (Bool-cases (ltb n 16)) [
  | inl short ↦ rw (short, hex) (read_hex-hex_digit 0 n (ground arith) ∙ ap some (omega arith))
  | inr long ↦
      rw (long, hex)
        (read_hex-append 0 (hex rounds (n / 16)) (n / 16) (n % 16)
            (read_hex-hex rounds (n / 16) (ground arith)) (omega arith)
          ∙ ap some (omega arith))
]

append_ne : (xs : Text) (d : ℕ) → xs ++ d ∷ [] ≢ []
append_ne [] d e = cc
append_ne (x ∷ xs) d e = cc

hex_ne : (rounds n : ℕ) → hex rounds n ≢ []
unfolding hex
hex_ne zero n e = cc
hex_ne (suc rounds) n e = elim (Bool-cases (ltb n 16)) [
  | inl short ↦ cc (rw (short, hex) at e)
  | inr long ↦ append_ne (hex rounds (n / 16)) (hex_digit (n % 16)) (rw (long, hex) at e)
]

strip-oid : (s : Text) → strip (text "oid:0x") (text "oid:0x" ++ s) ≡ some s
unfolding strip
strip-oid s = refl

read_id-digits : (s : Text) (n : ℕ) → s ≢ [] → read_hex 0 s ≡ some n → n < 2 ^ 64 → read_id s ≡ ok n
unfolding read_id
read_id-digits [] n ne e h = absurd (ne refl)
read_id-digits (c ∷ s) n ne e h = rw (e, read_id) (ground arith)

-- Every 64-bit id is read back from the text that is written for it.
pub deserialize-serialize :
    (oid : ℕ) → oid < 2 ^ 64 → otai_deserialize_object_id (otai_serialize_object_id oid) ≡ ok oid
unfolding otai_deserialize_object_id otai_serialize_object_id
deserialize-serialize oid h =
    read_id-digits (hex oid oid) oid (hex_ne oid oid) (read_hex-hex oid oid (omega arith)) h

-- Ids, of whatever size, that are written alike are the same.
pub serialize_injective :
    (a b : ℕ) → otai_serialize_object_id a ≡ otai_serialize_object_id b → a ≡ b
unfolding otai_serialize_object_id
serialize_injective a b e =
    let read = read_hex-hex a a (omega arith) in
    let read' = read_hex-hex b b (omega arith) in
    let same : hex a a ≡ hex b b = cc (strip-oid (hex a a), strip-oid (hex b b)) in
    cc (read, read', same)

strip-append : (p s r : Text) → strip p s ≡ some r → s ≡ p ++ r
unfolding strip
strip-append [] s r e = cc
strip-append (c ∷ p) [] r e = cc
strip-append (c ∷ p) (d ∷ s) r e = ground (arith, strip-append p s r)

read_id-fits : (s : Text) (oid : ℕ) → read_id s ≡ ok oid → oid < 2 ^ 64
unfolding read_id
read_id-fits [] oid e = cc
read_id-fits (c ∷ s) oid e = ground arith

-- If a text is read as an id, the id is a 64-bit number, and the text starts with `oid:0x`.
pub deserialize-fits :
    (s : Text) (oid : ℕ)
    → otai_deserialize_object_id s ≡ ok oid
    → (oid < 2 ^ 64) × ((digits : Text) × (s ≡ text "oid:0x" ++ digits))
unfolding otai_deserialize_object_id
deserialize-fits s oid h = elim (Option-cases (strip (text "oid:0x") s)) [
  | inl bad ↦ cc (rw (bad, otai_deserialize_object_id) at h)
  | inr (digits, good) ↦ (
    read_id-fits digits oid (rw (good, otai_deserialize_object_id) at h),
    (digits, strip-append (text "oid:0x") s digits good),
  )
]
