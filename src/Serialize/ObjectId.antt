-- ===== src/Serialize/ObjectId.antt =====
-- `otai_serialize_object_id` and `otai_deserialize_object_id` of meta/OtaiSerialize.cpp.
pub mod RoundTrip
use Prim.Native.Char.{code}
use Prim.Native.String.{String}
use sonic_otairedis.Common.{
  ℕ, zero, suc, ◌+◌, ◌-◌, ◌*◌, ◌/◌, ◌%◌, ◌^◌, true, false, ◌&&◌, List, [], ◌∷◌, ◌++◌, Option, none,
  some, Result, ok, throws, ltb, leb, ◌==◌, if◌then◌else◌,
}

abbrev pub Text : Type 0
Text = List ℕ

-- The bytes of an ASCII literal of the source.
abbrev pub text : String → Text
text String.[] = []
text (String.◌∷◌ c s) = code c ∷ text s

-- `%x` writes digits and lower case letters.
pub hex_digit : ℕ → ℕ
hex_digit d = if ltb d 10 then b'0' + d else b'a' + (d - 10)

-- `PRIx64`: no leading zeros. A number has at most as many further digits as it is large.
pub hex : ℕ → ℕ → Text
hex zero n = hex_digit (n % 16) ∷ []
hex (suc rounds) n = elim (ltb n 16) [
  | true ↦ hex_digit n ∷ []
  | false ↦ hex rounds (n / 16) ++ hex_digit (n % 16) ∷ []
]

unfoldable pub otai_serialize_object_id : ℕ → Text
unfolding hex hex_digit
otai_serialize_object_id oid = text "oid:0x" ++ hex oid oid

-- `strtoull` reads either case.
pub hex_value : ℕ → Option ℕ
hex_value c =
    if leb b'0' c && leb c b'9'
    then some (c - b'0')
    else if leb b'a' c && leb c b'f'
    then some (c - b'a' + 10)
    else if leb b'A' c && leb c b'F'
    then some (c - b'A' + 10)
    else none

-- All of the text is digits; `none` is where `endptr` stops short.
pub read_hex : ℕ → Text → Option ℕ
read_hex value [] = some value
read_hex value (c ∷ rest) = elim (hex_value c) [
  | none ↦ none
  | some d ↦ read_hex (value * 16 + d) rest
]

-- What follows the prefix, if the text starts with it.
pub strip : Text → Text → Option Text
strip [] s = some s
strip (p ∷ prefix) [] = none
strip (p ∷ prefix) (c ∷ s) = if p == c then strip prefix s else none

-- `strtoull` on what follows "0x": no digit leaves `endptr` at the x, and a value past 64 bits
-- sets `errno`.
pub read_id : Text → Result ℕ
unfolding read_hex hex_value
read_id [] = throws "invalid oid"
read_id (c ∷ rest) = elim (read_hex 0 (c ∷ rest)) [
  | none ↦ throws "invalid oid"
  | some v ↦ if ltb v (2 ^ 64) then ok v else throws "invalid oid"
]

unfoldable pub otai_deserialize_object_id : Text → Result ℕ
unfolding read_id strip
otai_deserialize_object_id s = elim (strip (text "oid:0x") s) [
  | none ↦ throws "invalid oid"
  | some rest ↦ read_id rest
]
