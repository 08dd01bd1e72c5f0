-- ===== src/Oid/Virtual/Fields.antt =====
-- The fields of a virtual object id are independent, and they are all of it.
use sonic_otairedis.Common.{ℕ, ◌+◌, ◌*◌, ◌/◌, ◌%◌, ◌^◌, ◌<◌, ◌≡◌, subst, ◌∙◌, ◌↔◌, arith, bit_or}
use sonic_otairedis.Common.Bits.{or-eq-add, and-eq-mod}
use sonic_otairedis.Oid.Virtual.{
  index_bits, type_bits, linecard_bits, construct_object_id, get_object_index,
}

pub index_bits_lem : (oid : ℕ) → index_bits oid ≡ oid % 2 ^ 48
unfolding index_bits
index_bits_lem oid = and-eq-mod 48 oid

pub type_bits_lem : (oid : ℕ) → type_bits oid ≡ oid / 2 ^ 48 % 2 ^ 8
unfolding type_bits
type_bits_lem oid = and-eq-mod 8 (oid / 2 ^ 48)

pub linecard_bits_lem : (oid : ℕ) → linecard_bits oid ≡ oid / 2 ^ 56 % 2 ^ 8
unfolding linecard_bits
linecard_bits_lem oid = and-eq-mod 8 (oid / 2 ^ 56)

pub ruleset field_laws = (arith, index_bits_lem, type_bits_lem, linecard_bits_lem)

pub construct_object_id_lem :
    (object_type linecard_index object_index : ℕ)
    → object_type < 2 ^ 8
    → linecard_index < 2 ^ 8
    → object_index < 2 ^ 48
    → construct_object_id object_type linecard_index object_index
      ≡ linecard_index * 2 ^ 56 + object_type * 2 ^ 48 + object_index
unfolding construct_object_id
construct_object_id_lem ty lc ix ht hl hi =
    let high : lc * 2 ^ 56 % 2 ^ 64 ≡ lc * 2 ^ 56 = omega arith in
    let middle : ty * 2 ^ 48 % 2 ^ 64 ≡ ty * 2 ^ 48 = omega arith in
    rw (high, middle, or-eq-add 56 lc (ty * 2 ^ 48) (omega arith))
      (subst (λ h. bit_or h ix ≡ lc * 2 ^ 56 + ty * 2 ^ 48 + ix) (joined ty lc)
        (omega (arith, or-eq-add 48 (lc * 2 ^ 8 + ty) ix hi)))
  where
    joined : (ty lc : ℕ) → (lc * 2 ^ 8 + ty) * 2 ^ 48 ≡ lc * 2 ^ 56 + ty * 2 ^ 48
    joined ty lc = omega arith

-- Of a virtual id built from an object type and a linecard index below 2 ^ 8 and an object index
-- below 2 ^ 48, each field is read back, and the id is a 64-bit number.
pub fields-construct_object_id :
    (object_type linecard_index object_index : ℕ)
    → object_type < 2 ^ 8
    → linecard_index < 2 ^ 8
    → object_index < 2 ^ 48
    → let oid = construct_object_id object_type linecard_index object_index in
      (type_bits oid ≡ object_type)
      × (linecard_bits oid ≡ linecard_index)
      × (index_bits oid ≡ object_index)
      × (oid < 2 ^ 64)
fields-construct_object_id ty lc ix ht hl hi =
    let sum = construct_object_id_lem ty lc ix ht hl hi in
    (
      type_bits_lem _ ∙ omega (arith, sum),
      linecard_bits_lem _ ∙ omega (arith, sum),
      index_bits_lem _ ∙ omega (arith, sum),
      omega (arith, sum),
    )

-- Every 64-bit number is the virtual id built from its own fields.
pub construct_object_id-fields :
    (oid : ℕ)
    → oid < 2 ^ 64
    → construct_object_id (type_bits oid) (linecard_bits oid) (index_bits oid) ≡ oid
construct_object_id-fields oid h =
    rw (type_bits_lem oid, linecard_bits_lem oid, index_bits_lem oid)
      (construct_object_id_lem _ _ _ (omega arith) (omega arith) (omega arith) ∙ omega arith)

-- `getObjectIndex` returns the object index of a virtual id exactly when that is below 2 ^ 32.
pub get_object_index-exact :
    (oid : ℕ) → (get_object_index oid ≡ index_bits oid) ↔ (index_bits oid < 2 ^ 32)
unfolding get_object_index
get_object_index-exact oid = (λ e. omega arith, λ h. omega arith)
