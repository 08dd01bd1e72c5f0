-- ===== src/Oid/Virtual.antt =====
-- lib/VirtualObjectIdManager.cpp: virtual object ids (VIDs). Bits 63..56 hold the linecard index,
-- 55..48 the object type and 47..0 the object index.
pub mod Fields
pub mod Queries
pub mod Allocation
use sonic_otairedis.Common.{
  ℕ, ◌-◌, ◌*◌, ◌/◌, ◌%◌, ◌^◌, bit_and, bit_or, Bool, not, ◌||◌, Result, ok, throws, Method, ltb,
  leb, ◌==◌, if◌then◌else◌,
}
use sonic_otairedis.Otai.{ObjectTypes}

-- OTAI_REDIS_OBJECT_INDEX_MAX
abbrev pub object_index_max : ℕ
object_index_max = 2 ^ 48 - 1

-- OTAI_REDIS_GET_OBJECT_INDEX, _OBJECT_TYPE and _LINECARD_INDEX
unfoldable pub index_bits : ℕ → ℕ
index_bits oid = bit_and oid (2 ^ 48 - 1)

unfoldable pub type_bits : ℕ → ℕ
type_bits oid = bit_and (oid / 2 ^ 48) (2 ^ 8 - 1)

unfoldable pub linecard_bits : ℕ → ℕ
linecard_bits oid = bit_and (oid / 2 ^ 56) (2 ^ 8 - 1)

-- x << k on `uint64_t`
abbrev pub shl64 : ℕ → ℕ → ℕ
shl64 x k = x * 2 ^ k % 2 ^ 64

unfoldable pub construct_object_id : ℕ → ℕ → ℕ → ℕ
construct_object_id object_type linecard_index object_index =
    bit_or (bit_or (shl64 linecard_index 56) (shl64 object_type 48)) object_index

-- The static `getObjectIndex`, with its cast to `uint32_t`.
unfoldable pub get_object_index : ℕ → ℕ
get_object_index oid = index_bits oid % 2 ^ 32

module _ ⦃t : ObjectTypes⦄ where
  open t use {null_object_id, null_type, linecard, extensions_max, is_object_type_valid}

  -- The static `objectTypeQuery`.
  unfoldable pub object_type_query : ℕ → ℕ
  object_type_query oid =
      if oid == null_object_id
      then null_type
      else if is_object_type_valid (type_bits oid)
      then type_bits oid
      else null_type

  -- The static `linecardIdQuery`.
  unfoldable pub linecard_id_query : ℕ → ℕ
  linecard_id_query oid =
      if oid == null_object_id
      then null_object_id
      else if object_type_query oid == null_type
      then null_object_id
      else if object_type_query oid == linecard
      then oid
      else construct_object_id linecard (linecard_bits oid) (linecard_bits oid)

  -- The member `otaiObjectTypeQuery`.
  unfoldable pub otai_object_type_query : ℕ → ℕ
  otai_object_type_query oid =
      if oid == null_object_id
      then null_type
      else if type_bits oid == null_type || leb extensions_max (type_bits oid)
      then null_type
      else type_bits oid

  -- The member `otaiLinecardIdQuery`.
  pub otai_linecard_id_query : ℕ → Result ℕ
  otai_linecard_id_query oid =
      if oid == null_object_id
      then ok null_object_id
      else if otai_object_type_query oid == null_type
      then throws "invalid object type of oid"
      else if otai_object_type_query oid == linecard
      then ok oid
      else ok (construct_object_id linecard (linecard_bits oid) (linecard_bits oid))

  unfoldable pub allocate_new_linecard_object_id : ℕ
  allocate_new_linecard_object_id = construct_object_id linecard 0 0

  -- `m_oidIndexGenerator->increment()` is the argument `increment`.
  module _ {S : Type 0} (increment : S → ℕ × S) where
    take_index : ℕ → ℕ → ℕ × S → Result ℕ × S
    take_index object_type linecard_index (index, s) =
        if ltb object_index_max index
        then (throws "no more object indexes available", s)
        else (ok (construct_object_id object_type linecard_index index), s)

    unfoldable pub allocate_new_object_id : ℕ → ℕ → Method S ℕ
    unfolding take_index
    allocate_new_object_id object_type linecard_id s =
        if leb object_type null_type || leb extensions_max object_type
        then (throws "invalid object type", s)
        else if object_type == linecard
        then (throws "this function can't be used to allocate linecard id", s)
        else if not (otai_object_type_query linecard_id == linecard)
        then (throws "object type of linecard is wrong", s)
        else take_index object_type (linecard_bits linecard_id) (increment s)
