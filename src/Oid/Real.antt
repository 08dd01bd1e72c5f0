-- ===== src/Oid/Real.antt =====
-- vslib/RealObjectIdManager.cpp: the real object ids (RIDs) of the virtual linecard. Bits 63..56
-- are reserved, 55..48 hold the global context, 47..40 the linecard index, 39..32 the object type
-- and 31..0 the object index.
pub mod Laws
use sonic_otairedis.Common.{
  ℕ, ◌+◌, ◌-◌, ◌*◌, ◌/◌, ◌%◌, ◌^◌, bit_and, bit_or, Bool, not, ◌||◌, List, [], ◌∷◌, Option, none,
  some, Result, ok, throws, Method, ltb, leb, ◌==◌, if◌then◌else◌, NatMap, put,
}
use sonic_otairedis.Otai.{ObjectTypes}
use sonic_otairedis.Oid.Virtual.{shl64}

-- OTAI_VS_OBJECT_INDEX_MAX
abbrev pub object_index_max : ℕ
object_index_max = 2 ^ 32 - 1

-- OTAI_VS_GET_OBJECT_INDEX, _OBJECT_TYPE, _LINECARD_INDEX and _GLOBAL_CONTEXT
unfoldable pub index_bits : ℕ → ℕ
index_bits oid = bit_and oid (2 ^ 32 - 1)

unfoldable pub type_bits : ℕ → ℕ
type_bits oid = bit_and (oid / 2 ^ 32) (2 ^ 8 - 1)

unfoldable pub linecard_bits : ℕ → ℕ
linecard_bits oid = bit_and (oid / 2 ^ 40) (2 ^ 8 - 1)

unfoldable pub context_bits : ℕ → ℕ
context_bits oid = bit_and (oid / 2 ^ 48) (2 ^ 8 - 1)

unfoldable pub construct_object_id : ℕ → ℕ → ℕ → ℕ → ℕ
construct_object_id object_type linecard_index object_index global_context =
    bit_or
      (bit_or (bit_or (shl64 global_context 48) (shl64 linecard_index 40)) (shl64 object_type 32))
      object_index

-- `getObjectIndex`
unfoldable pub get_object_index : ℕ → ℕ
get_object_index oid = index_bits oid % 2 ^ 32

-- The attributes that `create` was given: the id, and `value.u32`.
pub record IdAttribute : Type 0 where
  pub id : ℕ
  pub u32 : ℕ

-- `m_indexer[objectType]`, which is 0 where it was not yet written.
abbrev pub counter : NatMap ℕ → ℕ → ℕ
counter indexer object_type = elim (indexer object_type) [ none ↦ 0 | some n ↦ n ]

-- The loop that looks for the attribute that carries the index, 0 if it is not there.
unfoldable pub find_index : ℕ → List IdAttribute → ℕ
find_index wanted [] = 0
find_index wanted (a ∷ rest) = if a.id == wanted then a.u32 else find_index wanted rest

module _ ⦃t : ObjectTypes⦄ where
  open t use {null_object_id, null_type, linecard, ocm, otdr, extensions_max, is_object_type_valid}

  unfoldable pub object_type_query : ℕ → ℕ
  object_type_query oid =
      if oid == null_object_id
      then null_type
      else if is_object_type_valid (type_bits oid)
      then type_bits oid
      else null_type

  unfoldable pub linecard_id_query : ℕ → ℕ
  linecard_id_query oid =
      if oid == null_object_id
      then null_object_id
      else if object_type_query oid == null_type
      then null_object_id
      else if object_type_query oid == linecard
      then oid
      else construct_object_id linecard (linecard_bits oid) (linecard_bits oid) (context_bits oid)

  unfoldable pub allocate_new_linecard_object_id : ℕ
  allocate_new_linecard_object_id = construct_object_id linecard 1 1 0

  -- OTAI_OCM_ATTR_ID and OTAI_OTDR_ATTR_ID are arguments; the state is `m_indexer`.
  module _ (ocm_attr_id otdr_attr_id : ℕ) where
    unfoldable pub allocate_new_object_index : ℕ → List IdAttribute → NatMap ℕ → ℕ × NatMap ℕ
    allocate_new_object_index object_type attrs indexer =
        if object_type == ocm
        then (find_index ocm_attr_id attrs, indexer)
        else if object_type == otdr
        then (find_index otdr_attr_id attrs, indexer)
        else (
          counter indexer object_type,
          put indexer object_type ((counter indexer object_type + 1) % 2 ^ 64),
        )

    take_index : ℕ → ℕ → ℕ × NatMap ℕ → Result ℕ × NatMap ℕ
    take_index object_type linecard_index (index, indexer) =
        if ltb object_index_max index
        then (throws "no more object indexes available", indexer)
        else (ok (construct_object_id object_type linecard_index index 0), indexer)

    unfoldable pub allocate_new_object_id : ℕ → ℕ → List IdAttribute → Method (NatMap ℕ) ℕ
    unfolding take_index
    allocate_new_object_id object_type linecard_id attrs indexer =
        if leb object_type null_type || leb extensions_max object_type
        then (throws "invalid objct type", indexer)
        else if object_type == linecard
        then (throws "this function can't be used to allocate linecard id", indexer)
        else if not (object_type_query linecard_id == linecard)
        then (throws "object type of linecard is wrong", indexer)
        else take_index object_type (linecard_bits linecard_id)
            (allocate_new_object_index object_type attrs indexer)
