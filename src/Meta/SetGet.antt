-- ===== src/Meta/SetGet.antt =====
-- `meta_generic_validation_set` and `meta_generic_validation_get` of meta/Meta.cpp.
use sonic_otairedis.Common.{
  ℕ, List, [], ◌∷◌, Option, none, some, Result, ok, throws, ltb, if◌then◌else◌,
}
use sonic_otairedis.Common.Int.{pos}
use sonic_otairedis.Otai.{ObjectTypes, Status, success, failure}
use sonic_otairedis.Metadata.{
  ValueType, type_object_list, type_uint8_list, type_int8_list, type_uint16_list, type_int16_list,
  type_uint32_list, type_int32_list, type_other, ListOf, null_list, items, count_of, Value,
  Attribute, AttrMeta, Metadata,
}
use sonic_otairedis.Meta.Checks.{
  max_list_count, accept, reject, ◌>>>◌, validation_list, object_type_check,
}
use sonic_otairedis.Meta.Values.{printable, value_check}

-- The lists are checked; what else the value holds is output only.
pub get_value_check : ValueType → Value → Result Status
get_value_check type_object_list v = validation_list v.objlist
get_value_check type_uint8_list v = validation_list v.numbers
get_value_check type_int8_list v = validation_list v.numbers
get_value_check type_uint16_list v = validation_list v.numbers
get_value_check type_int16_list v = validation_list v.numbers
get_value_check type_uint32_list v = validation_list v.numbers
get_value_check type_int32_list v = validation_list v.numbers
get_value_check type_other v = throws "serialization type is not supported yet FIXME"
get_value_check _ v = accept

-- `attr_list[i].value.s32 = 0` for an enumeration.
unfoldable pub clear_enum : AttrMeta → Attribute → Attribute
clear_enum md a = if md.isenum then record a { value = record a.value { s32 = pos 0 } } else a

module _ ⦃t : ObjectTypes⦄ (meta : Metadata) where
  open meta use {get_attr_metadata, query_linecard_id}

  -- `attr` may be NULL.
  unfoldable pub validation_set : ℕ → ℕ → Option Attribute → Result Status
  validation_set object_type oid none = reject
  validation_set object_type oid (some a) = elim (get_attr_metadata object_type a.id) [
    | none ↦ ok failure
    | some md ↦
        if md.read_only
        then reject
        else if md.create_only
        then reject
        else if md.is_key
        then reject
        else value_check meta md (query_linecard_id oid) (printable a.value.chardata) a.value
          >>> object_type_check meta object_type oid
  ]

  -- The loop over the attributes, which writes to the caller's list as it goes.
  unfoldable pub get_attributes : ℕ → List Attribute → Result Status × List Attribute
  unfolding get_value_check clear_enum
  get_attributes object_type [] = (accept, [])
  get_attributes object_type (a ∷ rest) = elim (get_attr_metadata object_type a.id) [
    | none ↦ (ok failure, a ∷ rest)
    | some md ↦
        if md.set_only
        then (reject, a ∷ rest)
        else elim (get_value_check md.attrvaluetype a.value) [
          | throws message ↦ (throws message, clear_enum md a ∷ rest)
          | ok success ↦ (
            (get_attributes object_type rest).0,
            clear_enum md a ∷ (get_attributes object_type rest).1,
          )
          | ok status ↦ (ok status, clear_enum md a ∷ rest)
        ]
  ]

  unfoldable pub validation_get : ℕ → ℕ → ListOf Attribute → Result Status × ListOf Attribute
  unfolding get_attributes
  validation_get object_type oid attr_list =
      if ltb (count_of attr_list) 1
      then (reject, attr_list)
      else if ltb max_list_count (count_of attr_list)
      then (reject, attr_list)
      else elim attr_list [
        | null_list n ↦ (reject, null_list n)
        | items l ↦ (
          (get_attributes object_type l).0 >>> object_type_check meta object_type oid,
          items (get_attributes object_type l).1,
        )
      ]
