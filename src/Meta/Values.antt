-- ===== src/Meta/Values.antt =====
-- The check of one attribute value against its metadata, in meta/Meta.cpp.
use sonic_otairedis.Common.{ℕ, ◌||◌, List, [], ◌∷◌, Result, throws, ltb, ◌==◌, if◌then◌else◌}
use sonic_otairedis.Common.Int.{ltb_ℤ}
use sonic_otairedis.Otai.{ObjectTypes, Status}
use sonic_otairedis.Metadata.{
  ValueType, type_bool, type_chardata, type_uint8, type_int8, type_uint16, type_int16, type_uint32,
  type_int32, type_uint64, type_int64, type_double, type_pointer, type_object_id, type_object_list,
  type_uint8_list, type_int8_list, type_uint16_list, type_int16_list, type_uint32_list,
  type_int32_list, type_uint32_range, type_int32_range, type_other, items, Value, AttrMeta,
  Metadata,
}
use sonic_otairedis.Meta.Checks.{
  accept, reject, ◌>>>◌, validation_list, enum_check, enum_list_check,
}
use sonic_otairedis.Meta.ObjList.{validation_objlist}

-- The loop over `chardata` up to its NUL: printable ASCII only.
unfoldable pub printable : List ℕ → Result Status
printable [] = accept
printable (c ∷ rest) =
    if c == 0 then accept else if ltb c 0x20 || ltb 0x7e c then reject else printable rest

module _ ⦃t : ObjectTypes⦄ (meta : Metadata) (md : AttrMeta) (linecard_id : ℕ) where
  -- The switch over `md.attrvaluetype`; create and set differ in the verdict on CHARDATA.
  pub value_by_type : Result Status → ValueType → Value → Result Status
  value_by_type chars type_bool v = accept
  value_by_type chars type_uint8 v = accept
  value_by_type chars type_int8 v = accept
  value_by_type chars type_uint16 v = accept
  value_by_type chars type_int16 v = accept
  value_by_type chars type_uint32 v = accept
  value_by_type chars type_int32 v = accept
  value_by_type chars type_uint64 v = accept
  value_by_type chars type_int64 v = accept
  value_by_type chars type_double v = accept
  value_by_type chars type_pointer v = accept
  value_by_type chars type_chardata v = chars
  value_by_type chars type_object_id v = validation_objlist meta md linecard_id (items (v.oid ∷ []))
  value_by_type chars type_object_list v = validation_objlist meta md linecard_id v.objlist
  value_by_type chars type_uint8_list v = validation_list v.numbers
  value_by_type chars type_int8_list v = validation_list v.numbers
  value_by_type chars type_uint16_list v = validation_list v.numbers
  value_by_type chars type_int16_list v = validation_list v.numbers
  value_by_type chars type_uint32_list v = validation_list v.numbers
  value_by_type chars type_int32_list v = validation_list v.numbers
  value_by_type chars type_uint32_range v = if ltb v.u32_max v.u32_min then reject else accept
  value_by_type chars type_int32_range v = if ltb_ℤ v.s32_max v.s32_min then reject else accept
  value_by_type chars type_other v = throws "serialization type is not supported yet FIXME"

  unfoldable pub value_check : Result Status → Value → Result Status
  unfolding value_by_type
  value_check chars v =
      value_by_type chars md.attrvaluetype v
      >>> enum_check md v.s32
      >>> enum_list_check md v.numbers
