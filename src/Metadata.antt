-- ===== src/Metadata.antt =====
-- Attributes as the program holds them, and what the generated OTAI metadata say of an attribute.
-- The metadata themselves (otaimetadata.h) are an argument of what uses them.
use sonic_otairedis.Common.{ℕ, Bool, List, Option, length}
use sonic_otairedis.Common.Int.{ℤ}

-- otai_attr_value_type_t, as far as the program tells its values apart.
pub data ValueType : Type 0 where
  type_bool type_chardata type_uint8 type_int8 type_uint16 type_int16 : ValueType
  type_uint32 type_int32 type_uint64 type_int64 type_double type_pointer : ValueType
  type_object_id type_object_list : ValueType
  type_uint8_list type_int8_list type_uint16_list type_int16_list : ValueType
  type_uint32_list type_int32_list : ValueType
  type_uint32_range type_int32_range : ValueType
  type_other : ValueType

-- A count and a pointer: the pointer is NULL, or it leads to as many elements.
pub data ListOf (A : Type 0) : Type 0 where
  null_list : ℕ → ListOf A
  items : List A → ListOf A

abbrev pub count_of : {A : Type 0} → ListOf A → ℕ
count_of (null_list n) = n
count_of (items xs) = length xs

-- otai_attribute_value_t: each member by itself. The six lists of numbers have one layout, and are
-- one member.
pub record Value : Type 0 where
  pub booldata : Bool
  pub s32 : ℤ
  pub oid : ℕ
  pub objlist : ListOf ℕ
  pub numbers : ListOf ℤ
  pub chardata : List ℕ
  pub u32_min : ℕ
  pub u32_max : ℕ
  pub s32_min : ℤ
  pub s32_max : ℤ

pub record Attribute : Type 0 where
  pub id : ℕ
  pub value : Value

-- A condition on another attribute of the object: its id, and the value that it must have.
pub record Condition : Type 0 where
  pub attrid : ℕ
  pub booldata : Bool
  pub s32 : ℤ

-- otai_attr_metadata_t
pub record AttrMeta : Type 0 where
  pub attrid : ℕ
  pub attrvaluetype : ValueType
  pub read_only : Bool
  pub create_only : Bool
  pub set_only : Bool
  pub is_key : Bool
  pub mandatory_on_create : Bool
  pub isenum : Bool
  pub isenumlist : Bool
  pub isoidattribute : Bool
  pub isrecoverable : Bool
  pub allownullobjectid : Bool
  pub allowedobjecttypeslength : ℕ
  pub isconditional : Bool
  pub conditions : List Condition
  pub defaultvalue : Value
  -- otai_metadata_is_allowed_enum_value and otai_metadata_is_allowed_object_type
  pub is_allowed_enum_value : ℤ → Bool
  pub is_allowed_object_type : ℕ → Bool

-- otai_metadata_get_attr_metadata and otai_metadata_get_object_type_info, and the two queries of
-- the implementation that `Meta` stands in front of.
pub record Metadata : Type 0 where
  pub get_attr_metadata : ℕ → ℕ → Option AttrMeta
  pub attributes_metadata : ℕ → List AttrMeta
  pub query_object_type : ℕ → ℕ
  pub query_linecard_id : ℕ → ℕ
