-- ===== src/Meta/Create.antt =====
-- `meta_generic_validation_create` of meta/Meta.cpp.
pub mod Laws
pub mod Conditions
use sonic_otairedis.Common.{
  ℕ, Bool, true, false, not, ◌&&◌, ◌||◌, List, [], ◌∷◌, Option, none, some, Result, ok, throws, ltb,
  ◌==◌, if◌then◌else◌,
}
use sonic_otairedis.Common.Int.{eqb_ℤ}
use sonic_otairedis.Otai.{
  ObjectTypes, Status, success, failure, invalid_parameter, mandatory_attribute_missing,
}
use sonic_otairedis.Metadata.{
  ValueType, type_bool, ListOf, null_list, items, count_of, Value, Attribute, Condition, AttrMeta,
  Metadata,
}
use sonic_otairedis.Meta.Checks.{max_list_count, accept, reject, ◌>>>◌, is_null, member}
use sonic_otairedis.Meta.Values.{value_check}

abbrev pub missing : Result Status
missing = ok mandatory_attribute_missing

abbrev pub attributes : ListOf Attribute → List Attribute
attributes (null_list n) = []
attributes (items l) = l

abbrev pub ids : List Attribute → List ℕ
ids [] = []
ids (a ∷ l) = a.id ∷ ids l

-- `otai_metadata_get_attr_by_id`: the first attribute with the id.
abbrev pub attr_by_id : ℕ → List Attribute → Option Attribute
attr_by_id id [] = none
attr_by_id id (a ∷ l) = if a.id == id then some a else attr_by_id id l

abbrev is_bool : ValueType → Bool
is_bool type_bool = true
is_bool _ = false

same_bool : Bool → Bool → Bool
same_bool true b = b
same_bool false b = not b

-- A condition holds of the value of its attribute: the one passed, or else the default one.
condition_value : Condition → AttrMeta → Value → Bool
unfolding same_bool
condition_value c cmd v =
    if is_bool cmd.attrvaluetype then same_bool c.booldata v.booldata else eqb_ℤ c.s32 v.s32

module _ ⦃t : ObjectTypes⦄ (meta : Metadata) where
  open t use {null_object_id, linecard}
  open meta use {get_attr_metadata, attributes_metadata, query_object_type}

  -- Creating a linecard: no attribute may be an object id.
  pub linecard_attributes : List Attribute → Result Status
  linecard_attributes [] = accept
  linecard_attributes (a ∷ rest) = elim (get_attr_metadata linecard a.id) [
    | none ↦ reject
    | some md ↦ if md.isoidattribute then reject else linecard_attributes rest
  ]

  -- Creating any other object: the linecard must be one.
  pub linecard_of_object : ℕ → Result Status
  linecard_of_object linecard_id =
      if linecard_id == null_object_id
      then reject
      else if query_object_type linecard_id == linecard
      then accept
      else reject

  -- The loop over the attributes; `attrs` holds the ids that were seen.
  pub create_attributes : ℕ → ℕ → List ℕ → List Attribute → Result Status
  create_attributes object_type linecard_id attrs [] = accept
  create_attributes object_type linecard_id attrs (a ∷ rest) =
      elim (get_attr_metadata object_type a.id) [
        | none ↦ ok failure
        | some md ↦
            if member a.id attrs
            then reject
            else if md.read_only
            then reject
            else value_check meta md linecard_id accept a.value
              >>> create_attributes object_type linecard_id (a.id ∷ attrs) rest
      ]

  -- The loop over the attributes that are mandatory without a condition.
  pub mandatory_attributes : List ℕ → List AttrMeta → Result Status
  mandatory_attributes attrs [] = accept
  mandatory_attributes attrs (md ∷ rest) =
      if md.mandatory_on_create && not md.isconditional && not (member md.attrid attrs)
      then missing
      else mandatory_attributes attrs rest

  -- The loop over an attribute's conditions; there is a null pointer where the metadata name an
  -- attribute that the object does not have.
  pub any_condition : ℕ → List Attribute → List Condition → Result Bool
  unfolding condition_value
  any_condition object_type l [] = ok false
  any_condition object_type l (c ∷ rest) = elim (get_attr_metadata object_type c.attrid) [
    | none ↦ throws "null pointer: metadata of a condition"
    | some cmd ↦
        if condition_value c cmd
          (elim (attr_by_id c.attrid l) [ none ↦ cmd.defaultvalue | some a ↦ a.value ])
        then ok true
        else any_condition object_type l rest
  ]

  -- A conditional attribute: passed exactly where a condition holds.
  pub conditional_attribute : ℕ → List Attribute → AttrMeta → Result Status
  unfolding any_condition
  conditional_attribute object_type l md =
      if md.isconditional
      then (elim (any_condition object_type l md.conditions) [
        | throws message ↦ throws message
        | ok true ↦ if member md.attrid (ids l) then accept else missing
        | ok false ↦ if member md.attrid (ids l) then reject else accept
      ])
      else accept

  pub conditional_attributes : ℕ → List Attribute → List AttrMeta → Result Status
  unfolding conditional_attribute
  conditional_attributes object_type l [] = accept
  conditional_attributes object_type l (md ∷ rest) =
      conditional_attribute object_type l md >>> conditional_attributes object_type l rest

  pub metadata_checks : ℕ → List Attribute → List AttrMeta → Result Status
  unfolding mandatory_attributes conditional_attributes
  metadata_checks object_type l [] = ok failure
  metadata_checks object_type l (md ∷ mds) =
      mandatory_attributes (ids l) (md ∷ mds) >>> conditional_attributes object_type l (md ∷ mds)

  unfoldable pub validation_create : ℕ → ℕ → ListOf Attribute → Result Status
  unfolding linecard_attributes linecard_of_object create_attributes metadata_checks
  validation_create object_type linecard_id attr_list =
      let l = attributes attr_list in
      if ltb max_list_count (count_of attr_list)
      then reject
      else if ltb 0 (count_of attr_list) && is_null attr_list
      then reject
      else (if object_type == linecard
          then linecard_attributes l
          else linecard_of_object linecard_id)
        >>> create_attributes object_type
            (if object_type == linecard then null_object_id else linecard_id) [] l
        >>> metadata_checks object_type l (attributes_metadata object_type)
