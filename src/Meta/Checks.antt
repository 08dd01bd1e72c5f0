-- ===== src/Meta/Checks.antt =====
-- The checks that the validations of meta/Meta.cpp share.
use sonic_otairedis.Common.{
  ℕ, zero, suc, Bool, true, false, not, ◌&&◌, ◌||◌, List, [], ◌∷◌, Option, none, some, Result, ok,
  throws, ltb, leb, ◌==◌, if◌then◌else◌, length,
}
use sonic_otairedis.Common.Int.{ℤ}
use sonic_otairedis.Otai.{ObjectTypes, Status, success, invalid_parameter}
use sonic_otairedis.Metadata.{ListOf, null_list, items, count_of, AttrMeta, Metadata}

abbrev pub max_list_count : ℕ
max_list_count = 0x1000

abbrev pub accept : Result Status
accept = ok success

abbrev pub reject : Result Status
reject = ok invalid_parameter

-- `if (status != OTAI_STATUS_SUCCESS) return status;` and what follows it.
infixr 6 ◌>>>◌
abbrev pub ◌>>>◌ : Result Status → Result Status → Result Status
ok success >>> next = next
ok status >>> next = ok status
throws message >>> next = throws message

abbrev pub is_null : {A : Type 0} → ListOf A → Bool
is_null (null_list n) = true
is_null (items xs) = false

abbrev pub member : ℕ → List ℕ → Bool
member a [] = false
member a (x ∷ xs) = x == a || member a xs

-- `meta_genetic_validation_list`
unfoldable pub validation_list : {A : Type 0} → ListOf A → Result Status
validation_list l =
    if ltb max_list_count (count_of l)
    then reject
    else if count_of l == 0 && not (is_null l)
    then reject
    else if is_null l
    then (if count_of l == 0 then accept else reject)
    else accept

-- `isenum`: the value must be one of the enumeration.
unfoldable pub enum_check : AttrMeta → ℤ → Result Status
enum_check md v =
    if md.isenum then (if md.is_allowed_enum_value v then accept else reject) else accept

-- The loop over an enumeration list, from an index on.
unfoldable pub allowed_from : AttrMeta → ℕ → List ℤ → Result Status
allowed_from md i [] = accept
allowed_from md zero (v ∷ vs) =
    if md.is_allowed_enum_value v then allowed_from md zero vs else reject
allowed_from md (suc i) (v ∷ vs) = allowed_from md i vs

-- `isenumlist`: the loop starts at the count.
unfoldable pub enum_list_check : AttrMeta → ListOf ℤ → Result Status
unfolding allowed_from
enum_list_check md l =
    if md.isenumlist
    then (elim l [
      | null_list n ↦ if n == 0 then accept else reject
      | items vs ↦ allowed_from md (length vs) vs
    ])
    else accept

module _ ⦃t : ObjectTypes⦄ (meta : Metadata) where
  open t use {null_object_id, null_type, extensions_max}
  open meta use {query_object_type}

  -- The object of a request has the type of the request.
  unfoldable pub object_type_check : ℕ → ℕ → Result Status
  object_type_check object_type oid =
      if query_object_type oid == null_object_id
      then reject
      else if query_object_type oid == object_type
      then accept
      else reject

  -- `meta_otai_validate_oid`; the pointer may be NULL, and the linecard is not looked at.
  unfoldable pub validate_oid : ℕ → Option ℕ → Bool → Result Status
  validate_oid object_type object_id bcreate =
      if leb object_type null_type || leb extensions_max object_type
      then reject
      else elim object_id [
        | none ↦ reject
        | some oid ↦
            if bcreate
            then accept
            else if oid == null_object_id
            then reject
            else if query_object_type oid == null_type
            then reject
            else if query_object_type oid == object_type
            then accept
            else reject
      ]

  -- `meta_generic_validation_remove`
  unfoldable pub validation_remove : ℕ → ℕ → Result Status
  unfolding object_type_check
  validation_remove object_type oid =
      if oid == null_object_id then reject else object_type_check object_type oid
