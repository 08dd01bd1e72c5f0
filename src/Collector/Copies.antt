-- ===== src/Collector/Copies.antt =====
-- `transfer_list`, `transfer_attribute`, `transfer_attributes`, `compare_list` and
-- `compare_attribute` of meta/OtaiSerialize.cpp, as the collector of attributes calls them: on one
-- attribute whose metadata are known, from a reading to a saved value. The buffer of a saved list is
-- longer than its count says, and is never NULL. How two members that are no lists compare is an
-- argument, since it goes by their bytes.
pub mod Faithful
use sonic_otairedis.Common.{
  ℕ, Bool, true, false, not, List, [], ◌∷◌, Result, ok, throws, length, ltb, leb, ◌==◌,
  if◌then◌else◌,
}
use sonic_otairedis.Common.Int.{ℤ, eqb_ℤ}
use sonic_otairedis.Otai.{Status, success, buffer_overflow, not_implemented}
use sonic_otairedis.Metadata.{
  ValueType, type_object_list, type_uint8_list, type_int8_list, type_uint16_list, type_int16_list,
  type_uint32_list, type_int32_list, type_other, ListOf, null_list, items, count_of, Value,
  Attribute,
}

pub record Buffer (A : Type 0) : Type 0 where
  pub count : ℕ
  pub cells : List A

-- An attribute that was saved: its lists stand in buffers of their own.
pub record Saved : Type 0 where
  pub id : ℕ
  pub value : Value
  pub objects : Buffer ℕ
  pub numbers : Buffer ℤ

-- The member that an attribute's type is about.
pub data Member : Type 0 where
  plain_member object_member number_member unknown_member : Member

abbrev pub member_of : ValueType → Member
member_of type_object_list = object_member
member_of type_uint8_list = number_member
member_of type_int8_list = number_member
member_of type_uint16_list = number_member
member_of type_int16_list = number_member
member_of type_uint32_list = number_member
member_of type_int32_list = number_member
member_of type_other = unknown_member
member_of _ = plain_member

module _ {A : Type 0} where
  abbrev pub overwrite : List A → List A → List A
  overwrite [] cells = cells
  overwrite (x ∷ xs) [] = x ∷ xs
  overwrite (x ∷ xs) (c ∷ cells) = x ∷ overwrite xs cells

  -- The elements, where the reading has room.
  abbrev pub transfer_elements : ListOf A → Buffer A → Result (Status × Buffer A)
  transfer_elements (null_list n) dst =
      if ltb 0 n then throws "source list is NULL" else ok (success, record dst { count = n })
  transfer_elements (items xs) dst =
      ok (success, record { count = length xs; cells = overwrite xs dst.cells })

  unfoldable pub transfer_list : ListOf A → Buffer A → Result (Status × Buffer A)
  transfer_list src dst =
      if dst.count == 0
      then ok (success, record dst { count = count_of src })
      else if leb (count_of src) dst.count
      then transfer_elements src dst
      else ok (buffer_overflow, record dst { count = count_of src })

  module _ (same : A → A → Bool) where
    -- The loop over the elements of a reading.
    abbrev pub differ_elements : List A → List A → Bool
    differ_elements cells [] = false
    differ_elements [] (x ∷ xs) = true
    differ_elements (c ∷ cells) (x ∷ xs) = if same c x then differ_elements cells xs else true

    unfoldable pub compare_list : Buffer A → ListOf A → Bool
    compare_list saved (null_list n) = if saved.count == n then not (n == 0) else true
    compare_list saved (items xs) =
        if saved.count == length xs then differ_elements saved.cells xs else true

-- What a list that was transferred makes of the saved attribute.
abbrev pub put_objects : Saved → Result (Status × Buffer ℕ) → Result (Status × Saved)
put_objects saved (throws message) = throws message
put_objects saved (ok (status, buffer)) = ok (status, record saved { objects = buffer })

abbrev pub put_numbers : Saved → Result (Status × Buffer ℤ) → Result (Status × Saved)
put_numbers saved (throws message) = throws message
put_numbers saved (ok (status, buffer)) = ok (status, record saved { numbers = buffer })

abbrev pub transfer_attribute : Member → Value → Saved → Result (Status × Saved)
transfer_attribute plain_member v saved = ok (success, record saved { value = v })
transfer_attribute object_member v saved = put_objects saved (transfer_list v.objlist saved.objects)
transfer_attribute number_member v saved = put_numbers saved (transfer_list v.numbers saved.numbers)
transfer_attribute unknown_member v saved = ok (not_implemented, saved)

unfoldable pub transfer_attributes : ValueType → Attribute → Saved → Result (Status × Saved)
transfer_attributes ty a saved =
    if a.id == saved.id
    then transfer_attribute (member_of ty) a.value saved
    else throws "attr id don't match GET mismatch"

module _ (differ : ValueType → Value → Value → Bool) where
  abbrev pub compare_member : ValueType → Member → Saved → Value → Bool
  compare_member ty plain_member saved v = differ ty saved.value v
  compare_member ty object_member saved v = compare_list ◌==◌ saved.objects v.objlist
  compare_member ty number_member saved v = compare_list eqb_ℤ saved.numbers v.numbers
  compare_member ty unknown_member saved v = true

  -- Whether the result is another than 0.
  unfoldable pub compare_attribute : ValueType → Saved → Attribute → Result Bool
  compare_attribute ty saved a =
      if saved.id == a.id
      then ok (compare_member ty (member_of ty) saved a.value)
      else throws "attr-id don't match"
