-- ===== src/Collector/Copies/Faithful.antt =====
-- When a copy and what it was made of do not differ.
use sonic_otairedis.Common.{
  ◌≤◌, ◌<◌, ◌≡◌, refl, arith, Bool, true, false, List, [], ◌∷◌, ok, length, leb, ◌==◌, ==_refl,
}
use sonic_otairedis.Common.Int.{ℤ, pos, negsuc, eqb_ℤ}
use sonic_otairedis.Otai.{success}
use sonic_otairedis.Metadata.{ValueType, ListOf, null_list, items, Value, Attribute}
use sonic_otairedis.Collector.Copies.{
  Buffer, Saved, Member, plain_member, object_member, number_member, unknown_member, member_of,
  overwrite, transfer_list, differ_elements, compare_list, transfer_attribute, transfer_attributes,
  compare_member, compare_attribute,
}

-- The list has no more elements than the one that was saved before, which was not empty.
abbrev pub FitsList : {A : Type 0} → ListOf A → Buffer A → Type 0
FitsList (null_list n) saved = ⊥
FitsList (items xs) saved = (0 < saved.count) × (length xs ≤ saved.count)

abbrev pub FitsMember : Member → Value → Saved → Type 0
FitsMember plain_member v saved = Unit
FitsMember object_member v saved = FitsList v.objlist saved.objects
FitsMember number_member v saved = FitsList v.numbers saved.numbers
FitsMember unknown_member v saved = ⊥

-- A reading that can be copied whole.
abbrev pub Fits : ValueType → Attribute → Saved → Type 0
Fits ty a saved = (a.id ≡ saved.id) × FitsMember (member_of ty) a.value saved

module _ {A : Type 0} (same : A → A → Bool) (same_refl : (x : A) → same x x ≡ true) where
  differ_self : (xs : List A) → differ_elements same xs xs ≡ false
  differ_self [] = refl
  differ_self (x ∷ xs) = rw (same_refl x) (differ_self xs)

  differ_overwrite : (xs cells : List A) → differ_elements same (overwrite xs cells) xs ≡ false
  differ_overwrite [] cells = refl
  differ_overwrite (x ∷ xs) [] = rw (same_refl x) (differ_self xs)
  differ_overwrite (x ∷ xs) (c ∷ cells) = rw (same_refl x) (differ_overwrite xs cells)

  transfer_list-same :
      (src : ListOf A) (saved : Buffer A)
      → FitsList src saved
      → (saved' : Buffer A) × (transfer_list src saved ≡ ok (success, saved'))
        × (compare_list same saved' src ≡ false)
  unfolding transfer_list compare_list
  transfer_list-same (null_list n) saved fits = absurd fits
  transfer_list-same (items xs) saved fits =
      let some_room : (saved.count == 0) ≡ false = ground arith in
      let enough : leb (length xs) saved.count ≡ true = ground arith in
      (
        record { count = length xs; cells = overwrite xs saved.cells },
        (rw (some_room, enough) refl),
        (rw (==_refl (length xs)) (differ_overwrite xs saved.cells)),
      )

eqb_ℤ_refl : (a : ℤ) → eqb_ℤ a a ≡ true
eqb_ℤ_refl (pos m) = ground arith
eqb_ℤ_refl (negsuc m) = ground arith

module _ (differ : ValueType → Value → Value → Bool)
    (differ_refl : (ty : ValueType) (v : Value) → differ ty v v ≡ false) where
  transfer_attribute-same :
      (ty : ValueType) (m : Member) (v : Value) (saved : Saved)
      → FitsMember m v saved
      → (saved' : Saved) × (transfer_attribute m v saved ≡ ok (success, saved'))
        × (saved'.id ≡ saved.id)
        × (compare_member differ ty m saved' v ≡ false)
  transfer_attribute-same ty plain_member v saved fits =
      (record saved { value = v }, refl, refl, differ_refl ty v)
  transfer_attribute-same ty object_member v saved fits =
      let copied = transfer_list-same ◌==◌ ==_refl v.objlist saved.objects fits in
      (record saved { objects = copied.0 }, (rw (copied.1) refl), refl, copied.2)
  transfer_attribute-same ty number_member v saved fits =
      let copied = transfer_list-same eqb_ℤ eqb_ℤ_refl v.numbers saved.numbers fits in
      (record saved { numbers = copied.0 }, (rw (copied.1) refl), refl, copied.2)
  transfer_attribute-same ty unknown_member v saved fits = absurd fits

  -- A reading that fits and its copy do not differ.
  pub transfer-same :
      (ty : ValueType) (a : Attribute) (saved : Saved)
      → Fits ty a saved
      → (saved' : Saved) × (transfer_attributes ty a saved ≡ ok (success, saved'))
        × (compare_attribute differ ty saved' a ≡ ok false)
  unfolding transfer_attributes compare_attribute
  transfer-same ty a saved fits =
      let copied = transfer_attribute-same ty (member_of ty) a.value saved fits.1 in
      let ids_same : (a.id == saved.id) ≡ true = let e = fits.0 in ground arith in
      let back : (copied.0.id == a.id) ≡ true =
        let e = fits.0 in let e' = copied.2 in ground arith in
      (copied.0, (rw (ids_same, copied.1) refl), (rw (back, copied.3) refl))

  -- The comparison with a reading that fits does not throw.
  pub compare-Fits :
      (ty : ValueType) (a : Attribute) (saved : Saved)
      → Fits ty a saved
      → compare_attribute differ ty saved a
        ≡ ok (compare_member differ ty (member_of ty) saved a.value)
  unfolding compare_attribute
  compare-Fits ty a saved fits =
      let ids_same : (saved.id == a.id) ≡ true = let e = fits.0 in ground arith in rw ids_same refl
