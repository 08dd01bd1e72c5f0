-- ===== src/Meta/Calls/Admission.antt =====
-- What the validations of meta/Meta.cpp let through: requests to remove, to set and to read.
use sonic_otairedis.Common.{
  ℕ, ◌<◌, ◌≡◌, ◌≢◌, inl, inr, refl, false, arith, List, [], ◌∷◌, some, Option-cases,
}
use sonic_otairedis.Otai.{ObjectTypes, IsOtai}
use sonic_otairedis.Metadata.{items, Attribute, AttrMeta, Metadata}
use sonic_otairedis.Meta.Checks.{
  accept, reject, ◌>>>◌, object_type_check, validate_oid, validation_remove,
}
use sonic_otairedis.Meta.Values.{value_check, printable}
use sonic_otairedis.Meta.Create.{ids, attributes}
use sonic_otairedis.Meta.Create.Laws.{>>>-accept}
use sonic_otairedis.Meta.SetGet.{
  get_attributes, get_value_check, validation_get, validation_set, clear_enum,
}

-- A request to remove an object names one, of a type that has objects.
abbrev pub Removable : ObjectTypes → Metadata → ℕ → ℕ → Type 0
Removable t meta object_type oid =
    (t.null_type < object_type)
    × (object_type < t.extensions_max)
    × (oid ≢ t.null_object_id)
    × (meta.query_object_type oid ≡ object_type)

module _ ⦃t : ObjectTypes⦄ (meta : Metadata) where
  -- An attribute that may be set on an object of the type.
  abbrev pub Settable : ℕ → ℕ → Attribute → Type 0
  Settable object_type oid a =
      (md : AttrMeta) × (meta.get_attr_metadata object_type a.id ≡ some md)
      × (md.read_only ≡ false)
      × (md.create_only ≡ false)
      × (md.is_key ≡ false)
      × (value_check meta md (meta.query_linecard_id oid) (printable a.value.chardata) a.value
          ≡ accept)
      × (meta.query_object_type oid ≡ object_type)

  -- Attributes that may be read of an object of the type.
  abbrev pub Readable : ℕ → List Attribute → Type 0
  Readable object_type [] = Unit {0}
  Readable object_type (a ∷ l) =
      ((md : AttrMeta) × (meta.get_attr_metadata object_type a.id ≡ some md)
        × (md.set_only ≡ false)
        × (get_value_check md.attrvaluetype a.value ≡ accept))
      × Readable object_type l

  pub remove_checks-accept :
      (o : IsOtai t) (object_type oid : ℕ)
      → Removable t meta object_type oid
      → (validate_oid meta object_type (some oid) false >>> validation_remove meta object_type oid)
        ≡ accept
  unfolding validate_oid validation_remove object_type_check
  remove_checks-accept o object_type oid (pos, below, named, typed) =
      let zero_id = o.null_object_id_zero in let zero_type = o.null_type_zero in ground arith

  pub remove_checks-reject :
      (object_type oid : ℕ)
      → ¬ Removable t meta object_type oid
      → (validate_oid meta object_type (some oid) false >>> validation_remove meta object_type oid)
        ≡ reject
  unfolding validate_oid validation_remove object_type_check
  remove_checks-reject object_type oid not = ground arith

  pub validation_set-Settable :
      (object_type oid : ℕ) (a : Attribute)
      → validation_set meta object_type oid (some a) ≡ accept
      → Settable object_type oid a
  unfolding validation_set object_type_check
  validation_set-Settable object_type oid a h =
      elim (Option-cases (meta.get_attr_metadata object_type a.id)) [
        | inl e ↦ cc (rw (e, validation_set) at h)
        | inr (md, e) ↦
            let run = rw (e, validation_set) at h in
            let both =
              >>>-accept
                (value_check meta md (meta.query_linecard_id oid) (printable a.value.chardata)
                  a.value)
                (object_type_check meta object_type oid) (ground arith) in
            (md, e, ground arith, ground arith, ground arith, both.0, ground arith)
      ]

  -- The loop of a read keeps the ids.
  get_attributes-ids :
      (object_type : ℕ) (l : List Attribute) → ids (get_attributes meta object_type l).1 ≡ ids l
  unfolding get_attributes clear_enum
  get_attributes-ids object_type [] = refl
  get_attributes-ids object_type (a ∷ l) = let ih = get_attributes-ids object_type l in ground arith

  get_attributes-Readable :
      (object_type : ℕ) (l : List Attribute)
      → (get_attributes meta object_type l).0 ≡ accept
      → Readable object_type l
  unfolding get_attributes
  get_attributes-Readable object_type [] h = tt
  get_attributes-Readable object_type (a ∷ l) h =
      elim (Option-cases (meta.get_attr_metadata object_type a.id)) [
        | inl e ↦ cc (rw (e, get_attributes) at h)
        | inr (md, e) ↦
            let run = rw (e, get_attributes) at h in
            (
              (md, e, ground arith, ground arith),
              get_attributes-Readable object_type l (ground arith),
            )
      ]

  pub validation_get-accept :
      (object_type oid : ℕ) (l : List Attribute)
      → (validation_get meta object_type oid (items l)).0 ≡ accept
      → Readable object_type l
  unfolding validation_get
  validation_get-accept object_type oid l h =
      let inner : ((get_attributes meta object_type l).0 >>> object_type_check meta object_type oid)
          ≡ accept =
        ground arith in
      get_attributes-Readable object_type l
        (>>>-accept (get_attributes meta object_type l).0 (object_type_check meta object_type oid)
          inner).0

  pub validation_get-ids :
      (object_type oid : ℕ) (l : List Attribute)
      → ids (attributes (validation_get meta object_type oid (items l)).1) ≡ ids l
  unfolding validation_get
  validation_get-ids object_type oid l = let kept = get_attributes-ids object_type l in ground arith
