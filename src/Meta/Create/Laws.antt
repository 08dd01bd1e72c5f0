-- ===== src/Meta/Create/Laws.antt =====
-- What an accepted request to create an object has.
use sonic_otairedis.Common.{
  ℕ, ◌≤◌, ◌≡◌, ◌≢◌, ◌⊎◌, inl, inr, refl, true, false, arith, List, [], ◌∷◌, some, Result, ok,
  throws, Option-cases, length,
}
use sonic_otairedis.Common.Int.{ℤ}
use sonic_otairedis.Otai.{ObjectTypes, Status, success}
use sonic_otairedis.Metadata.{items, Attribute, AttrMeta, Metadata}
use sonic_otairedis.Meta.Checks.{
  max_list_count, accept, ◌>>>◌, member, allowed_from, enum_list_check,
}
use sonic_otairedis.Meta.Values.{value_check}
use sonic_otairedis.Meta.Create.Conditions.{
  Missing, AnyHolds, member-Missing, any_condition-AnyHolds,
}
use sonic_otairedis.Meta.Create.{
  ids, linecard_of_object, create_attributes, any_condition, mandatory_attributes,
  conditional_attribute, conditional_attributes, metadata_checks, validation_create,
}

-- A chain of checks is accepted exactly when each of them is.
pub >>>-accept : (a b : Result Status) → (a >>> b) ≡ accept → (a ≡ accept) × (b ≡ accept)
>>>-accept (ok success) b h = (refl, h)
>>>-accept (ok _) b h = cc
>>>-accept (throws message) b h = cc

allowed_from_end : (md : AttrMeta) (vs : List ℤ) → allowed_from md (length vs) vs ≡ accept
unfolding allowed_from
allowed_from_end md [] = refl
allowed_from_end md (v ∷ vs) = allowed_from_end md vs

-- The loop over an enumeration list starts where it ends: a list that is not NULL is accepted
-- whatever values it holds, allowed ones or not.
pub enum_list_unchecked : (md : AttrMeta) (vs : List ℤ) → enum_list_check md (items vs) ≡ accept
unfolding enum_list_check
enum_list_unchecked md vs = ground (arith, allowed_from_end md vs)

module _ ⦃t : ObjectTypes⦄ (meta : Metadata) where
  open t use {null_object_id, linecard}
  open meta use {get_attr_metadata, attributes_metadata, query_object_type}

  -- An attribute of the list, after those whose ids are in `seen`.
  abbrev pub Created : ℕ → ℕ → List ℕ → List Attribute → Type 0
  Created object_type lc seen [] = Unit {0}
  Created object_type lc seen (a ∷ rest) =
      ((md : AttrMeta) × (get_attr_metadata object_type a.id ≡ some md)
        × (md.read_only ≡ false)
        × (member a.id seen ≡ false)
        × (value_check meta md lc accept a.value ≡ accept))
      × Created object_type lc (a.id ∷ seen) rest

  create_attributes-Created :
      (object_type lc : ℕ) (seen : List ℕ) (l : List Attribute)
      → create_attributes meta object_type lc seen l ≡ accept
      → Created object_type lc seen l
  unfolding create_attributes
  create_attributes-Created object_type lc seen [] h = tt
  create_attributes-Created object_type lc seen (a ∷ rest) h =
      elim (Option-cases (get_attr_metadata object_type a.id)) [
        | inl e ↦ cc (rw (e, create_attributes) at h)
        | inr (md, e) ↦
            let run = rw (e, create_attributes) at h in
            let both =
              >>>-accept (value_check meta md lc accept a.value)
                (create_attributes meta object_type lc (a.id ∷ seen) rest) (ground arith) in
            (
              (md, e, ground arith, ground arith, both.0),
              create_attributes-Created object_type lc (a.id ∷ seen) rest both.1,
            )
      ]

  -- Each mandatory attribute without a condition was passed.
  abbrev pub Complete : List ℕ → List AttrMeta → Type 0
  Complete passed [] = Unit {0}
  Complete passed (md ∷ mds) =
      (md.mandatory_on_create ≡ true → md.isconditional ≡ false → member md.attrid passed ≡ true)
      × Complete passed mds

  mandatory_attributes-Complete :
      (passed : List ℕ) (mds : List AttrMeta)
      → mandatory_attributes meta passed mds ≡ accept
      → Complete passed mds
  unfolding mandatory_attributes
  mandatory_attributes-Complete passed [] h = tt
  mandatory_attributes-Complete passed (md ∷ mds) h =
      ((λ p q. ground arith), mandatory_attributes-Complete passed mds (ground arith))

  -- Each conditional attribute was passed, and one of its conditions holds, or it was not, and none
  -- does.
  abbrev pub PassedIfHolds : ℕ → List Attribute → AttrMeta → Type 0
  PassedIfHolds object_type l md =
      (¬ Missing md.attrid l × AnyHolds meta object_type l md.conditions)
      ⊎ (Missing md.attrid l × ¬ AnyHolds meta object_type l md.conditions)

  abbrev pub Conditional : ℕ → List Attribute → List AttrMeta → Type 0
  Conditional object_type l [] = Unit {0}
  Conditional object_type l (md ∷ mds) =
      (md.isconditional ≡ true → PassedIfHolds object_type l md) × Conditional object_type l mds

  conditional_attribute-found :
      (object_type : ℕ) (l : List Attribute) (md : AttrMeta)
      → conditional_attribute meta object_type l md ≡ accept
      → md.isconditional ≡ true
      → any_condition meta object_type l md.conditions ≡ ok (member md.attrid (ids l))
  unfolding conditional_attribute
  conditional_attribute-found object_type l md h c = ground arith

  conditional_attribute-accept :
      (object_type : ℕ) (l : List Attribute) (md : AttrMeta)
      → conditional_attribute meta object_type l md ≡ accept
      → md.isconditional ≡ true
      → PassedIfHolds object_type l md
  conditional_attribute-accept object_type l md h c =
      elim (any_condition-AnyHolds meta object_type l md.conditions (member md.attrid (ids l))
        (conditional_attribute-found object_type l md h c)) [
          | inl (passed, holds) ↦ elim (member-Missing md.attrid l) [
            | inl (_, there) ↦ inl (there, holds)
            | inr (absent, _) ↦ absurd cc
          ]
          | inr (absent, none_holds) ↦ elim (member-Missing md.attrid l) [
            | inl (passed, _) ↦ absurd cc
            | inr (_, missing) ↦ inr (missing, none_holds)
          ]
        ]

  conditional_attributes-Conditional :
      (object_type : ℕ) (l : List Attribute) (mds : List AttrMeta)
      → conditional_attributes meta object_type l mds ≡ accept
      → Conditional object_type l mds
  unfolding conditional_attributes
  conditional_attributes-Conditional object_type l [] h = tt
  conditional_attributes-Conditional object_type l (md ∷ mds) h =
      let both =
        >>>-accept (conditional_attribute meta object_type l md)
          (conditional_attributes meta object_type l mds) h in
      (
        conditional_attribute-accept object_type l md both.0,
        conditional_attributes-Conditional object_type l mds both.1,
      )

  -- Everything that holds of a request for an object that is no linecard, once it is accepted.
  pub record Accepted (object_type lc : ℕ) (l : List Attribute) : Type 0 where
    pub not_too_many : length l ≤ max_list_count
    pub has_linecard : lc ≢ null_object_id
    pub of_linecard : query_object_type lc ≡ linecard
    pub attributes : Created object_type lc [] l
    pub has_metadata : attributes_metadata object_type ≢ []
    pub complete : Complete (ids l) (attributes_metadata object_type)
    pub conditional : Conditional object_type l (attributes_metadata object_type)

  metadata_checks-accept :
      (object_type : ℕ) (l : List Attribute) (mds : List AttrMeta)
      → metadata_checks meta object_type l mds ≡ accept
      → (mds ≢ []) × Complete (ids l) mds × Conditional object_type l mds
  unfolding metadata_checks
  metadata_checks-accept object_type l [] h = cc
  metadata_checks-accept object_type l (md ∷ mds) h =
      let both =
        >>>-accept (mandatory_attributes meta (ids l) (md ∷ mds))
          (conditional_attributes meta object_type l (md ∷ mds)) h in
      (
        (λ e. cc),
        mandatory_attributes-Complete (ids l) (md ∷ mds) both.0,
        conditional_attributes-Conditional object_type l (md ∷ mds) both.1,
      )

  linecard_of_object-accept :
      (lc : ℕ)
      → linecard_of_object meta lc ≡ accept
      → (lc ≢ null_object_id) × (query_object_type lc ≡ linecard)
  unfolding linecard_of_object
  linecard_of_object-accept lc h = ground arith

  -- A request for an object of another type than linecard that is accepted has at most 4096
  -- attributes and a linecard that is one; each attribute is known, not read-only, passed once,
  -- and has a value that passes its check; each mandatory attribute without a condition was
  -- passed; and of each conditional attribute either it was passed and one of its conditions holds,
  -- or it was not passed and none holds. A condition holds where the value that was passed for its
  -- attribute, or else the default value, is the truth value or the number that it wants.
  pub validation_create-Accepted :
      (object_type lc : ℕ) (l : List Attribute)
      → object_type ≢ linecard
      → validation_create meta object_type lc (items l) ≡ accept
      → Accepted object_type lc l
  unfolding validation_create
  validation_create-Accepted object_type lc l other h =
      let inner : (linecard_of_object meta lc
            >>> create_attributes meta object_type lc [] l
            >>> metadata_checks meta object_type l (attributes_metadata object_type))
          ≡ accept =
        ground arith in
      let first = >>>-accept (linecard_of_object meta lc) _ inner in
      let second = >>>-accept (create_attributes meta object_type lc [] l) _ first.1 in
      let card = linecard_of_object-accept lc first.0 in
      let whole = metadata_checks-accept object_type l (attributes_metadata object_type) second.1 in
      record {
        not_too_many = ground arith;
        has_linecard = card.0;
        of_linecard = card.1;
        attributes = create_attributes-Created object_type lc [] l second.0;
        has_metadata = whole.0;
        complete = whole.1;
        conditional = whole.2;
      }
