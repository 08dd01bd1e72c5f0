-- ===== src/Meta/Calls.antt =====
-- The methods of `Meta` of meta/Meta.cpp: each checks its request and passes it on.
pub mod Admission
pub mod Gate
use sonic_otairedis.Common.{
  ℕ, Bool, true, false, not, List, [], ◌∷◌, Option, none, some, Result, ok, throws, Method, ◌==◌,
  if◌then◌else◌,
}
use sonic_otairedis.Otai.{ObjectTypes, Status, success, invalid_parameter}
use sonic_otairedis.Metadata.{ListOf, null_list, items, count_of, Attribute, Metadata}
use sonic_otairedis.Meta.Checks.{accept, reject, ◌>>>◌, validate_oid, validation_remove}
use sonic_otairedis.Meta.Create.{attributes, validation_create}
use sonic_otairedis.Meta.SetGet.{validation_set, validation_get}

-- `m_implementation`, an `OtaiInterface` with the state S: each call returns a status, with what it
-- writes to the caller's variables, or throws.
pub record Implementation (S : Type 0) : Type 0 where
  pub create_object : ℕ → ℕ → List Attribute → Method S (Status × Option ℕ)
  pub remove_object : ℕ → ℕ → Method S Status
  pub set_attribute : ℕ → ℕ → Attribute → Method S Status
  pub get_attributes : ℕ → ℕ → List Attribute → Method S (Status × ListOf Attribute)
  pub get_counters : ℕ → ℕ → List ℕ → ℕ → Method S (Status × List ℕ)

-- A request that fails its checks returns their status, and the implementation is not called.
abbrev pub checked {ℓ} :
    {S : Type 0} {A : Type ℓ} → Result Status → (Status → A) → Method S A → Method S A
checked (ok success) refused call s = call s
checked (ok status) refused call s = (ok (refused status), s)
checked (throws message) refused call s = (throws message, s)

-- The statistics of an object type: the test for its counter ids, if it has counters, and the test
-- for `otai_stats_mode_t`.
pub record Statistics : Type 0 where
  pub stat_enum : ℕ → Option (ℕ → Bool)
  pub is_stats_mode : ℕ → Bool

pub counter_ids_check : (ℕ → Bool) → List ℕ → Result Status
counter_ids_check known [] = accept
counter_ids_check known (c ∷ rest) = if known c then counter_ids_check known rest else reject

module _ ⦃t : ObjectTypes⦄ (meta : Metadata) where
  open t use {is_object_type_valid}
  open meta use {query_object_type}

  -- `meta_validate_stats`; the counters' buffer is given.
  unfoldable pub validate_stats : Statistics → ℕ → ℕ → ListOf ℕ → ℕ → Result Status
  unfolding counter_ids_check
  validate_stats st object_type oid counter_ids mode =
      if not (is_object_type_valid object_type)
      then reject
      else if not (query_object_type oid == object_type)
      then reject
      else if count_of counter_ids == 0
      then reject
      else elim counter_ids [
        | null_list n ↦ reject
        | items cs ↦
            validate_oid meta object_type (some oid) false >>> (elim (st.stat_enum object_type) [
              | none ↦ reject
              | some known ↦
                  counter_ids_check known cs >>> (if st.is_stats_mode mode then accept else reject)
            ])
      ]

  module _ {S : Type 0} (impl : Implementation S) where
    pub remove : ℕ → ℕ → Method S Status
    remove object_type oid =
        checked
          (validate_oid meta object_type (some oid) false
            >>> validation_remove meta object_type oid)
          (λ status. status) (impl.remove_object object_type oid)

    -- `object_id` is the pointer to the caller's variable. The checks of the created id, after the
    -- call, only log.
    pub create : ℕ → Option ℕ → ℕ → ListOf Attribute → Method S (Status × Option ℕ)
    create object_type object_id linecard_id attr_list =
        checked
          (validate_oid meta object_type object_id true
            >>> validation_create meta object_type linecard_id attr_list)
          (λ status. (status, object_id))
          (impl.create_object object_type linecard_id (attributes attr_list))

    pub set : ℕ → ℕ → Option Attribute → Method S Status
    set object_type oid none =
        checked (validate_oid meta object_type (some oid) false >>> reject) (λ status. status)
          (λ s. (reject, s))
    set object_type oid (some a) =
        checked
          (validate_oid meta object_type (some oid) false
            >>> validation_set meta object_type oid (some a))
          (λ status. status) (impl.set_attribute object_type oid a)

    -- The checks clear what they clear in the list, whatever their status. The checks of the answer,
    -- after the call, only log, if the implementation keeps the ids of the attributes.
    pub get : ℕ → ℕ → ListOf Attribute → Method S (Status × ListOf Attribute)
    get object_type oid attr_list =
        checked (validate_oid meta object_type (some oid) false) (λ status. (status, attr_list))
          (checked (validation_get meta object_type oid attr_list).0
            (λ status. (status, (validation_get meta object_type oid attr_list).1))
            (impl.get_attributes object_type oid
              (attributes (validation_get meta object_type oid attr_list).1)))

    unfoldable pub get_stats_ext : Statistics → ℕ → ℕ → ListOf ℕ → ℕ → Method S (Status × List ℕ)
    get_stats_ext st object_type oid (null_list n) mode =
        checked (validate_stats st object_type oid (null_list n) mode) (λ status. (status, []))
          (impl.get_counters object_type oid [] mode)
    get_stats_ext st object_type oid (items cs) mode =
        checked (validate_stats st object_type oid (items cs) mode) (λ status. (status, []))
          (impl.get_counters object_type oid cs mode)
