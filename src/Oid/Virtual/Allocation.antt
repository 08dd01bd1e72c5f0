-- ===== src/Oid/Virtual/Allocation.antt =====
-- Allocation of virtual object ids: what a success says, and that no two of them are the same.
use sonic_otairedis.Common.{
  ℕ, ◌^◌, ◌≤◌, ◌<◌, ◌≡◌, ◌≢◌, inl, inr, sym, ap, ◌∙◌, Bool, arith, ◌&&◌, not, ltb, ◌==◌, Bool-cases,
  ok, throws, leb, if◌then◌else◌,
}
use sonic_otairedis.Otai.{ObjectTypes, IsOtai}
use sonic_otairedis.Oid.Virtual.{
  object_index_max, type_bits, linecard_bits, index_bits, construct_object_id,
  otai_object_type_query, allocate_new_object_id,
}
use sonic_otairedis.Oid.Virtual.Fields.{fields-construct_object_id, linecard_bits_lem}

module _ ⦃t : ObjectTypes⦄ (o : IsOtai t) {S : Type 0} (increment : S → ℕ × S) where
  open t use {null_type, linecard, extensions_max}

  -- The requests that reach the index generator.
  pub record Accepts (object_type linecard_id : ℕ) : Type 0 where
    pub not_null : null_type < object_type
    pub in_range : object_type < extensions_max
    pub not_linecard : object_type ≢ linecard
    pub of_linecard : otai_object_type_query linecard_id ≡ linecard

  admits : ℕ → ℕ → Bool
  admits ty lc =
      ltb null_type ty
      && ltb ty extensions_max
      && not (ty == linecard)
      && (otai_object_type_query lc == linecard)

  pub record Allocated (object_type linecard_id : ℕ) (s : S) (oid : ℕ) (s' : S) : Type 0 where
    pub accepted : Accepts object_type linecard_id
    pub within : (increment s).0 ≤ object_index_max
    pub built : oid ≡ construct_object_id object_type (linecard_bits linecard_id) (increment s).0
    pub state : s' ≡ (increment s).1

  allocate-Allocated :
      (ty lc : ℕ) (s : S) (oid : ℕ) (s' : S)
      → allocate_new_object_id increment ty lc s ≡ (ok oid, s')
      → Allocated ty lc s oid s'
  unfolding allocate_new_object_id
  allocate-Allocated ty lc s oid s' h = ground arith

  -- A request that is not acceptable, by its object type or its linecard, returns no id and
  -- leaves the index generator alone.
  pub allocate-refused :
      (ty lc : ℕ) (s : S)
      → ¬ Accepts ty lc
      → ((allocate_new_object_id increment ty lc s).1 ≡ s)
        × ((oid : ℕ) → (allocate_new_object_id increment ty lc s).0 ≢ ok oid)
  unfolding allocate_new_object_id admits
  allocate-refused ty lc s refused = elim (Bool-cases (admits ty lc)) [
    | inl fine ↦ absurd (
        refused (record {
          not_null = ground arith;
          in_range = ground arith;
          not_linecard = ground arith;
          of_linecard = ground arith;
        }))
    | inr bad ↦ (ground arith, λ oid. ground arith)
  ]

  -- A request for an object type in range that is not linecard, on an id of type linecard, takes
  -- one index from the generator; it returns the id built of the type, the linecard index and the
  -- new index where the index is at most 2 ^ 48 - 1, and throws where it is not.
  pub allocate-accepted :
      (ty lc : ℕ) (s : S)
      → Accepts ty lc
      → allocate_new_object_id increment ty lc s ≡ (
        (if leb (increment s).0 object_index_max
            then ok (construct_object_id ty (linecard_bits lc) (increment s).0)
            else throws "no more object indexes available"),
        (increment s).1,
      )
  unfolding allocate_new_object_id
  allocate-accepted ty lc s a = ground arith

  Allocated-fields :
      (ty lc : ℕ) (s : S) (oid : ℕ) (s' : S)
      → Allocated ty lc s oid s'
      → (type_bits oid ≡ ty)
        × (linecard_bits oid ≡ linecard_bits lc)
        × (index_bits oid ≡ (increment s).0)
        × (oid < 2 ^ 64)
  Allocated-fields ty lc s oid s' a = rw a.built (
      fields-construct_object_id ty (linecard_bits lc) (increment s).0
        (omega (arith, a.accepted.in_range, o.extensions_max_below))
        (omega (arith, linecard_bits_lem lc)) (omega (arith, a.within)))

  -- An allocation that returns an id was an acceptable request; the id has the type that was
  -- asked for, the linecard index of the linecard given and the index that the generator gave,
  -- and is a 64-bit number; the generator was asked once.
  pub allocate-fields :
      (ty lc : ℕ) (s : S) (oid : ℕ) (s' : S)
      → allocate_new_object_id increment ty lc s ≡ (ok oid, s')
      → Accepts ty lc
        × (type_bits oid ≡ ty)
        × (linecard_bits oid ≡ linecard_bits lc)
        × (index_bits oid ≡ (increment s).0)
        × (oid < 2 ^ 64)
        × (s' ≡ (increment s).1)
  allocate-fields ty lc s oid s' h =
      let a = allocate-Allocated ty lc s oid s' h in
      let f = Allocated-fields ty lc s oid s' a in (a.accepted, f.0, f.1, f.2, f.3, a.state)

  -- Two allocations that return ids, at states of the generator that give different numbers,
  -- return different ids, whatever the types and linecards.
  pub allocate-distinct :
      (ty lc : ℕ) (s : S) (oid : ℕ) (s' : S) (ty' lc' : ℕ) (r : S) (oid' : ℕ) (r' : S)
      → allocate_new_object_id increment ty lc s ≡ (ok oid, s')
      → allocate_new_object_id increment ty' lc' r ≡ (ok oid', r')
      → (increment s).0 ≢ (increment r).0
      → oid ≢ oid'
  allocate-distinct ty lc s oid s' ty' lc' r oid' r' h h' ne e =
      let f = Allocated-fields ty lc s oid s' (allocate-Allocated ty lc s oid s' h) in
      let f' = Allocated-fields ty' lc' r oid' r' (allocate-Allocated ty' lc' r oid' r' h') in
      ne (sym f.2 ∙ ap index_bits e ∙ f'.2)
