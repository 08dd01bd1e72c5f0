-- ===== src/Oid/Virtual/Queries.antt =====
-- The queries on virtual object ids: the static ones, the throwing ones, and how they agree.
use sonic_otairedis.Common.{
  ℕ, ◌^◌, ◌<◌, ◌≡◌, ◌≢◌, refl, sym, ap, ◌∙◌, ◌⊎◌, inl, inr, true, arith, ok, throws, ◌==◌, ==_eq,
  ==_ne, ==_refl, ◌&&◌, not, Bool-cases, if◌then◌else◌,
}
use sonic_otairedis.Otai.{ObjectTypes, IsOtai}
use sonic_otairedis.Oid.Virtual.{
  type_bits, linecard_bits, construct_object_id, object_type_query, linecard_id_query,
  otai_object_type_query, otai_linecard_id_query,
}
use sonic_otairedis.Oid.Virtual.Fields.{
  linecard_bits_lem, construct_object_id_lem, fields-construct_object_id,
}

module _ ⦃t : ObjectTypes⦄ (o : IsOtai t) where
  open t use {null_object_id, null_type, linecard, extensions_max, is_object_type_valid}

  -- A constructed identifier of a valid type is not null and has that type.
  pub object_type_query-construct_object_id :
      (ty lc ix : ℕ)
      → is_object_type_valid ty ≡ true
      → lc < 2 ^ 8
      → ix < 2 ^ 48
      → (construct_object_id ty lc ix ≢ null_object_id)
        × (object_type_query (construct_object_id ty lc ix) ≡ ty)
  unfolding object_type_query
  object_type_query-construct_object_id ty lc ix valid hl hi =
      let small : ty < 2 ^ 8 = omega (arith, o.valid_below ty valid, o.extensions_max_below) in
      let read = fields-construct_object_id ty lc ix small hl hi in
      let sum = construct_object_id_lem ty lc ix small hl hi in
      let present : construct_object_id ty lc ix ≢ null_object_id =
        omega (arith, sum, o.valid_pos ty valid, o.null_object_id_zero) in
      (present, rw (==_ne _ _ present, read.0, valid))

  linecard_object : ℕ → ℕ
  linecard_object lc = construct_object_id linecard lc lc

  linecard_id_query-linecard_object :
      (lc : ℕ) → lc < 2 ^ 8 → linecard_id_query (linecard_object lc) ≡ linecard_object lc
  unfolding linecard_id_query linecard_object
  linecard_id_query-linecard_object lc h =
      let made =
        object_type_query-construct_object_id linecard lc lc o.linecard_valid h (omega arith) in
      let typed : linecard ≢ null_type = omega (arith, o.linecard_pos, o.null_type_zero) in
      rw (==_ne _ _ made.0, made.1, ==_ne _ _ typed, ==_refl linecard)

  -- The linecard of an identifier: null for the null id and for an id of no valid type, and else
  -- an identifier of type linecard, the id itself if it is one.
  abbrev pub LinecardOf : ℕ → ℕ → Type 0
  LinecardOf oid lc =
      ((lc ≡ null_object_id) × ((oid ≡ null_object_id) ⊎ (object_type_query oid ≡ null_type)))
      ⊎ ((lc ≢ null_object_id)
          × (object_type_query oid ≢ null_type)
          × (object_type_query lc ≡ linecard)
          × (object_type_query oid ≡ linecard → lc ≡ oid))

  -- `linecardIdQuery` returns null exactly for the null id and for ids of no valid type; for any
  -- other it returns an id of type linecard that is not null, and a linecard is its own.
  pub linecard_id_query-LinecardOf : (oid : ℕ) → LinecardOf oid (linecard_id_query oid)
  unfolding linecard_id_query
  linecard_id_query-LinecardOf oid = elim (Bool-cases (oid == null_object_id)) [
    | inl here ↦ rw here (inl (refl, inl (==_eq _ _ here)))
    | inr there ↦ elim (Bool-cases (object_type_query oid == null_type)) [
      | inl untyped ↦ rw (there, untyped) (inl (refl, inr (==_eq _ _ untyped)))
      | inr typed ↦ elim (Bool-cases (object_type_query oid == linecard)) [
        | inl self ↦
            rw (there, typed, self) (inr (ground arith, ground arith, ground arith, λ _. refl))
        | inr below ↦
            let made =
              object_type_query-construct_object_id linecard (linecard_bits oid) (linecard_bits oid)
                o.linecard_valid (omega (arith, linecard_bits_lem oid))
                (omega (arith, linecard_bits_lem oid)) in
            rw (there, typed, below)
              (inr (made.0, ground arith, made.1, λ e. absurd (ground arith)))
      ]
    ]
  ]

  pub linecard_id_query_null : linecard_id_query null_object_id ≡ null_object_id
  unfolding linecard_id_query
  linecard_id_query_null = rw (==_refl null_object_id)

  linecard_id_query_self :
      (oid : ℕ) → object_type_query oid ≡ linecard → linecard_id_query oid ≡ oid
  unfolding linecard_id_query
  linecard_id_query_self oid typed = ground (arith, o.linecard_pos, o.null_type_zero)

  pub object_type_query_null : object_type_query null_object_id ≡ null_type
  unfolding object_type_query
  object_type_query_null = rw (==_refl null_object_id)

  -- The linecard of the linecard of an id is the linecard of the id.
  pub linecard_id_query_idempotent :
      (oid : ℕ) → linecard_id_query (linecard_id_query oid) ≡ linecard_id_query oid
  linecard_id_query_idempotent oid = elim (linecard_id_query-LinecardOf oid) [
    | inl missing ↦ ap linecard_id_query missing.0 ∙ linecard_id_query_null ∙ sym missing.0
    | inr found ↦ linecard_id_query_self (linecard_id_query oid) found.2
  ]

  -- Where the metadata accept every type below the bound, the two pairs of queries agree: the
  -- member returns what the static one returns, or throws where that returns null for an id that
  -- is not null.
  module _ (complete : (x : ℕ) → 0 < x → x < extensions_max → is_object_type_valid x ≡ true) where
    pub otai_object_type_query-eq : (oid : ℕ) → otai_object_type_query oid ≡ object_type_query oid
    unfolding otai_object_type_query object_type_query
    otai_object_type_query-eq oid = ground (
      arith,
      complete (type_bits oid),
      o.valid_pos (type_bits oid),
      o.valid_below (type_bits oid),
      o.null_type_zero,
    )

    -- Where the metadata accept every object type below the bound, `otaiLinecardIdQuery` returns
    -- what `linecardIdQuery` returns, or throws where that returns null for an id that is not
    -- null.
    pub otai_linecard_id_query-eq :
        (oid : ℕ)
        → otai_linecard_id_query oid ≡ (
            if not (oid == null_object_id) && (linecard_id_query oid == null_object_id)
            then throws "invalid object type of oid"
            else ok (linecard_id_query oid))
    unfolding otai_linecard_id_query linecard_id_query
    otai_linecard_id_query-eq oid = rw otai_object_type_query-eq (
        ground (
          arith,
          object_type_query-construct_object_id linecard (linecard_bits oid) (linecard_bits oid)
              o.linecard_valid (omega (arith, linecard_bits_lem oid))
              (omega (arith, linecard_bits_lem oid)),
        ))
