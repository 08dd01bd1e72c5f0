-- ===== src/Oid/Real/Laws.antt =====
-- The fields of a real object id, and which allocations are distinct.
use sonic_otairedis.Common.{
  ℕ, ◌+◌, ◌*◌, ◌/◌, ◌%◌, ◌^◌, ◌<◌, ◌≤◌, ◌≡◌, ◌≢◌, refl, sym, ap, ◌∙◌, arith, bit_or, List, Result,
  ok, NatMap, put, ==_refl,
}
use sonic_otairedis.Common.Bits.{or-fields, and-eq-mod}
use sonic_otairedis.Otai.{ObjectTypes, IsOtai}
use sonic_otairedis.Oid.Virtual.{shl64}
use sonic_otairedis.Oid.Real.{
  object_index_max, index_bits, type_bits, linecard_bits, context_bits, construct_object_id,
  IdAttribute, counter, find_index, allocate_new_object_index, allocate_new_object_id,
}

pub construct_object_id_lem :
    (ty lc ix gc : ℕ)
    → ty < 2 ^ 8
    → lc < 2 ^ 8
    → ix < 2 ^ 32
    → gc < 2 ^ 8
    → construct_object_id ty lc ix gc ≡ gc * 2 ^ 48 + lc * 2 ^ 40 + ty * 2 ^ 32 + ix
unfolding construct_object_id
construct_object_id_lem ty lc ix gc ht hl hi hg =
    let context = shl64 gc 48 in
    let card = shl64 lc 40 in
    let kind = shl64 ty 32 in
    let upper =
      or-fields 48 gc (lc * 2 ^ 40) context card (omega arith) (omega arith) (omega arith) in
    let above =
      or-fields 40 (gc * 2 ^ 8 + lc) (ty * 2 ^ 32) (bit_or context card) kind (omega (arith, upper))
        (omega arith) (omega arith) in
    let whole =
      or-fields 32 (gc * 2 ^ 16 + lc * 2 ^ 8 + ty) ix (bit_or (bit_or context card) kind) ix
        (omega (arith, above)) refl hi in
    omega (arith, whole)

-- Each field is read back, the reserved bits are zero.
pub fields-construct_object_id :
    (ty lc ix gc : ℕ)
    → ty < 2 ^ 8
    → lc < 2 ^ 8
    → ix < 2 ^ 32
    → gc < 2 ^ 8
    → let oid = construct_object_id ty lc ix gc in
      (type_bits oid ≡ ty)
      × (linecard_bits oid ≡ lc)
      × (index_bits oid ≡ ix)
      × (context_bits oid ≡ gc)
      × (oid < 2 ^ 56)
unfolding type_bits linecard_bits index_bits context_bits
fields-construct_object_id ty lc ix gc ht hl hi hg =
    let sum = construct_object_id_lem ty lc ix gc ht hl hi hg in
    (
      and-eq-mod 8 _ ∙ omega (arith, sum),
      and-eq-mod 8 _ ∙ omega (arith, sum),
      and-eq-mod 32 _ ∙ omega (arith, sum),
      and-eq-mod 8 _ ∙ omega (arith, sum),
      omega (arith, sum),
    )

pub index_bits-construct_object_id :
    (ty lc ix gc : ℕ)
    → ty < 2 ^ 8
    → lc < 2 ^ 8
    → ix < 2 ^ 32
    → gc < 2 ^ 8
    → index_bits (construct_object_id ty lc ix gc) ≡ ix
index_bits-construct_object_id ty lc ix gc ht hl hi hg =
    (fields-construct_object_id ty lc ix gc ht hl hi hg).2

linecard_bits_lem : (oid : ℕ) → linecard_bits oid ≡ oid / 2 ^ 40 % 2 ^ 8
unfolding linecard_bits
linecard_bits_lem oid = and-eq-mod 8 (oid / 2 ^ 40)

counter-put : (m : NatMap ℕ) (k v : ℕ) → counter (put m k v) k ≡ v
counter-put m k v = rw (==_refl k, counter)

module _ ⦃t : ObjectTypes⦄ (o : IsOtai t) (ocm_attr_id otdr_attr_id : ℕ) where
  open t use {ocm, otdr, linecard, extensions_max}

  abbrev allocate : ℕ → ℕ → List IdAttribute → NatMap ℕ → Result ℕ × NatMap ℕ
  allocate = allocate_new_object_id ocm_attr_id otdr_attr_id

  -- A success of a type that is counted: the id carries the count so far, and the count goes up.
  allocate-counted :
      (ty lc : ℕ) (attrs : List IdAttribute) (m : NatMap ℕ) (oid : ℕ) (m' : NatMap ℕ)
      → ty ≢ ocm
      → ty ≢ otdr
      → allocate ty lc attrs m ≡ (ok oid, m')
      → (ty < 2 ^ 8)
        × (counter m ty ≤ object_index_max)
        × (oid ≡ construct_object_id ty (linecard_bits lc) (counter m ty) 0)
        × (m' ≡ put m ty ((counter m ty + 1) % 2 ^ 64))
  unfolding allocate_new_object_id allocate_new_object_index
  allocate-counted ty lc attrs m oid m' ne ne' h = ground (arith, o.extensions_max_below)

  -- Two allocations in a row of real ids of one type, neither OCM nor OTDR, that both return an
  -- id return different ones.
  pub real_ids_distinct :
      (ty lc lc' : ℕ) (attrs attrs' : List IdAttribute) (m : NatMap ℕ) (oid oid' : ℕ)
      (m' m'' : NatMap ℕ)
      → ty ≢ ocm
      → ty ≢ otdr
      → allocate ty lc attrs m ≡ (ok oid, m')
      → allocate ty lc' attrs' m' ≡ (ok oid', m'')
      → oid ≢ oid'
  real_ids_distinct ty lc lc' attrs attrs' m oid oid' m' m'' ne ne' h h' e =
      let a = allocate-counted ty lc attrs m oid m' ne ne' h in
      let b = allocate-counted ty lc' attrs' m' oid' m'' ne ne' h' in
      let next = (counter m ty + 1) % 2 ^ 64 in
      let count : counter m' ty ≡ next =
        ap (λ (r : NatMap ℕ). counter r ty) a.3 ∙ counter-put m ty next in
      let bits = linecard_bits_lem lc in
      let bits' = linecard_bits_lem lc' in
      let small : counter m ty < 2 ^ 32 = omega (arith, a.1) in
      let small' : counter m' ty < 2 ^ 32 = omega (arith, b.1) in
      let read =
        index_bits-construct_object_id ty (linecard_bits lc) (counter m ty) 0 a.0
          (omega (arith, bits)) small (omega arith) in
      let read' =
        index_bits-construct_object_id ty (linecard_bits lc') (counter m' ty) 0 b.0
          (omega (arith, bits')) small' (omega arith) in
      let same = sym read ∙ ap index_bits (sym a.2 ∙ e ∙ b.2) ∙ read' in omega (arith, same, count)

  -- An allocation of an OCM that returns an id takes its index from the attributes, 0 where none
  -- has it, and leaves the counters as they are.
  pub allocate-ocm :
      (lc : ℕ) (attrs : List IdAttribute) (m : NatMap ℕ) (oid : ℕ) (m' : NatMap ℕ)
      → allocate ocm lc attrs m ≡ (ok oid, m')
      → (index_bits oid ≡ find_index ocm_attr_id attrs) × (m' ≡ m)
  unfolding allocate_new_object_id allocate_new_object_index
  allocate-ocm lc attrs m oid m' h =
      let built : (oid
            ≡ construct_object_id ocm (linecard_bits lc) (find_index ocm_attr_id attrs) 0)
          × (find_index ocm_attr_id attrs ≤ object_index_max)
          × (ocm < extensions_max)
          × (m' ≡ m) =
        ground arith in
      (
        ap index_bits built.0
            ∙ index_bits-construct_object_id ocm (linecard_bits lc) (find_index ocm_attr_id attrs) 0
                (omega (arith, built.2, o.extensions_max_below))
                (omega (arith, linecard_bits_lem lc)) (omega (arith, built.1)) (omega arith),
        built.3,
      )
