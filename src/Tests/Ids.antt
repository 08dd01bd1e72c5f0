-- ===== src/Tests/Ids.antt =====
-- Ids at concrete numbers: linecard 0x0001000000000000, and an object of type 3 with index 5.
use sonic_otairedis.Common.{
  ℕ, ◌+◌, ◌^◌, ◌<◌, ◌≡◌, ◌≢◌, ◌⊎◌, refl, arith, List, [], ◌∷◌, ok, throws, NatMap, no_entries, put,
}
use sonic_otairedis.Oid.Virtual.{
  index_bits, type_bits, linecard_bits, construct_object_id, get_object_index, object_type_query,
  linecard_id_query, otai_object_type_query, otai_linecard_id_query, allocate_new_object_id,
  object_index_max,
}
use sonic_otairedis.Oid.Virtual.Queries.{object_type_query-construct_object_id}
use sonic_otairedis.Oid.Virtual.Allocation.{Accepts, allocate-fields}
use sonic_otairedis.Oid.VidManager.{queries-agree}
use sonic_otairedis.Oid.VidManager
use sonic_otairedis.Oid.Virtual
use sonic_otairedis.Oid.Real
use sonic_otairedis.Serialize.ObjectId.{text, otai_serialize_object_id, otai_deserialize_object_id}
use sonic_otairedis.Serialize.ObjectId.RoundTrip.{deserialize-serialize}
use sonic_otairedis.Tests.World.{types, types-IsOtai}

abbrev card : ℕ
card = 0x0001000000000000

abbrev thing : ℕ
thing = 0x0003000000000005

-- A generator that counts.
abbrev next : ℕ → ℕ × ℕ
next n = (n + 1, n + 1)

construct_test : construct_object_id 3 0 5 ≡ thing
unfolding construct_object_id
construct_test = refl

allocate_test : allocate_new_object_id next 3 card 4 ≡ (ok thing, 5)
unfolding allocate_new_object_id otai_object_type_query type_bits construct_object_id linecard_bits
allocate_test = refl

allocate_test' : allocate_new_object_id next 3 card 5 ≡ (ok (thing + 1), 6)
unfolding allocate_new_object_id otai_object_type_query type_bits construct_object_id linecard_bits
allocate_test' = refl

linecard_test : linecard_id_query thing ≡ card
unfolding linecard_id_query object_type_query type_bits construct_object_id linecard_bits
linecard_test = refl

object_type_query-construct_object_id_example :
    (construct_object_id 3 0 5 ≢ 0) × (object_type_query (construct_object_id 3 0 5) ≡ 3)
object_type_query-construct_object_id_example =
    object_type_query-construct_object_id types-IsOtai 3 0 5 refl (omega arith) (omega arith)

thing-Accepts : Accepts types-IsOtai next 3 card
unfolding otai_object_type_query type_bits
thing-Accepts = record {
  not_null = omega arith;
  in_range = omega arith;
  not_linecard = λ e. omega arith;
  of_linecard = refl;
}

linecard_refused : ¬ Accepts types-IsOtai next 1 card
linecard_refused a = a.not_linecard refl

allocate-fields_example :
    Accepts types-IsOtai next 3 card
    × (type_bits thing ≡ 3)
    × (linecard_bits thing ≡ linecard_bits card)
    × (index_bits thing ≡ 5)
    × (thing < 2 ^ 64)
    × (◌≡◌ {A = ℕ} 5 5)
allocate-fields_example = allocate-fields types-IsOtai next 3 card 4 thing 5 allocate_test

queries-agree_example :
    ((thing ≢ 0) × (object_type_query thing ≡ 0)
      → (VidManager.linecard_id_query thing ≡ throws "invalid object id")
        × (VidManager.object_type_query thing ≡ throws "invalid object id"))
    × (((thing ≡ 0) ⊎ (object_type_query thing ≢ 0))
        → (VidManager.linecard_id_query thing ≡ ok (linecard_id_query thing))
          × (VidManager.object_type_query thing ≡ ok (object_type_query thing)))
queries-agree_example = queries-agree types-IsOtai thing

-- Linecard 1 of the virtual linecard, and its first two objects of type 3.
abbrev real_card : ℕ
real_card = 0x0000010100000001

abbrev counted : NatMap ℕ
counted = put no_entries 3 1

real_test :
    Real.allocate_new_object_id 40 41 3 real_card [] no_entries ≡ (ok 0x0000010300000000, counted)
unfolding Real.allocate_new_object_id Real.allocate_new_object_index Real.object_type_query
    Real.type_bits Real.construct_object_id Real.linecard_bits
real_test = refl

real_test' :
    Real.allocate_new_object_id 40 41 3 real_card [] counted
    ≡ (ok 0x0000010300000001, put counted 3 2)
unfolding Real.allocate_new_object_id Real.allocate_new_object_index Real.object_type_query
    Real.type_bits Real.construct_object_id Real.linecard_bits
real_test' = refl

abbrev ocm_attributes : List Real.IdAttribute
ocm_attributes = record { id = 40; u32 = 9 } ∷ []

ocm_test :
    Real.allocate_new_object_id 40 41 7 real_card ocm_attributes no_entries
    ≡ (ok 0x0000010700000009, no_entries)
unfolding Real.allocate_new_object_id Real.allocate_new_object_index Real.object_type_query
    Real.type_bits Real.find_index Real.construct_object_id Real.linecard_bits
ocm_test = refl

serialize_test : otai_serialize_object_id thing ≡ text "oid:0x3000000000005"
unfolding otai_serialize_object_id
serialize_test = refl

deserialize_test : otai_deserialize_object_id (text "oid:0x3000000000005") ≡ ok thing
unfolding otai_deserialize_object_id
deserialize_test = refl

deserialize-serialize_example :
    otai_deserialize_object_id (otai_serialize_object_id thing) ≡ ok thing
deserialize-serialize_example = deserialize-serialize thing (omega arith)

first_linecard_test : Virtual.allocate_new_linecard_object_id ≡ card
unfolding Virtual.allocate_new_linecard_object_id construct_object_id
first_linecard_test = refl

first_real_linecard_test : Real.allocate_new_linecard_object_id ≡ real_card
unfolding Real.allocate_new_linecard_object_id Real.construct_object_id
first_real_linecard_test = refl

real_queries_test :
    (Real.object_type_query 0x0000010300000007 ≡ 3)
    × (Real.linecard_id_query 0x0000010300000007 ≡ real_card)
    × (Real.get_object_index 0x0000010300000007 ≡ 7)
unfolding Real.object_type_query Real.type_bits Real.linecard_id_query Real.construct_object_id
    Real.context_bits Real.linecard_bits Real.get_object_index Real.index_bits
real_queries_test = (refl, refl, refl)

index_test : VidManager.get_object_index thing ≡ ok 5
unfolding VidManager.get_object_index linecard_id_query object_type_query type_bits
    construct_object_id linecard_bits get_object_index index_bits
index_test = refl
