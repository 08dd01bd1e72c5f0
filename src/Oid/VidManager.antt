-- ===== src/Oid/VidManager.antt =====
-- syncd/VidManager.cpp: the queries of `VirtualObjectIdManager` that throw on a bad id.
use sonic_otairedis.Common.{
  ℕ, ◌≡◌, ◌≢◌, ◌⊎◌, arith, Result, ok, throws, ◌==◌, ==_eq, ==_refl, Bool-cases, refl, inl, inr,
  if◌then◌else◌,
}
use sonic_otairedis.Otai.{ObjectTypes, IsOtai}
use sonic_otairedis.Oid.Virtual
use sonic_otairedis.Oid.Virtual.Queries.{
  linecard_id_query-LinecardOf, linecard_id_query_null, object_type_query_null,
}

module _ ⦃t : ObjectTypes⦄ where
  open t use {null_object_id, null_type}

  unfoldable pub linecard_id_query : ℕ → Result ℕ
  linecard_id_query oid =
      if oid == null_object_id
      then ok oid
      else if Virtual.linecard_id_query oid == null_object_id
      then throws "invalid object id"
      else ok (Virtual.linecard_id_query oid)

  unfoldable pub object_type_query : ℕ → Result ℕ
  object_type_query oid =
      if oid == null_object_id
      then ok null_type
      else if Virtual.object_type_query oid == null_type
      then throws "invalid object id"
      else ok (Virtual.object_type_query oid)

  unfoldable pub get_object_index : ℕ → Result ℕ
  get_object_index oid =
      if Virtual.linecard_id_query oid == null_object_id
      then throws "invalid object id"
      else ok (Virtual.get_object_index oid)

module _ ⦃t : ObjectTypes⦄ (o : IsOtai t) where
  open t use {null_object_id, null_type}

  -- The queries of `VidManager` for the linecard and the type of an id throw on an id that is not
  -- null and has no valid type; on every other id they return what the queries of
  -- `VirtualObjectIdManager` return.
  pub queries-agree :
      (oid : ℕ)
      → ((oid ≢ null_object_id) × (Virtual.object_type_query oid ≡ null_type)
          → (linecard_id_query oid ≡ throws "invalid object id")
            × (object_type_query oid ≡ throws "invalid object id"))
        × (((oid ≡ null_object_id) ⊎ (Virtual.object_type_query oid ≢ null_type))
            → (linecard_id_query oid ≡ ok (Virtual.linecard_id_query oid))
              × (object_type_query oid ≡ ok (Virtual.object_type_query oid)))
  unfolding linecard_id_query object_type_query
  queries-agree oid =
      let facts = linecard_id_query-LinecardOf o oid in
      let none = linecard_id_query_null o in
      let none' = object_type_query_null o in
      elim (Bool-cases (oid == null_object_id)) [
        | inl here ↦
            rw (==_eq _ _ here)
              (λ h. absurd (h.0 refl), λ h. rw (==_refl null_object_id, none, none') (refl, refl))
        | inr there ↦ (λ h. (ground arith, ground arith), λ h. (ground arith, ground arith))
      ]
