-- ===== src/Meta/ObjList.antt =====
-- `meta_generic_validation_objlist` of meta/Meta.cpp.
pub mod Laws
use sonic_otairedis.Common.{
  ℕ, zero, suc, Bool, true, false, not, ◌&&◌, ◌||◌, List, [], ◌∷◌, Result, ok, ltb, ◌==◌,
  if◌then◌else◌,
}
use sonic_otairedis.Otai.{ObjectTypes, Status, success, invalid_parameter}
use sonic_otairedis.Metadata.{ListOf, null_list, items, count_of, AttrMeta, Metadata}
use sonic_otairedis.Meta.Checks.{max_list_count, accept, reject, member}

-- What the body of the loop does with an element: return, continue, or go on with its type.
pub data Element : Type 0 where
  refuse skip : Element
  take : ℕ → Element

module _ ⦃t : ObjectTypes⦄ (meta : Metadata) (md : AttrMeta) (linecard_id : ℕ) where
  open t use {null_object_id}
  open meta use {query_object_type, query_linecard_id}

  -- `oids` and `object_type` are the loop's variables, `i` is the index.
  pub element : ℕ → List ℕ → ℕ → ℕ → Element
  element i oids object_type oid =
      if member oid oids
      then refuse
      else if oid == null_object_id
      then (if md.allownullobjectid then skip else refuse)
      else if query_object_type oid == null_object_id
      then refuse
      else if not (md.is_allowed_object_type (query_object_type oid))
      then refuse
      else if ltb 1 i && not (object_type == query_object_type oid)
      then refuse
      else if not (query_linecard_id oid == linecard_id)
      then refuse
      else take (query_object_type oid)

  pub objlist_loop : ℕ → List ℕ → ℕ → List ℕ → Result Status
  unfolding element
  objlist_loop i oids object_type [] = accept
  objlist_loop i oids object_type (oid ∷ rest) = elim (element i oids object_type oid) [
    | refuse ↦ reject
    | skip ↦ objlist_loop (suc i) oids object_type rest
    | take ot ↦ objlist_loop (suc i) (oid ∷ oids) ot rest
  ]

  pub validation_objlist : ListOf ℕ → Result Status
  unfolding objlist_loop
  validation_objlist l = if ltb max_list_count (count_of l) then reject else elim l [
    | null_list n ↦ if n == 0 then accept else reject
    | items oids ↦ objlist_loop 0 [] t.null_type oids
  ]
