-- ===== src/Requests/AsicState.antt =====
-- `syncUpdateRedisQuadEvent` of syncd/Syncd.cpp: what a request that succeeded changes in ASIC_STATE.
use sonic_otairedis.Common.{
  ◌≡◌, ◌≢◌, refl, inl, inr, Bool, true, false, List, [], ◌∷◌, Option, none, some, Result, ok,
  throws, Method, Option-cases, Result-cases,
}
use sonic_otairedis.Otai.{Status, success}
use sonic_otairedis.Serialize.ObjectId.{Text}
use sonic_otairedis.Redis.Database.{Redis, IsRedis}
use sonic_otairedis.Redis.Client.{create_asic_object, remove_asic_object, set_asic_object}
use sonic_otairedis.Redis.Client.Objects.{SameMaps, asic_objects_keep_maps}
use sonic_otairedis.Requests.{Api, create_api, remove_api, set_api, get_api, other_api}

module _ (r : Redis) where
  -- Arguments: `meta_key_of` reads an object key and writes it again, and throws on one that is none;
  -- `isrecoverable` is the flag in the metadata of an attribute, found by the name of its id.
  module _ (meta_key_of : Text → Result Text) (isrecoverable : Text → Option Bool) where
    update_object : Api → Text → List (Text × Text) → Method r.Db (Unit {0})
    update_object create_api meta_key values db = (ok tt, create_asic_object r db meta_key values)
    update_object remove_api meta_key values db = (ok tt, remove_asic_object r db meta_key)
    update_object set_api meta_key [] db = (throws "vector::at", db)
    update_object set_api meta_key ((attr, value) ∷ values) db = elim (isrecoverable attr) [
      | none ↦ (throws "invalid attr id", db)
      | some false ↦ (ok tt, db)
      | some true ↦ (ok tt, set_asic_object r db meta_key attr value)
    ]
    update_object get_api meta_key values db = (ok tt, db)
    update_object other_api meta_key values db = (throws "api is not supported", db)

    unfoldable pub sync_update_redis_quad_event :
        Status → Api → Text → List (Text × Text) → Method r.Db (Unit {0})
    unfolding update_object
    sync_update_redis_quad_event success api key values db = elim (meta_key_of key) [
      | throws message ↦ (throws message, db)
      | ok meta_key ↦ update_object api meta_key values db
    ]
    sync_update_redis_quad_event status api key values db = (ok tt, db)

module _ (r : Redis) (law : IsRedis r) (meta_key_of : Text → Result Text)
    (isrecoverable : Text → Option Bool) where
  update_object-SameMaps :
      (api : Api) (meta_key : Text) (values : List (Text × Text)) (db : r.Db)
      → SameMaps r law db (update_object r meta_key_of isrecoverable api meta_key values db).1
  unfolding update_object
  update_object-SameMaps create_api meta_key values db =
      (asic_objects_keep_maps r law db meta_key [] [] values).0
  update_object-SameMaps remove_api meta_key values db =
      (asic_objects_keep_maps r law db meta_key [] [] values).2
  update_object-SameMaps set_api meta_key [] db = λ f. (refl, refl)
  update_object-SameMaps set_api meta_key ((attr, value) ∷ values) db =
      elim (Option-cases (isrecoverable attr)) [
        | inl e ↦ rw (e, update_object) (λ f. (refl, refl))
        | inr (true, e) ↦
            rw (e, update_object) ((asic_objects_keep_maps r law db meta_key attr value values).1)
        | inr (false, e) ↦ rw (e, update_object) (λ f. (refl, refl))
      ]
  update_object-SameMaps get_api meta_key values db = λ f. (refl, refl)
  update_object-SameMaps other_api meta_key values db = λ f. (refl, refl)

  -- Over any database that does what Redis documents: the change of ASIC_STATE after a request,
  -- whatever its kind, key and values, and also where it throws, leaves both maps between VIDs and
  -- RIDs as they were; after a request with another status than success, and after a read, it
  -- leaves the whole database as it was.
  pub sync_update_outcome :
      (status : Status) (api : Api) (key : Text) (values : List (Text × Text)) (db : r.Db)
      → let db' =
          (sync_update_redis_quad_event r meta_key_of isrecoverable status api key values db).1 in
        SameMaps r law db db' × (status ≢ success → db' ≡ db) × (api ≡ get_api → db' ≡ db)
  unfolding sync_update_redis_quad_event update_object
  sync_update_outcome success api key values db = elim (Result-cases (meta_key_of key)) [
    | inl (message, e) ↦
        rw (e, sync_update_redis_quad_event) ((λ f. (refl, refl)), (λ bad. refl), (λ read. refl))
    | inr (meta_key, e) ↦
        rw (e, sync_update_redis_quad_event)
          (
            update_object-SameMaps api meta_key values db,
            (λ bad. absurd (bad refl)),
            (λ read. rw read refl),
          )
  ]
  sync_update_outcome status api key values db =
      ((λ f. (refl, refl)), (λ bad. refl), (λ read. refl))
