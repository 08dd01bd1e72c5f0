-- ===== src/Tests/Requests.antt =====
-- Requests over the concrete database: linecard 5 is known, the vendor library numbers new objects.
use sonic_otairedis.Common.{
  ℕ, ◌+◌, ◌≡◌, ◌≢◌, refl, Bool, true, false, arith, List, [], ◌∷◌, Option, some, Result, ok, throws,
  Method,
}
use sonic_otairedis.Metadata.{Attribute}
use sonic_otairedis.Otai.{Status, success}
use sonic_otairedis.Serialize.ObjectId.{
  Text, text, otai_serialize_object_id, otai_deserialize_object_id,
}
use sonic_otairedis.Oid.VidManager
use sonic_otairedis.Oid.Virtual
use sonic_otairedis.Redis.AsicTable.{AsicTable}
use sonic_otairedis.Redis.Client.Objects.{SameMaps, asic_table, client-IsAsicTable}
use sonic_otairedis.Redis.Client.{
  get_vid_for_rid, set_asic_object, remove_asic_vid, insert_vid_and_rid,
}
use sonic_otairedis.Translator.{
  Translator, insert_rid_and_vid, translate_vid_to_rid, translate_rid_to_vid, check_rid_exists,
  try_translate_rid_to_vid,
}
use sonic_otairedis.Requests.{
  Vendor, Syncd, process_oid, create_api, remove_api, set_api, get_api, process_oid_create,
  process_oid_remove, process_oid_set, process_oid_get, save_created,
}
use sonic_otairedis.Requests.AsicState.{sync_update_redis_quad_event, sync_update_outcome}
use sonic_otairedis.Requests.Laws.{Called, set_get_outcome}
use sonic_otairedis.Requests.Outcome.{create_outcome, remove_outcome, stale_variable_erases}
use sonic_otairedis.Tests.World.{
  types, redis, redis-IsRedis, no_objects, stored_map, stored_map-IsVidMap, started,
}

abbrev pub card : ℕ
card = 0x0001000000000000

abbrev pub thing : ℕ
thing = 0x0003000000000005

abbrev type_name : ℕ → Text
type_name ty = text "OTAI_OBJECT_TYPE"

abbrev table : AsicTable stored_map
table = asic_table 0 redis redis-IsRedis type_name

abbrev read_key : Text → Result Text
read_key key = ok key

abbrev recoverable : Text → Option Bool
recoverable attr = some true

sync_update_outcome_example :
    let db' =
      (sync_update_redis_quad_event redis read_key recoverable success set_api
        (text "k")
        ((text "a", text "v") ∷ [])
        no_objects).1 in
    SameMaps redis redis-IsRedis no_objects db'
    × (success ≢ success → db' ≡ no_objects)
    × (set_api ≡ get_api → db' ≡ no_objects)
sync_update_outcome_example =
    sync_update_outcome redis redis-IsRedis read_key recoverable success set_api (text "k")
      ((text "a", text "v") ∷ []) no_objects

-- An attribute that is not recoverable is not stored, one that is is.
sync_update_test :
    (redis.hget
        (sync_update_redis_quad_event redis read_key recoverable success set_api
          (text "k")
          ((text "a", text "v") ∷ [])
          no_objects).1
        (text "ASIC_STATE:k")
        (text "a")
      ≡ some (text "v"))
    × ((sync_update_redis_quad_event redis read_key
          (λ attr. some false)
          success
          set_api
          (text "k")
          ((text "a", text "v") ∷ [])
          no_objects).1
        ≡ no_objects)
unfolding sync_update_redis_quad_event set_asic_object
sync_update_test = (refl, refl)

abbrev pub vendor : Vendor ℕ
vendor = record {
  create = λ ty lc attrs hw. ((success, hw), hw + 1);
  remove = λ ty rid hw. (success, hw);
  set = λ ty rid attrs hw. (success, hw);
  get = λ ty rid attrs hw. ((success, attrs), hw);
}

abbrev pub no_discovery : ℕ → ℕ → Method (Syncd stored_map ℕ) (Unit {0})
no_discovery lc rid w = (ok tt, w)

abbrev pub syncd : Syncd stored_map ℕ
syncd = record { translator = insert_rid_and_vid stored_map 5 card started; hardware = 77 }

abbrev created : Syncd stored_map ℕ
created = (process_oid_create stored_map table vendor no_discovery 3 thing [] 0 syncd).1

create_test :
    process_oid_create stored_map table vendor no_discovery 3 thing [] 0 syncd
    ≡ (ok success, created)
unfolding process_oid_create VidManager.linecard_id_query Virtual.linecard_id_query
    Virtual.object_type_query Virtual.type_bits Virtual.construct_object_id Virtual.linecard_bits
    translate_vid_to_rid insert_rid_and_vid try_translate_rid_to_vid get_vid_for_rid
    insert_vid_and_rid otai_serialize_object_id
create_test = refl

create_outcome_example :
    (rid : ℕ) × Called stored_map table vendor 3 thing [] syncd success rid
    × (rid ≢ 0
        → success ≡ success
        → (vendor_type : ℕ → ℕ) (lc : ℕ) (removed : Bool)
        → (translate_vid_to_rid stored_map thing created.translator ≡ (ok rid, created.translator))
          × (translate_rid_to_vid stored_map vendor_type rid lc removed created.translator
              ≡ (ok thing, created.translator)))
    × (success ≢ success → created.translator.db ≡ syncd.translator.db)
create_outcome_example =
    create_outcome stored_map stored_map-IsVidMap table vendor no_discovery 3 thing [] 0 syncd
      success created (λ e. omega arith) (λ e. omega arith) create_test

abbrev removed : Syncd stored_map ℕ
removed = (process_oid_remove stored_map table vendor 3 thing created).1

remove_test : process_oid_remove stored_map table vendor 3 thing created ≡ (ok success, removed)
unfolding process_oid_remove process_oid_create VidManager.linecard_id_query
    Virtual.linecard_id_query Virtual.object_type_query Virtual.type_bits
    Virtual.construct_object_id Virtual.linecard_bits translate_vid_to_rid insert_rid_and_vid
    try_translate_rid_to_vid get_vid_for_rid insert_vid_and_rid otai_serialize_object_id
remove_test = refl

remove_outcome_example :
    (rid : ℕ) × ((translate_vid_to_rid stored_map thing created.translator).0 ≡ ok rid)
    × ((vendor.remove 3 rid created.hardware).0 ≡ success)
    × (rid ≢ 0
        → success ≡ success
        → (translate_vid_to_rid stored_map thing removed.translator
            ≡ (throws "unable to get RID for VID", removed.translator))
          × (check_rid_exists stored_map rid false removed.translator ≡ ok false))
    × (success ≢ success → removed.translator.db ≡ created.translator.db)
remove_outcome_example =
    remove_outcome stored_map stored_map-IsVidMap table vendor 3 thing created success removed
      (λ e. omega arith) (λ e. omega arith) remove_test

set_get_outcome_example :
    (((status : Status) (w' : Syncd stored_map ℕ)
        → process_oid_set stored_map table vendor 3 thing [] created ≡ (ok status, w')
        → (rid : ℕ) × ((translate_vid_to_rid stored_map thing created.translator).0 ≡ ok rid)
          × (vendor.set 3 rid [] created.hardware ≡ (status, w'.hardware)))
      × ((process_oid_set stored_map table vendor 3 thing [] created).1.translator.db
          ≡ created.translator.db))
    × (((answer : Status × List Attribute) (w' : Syncd stored_map ℕ)
          → process_oid_get stored_map table vendor 3 thing [] created ≡ (ok answer, w')
          → (rid : ℕ) × ((translate_vid_to_rid stored_map thing created.translator).0 ≡ ok rid)
            × (vendor.get 3 rid [] created.hardware ≡ (answer, w'.hardware)))
        × ((process_oid_get stored_map table vendor 3 thing [] created).1.translator.db
            ≡ created.translator.db))
set_get_outcome_example = set_get_outcome stored_map table vendor 3 thing [] created

-- RID 78 is new, and the variable happens to hold 5, the linecard's RID.
abbrev spoilt : Translator stored_map
spoilt = (save_created stored_map table vendor 78 thing 5 syncd.translator).1

spoilt_test : save_created stored_map table vendor 78 thing 5 syncd.translator ≡ (ok tt, spoilt)
unfolding save_created try_translate_rid_to_vid insert_rid_and_vid remove_asic_vid
    VidManager.object_type_query Virtual.object_type_query Virtual.type_bits
spoilt_test = refl

known_test : syncd.translator.rid2vid 5 ≡ some card
unfolding insert_rid_and_vid
known_test = refl

stale_variable_erases_example :
    translate_vid_to_rid stored_map card spoilt ≡ (throws "unable to get RID for VID", spoilt)
stale_variable_erases_example =
    stale_variable_erases stored_map stored_map-IsVidMap table vendor
      (client-IsAsicTable 0 redis redis-IsRedis type_name) 78 thing 5 card syncd.translator spoilt
      (omega arith) (λ e. omega arith) (λ e. omega arith) (λ e. omega arith) (λ e. omega arith)
      known_test spoilt_test

process_test :
    (process_oid stored_map table vendor no_discovery create_api 3
      (text "oid:0x3000000000005")
      []
      0
      syncd).0
    ≡ ok (success, [])
unfolding process_oid otai_deserialize_object_id VidManager.linecard_id_query
    Virtual.linecard_id_query Virtual.object_type_query Virtual.type_bits
    Virtual.construct_object_id Virtual.linecard_bits translate_vid_to_rid insert_rid_and_vid
    try_translate_rid_to_vid get_vid_for_rid insert_vid_and_rid otai_serialize_object_id
process_test = refl

bad_text_test :
    (process_oid stored_map table vendor no_discovery remove_api 3 (text "oid:12") [] 0 syncd).1
    ≡ syncd
unfolding process_oid otai_deserialize_object_id
bad_text_test = refl
