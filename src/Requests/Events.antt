-- ===== src/Requests/Events.antt =====
-- `processEvent`, `processSingleEvent` and `processQuadEvent` of syncd/Syncd.cpp: from the requests
-- taken from Redis to the answers sent back. The lock is left out, and an attribute keeps no pointer
-- here, so `updateNotificationsPointers` changes nothing.
pub mod Answers
pub mod Effects
use Prim.Native.String.{String}
use sonic_otairedis.Common.{
  ℕ, Bool, true, false, ◌||◌, List, [], ◌∷◌, Option, Result, ok, throws, Method, after, leb, ◌==◌,
  if◌then◌else◌,
}
use sonic_otairedis.Otai.{ObjectTypes, Status, success, is_success}
use sonic_otairedis.Metadata.{Attribute, Metadata}
use sonic_otairedis.Serialize.ObjectId.{Text, text, otai_deserialize_object_id}
use sonic_otairedis.Serialize.Texts.{same_text, find_char, next, drop, take}
use sonic_otairedis.Oid.VidManager
use sonic_otairedis.Redis.Database.{Redis, IsRedis}
use sonic_otairedis.Redis.VidMap.{VidMap}
use sonic_otairedis.Redis.AsicTable.{AsicTable}
use sonic_otairedis.Redis.Client.Mapping.{vid_map}
use sonic_otairedis.Redis.Client.Objects.{asic_table}
use sonic_otairedis.Translator.{Translator, translate_vid_to_rid}
use sonic_otairedis.Translator.Attributes.{
  translate_attributes_to_rids, translate_attributes_to_vids,
}
use sonic_otairedis.Requests.{
  Vendor, Syncd, Api, create_api, remove_api, set_api, get_api, other_api, on_translator,
  process_oid,
}
use sonic_otairedis.Requests.AsicState.{sync_update_redis_quad_event}

-- `swss::KeyOpFieldsValuesTuple`: a request.
pub record Request : Type 0 where
  pub key : Text
  pub op : Text
  pub values : List (Text × Text)

-- What is put on the channel: a status and the fields that come with it.
pub record Answer : Type 0 where
  pub status : Status
  pub entry : List (Text × Text)

-- What stands behind the first colon; the whole key where there is none.
abbrev pub object_id_text : Text → Text
object_id_text key = drop (next (find_char b':' 0 key)) key

-- The parts of the program that this module takes as arguments: `otai_deserialize_object_type`, the
-- constructor of `OtaiAttributeList`, its `serialize_attr_list`, and `objectTypeQuery` and
-- `isrecoverable` of the vendor library and of the metadata.
pub record Texts : Type 0 where
  pub deserialize_object_type : Text → Result ℕ
  pub deserialize_attr_list : ℕ → List (Text × Text) → Result (List Attribute)
  pub serialize_attr_list : ℕ → List Attribute → Result (List (Text × Text))
  pub type_name : ℕ → Text
  pub vendor_type : ℕ → ℕ
  pub isrecoverable : Text → Option Bool
  pub meta_key_of : Text → Result Text

-- The object type and the VID.
pub otai_deserialize_object_meta_key : ⦃t : ObjectTypes⦄ → Texts → Text → Result (ℕ × ℕ)
otai_deserialize_object_meta_key ⦃t⦄ texts s =
    elim (texts.deserialize_object_type (take (find_char b':' 0 s) s)) [
      | throws message ↦ throws message
      | ok object_type ↦
          if object_type == t.null_type || leb t.extensions_max object_type
          then throws "invalid object type value"
          else elim (otai_deserialize_object_id (object_id_text s)) [
            | throws message ↦ throws message
            | ok vid ↦ ok (object_type, vid)
          ]
    ]

-- syncd with the answers that it has sent, the last one first.
pub record Server (m : VidMap) (V : Type 0) : Type 0 where
  pub syncd : Syncd m V
  pub sent : List Answer

-- A method of syncd, which sends nothing.
abbrev pub on_syncd {ℓ} :
    {m : VidMap} {V : Type 0} {A : Type ℓ} → Method (Syncd m V) A → Method (Server m V) A
on_syncd f s = let (r, w) = f s.syncd in (r, record s { syncd = w })

abbrev pub send : {m : VidMap} {V : Type 0} → Answer → Server m V → Server m V
send answer s = record s { sent = answer ∷ s.sent }

-- `null` is OTAI_NULL_OBJECT_ID, and the database does what Redis documents.
module _ ⦃t : ObjectTypes⦄ (texts : Texts) (meta : Metadata) (r : Redis) (law : IsRedis r)
    {V : Type 0} (vendor : Vendor V) where
  abbrev pub Map : VidMap
  Map = vid_map t.null_object_id r law

  abbrev pub Table : AsicTable Map
  Table = asic_table t.null_object_id r law texts.type_name

  pub send_api_response : Api → Status → Method (Server Map V) (Unit {0})
  send_api_response create_api status s = (ok tt, send (record { status = status; entry = [] }) s)
  send_api_response remove_api status s = (ok tt, send (record { status = status; entry = [] }) s)
  send_api_response set_api status s = (ok tt, send (record { status = status; entry = [] }) s)
  send_api_response _ status s = (throws "api not supported by this function", s)

  send_attributes : ℕ → List Attribute → Method (Server Map V) (Unit {0})
  send_attributes object_type attrs s = elim (texts.serialize_attr_list object_type attrs) [
    | throws message ↦ (throws message, s)
    | ok entry ↦ (ok tt, send (record { status = success; entry = entry }) s)
  ]

  pub send_get_response : ℕ → ℕ → Status → List Attribute → Method (Server Map V) (Unit {0})
  unfolding send_attributes
  send_get_response object_type linecard_vid success attrs s =
      let back =
        on_syncd
          (on_translator Map Table vendor (
            translate_attributes_to_vids Map meta texts.vendor_type object_type linecard_vid attrs
              false))
          s in
      after (send_attributes object_type) back.0 back.1
  send_get_response object_type linecard_vid status attrs s =
      (ok tt, send (record { status = status; entry = [] }) s)

  -- After a set that failed the RID is asked for once more, for the log.
  log_failure : Api → ℕ → Method (Server Map V) (Unit {0})
  log_failure set_api vid s =
      let asked = on_syncd (on_translator Map Table vendor (translate_vid_to_rid Map vid)) s in
      after (λ rid s'. (ok tt, s')) asked.0 asked.1
  log_failure _ vid s = (ok tt, s)

  answer_request : Api → ℕ → ℕ → Status × List Attribute → Method (Server Map V) (Unit {0})
  unfolding send_api_response send_get_response log_failure
  answer_request get_api object_type vid (status, attrs) s =
      after (λ linecard_vid. send_get_response object_type linecard_vid status attrs)
        (VidManager.linecard_id_query vid) s
  answer_request api object_type vid (status, attrs) s =
      let sent = send_api_response api status s in
      after (λ done s'. if is_success status then (ok tt, s') else log_failure api vid s') sent.0
        sent.1

  -- `syncUpdateRedisQuadEvent`, on the database behind the translator.
  sync_update : Status → Api → Request → Method (Server Map V) (Unit {0})
  unfolding sync_update_redis_quad_event
  sync_update status api request s =
      let tr = s.syncd.translator in
      let (result, db) =
        sync_update_redis_quad_event r texts.meta_key_of texts.isrecoverable status api request.key
          request.values tr.db in
      (result, record s { syncd = record s.syncd { translator = record tr { db = db } } })

  -- The attributes of a request: a get passes them on as they are.
  translate_request : Api → ℕ → List Attribute → Method (Server Map V) (List Attribute)
  translate_request get_api object_type attrs s = (ok attrs, s)
  translate_request api object_type attrs s =
      on_syncd
        (on_translator Map Table vendor (translate_attributes_to_rids Map meta object_type attrs)) s

  module _ (start_linecard : ℕ → ℕ → Method (Syncd Map V) (Unit {0})) where
    -- The call of `processOid`, the answer, and what is kept of the request.
    serve : Api → Request → ℕ → ℕ → ℕ → List Attribute → Method (Server Map V) Status
    unfolding answer_request sync_update process_oid
    serve api request object_type vid stale attrs s =
        let done =
          on_syncd
            (process_oid Map Table vendor start_linecard api object_type
              (object_id_text request.key) attrs stale)
            s in
        after
          (λ result s1.
            let answered = answer_request api object_type vid result s1 in
            after
              (λ sent s2.
                let kept = sync_update result.0 api request s2 in
                after (λ done' s3. (ok result.0, s3)) kept.0 kept.1)
              answered.0 answered.1)
          done.0 done.1

    -- `stale` is what the uninitialised variable of `processOidCreate` holds.
    unfoldable pub process_quad_event : Api → Request → ℕ → Method (Server Map V) Status
    unfolding serve translate_request otai_deserialize_object_meta_key
    process_quad_event api request stale s =
        elim (otai_deserialize_object_meta_key texts request.key) [
          | throws message ↦ (throws message, s)
          | ok (object_type, vid) ↦
              if t.is_object_type_valid object_type
              then elim (texts.deserialize_attr_list object_type request.values) [
                | throws message ↦ (throws message, s)
                | ok attrs ↦
                    let translated = translate_request api object_type attrs s in
                    after (serve api request object_type vid stale) translated.0 translated.1
              ]
              else (throws "invalid object type", s)
        ]

    -- By the command of the request.
    pub process_single_event : Request → ℕ → Method (Server Map V) Status
    unfolding process_quad_event
    process_single_event request stale s =
        if same_text request.key []
        then (ok success, s)
        else if same_text request.op (text "create")
        then process_quad_event create_api request stale s
        else if same_text request.op (text "remove")
        then process_quad_event remove_api request stale s
        else if same_text request.op (text "set")
        then process_quad_event set_api request stale s
        else if same_text request.op (text "get")
        then process_quad_event get_api request stale s
        else (throws "event op is not implemented, FIXME", s)

    -- The requests that wait on the channel, each with what the variable holds then.
    unfoldable pub process_event : List (Request × ℕ) → Method (Server Map V) (Unit {0})
    unfolding process_single_event
    process_event [] s = (ok tt, s)
    process_event ((request, stale) ∷ rest) s =
        let first = process_single_event request stale s in
        after (λ status. process_event rest) first.0 first.1
