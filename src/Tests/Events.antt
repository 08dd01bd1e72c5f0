-- ===== src/Tests/Events.antt =====
-- Three requests from their texts to their answers: a port is created, changed and read.
use sonic_otairedis.Translator.Attributes.{
  translate_attributes_to_vids, translate_attributes_to_rids,
}
use sonic_otairedis.Common.{
  ℕ, ◌≡◌, refl, true, List, [], ◌∷◌, some, Result, ok, throws, if◌then◌else◌,
}
use sonic_otairedis.Otai.{Status, success}
use sonic_otairedis.Serialize.ObjectId.{
  Text, text, otai_serialize_object_id, otai_deserialize_object_id,
}
use sonic_otairedis.Serialize.Texts.{same_text}
use sonic_otairedis.Oid.VidManager
use sonic_otairedis.Oid.Virtual
use sonic_otairedis.Redis.Client.{get_vid_for_rid, insert_vid_and_rid, set_asic_object}
use sonic_otairedis.Translator.{insert_rid_and_vid, translate_vid_to_rid, try_translate_rid_to_vid}
use sonic_otairedis.Requests.{set_api}
use sonic_otairedis.Requests.Events.{Request, Texts, Server, process_quad_event, process_event}
use sonic_otairedis.Requests.Events.Answers.{AllAnswered, process_event-AllAnswered}
use sonic_otairedis.Requests.Events.Effects.{SetEffect, set_event-SetEffect}
use sonic_otairedis.Tests.World.{types, redis, redis-IsRedis, stored_map}
use sonic_otairedis.Tests.Checks.{plain, meta}
use sonic_otairedis.Tests.Requests.{vendor, no_discovery, syncd}

abbrev texts : Texts
texts = record {
  deserialize_object_type =
      λ name. if same_text name (text "PORT") then ok 3 else throws "unknown type";
  deserialize_attr_list = λ ty values. ok (record { id = 1; value = plain } ∷ []);
  serialize_attr_list = λ ty attrs. ok ((text "mode", text "2") ∷ []);
  type_name = λ ty. text "PORT";
  vendor_type = λ rid. 3;
  isrecoverable = λ attr. some true;
  meta_key_of = λ key. ok key;
}

abbrev port : Text
port = text "PORT:oid:0x3000000000005"

abbrev values : List (Text × Text)
values = (text "mode", text "2") ∷ []

abbrev request : Text → Request
request op = record { key = port; op = op; values = values }

abbrev requests : List (Request × ℕ)
requests = (request (text "create"), 0) ∷ (request (text "set"), 0) ∷ (request (text "get"), 0) ∷ []

abbrev before : Server stored_map ℕ
before = record { syncd = syncd; sent = [] }

abbrev end : Result (Unit {0}) × Server stored_map ℕ
end = process_event texts meta redis redis-IsRedis vendor no_discovery requests before

-- The last answer is first.
events_test :
    (end.0 ≡ ok tt)
    × (end.1.sent
        ≡ record { status = success; entry = (text "mode", text "2") ∷ [] }
          ∷ record { status = success; entry = [] }
          ∷ record { status = success; entry = [] }
          ∷ [])
    × (redis.hget end.1.syncd.translator.db
          (text "ASIC_STATE:PORT:oid:0x3000000000005")
          (text "mode")
        ≡ some (text "2"))
unfolding process_event otai_deserialize_object_id translate_attributes_to_rids
    VidManager.linecard_id_query Virtual.linecard_id_query Virtual.object_type_query
    Virtual.type_bits Virtual.construct_object_id Virtual.linecard_bits translate_vid_to_rid
    insert_rid_and_vid try_translate_rid_to_vid get_vid_for_rid insert_vid_and_rid
    otai_serialize_object_id translate_attributes_to_vids set_asic_object
events_test = (refl, refl, refl)

process_event-AllAnswered_example :
    AllAnswered texts meta redis redis-IsRedis vendor no_discovery requests before end.1
process_event-AllAnswered_example =
    process_event-AllAnswered texts meta redis redis-IsRedis vendor no_discovery requests before
      end.1 (λ i. (events_test.0 i, end.1))

abbrev made : Server stored_map ℕ
made =
    (process_event texts meta redis redis-IsRedis vendor no_discovery
      ((request (text "create"), 0) ∷ []) before).1

abbrev changed : Result Status × Server stored_map ℕ
changed =
    process_quad_event texts meta redis redis-IsRedis vendor no_discovery set_api
      (request (text "set")) 0 made

changed_test : changed.0 ≡ ok success
unfolding process_event process_quad_event otai_deserialize_object_id translate_attributes_to_rids
    translate_vid_to_rid VidManager.linecard_id_query Virtual.linecard_id_query
    Virtual.object_type_query Virtual.type_bits Virtual.construct_object_id Virtual.linecard_bits
    insert_rid_and_vid try_translate_rid_to_vid get_vid_for_rid insert_vid_and_rid
    otai_serialize_object_id
changed_test = refl

set_event-SetEffect_example :
    SetEffect texts meta redis redis-IsRedis vendor (request (text "set")) made success changed.1
set_event-SetEffect_example =
    set_event-SetEffect texts meta redis redis-IsRedis vendor no_discovery (request (text "set")) 0
      made success changed.1 (λ i. (changed_test i, changed.1))
