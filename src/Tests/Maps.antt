-- ===== src/Tests/Maps.antt =====
-- The translator over a concrete database: RID 77 of VID 0x0003000000000005, and new RIDs.
use sonic_otairedis.Serialize.ObjectId.{otai_deserialize_object_id, otai_serialize_object_id}
use sonic_otairedis.Common.{
  ℕ, ◌+◌, ◌≡◌, refl, true, false, arith, List, [], ◌∷◌, none, some, ok, throws,
}
use sonic_otairedis.Oid.Virtual.{
  index_bits, type_bits, linecard_bits, construct_object_id, allocate_new_object_id,
  otai_object_type_query,
}
use sonic_otairedis.Redis.VidMap.{IsVidMap}
use sonic_otairedis.Redis.Client.{
  insert_vid_and_rid, set_vid_and_rid_map, get_rid_for_vid, get_vid_for_rid, increment,
}
use sonic_otairedis.Redis.Client.Mapping.{vid_map, client-IsVidMap}
use sonic_otairedis.Translator.{
  Translator, insert_rid_and_vid, erase_rid_and_vid, translate_vid_to_rid, try_translate_vid_to_rid,
  check_rid_exists, translate_rid_to_vid,
}
use sonic_otairedis.Translator.Coherence.{
  Coherent, Call, erases, clears, to_rid, to_vid, run, insert-Coherent, run-Coherent,
}
use sonic_otairedis.Translator.Transparency.{
  without_cache, translate_vid_transparent, translate_rid_transparent,
}
use sonic_otairedis.Translator.NewRid.{IsNew, translate_rid-new}
use sonic_otairedis.Translator.Removal.{translate-erase}
use sonic_otairedis.Tests.World.{
  types, types-IsOtai, redis, redis-IsRedis, stored_map, stored_map-IsVidMap, started,
}

client-IsVidMap_example : IsVidMap 0 (vid_map 0 redis redis-IsRedis)
client-IsVidMap_example = client-IsVidMap 0 redis redis-IsRedis

abbrev card : ℕ
card = 0x0001000000000000

abbrev thing : ℕ
thing = 0x0003000000000005

-- The vendor library gives every RID the type 3.
abbrev vendor : ℕ → ℕ
vendor rid = 3

abbrev mapped : Translator stored_map
mapped = insert_rid_and_vid stored_map 77 thing started

started-Coherent : Coherent stored_map started
started-Coherent = record { rids = λ r v e. cc; vids = λ v r e. cc }

mapped-Coherent : Coherent stored_map mapped
mapped-Coherent =
    insert-Coherent stored_map stored_map-IsVidMap 77 thing started (omega arith) (omega arith)
      (λ e. omega arith) (λ e. omega arith) started-Coherent

abbrev calls : List Call
calls = to_vid 78 card false ∷ erases 77 thing ∷ to_rid thing ∷ clears ∷ []

run-Coherent_example : Coherent stored_map (run stored_map vendor mapped calls)
run-Coherent_example =
    run-Coherent stored_map stored_map-IsVidMap types-IsOtai vendor calls mapped
      (omega arith, (tt, (tt, (tt, tt)))) mapped-Coherent

translate_vid_transparent_example :
    (translate_vid_to_rid stored_map thing mapped).0
    ≡ (translate_vid_to_rid stored_map thing (without_cache mapped)).0
translate_vid_transparent_example =
    translate_vid_transparent stored_map mapped mapped-Coherent thing

translate_rid_transparent_example :
    (translate_rid_to_vid stored_map vendor 77 card false mapped).0
    ≡ (translate_rid_to_vid stored_map vendor 77 card false (without_cache mapped)).0
translate_rid_transparent_example =
    translate_rid_transparent stored_map mapped mapped-Coherent vendor 77 card false

abbrev both : Translator stored_map
both = insert_rid_and_vid stored_map 78 (thing + 1) mapped

both-Coherent : Coherent stored_map both
both-Coherent =
    insert-Coherent stored_map stored_map-IsVidMap 78 (thing + 1) mapped (omega arith) (omega arith)
      (λ e. omega arith) (λ e. omega arith) mapped-Coherent

local_test : both.rid2vid 77 ≡ some thing
unfolding insert_rid_and_vid
local_test = refl

local_test' : both.rid2vid 78 ≡ some (thing + 1)
unfolding insert_rid_and_vid
local_test' = refl

unknown_test : both.rid2vid 0 ≡ none
unfolding insert_rid_and_vid
unknown_test = refl

stored_test : stored_map.get_vid_for_rid both.db 77 ≡ ok thing
stored_test = (both-Coherent.rids 77 thing local_test).0

started_new : IsNew stored_map stored_map-IsVidMap types-IsOtai vendor 77 card false started
unfolding get_vid_for_rid
started_new = record {
  not_null = λ e. omega arith;
  not_local = refl;
  not_stored = refl;
  not_removed = refl;
}

abbrev first : ℕ
first = 0x0003000000000001

abbrev after_first : Translator stored_map
after_first =
    insert_rid_and_vid stored_map 77 first
      (record started { db = (stored_map.increment started.db).1 })

translate_test :
    translate_rid_to_vid stored_map vendor 77 card false started ≡ (ok first, after_first)
unfolding translate_rid_to_vid get_vid_for_rid allocate_new_object_id otai_object_type_query
    type_bits construct_object_id linecard_bits increment insert_rid_and_vid
translate_test = refl

translate_rid-new_example :
    (type_bits first ≡ 3)
    × (linecard_bits first ≡ linecard_bits card)
    × (index_bits first ≡ stored_map.counter started.db + 1)
    × (stored_map.counter after_first.db ≡ stored_map.counter started.db + 1)
    × (translate_vid_to_rid stored_map first after_first ≡ (ok 77, after_first))
    × (translate_rid_to_vid stored_map vendor 77 card false after_first ≡ (ok first, after_first))
translate_rid-new_example =
    translate_rid-new stored_map stored_map-IsVidMap types-IsOtai vendor 77 card false started first
      after_first started_new translate_test

translate-erase_example :
    let s' = erase_rid_and_vid stored_map 77 thing mapped in
    (translate_vid_to_rid stored_map thing s' ≡ (throws "unable to get RID for VID", s'))
    × (translate_rid_to_vid stored_map vendor 77 card true s' ≡ (ok thing, s'))
    × (check_rid_exists stored_map 77 true s' ≡ ok true)
    × (check_rid_exists stored_map 77 false s' ≡ ok false)
translate-erase_example =
    translate-erase stored_map stored_map-IsVidMap 77 thing mapped (λ e. omega arith)
      (λ e. omega arith) vendor card

try_test : (try_translate_vid_to_rid stored_map thing started).0 ≡ none
unfolding try_translate_vid_to_rid translate_vid_to_rid get_rid_for_vid
try_test = refl

-- A new map takes the place of the old one.
renewed_test :
    let db = set_vid_and_rid_map redis mapped.db ((first, 77) ∷ []) in
    (stored_map.get_rid_for_vid db first ≡ ok 77) × (stored_map.get_rid_for_vid db thing ≡ ok 0)
unfolding set_vid_and_rid_map get_rid_for_vid insert_vid_and_rid otai_serialize_object_id
    otai_deserialize_object_id
renewed_test = (refl, refl)
