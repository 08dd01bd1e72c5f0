-- ===== src/Redis/Client.antt =====
-- syncd/RedisClient.cpp: the maps between VIDs and RIDs, and the objects of ASIC_STATE, in the
-- database ASIC_DB.
pub mod Mapping
pub mod Objects
use sonic_otairedis.Common.{ℕ, List, [], ◌∷◌, ◌++◌, Option, none, some, Result, ok, throws, Method}
use sonic_otairedis.Serialize.ObjectId.{
  Text, text, otai_serialize_object_id, otai_deserialize_object_id,
}
use sonic_otairedis.Otai.{ObjectTypes}
use sonic_otairedis.Oid.VidManager
use sonic_otairedis.Redis.Database.{Redis}

abbrev pub vid_to_rid : Text
vid_to_rid = text "VIDTORID"

abbrev pub rid_to_vid : Text
rid_to_vid = text "RIDTOVID"

-- REDIS_KEY_VIDCOUNTER
abbrev pub vid_counter : Text
vid_counter = text "VIDCOUNTER"

module _ (null_object_id : ℕ) (r : Redis) where
  open r use {Db, hget, hset, hdel, del, incr}

  -- A field that is not there reads as null; one that is no id throws.
  pub read_field : Option Text → Result ℕ
  read_field none = ok null_object_id
  read_field (some value) = otai_deserialize_object_id value

  unfoldable pub get_vid_for_rid : Db → ℕ → Result ℕ
  unfolding read_field
  get_vid_for_rid db rid = read_field (hget db rid_to_vid (otai_serialize_object_id rid))

  unfoldable pub get_rid_for_vid : Db → ℕ → Result ℕ
  unfolding read_field
  get_rid_for_vid db vid = read_field (hget db vid_to_rid (otai_serialize_object_id vid))

module _ (r : Redis) where
  open r use {Db, hget, hset, hdel, del, incr}

  unfoldable pub insert_vid_and_rid : Db → ℕ → ℕ → Db
  insert_vid_and_rid db vid rid =
      let str_vid = otai_serialize_object_id vid in
      let str_rid = otai_serialize_object_id rid in
      hset (hset db vid_to_rid str_vid str_rid) rid_to_vid str_rid str_vid

  pub remove_vid_and_rid : Db → ℕ → ℕ → Db
  remove_vid_and_rid db vid rid =
      hdel (hdel db vid_to_rid (otai_serialize_object_id vid)) rid_to_vid
        (otai_serialize_object_id rid)

  -- The loop over the new map of `setVidAndRidMap`, VIDs to RIDs.
  pub insert_all : Db → List (ℕ × ℕ) → Db
  insert_all db [] = db
  insert_all db ((vid, rid) ∷ rest) = insert_all (insert_vid_and_rid db vid rid) rest

  unfoldable pub set_vid_and_rid_map : Db → List (ℕ × ℕ) → Db
  unfolding insert_all
  set_vid_and_rid_map db pairs = insert_all (del (del db vid_to_rid) rid_to_vid) pairs

  -- `RedisVidIndexGenerator::increment` of lib/RedisVidIndexGenerator.cpp.
  unfoldable pub increment : Db → ℕ × Db
  increment db = incr db vid_counter

-- ASIC_STATE_TABLE ":"
abbrev pub asic_state_prefix : Text
asic_state_prefix = text "ASIC_STATE:"

module _ (r : Redis) where
  open r use {Db, hset, del}

  -- The key of an object is `otai_serialize_object_meta_key` of it, an argument.
  unfoldable pub remove_asic_object : Db → Text → Db
  remove_asic_object db meta_key = del db (asic_state_prefix ++ meta_key)

  unfoldable pub set_asic_object : Db → Text → Text → Text → Db
  set_asic_object db meta_key attr value = hset db (asic_state_prefix ++ meta_key) attr value

  pub set_fields : Db → Text → List (Text × Text) → Db
  set_fields db key [] = db
  set_fields db key ((field, value) ∷ rest) = set_fields (hset db key field value) key rest

  -- An object with no attributes is kept by a field of its own.
  pub create_asic_object : Db → Text → List (Text × Text) → Db
  unfolding set_fields
  create_asic_object db meta_key [] =
      hset db (asic_state_prefix ++ meta_key) (text "NULL") (text "NULL")
  create_asic_object db meta_key (a ∷ attrs) =
      set_fields db (asic_state_prefix ++ meta_key) (a ∷ attrs)

  -- `removeAsicObject` by the VID, whose type is asked for first; `otai_serialize_object_type` is an
  -- argument.
  module _ ⦃t : ObjectTypes⦄ (type_name : ℕ → Text) where
    unfoldable pub remove_asic_vid : ℕ → Method Db (Unit {0})
    remove_asic_vid vid db = elim (VidManager.object_type_query vid) [
      | throws message ↦ (throws message, db)
      | ok object_type ↦ (
        ok tt,
        del db (
            asic_state_prefix ++ type_name object_type ++ text ":" ++ otai_serialize_object_id vid),
      )
    ]
