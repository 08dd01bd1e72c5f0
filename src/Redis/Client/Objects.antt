-- ===== src/Redis/Client/Objects.antt =====
-- The objects of ASIC_STATE and the maps between VIDs and RIDs do not meet.
use sonic_otairedis.Common.{
  ℕ, ◌≡◌, ◌≢◌, refl, ap, ◌∙◌, inl, inr, arith, List, [], ◌∷◌, ◌++◌, Result-cases,
}
use sonic_otairedis.Otai.{ObjectTypes}
use sonic_otairedis.Oid.VidManager
use sonic_otairedis.Serialize.ObjectId.{Text, text, otai_serialize_object_id}
use sonic_otairedis.Redis.Database.{Redis, IsRedis}
use sonic_otairedis.Redis.AsicTable.{AsicTable, IsAsicTable}
use sonic_otairedis.Redis.Client.{
  vid_to_rid, rid_to_vid, asic_state_prefix, get_vid_for_rid, get_rid_for_vid, remove_asic_object,
  set_asic_object, set_fields, create_asic_object, remove_asic_vid, read_field,
}
use sonic_otairedis.Redis.Client.Mapping.{vid_map}

abbrev first_byte : Text → ℕ
first_byte [] = 0
first_byte (c ∷ s) = c

prefix_ne_vids : (s : Text) → asic_state_prefix ++ s ≢ vid_to_rid
prefix_ne_vids s e = omega (arith, ap first_byte e)

prefix_ne_rids : (s : Text) → asic_state_prefix ++ s ≢ rid_to_vid
prefix_ne_rids s e = omega (arith, ap first_byte e)

module _ (r : Redis) (law : IsRedis r) where
  -- Two databases with the same maps between VIDs and RIDs.
  abbrev pub SameMaps : r.Db → r.Db → Type 0
  SameMaps db db' =
      (f : Text)
      → (r.hget db' vid_to_rid f ≡ r.hget db vid_to_rid f)
        × (r.hget db' rid_to_vid f ≡ r.hget db rid_to_vid f)

  set_fields-SameMaps :
      (db : r.Db) (key : Text) (attrs : List (Text × Text))
      → SameMaps db (set_fields r db (asic_state_prefix ++ key) attrs)
  unfolding set_fields
  set_fields-SameMaps db key [] f = (refl, refl)
  set_fields-SameMaps db key ((field, value) ∷ rest) f =
      let ih = set_fields-SameMaps (r.hset db (asic_state_prefix ++ key) field value) key rest f in
      (
        ih.0 ∙ law.hget-hset_ne db _ field value vid_to_rid f (inl (prefix_ne_vids key)),
        ih.1 ∙ law.hget-hset_ne db _ field value rid_to_vid f (inl (prefix_ne_rids key)),
      )

  create-SameMaps :
      (db : r.Db) (key : Text) (attrs : List (Text × Text))
      → SameMaps db (create_asic_object r db key attrs)
  unfolding create_asic_object
  create-SameMaps db key [] f = (
    law.hget-hset_ne db _ _ _ vid_to_rid f (inl (prefix_ne_vids key)),
    law.hget-hset_ne db _ _ _ rid_to_vid f (inl (prefix_ne_rids key)),
  )
  create-SameMaps db key (a ∷ attrs) f = set_fields-SameMaps db key (a ∷ attrs) f

  -- Creating, changing and removing an object of ASIC_STATE, whatever its key, leaves both maps
  -- between VIDs and RIDs as they were.
  pub asic_objects_keep_maps :
      (db : r.Db) (key attr value : Text) (attrs : List (Text × Text))
      → SameMaps db (create_asic_object r db key attrs)
        × SameMaps db (set_asic_object r db key attr value)
        × SameMaps db (remove_asic_object r db key)
  unfolding set_asic_object remove_asic_object
  asic_objects_keep_maps db key attr value attrs = (
    create-SameMaps db key attrs,
    (λ f. (
      law.hget-hset_ne db _ attr value vid_to_rid f (inl (prefix_ne_vids key)),
      law.hget-hset_ne db _ attr value rid_to_vid f (inl (prefix_ne_rids key)),
    )),
    (λ f. (
      law.hget-del_ne db _ vid_to_rid f (prefix_ne_vids key),
      law.hget-del_ne db _ rid_to_vid f (prefix_ne_rids key),
    )),
  )

module _ ⦃t : ObjectTypes⦄ (null : ℕ) (r : Redis) (law : IsRedis r) (type_name : ℕ → Text) where
  abbrev pub asic_table : AsicTable (vid_map null r law)
  asic_table = record { remove_asic = remove_asic_vid r type_name }

  -- `removeAsicObject` of a VID, whether it deletes the object or throws, leaves both maps between
  -- VIDs and RIDs as they were.
  pub client-IsAsicTable : IsAsicTable (vid_map null r law) asic_table
  unfolding remove_asic_vid get_vid_for_rid get_rid_for_vid
  client-IsAsicTable = record {
    get_vid-remove = λ db vid rid. elim (Result-cases (VidManager.object_type_query vid)) [
      | inl (message, e) ↦ rw (e, remove_asic_vid) refl
      | inr (ot, e) ↦
          rw (e, remove_asic_vid)
            (ap (read_field null r) (
              law.hget-del_ne db _ rid_to_vid _
                (prefix_ne_rids (type_name ot ++ text ":" ++ otai_serialize_object_id vid))))
    ];
    get_rid-remove = λ db vid vid'. elim (Result-cases (VidManager.object_type_query vid)) [
      | inl (message, e) ↦ rw (e, remove_asic_vid) refl
      | inr (ot, e) ↦
          rw (e, remove_asic_vid)
            (ap (read_field null r) (
              law.hget-del_ne db _ vid_to_rid _
                (prefix_ne_vids (type_name ot ++ text ":" ++ otai_serialize_object_id vid))))
    ];
  }
