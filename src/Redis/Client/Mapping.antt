-- ===== src/Redis/Client/Mapping.antt =====
-- The stored maps are what the translator asks for.
use sonic_otairedis.Common.{
  ℕ, zero, suc, ◌^◌, ◌<◌, ◌≡◌, ◌≢◌, ap, sym, ◌∙◌, inl, inr, arith, [], ◌∷◌, ok, ◌==◌, ==_eq,
  Bool-cases, if◌then◌else◌,
}
use sonic_otairedis.Serialize.ObjectId.{Text, otai_serialize_object_id}
use sonic_otairedis.Serialize.ObjectId.RoundTrip.{deserialize-serialize, serialize_injective}
use sonic_otairedis.Redis.Database.{Redis, IsRedis}
use sonic_otairedis.Redis.VidMap.{VidMap, IsVidMap}
use sonic_otairedis.Redis.Client.{
  vid_to_rid, rid_to_vid, vid_counter, get_vid_for_rid, get_rid_for_vid, insert_vid_and_rid,
  remove_vid_and_rid, increment,
}

-- The byte at which two names of keys differ.
abbrev byte : ℕ → Text → ℕ
byte i [] = 0
byte zero (c ∷ s) = c
byte (suc i) (c ∷ s) = byte i s

maps_ne : vid_to_rid ≢ rid_to_vid
maps_ne e = omega (arith, ap (byte 0) e)

counter_ne_vid : vid_counter ≢ vid_to_rid
counter_ne_vid e = omega (arith, ap (byte 3) e)

counter_ne_rid : vid_counter ≢ rid_to_vid
counter_ne_rid e = omega (arith, ap (byte 0) e)

ids_ne : (a b : ℕ) → a ≢ b → otai_serialize_object_id a ≢ otai_serialize_object_id b
ids_ne a b ne e = ne (serialize_injective a b e)

module _ (null : ℕ) (r : Redis) (law : IsRedis r) where
  open r use {Db, counter}

  get_vid-insert :
      (db : Db) (vid rid rid' : ℕ)
      → vid < 2 ^ 64
      → get_vid_for_rid null r (insert_vid_and_rid r db vid rid) rid'
        ≡ (if rid == rid' then ok vid else get_vid_for_rid null r db rid')
  unfolding get_vid_for_rid insert_vid_and_rid
  get_vid-insert db vid rid rid' h = elim (Bool-cases (rid == rid')) [
    | inl same ↦
        rw (same, ← ==_eq rid rid' same, law.hget-hset _ rid_to_vid _ _)
          (deserialize-serialize vid h)
    | inr other ↦ rw (
      other,
      law.hget-hset_ne _ rid_to_vid _ _ rid_to_vid _ (inr (ids_ne rid rid' (ground arith))),
      law.hget-hset_ne _ vid_to_rid _ _ rid_to_vid _ (inl maps_ne),
    )
  ]

  get_rid-insert :
      (db : Db) (vid rid vid' : ℕ)
      → rid < 2 ^ 64
      → get_rid_for_vid null r (insert_vid_and_rid r db vid rid) vid'
        ≡ (if vid == vid' then ok rid else get_rid_for_vid null r db vid')
  unfolding get_rid_for_vid insert_vid_and_rid
  get_rid-insert db vid rid vid' h =
      rw (law.hget-hset_ne _ rid_to_vid _ _ vid_to_rid _ (inl (λ e. maps_ne (sym e))))
        (elim (Bool-cases (vid == vid')) [
          | inl same ↦
              rw (same, ← ==_eq vid vid' same, law.hget-hset _ vid_to_rid _ _)
                (deserialize-serialize rid h)
          | inr other ↦ rw (
            other,
            law.hget-hset_ne _ vid_to_rid _ _ vid_to_rid _ (inr (ids_ne vid vid' (ground arith))),
          )
        ])

  get_vid-remove :
      (db : Db) (vid rid rid' : ℕ)
      → get_vid_for_rid null r (remove_vid_and_rid r db vid rid) rid'
        ≡ (if rid == rid' then ok null else get_vid_for_rid null r db rid')
  unfolding get_vid_for_rid remove_vid_and_rid
  get_vid-remove db vid rid rid' = elim (Bool-cases (rid == rid')) [
    | inl same ↦ rw (same, ← ==_eq rid rid' same, law.hget-hdel _ rid_to_vid _)
    | inr other ↦ rw (
      other,
      law.hget-hdel_ne _ rid_to_vid _ rid_to_vid _ (inr (ids_ne rid rid' (ground arith))),
      law.hget-hdel_ne _ vid_to_rid _ rid_to_vid _ (inl maps_ne),
    )
  ]

  get_rid-remove :
      (db : Db) (vid rid vid' : ℕ)
      → get_rid_for_vid null r (remove_vid_and_rid r db vid rid) vid'
        ≡ (if vid == vid' then ok null else get_rid_for_vid null r db vid')
  unfolding get_rid_for_vid remove_vid_and_rid
  get_rid-remove db vid rid vid' =
      rw (law.hget-hdel_ne _ rid_to_vid _ vid_to_rid _ (inl (λ e. maps_ne (sym e))))
        (elim (Bool-cases (vid == vid')) [
          | inl same ↦ rw (same, ← ==_eq vid vid' same, law.hget-hdel _ vid_to_rid _)
          | inr other ↦ rw (
            other,
            law.hget-hdel_ne _ vid_to_rid _ vid_to_rid _ (inr (ids_ne vid vid' (ground arith))),
          )
        ])

  -- The database as the translator sees it.
  abbrev pub vid_map : VidMap
  vid_map = record {
    Db = Db;
    get_vid_for_rid = get_vid_for_rid null r;
    get_rid_for_vid = get_rid_for_vid null r;
    insert_vid_and_rid = insert_vid_and_rid r;
    remove_vid_and_rid = remove_vid_and_rid r;
    counter = λ db. counter db vid_counter;
    increment = increment r;
  }

  get_vid-increment :
      (db : Db) (rid : ℕ)
      → get_vid_for_rid null r (increment r db).1 rid ≡ get_vid_for_rid null r db rid
  unfolding get_vid_for_rid increment
  get_vid-increment db rid = rw (law.hget-incr db vid_counter rid_to_vid _ counter_ne_rid)

  get_rid-increment :
      (db : Db) (vid : ℕ)
      → get_rid_for_vid null r (increment r db).1 vid ≡ get_rid_for_vid null r db vid
  unfolding get_rid_for_vid increment
  get_rid-increment db vid = rw (law.hget-incr db vid_counter vid_to_rid _ counter_ne_vid)

  counter-insert :
      (db : Db) (vid rid : ℕ)
      → counter (insert_vid_and_rid r db vid rid) vid_counter ≡ counter db vid_counter
  unfolding insert_vid_and_rid
  counter-insert db vid rid =
      law.counter-hset _ vid_counter rid_to_vid _ _ counter_ne_rid
      ∙ law.counter-hset db vid_counter vid_to_rid _ _ counter_ne_vid

  counter-remove :
      (db : Db) (vid rid : ℕ)
      → counter (remove_vid_and_rid r db vid rid) vid_counter ≡ counter db vid_counter
  unfolding remove_vid_and_rid
  counter-remove db vid rid =
      law.counter-hdel _ vid_counter rid_to_vid _ counter_ne_rid
      ∙ law.counter-hdel db vid_counter vid_to_rid _ counter_ne_vid

  -- Over any database that does what Redis documents, the client's two hashes are maps from ids
  -- to ids: a mapping of 64-bit ids that was inserted is found from both sides, one that was
  -- removed reads as null, all others stay, and the counter goes up by one at each increment and
  -- stays otherwise.
  pub client-IsVidMap : IsVidMap null vid_map
  unfolding increment
  client-IsVidMap = record {
    get_vid-insert = get_vid-insert;
    get_rid-insert = get_rid-insert;
    get_vid-remove = get_vid-remove;
    get_rid-remove = get_rid-remove;
    get_vid-increment = get_vid-increment;
    get_rid-increment = get_rid-increment;
    increment_value = λ db. law.incr_value db vid_counter;
    counter-increment = λ db. law.counter-incr db vid_counter;
    counter-insert = counter-insert;
    counter-remove = counter-remove;
  }
