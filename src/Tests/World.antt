-- ===== src/Tests/World.antt =====
-- A concrete set of object types and a concrete database.
use sonic_otairedis.Common.{
  ℕ, ◌+◌, ◌<◌, ◌≡◌, ◌≢◌, ◌⊎◌, refl, Bool, true, false, ◌&&◌, arith, [], ◌∷◌, Option, none, some,
  ltb, ◌==◌, ==_refl, if◌then◌else◌, no_entries,
}
use sonic_otairedis.Otai.{ObjectTypes, IsOtai}
use sonic_otairedis.Serialize.ObjectId.{Text}
use sonic_otairedis.Redis.Database.{Redis, IsRedis}
use sonic_otairedis.Redis.VidMap.{VidMap, IsVidMap}
use sonic_otairedis.Redis.Client.Mapping.{vid_map, client-IsVidMap}
use sonic_otairedis.Translator.{Translator}

instance abbrev pub types : ObjectTypes
types = record {
  null_object_id = 0;
  null_type = 0;
  linecard = 1;
  ocm = 7;
  otdr = 8;
  extensions_max = 20;
  is_object_type_valid = λ x. ltb 0 x && ltb x 20;
}

pub types-IsOtai : IsOtai types
types-IsOtai = record {
  null_object_id_zero = refl;
  null_type_zero = refl;
  linecard_pos = omega arith;
  linecard_below = omega arith;
  linecard_valid = refl;
  valid_pos = λ x h. ground arith;
  valid_below = λ x h. ground arith;
  extensions_max_below = omega arith;
}

pub types_complete : (x : ℕ) → 0 < x → x < 20 → types.is_object_type_valid x ≡ true
types_complete x h k = ground arith

abbrev same_text : Text → Text → Bool
same_text [] [] = true
same_text [] (d ∷ s) = false
same_text (c ∷ r) [] = false
same_text (c ∷ r) (d ∷ s) = (c == d) && same_text r s

same_text_refl : (s : Text) → same_text s s ≡ true
same_text_refl [] = refl
same_text_refl (c ∷ s) = ground (arith, ==_refl c, same_text_refl s)

same_text_eq : (r s : Text) → same_text r s ≡ true → r ≡ s
same_text_eq [] [] h = refl
same_text_eq [] (d ∷ s) h = cc
same_text_eq (c ∷ r) [] h = cc
same_text_eq (c ∷ r) (d ∷ s) h = let ih = same_text_eq r s in ground arith

-- Hashes by what a field holds, and counters beside them.
pub record Store : Type 0 where
  pub hashes : Text → Text → Option Text
  pub counters : Text → ℕ

abbrev write : Store → Text → Text → Option Text → Store
write db k f v = record db {
  hashes = λ k' f'. if same_text k k' && same_text f f' then v else db.hashes k' f';
}

abbrev pub redis : Redis
redis = record {
  Db = Store;
  hget = λ db k f. db.hashes k f;
  hset = λ db k f v. write db k f (some v);
  hdel = λ db k f. write db k f none;
  del = λ db k. record db { hashes = λ k' f. if same_text k k' then none else db.hashes k' f };
  counter = λ db k. db.counters k;
  incr = λ db k. (
    db.counters k + 1,
    record db { counters = λ k'. if same_text k k' then db.counters k + 1 else db.counters k' },
  );
}

write_same : (db : Store) (k f : Text) (v : Option Text) → (write db k f v).hashes k f ≡ v
write_same db k f v = rw (same_text_refl k, same_text_refl f) refl

write_other :
    (db : Store) (k f : Text) (v : Option Text) (k' f' : Text)
    → (k ≢ k') ⊎ (f ≢ f')
    → (write db k f v).hashes k' f' ≡ db.hashes k' f'
write_other db k f v k' f' ne = ground (arith, same_text_eq k k', same_text_eq f f')

pub redis-IsRedis : IsRedis redis
redis-IsRedis = record {
  hget-hset = λ db k f v. write_same db k f (some v);
  hget-hset_ne = λ db k f v k' f' ne. write_other db k f (some v) k' f' ne;
  hget-hdel = λ db k f. write_same db k f none;
  hget-hdel_ne = λ db k f k' f' ne. write_other db k f none k' f' ne;
  hget-del = λ db k f. rw (same_text_refl k) refl;
  hget-del_ne = λ db k k' f ne. ground (arith, same_text_eq k k');
  hget-incr = λ db c k f ne. refl;
  incr_value = λ db c. refl;
  counter-incr = λ db c. rw (same_text_refl c) refl;
  counter-hset = λ db c k f v ne. refl;
  counter-hdel = λ db c k f ne. refl;
}

abbrev pub stored_map : VidMap
stored_map = vid_map 0 redis redis-IsRedis

pub stored_map-IsVidMap : IsVidMap 0 stored_map
stored_map-IsVidMap = client-IsVidMap 0 redis redis-IsRedis

abbrev pub no_objects : Store
no_objects = record { hashes = λ k f. none; counters = λ k. 0 }

-- Nothing translated yet.
abbrev pub started : Translator stored_map
started = record {
  rid2vid = no_entries;
  vid2rid = no_entries;
  removed_rid2vid = no_entries;
  db = no_objects;
}
