-- ===== src/Redis/Database.antt =====
-- The commands of a Redis database that the program sends through `swss::DBConnector`, a library of
-- its own: a parameter, with what Redis documents of them.
use sonic_otairedis.Common.{ℕ, ◌+◌, ◌≡◌, ◌≢◌, ◌⊎◌, Option, none, some}
use sonic_otairedis.Serialize.ObjectId.{Text}

pub record Redis : Type 1 where
  pub Db : Type 0
  -- HGET key field, HSET key field value, HDEL key field, DEL key
  pub hget : Db → Text → Text → Option Text
  pub hset : Db → Text → Text → Text → Db
  pub hdel : Db → Text → Text → Db
  pub del : Db → Text → Db
  -- GET of a counter, and INCR
  pub counter : Db → Text → ℕ
  pub incr : Db → Text → ℕ × Db

-- A field of another hash, or another field of the hash, keeps its value; counters are keys of
-- their own.
pub record IsRedis (r : Redis) : Type 0 where
  pub hget-hset : (db : r.Db) (k f v : Text) → r.hget (r.hset db k f v) k f ≡ some v
  pub hget-hset_ne :
      (db : r.Db) (k f v k' f' : Text)
      → (k ≢ k') ⊎ (f ≢ f')
      → r.hget (r.hset db k f v) k' f' ≡ r.hget db k' f'
  pub hget-hdel : (db : r.Db) (k f : Text) → r.hget (r.hdel db k f) k f ≡ none
  pub hget-hdel_ne :
      (db : r.Db) (k f k' f' : Text)
      → (k ≢ k') ⊎ (f ≢ f')
      → r.hget (r.hdel db k f) k' f' ≡ r.hget db k' f'
  pub hget-del : (db : r.Db) (k f : Text) → r.hget (r.del db k) k f ≡ none
  pub hget-del_ne : (db : r.Db) (k k' f : Text) → k ≢ k' → r.hget (r.del db k) k' f ≡ r.hget db k' f
  pub hget-incr : (db : r.Db) (c k f : Text) → c ≢ k → r.hget (r.incr db c).1 k f ≡ r.hget db k f
  pub incr_value : (db : r.Db) (c : Text) → (r.incr db c).0 ≡ r.counter db c + 1
  pub counter-incr : (db : r.Db) (c : Text) → r.counter (r.incr db c).1 c ≡ r.counter db c + 1
  pub counter-hset :
      (db : r.Db) (c k f v : Text) → c ≢ k → r.counter (r.hset db k f v) c ≡ r.counter db c
  pub counter-hdel :
      (db : r.Db) (c k f : Text) → c ≢ k → r.counter (r.hdel db k f) c ≡ r.counter db c
