-- ===== src/Redis/VidMap.antt =====
-- What the translator asks of the stored VID and RID maps, and of the index counter beside them:
-- the interface between syncd/VirtualOidTranslator.cpp and syncd/RedisClient.cpp.
use sonic_otairedis.Common.{ℕ, ◌+◌, ◌^◌, ◌<◌, ◌≡◌, Result, ok, ◌==◌, if◌then◌else◌}

pub record VidMap : Type 1 where
  pub Db : Type 0
  pub get_vid_for_rid : Db → ℕ → Result ℕ
  pub get_rid_for_vid : Db → ℕ → Result ℕ
  -- The arguments are the VID and the RID, as in the source.
  pub insert_vid_and_rid : Db → ℕ → ℕ → Db
  pub remove_vid_and_rid : Db → ℕ → ℕ → Db
  pub counter : Db → ℕ
  pub increment : Db → ℕ × Db

-- Null stands for a mapping that is not there.
pub record IsVidMap (null : ℕ) (m : VidMap) : Type 0 where
  pub get_vid-insert :
      (db : m.Db) (vid rid rid' : ℕ)
      → vid < 2 ^ 64
      → m.get_vid_for_rid (m.insert_vid_and_rid db vid rid) rid'
        ≡ (if rid == rid' then ok vid else m.get_vid_for_rid db rid')
  pub get_rid-insert :
      (db : m.Db) (vid rid vid' : ℕ)
      → rid < 2 ^ 64
      → m.get_rid_for_vid (m.insert_vid_and_rid db vid rid) vid'
        ≡ (if vid == vid' then ok rid else m.get_rid_for_vid db vid')
  pub get_vid-remove :
      (db : m.Db) (vid rid rid' : ℕ)
      → m.get_vid_for_rid (m.remove_vid_and_rid db vid rid) rid'
        ≡ (if rid == rid' then ok null else m.get_vid_for_rid db rid')
  pub get_rid-remove :
      (db : m.Db) (vid rid vid' : ℕ)
      → m.get_rid_for_vid (m.remove_vid_and_rid db vid rid) vid'
        ≡ (if vid == vid' then ok null else m.get_rid_for_vid db vid')
  pub get_vid-increment :
      (db : m.Db) (rid : ℕ) → m.get_vid_for_rid (m.increment db).1 rid ≡ m.get_vid_for_rid db rid
  pub get_rid-increment :
      (db : m.Db) (vid : ℕ) → m.get_rid_for_vid (m.increment db).1 vid ≡ m.get_rid_for_vid db vid
  pub increment_value : (db : m.Db) → (m.increment db).0 ≡ m.counter db + 1
  pub counter-increment : (db : m.Db) → m.counter (m.increment db).1 ≡ m.counter db + 1
  pub counter-insert :
      (db : m.Db) (vid rid : ℕ) → m.counter (m.insert_vid_and_rid db vid rid) ≡ m.counter db
  pub counter-remove :
      (db : m.Db) (vid rid : ℕ) → m.counter (m.remove_vid_and_rid db vid rid) ≡ m.counter db
