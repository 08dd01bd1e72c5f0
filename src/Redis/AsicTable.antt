-- ===== src/Redis/AsicTable.antt =====
-- What the requests of syncd/Syncd.cpp ask of the objects kept in ASIC_STATE, beside the stored
-- maps: the interface to `removeAsicObject` of syncd/RedisClient.cpp.
use sonic_otairedis.Common.{ℕ, ◌≡◌, Method}
use sonic_otairedis.Redis.VidMap.{VidMap}

pub record AsicTable (m : VidMap) : Type 0 where
  pub remove_asic : ℕ → Method m.Db (Unit {0})

-- The objects and the maps are apart, whether the call returns or throws.
pub record IsAsicTable (m : VidMap) (a : AsicTable m) : Type 0 where
  pub get_vid-remove :
      (db : m.Db) (vid rid : ℕ)
      → m.get_vid_for_rid (a.remove_asic vid db).1 rid ≡ m.get_vid_for_rid db rid
  pub get_rid-remove :
      (db : m.Db) (vid vid' : ℕ)
      → m.get_rid_for_vid (a.remove_asic vid db).1 vid' ≡ m.get_rid_for_vid db vid'
