-- ===== src/Translator.antt =====
-- syncd/VirtualOidTranslator.cpp: RIDs of the vendor library to VIDs and back, through two local
-- maps in front of the stored ones. The mutex makes each method one step, so a method is a function
-- on the state; the stored maps are an interface, and the type that the vendor library gives a RID
-- is an argument.
pub mod Coherence
pub mod Transparency
pub mod NewRid
pub mod Removal
pub mod Linked
pub mod RoundTrip
pub mod Attributes
use sonic_otairedis.Common.{
  ℕ, Bool, true, false, not, ◌&&◌, ◌||◌, Option, none, some, List, [], ◌∷◌, Result, ok, throws,
  Method, after, ◌==◌, if◌then◌else◌, NatMap, no_entries, put, erase,
}
use sonic_otairedis.Otai.{ObjectTypes}
use sonic_otairedis.Redis.VidMap.{VidMap}
use sonic_otairedis.Oid.Virtual.{allocate_new_object_id}

-- m_rid2vid, m_vid2rid, m_removedRid2vid, and the database behind m_client.
pub record Translator (m : VidMap) : Type 0 where
  pub rid2vid : NatMap ℕ
  pub vid2rid : NatMap ℕ
  pub removed_rid2vid : NatMap ℕ
  pub db : m.Db

abbrev pub is_some {ℓ} : {A : Type ℓ} → Option A → Bool
is_some none = false
is_some (some a) = true

module _ ⦃t : ObjectTypes⦄ (m : VidMap) where
  open t use {null_object_id, null_type, linecard}
  open m use {
    Db, get_vid_for_rid, get_rid_for_vid, insert_vid_and_rid, remove_vid_and_rid, increment,
  }

  unfoldable pub insert_rid_and_vid : ℕ → ℕ → Translator m → Translator m
  insert_rid_and_vid rid vid s = record s {
    rid2vid = put s.rid2vid rid vid;
    vid2rid = put s.vid2rid vid rid;
    db = insert_vid_and_rid s.db vid rid;
  }

  unfoldable pub erase_rid_and_vid : ℕ → ℕ → Translator m → Translator m
  erase_rid_and_vid rid vid s = record s {
    rid2vid = erase s.rid2vid rid;
    vid2rid = erase s.vid2rid vid;
    removed_rid2vid = put s.removed_rid2vid rid vid;
    db = remove_vid_and_rid s.db vid rid;
  }

  pub clear_local_cache : Translator m → Translator m
  clear_local_cache s = record s {
    rid2vid = no_entries;
    vid2rid = no_entries;
    removed_rid2vid = no_entries;
  }

  -- A RID that came from the database is put into the local map.
  found_rid : ℕ → ℕ → Method (Translator m) ℕ
  found_rid vid rid s =
      if rid == null_object_id
      then (throws "unable to get RID for VID", s)
      else (ok rid, record s { vid2rid = put s.vid2rid vid rid })

  unfoldable pub translate_vid_to_rid : ℕ → Method (Translator m) ℕ
  unfolding found_rid
  translate_vid_to_rid vid s =
      if vid == null_object_id then (ok null_object_id, s) else elim (s.vid2rid vid) [
        | some rid ↦ (ok rid, s)
        | none ↦ after (found_rid vid) (get_rid_for_vid s.db vid) s
      ]

  -- `true` and the RID, or `false` where `translateVidToRid` threw.
  unfoldable pub try_translate_vid_to_rid : ℕ → Translator m → Option ℕ × Translator m
  try_translate_vid_to_rid vid s =
      let (r, s') = translate_vid_to_rid vid s in
      (elim r [ ok rid ↦ some rid | throws message ↦ none ], s')

  -- `vid` is the variable that is passed by reference, with the value that it has before the call.
  unfoldable pub try_translate_rid_to_vid : ℕ → ℕ → Translator m → Result (Bool × ℕ)
  try_translate_rid_to_vid rid vid s =
      if rid == null_object_id then ok (true, null_object_id) else elim (s.rid2vid vid) [
        | some found ↦ ok (true, found)
        | none ↦ elim (get_vid_for_rid s.db rid) [
          | throws message ↦ throws message
          | ok stored ↦ ok (not (stored == null_object_id), stored)
        ]
      ]

  pub check_rid_exists : ℕ → Bool → Translator m → Result Bool
  check_rid_exists rid check_removed s =
      if rid == null_object_id || is_some (s.rid2vid rid)
      then ok true
      else elim (get_vid_for_rid s.db rid) [
        | throws message ↦ throws message
        | ok stored ↦
            ok
              (not (stored == null_object_id) || (check_removed && is_some (s.removed_rid2vid rid)))
      ]

  pub save_new : ℕ → Result ℕ × Db → Method (Translator m) ℕ
  save_new rid (throws message, db) s = (throws message, record s { db = db })
  save_new rid (ok vid, db) s = (ok vid, insert_rid_and_vid rid vid (record s { db = db }))

  module _ (vendor_type : ℕ → ℕ) where
    spot_new : ℕ → ℕ → Method (Translator m) ℕ
    unfolding save_new insert_rid_and_vid
    spot_new rid linecard_vid s =
        if vendor_type rid == null_type
        then (throws "vendorOtai->objectTypeQuery returned NULL type for RID", s)
        else if vendor_type rid == linecard
        then (throws "RID is linecard object, but not in local or redis db, bug!", s)
        else save_new rid (allocate_new_object_id increment (vendor_type rid) linecard_vid s.db) s

    removed_or_new : ℕ → ℕ → Bool → Method (Translator m) ℕ
    unfolding spot_new
    removed_or_new rid linecard_vid translate_removed s =
        elim (if translate_removed then s.removed_rid2vid rid else none) [
          | some vid ↦ (ok vid, s)
          | none ↦ spot_new rid linecard_vid s
        ]

    stored_or_new : ℕ → ℕ → Bool → ℕ → Method (Translator m) ℕ
    unfolding removed_or_new
    stored_or_new rid linecard_vid translate_removed vid s =
        if vid == null_object_id
        then removed_or_new rid linecard_vid translate_removed s
        else (ok vid, s)

    unfoldable pub translate_rid_to_vid : ℕ → ℕ → Bool → Method (Translator m) ℕ
    unfolding stored_or_new
    translate_rid_to_vid rid linecard_vid translate_removed s =
        if rid == null_object_id then (ok null_object_id, s) else elim (s.rid2vid rid) [
          | some vid ↦ (ok vid, s)
          | none ↦
              after (stored_or_new rid linecard_vid translate_removed) (get_vid_for_rid s.db rid) s
        ]

    -- The overload for a list of RIDs: an element that throws ends the loop.
    unfoldable pub translate_rids : List ℕ → ℕ → Bool → Method (Translator m) (List ℕ)
    translate_rids [] linecard_vid translate_removed s = (ok [], s)
    translate_rids (rid ∷ rids) linecard_vid translate_removed s =
        after
          (λ vid s'.
            after (λ vids s''. (ok (vid ∷ vids), s''))
              (translate_rids rids linecard_vid translate_removed s').0
              (translate_rids rids linecard_vid translate_removed s').1)
          (translate_rid_to_vid rid linecard_vid translate_removed s).0
          (translate_rid_to_vid rid linecard_vid translate_removed s).1

  pub translate_vids : List ℕ → Method (Translator m) (List ℕ)
  translate_vids [] s = (ok [], s)
  translate_vids (vid ∷ vids) s =
      after
        (λ rid s'.
          after (λ rids s''. (ok (rid ∷ rids), s'')) (translate_vids vids s').0
            (translate_vids vids s').1)
        (translate_vid_to_rid vid s).0 (translate_vid_to_rid vid s).1
