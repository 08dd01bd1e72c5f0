-- ===== src/Translator/Removal.antt =====
-- What is left of a mapping that was erased.
use sonic_otairedis.Common.{ℕ, ◌≡◌, ◌≢◌, refl, true, false, arith, ok, throws}
use sonic_otairedis.Otai.{ObjectTypes, IsOtai}
use sonic_otairedis.Redis.VidMap.{VidMap, IsVidMap}
use sonic_otairedis.Translator.{
  Translator, erase_rid_and_vid, clear_local_cache, translate_vid_to_rid, translate_rid_to_vid,
  check_rid_exists,
}
use sonic_otairedis.Translator.NewRid.{IsNew}

module _ ⦃t : ObjectTypes⦄ (m : VidMap) (law : IsVidMap t.null_object_id m) (rid vid : ℕ)
    (s : Translator m) (nr : rid ≢ t.null_object_id) (nv : vid ≢ t.null_object_id) where
  open t use {null_object_id}

  -- After `eraseRidAndVid` of two ids that are not null, the VID has no RID. The RID still has
  -- its VID for a caller that asks for removed ones, exists for such a caller, and for no other.
  pub translate-erase :
      (vendor_type : ℕ → ℕ) (lc : ℕ)
      → let s' = erase_rid_and_vid m rid vid s in
        (translate_vid_to_rid m vid s' ≡ (throws "unable to get RID for VID", s'))
        × (translate_rid_to_vid m vendor_type rid lc true s' ≡ (ok vid, s'))
        × (check_rid_exists m rid true s' ≡ ok true)
        × (check_rid_exists m rid false s' ≡ ok false)
  unfolding erase_rid_and_vid translate_vid_to_rid translate_rid_to_vid check_rid_exists
  translate-erase vendor_type lc =
      let gone = law.get_vid-remove s.db vid rid rid in
      let gone' = law.get_rid-remove s.db vid rid vid in
      (ground arith, ground arith, ground arith, ground arith)

  -- After `eraseRidAndVid` of two ids that are not null, every other VID is translated as before,
  -- and every other RID exists or not as before.
  pub erase_others :
      (vid' rid' : ℕ)
      → vid' ≢ vid
      → rid' ≢ rid
      → let s' = erase_rid_and_vid m rid vid s in
        ((translate_vid_to_rid m vid' s').0 ≡ (translate_vid_to_rid m vid' s).0)
        × (check_rid_exists m rid' false s' ≡ check_rid_exists m rid' false s)
        × (check_rid_exists m rid' true s' ≡ check_rid_exists m rid' true s)
  unfolding erase_rid_and_vid translate_vid_to_rid check_rid_exists
  erase_others vid' rid' ne ne' =
      let same = law.get_vid-remove s.db vid rid rid' in
      let same' = law.get_rid-remove s.db vid rid vid' in (ground arith, ground arith, ground arith)

  -- After `eraseRidAndVid` of two ids that are not null, the RID is a new one for a caller that
  -- does not ask for removed ids, and for every caller once the local maps were cleared.
  pub erase-IsNew :
      (o : IsOtai t) (vendor_type : ℕ → ℕ) (lc : ℕ)
      → let s' = erase_rid_and_vid m rid vid s in
        IsNew m law o vendor_type rid lc false s'
        × IsNew m law o vendor_type rid lc true (clear_local_cache m s')
  unfolding erase_rid_and_vid clear_local_cache
  erase-IsNew o vendor_type lc =
      let gone = law.get_vid-remove s.db vid rid rid in
      (
        record {
          not_null = nr;
          not_local = ground arith;
          not_stored = ground arith;
          not_removed = refl;
        },
        record { not_null = nr; not_local = refl; not_stored = ground arith; not_removed = refl },
      )
