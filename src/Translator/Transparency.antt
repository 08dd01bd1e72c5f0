-- ===== src/Translator/Transparency.antt =====
-- A translation returns the same with and without the local maps, and again what it returned before.
use sonic_otairedis.Common.{
  ℕ, ◌≡◌, ◌≢◌, inl, inr, Bool, true, arith, none, some, ok, ◌==◌, Option-cases, no_entries, not,
}
use sonic_otairedis.Otai.{ObjectTypes}
use sonic_otairedis.Redis.VidMap.{VidMap}
use sonic_otairedis.Translator.{
  Translator, translate_vid_to_rid, translate_rid_to_vid, check_rid_exists,
  try_translate_rid_to_vid,
}
use sonic_otairedis.Translator.Coherence.{Coherent}

-- The state with the two maps of live ids emptied.
abbrev pub without_cache : {m : VidMap} → Translator m → Translator m
without_cache s = record s { rid2vid = no_entries; vid2rid = no_entries }

module _ ⦃t : ObjectTypes⦄ (m : VidMap) (s : Translator m) (c : Coherent m s) where
  open t use {null_object_id}

  -- Where the local maps are coherent, the RID that a VID is translated to, or the throw, is the
  -- same as with the two maps of live ids emptied.
  pub translate_vid_transparent :
      (vid : ℕ)
      → (translate_vid_to_rid m vid s).0 ≡ (translate_vid_to_rid m vid (without_cache s)).0
  unfolding translate_vid_to_rid
  translate_vid_transparent vid = elim (Option-cases (s.vid2rid vid)) [
    | inl missing ↦ ground arith
    | inr (rid, found) ↦ ground (arith, c.vids vid rid found)
  ]

  -- Where the local maps are coherent, the VID that a RID is translated to, or the throw, is the
  -- same as with the two maps of live ids emptied, new RIDs and removed ones included.
  pub translate_rid_transparent :
      (vendor_type : ℕ → ℕ) (rid lc : ℕ) (removed : Bool)
      → (translate_rid_to_vid m vendor_type rid lc removed s).0
        ≡ (translate_rid_to_vid m vendor_type rid lc removed (without_cache s)).0
  unfolding translate_rid_to_vid
  translate_rid_transparent vendor_type rid lc removed = elim (Option-cases (s.rid2vid rid)) [
    | inl missing ↦ ground arith
    | inr (vid, found) ↦ ground (arith, c.rids rid vid found)
  ]

  -- Where the local maps are coherent, `checkRidExists` answers the same as with the two maps of
  -- live ids emptied.
  pub check_rid_transparent :
      (rid : ℕ) (removed : Bool)
      → check_rid_exists m rid removed s ≡ check_rid_exists m rid removed (without_cache s)
  unfolding check_rid_exists
  check_rid_transparent rid removed = elim (Option-cases (s.rid2vid rid)) [
    | inl missing ↦ ground arith
    | inr (vid, found) ↦ ground (arith, c.rids rid vid found)
  ]

  -- `tryTranslateRidToVid` looks the variable `vid` up in place of `rid`: where the value that
  -- the variable happens to hold is a known RID with another VID, a RID of the local map that is
  -- not null is given that VID, although the plain translation returns its own.
  pub try_translate_rid_wrong :
      (vendor_type : ℕ → ℕ) (rid vid stale other lc : ℕ) (removed : Bool)
      → s.rid2vid rid ≡ some vid
      → s.rid2vid stale ≡ some other
      → rid ≢ null_object_id
      → other ≢ vid
      → ((translate_rid_to_vid m vendor_type rid lc removed s).0 ≡ ok vid)
        × (try_translate_rid_to_vid m rid stale s ≡ ok (true, other))
        × (try_translate_rid_to_vid m rid stale s ≢ ok (true, vid))
  unfolding translate_rid_to_vid try_translate_rid_to_vid
  try_translate_rid_wrong vendor_type rid vid stale other lc removed known held nr ne =
      (ground arith, ground arith, λ e. ground arith)

  -- `tryTranslateRidToVid` of a RID that is not null, where the value of the variable is no RID of
  -- the local map: it returns true and the stored VID, or false where null is stored for the RID.
  pub try_translate_rid_right :
      (rid vid stale : ℕ)
      → s.rid2vid stale ≡ none
      → rid ≢ null_object_id
      → m.get_vid_for_rid s.db rid ≡ ok vid
      → try_translate_rid_to_vid m rid stale s ≡ ok (not (vid == null_object_id), vid)
  unfolding try_translate_rid_to_vid
  try_translate_rid_right rid vid stale fresh nr stored = ground arith
