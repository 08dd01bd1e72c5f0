-- ===== src/Translator/NewRid.antt =====
-- A RID that is met for the first time gets a VID of its own type, which leads back to it.
use sonic_otairedis.Common.{
  ℕ, ◌+◌, ◌≡◌, ◌≢◌, ap, ◌∙◌, Bool, arith, none, Result, ok, throws, if◌then◌else◌,
}
use sonic_otairedis.Otai.{ObjectTypes, IsOtai}
use sonic_otairedis.Redis.VidMap.{VidMap, IsVidMap}
use sonic_otairedis.Oid.Virtual.{type_bits, linecard_bits, index_bits, allocate_new_object_id}
use sonic_otairedis.Oid.Virtual.Allocation.{allocate-fields}
use sonic_otairedis.Translator.{
  Translator, insert_rid_and_vid, translate_vid_to_rid, translate_rid_to_vid, save_new,
}
use sonic_otairedis.Translator.Coherence.{allocate-vid}

module _ ⦃t : ObjectTypes⦄ (m : VidMap) (law : IsVidMap t.null_object_id m) where
  open t use {null_object_id}

  -- After `insertRidAndVid` of two ids that are not null, both translations answer from the pair,
  -- and change nothing.
  pub translate-insert :
      (vendor_type : ℕ → ℕ) (rid vid lc : ℕ) (removed : Bool) (s : Translator m)
      → rid ≢ null_object_id
      → vid ≢ null_object_id
      → let s' = insert_rid_and_vid m rid vid s in
        (translate_vid_to_rid m vid s' ≡ (ok rid, s'))
        × (translate_rid_to_vid m vendor_type rid lc removed s' ≡ (ok vid, s'))
  unfolding insert_rid_and_vid translate_vid_to_rid translate_rid_to_vid
  translate-insert vendor_type rid vid lc removed s nr nv = (ground arith, ground arith)

  counted :
      (rid vid : ℕ) (s : Translator m) (db : m.Db)
      → db ≡ (m.increment s.db).1
      → m.counter (insert_rid_and_vid m rid vid (record s { db = db })).db ≡ m.counter s.db + 1
  unfolding insert_rid_and_vid
  counted rid vid s db e =
      law.counter-insert db vid rid ∙ ap m.counter e ∙ law.counter-increment s.db

  module _ (o : IsOtai t) (vendor_type : ℕ → ℕ) (rid lc : ℕ) (removed : Bool)
      (s : Translator m) where
    -- A RID that no map and no database knows.
    pub record IsNew : Type 0 where
      pub not_null : rid ≢ null_object_id
      pub not_local : s.rid2vid rid ≡ none
      pub not_stored : m.get_vid_for_rid s.db rid ≡ ok null_object_id
      pub not_removed : (if removed then s.removed_rid2vid rid else none) ≡ none

    pub saved :
        (r : Result ℕ) (db : m.Db) (vid : ℕ) (s' : Translator m)
        → save_new m rid (r, db) s ≡ (ok vid, s')
        → (r ≡ ok vid) × (s' ≡ insert_rid_and_vid m rid vid (record s { db = db }))
    unfolding save_new
    saved (ok v) db vid s' h = ground arith
    saved (throws message) db vid s' h = cc

    new_result :
        (vid : ℕ) (s' : Translator m)
        → IsNew
        → translate_rid_to_vid m vendor_type rid lc removed s ≡ (ok vid, s')
        → let a = allocate_new_object_id m.increment (vendor_type rid) lc s.db in
          save_new m rid a s ≡ (ok vid, s')
    unfolding translate_rid_to_vid
    new_result vid s' n h = ground arith

    -- Where the translation of a RID that no map and no database knows returns a VID: it has the
    -- type that the vendor library gives the RID, the linecard index of the linecard VID and the
    -- next index of the counter; it is stored, so that it leads back to the RID, and the RID to
    -- it, without a further change.
    pub translate_rid-new :
        (vid : ℕ) (s' : Translator m)
        → IsNew
        → translate_rid_to_vid m vendor_type rid lc removed s ≡ (ok vid, s')
        → (type_bits vid ≡ vendor_type rid)
          × (linecard_bits vid ≡ linecard_bits lc)
          × (index_bits vid ≡ m.counter s.db + 1)
          × (m.counter s'.db ≡ m.counter s.db + 1)
          × (translate_vid_to_rid m vid s' ≡ (ok rid, s'))
          × (translate_rid_to_vid m vendor_type rid lc removed s' ≡ (ok vid, s'))
    translate_rid-new vid s' n h =
        let (r, db) = allocate_new_object_id m.increment (vendor_type rid) lc s.db in
        let done = saved r db vid s' (new_result vid s' n h) in
        let made : allocate_new_object_id m.increment (vendor_type rid) lc s.db ≡ (ok vid, db) =
          λ i. (done.0 i, db) in
        let f = allocate-fields o m.increment (vendor_type rid) lc s.db vid db made in
        let present = (allocate-vid m law o (vendor_type rid) lc s.db vid db made).1 in
        let both =
          translate-insert vendor_type rid vid lc removed (record s { db = db }) n.not_null
            present in
        (
          f.1,
          f.2,
          f.3 ∙ law.increment_value s.db,
          ap (λ (z : Translator m). m.counter z.db) done.1 ∙ counted rid vid s db f.5,
          rw done.1 both.0,
          rw done.1 both.1,
        )
