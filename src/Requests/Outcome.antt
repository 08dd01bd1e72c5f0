-- ===== src/Requests/Outcome.antt =====
-- What an application can rely on after a request of syncd/Syncd.cpp.
use sonic_otairedis.Common.{
  ℕ, ◌^◌, ◌<◌, ◌≡◌, ◌≢◌, sym, ap, ◌∙◌, inl, inr, Bool, true, false, arith, List, some, ok, throws,
  Method, after-ok,
}
use sonic_otairedis.Otai.{ObjectTypes, Status, success}
use sonic_otairedis.Metadata.{Attribute}
use sonic_otairedis.Redis.VidMap.{VidMap, IsVidMap}
use sonic_otairedis.Redis.AsicTable.{AsicTable, IsAsicTable}
use sonic_otairedis.Translator.{
  Translator, insert_rid_and_vid, erase_rid_and_vid, translate_vid_to_rid, translate_rid_to_vid,
  try_translate_rid_to_vid, check_rid_exists,
}
use sonic_otairedis.Translator.NewRid.{translate-insert}
use sonic_otairedis.Translator.Removal.{translate-erase}
use sonic_otairedis.Requests.{
  Vendor, Syncd, remove_asic_object, forget_old, save_created, process_oid_create, finish_remove,
  remove_rid, process_oid_remove,
}
use sonic_otairedis.Requests.Laws.{Called, create-CreateOutcome, translate_vid_db}

module _ ⦃t : ObjectTypes⦄ (m : VidMap) (law : IsVidMap t.null_object_id m) (table : AsicTable m)
    {V : Type 0} (vendor : Vendor V) where
  open t use {null_object_id, linecard}

  -- A request to create an object that is no linecard, for a VID that is not null, that does not
  -- throw called the vendor library with the RID of the VID's linecard, and returned its status.
  -- With success, and a new RID that is not null, the VID is translated to the RID and the RID to
  -- the VID, without a further change; with any other status the stored maps are as they were.
  pub create_outcome :
      (start_linecard : ℕ → ℕ → Method (Syncd m V) (Unit {0})) (object_type vid : ℕ)
      (attrs : List Attribute) (stale : ℕ) (w : Syncd m V) (status : Status) (w' : Syncd m V)
      → object_type ≢ linecard
      → vid ≢ null_object_id
      → process_oid_create m table vendor start_linecard object_type vid attrs stale w
        ≡ (ok status, w')
      → (rid : ℕ) × Called m table vendor object_type vid attrs w status rid
        × (rid ≢ null_object_id
            → status ≡ success
            → (vendor_type : ℕ → ℕ) (lc : ℕ) (removed : Bool)
            → (translate_vid_to_rid m vid w'.translator ≡ (ok rid, w'.translator))
              × (translate_rid_to_vid m vendor_type rid lc removed w'.translator
                  ≡ (ok vid, w'.translator)))
        × (status ≢ success → w'.translator.db ≡ w.translator.db)
  create_outcome start_linecard object_type vid attrs stale w status w' other nv h =
      let (rid, called, outcome) =
        create-CreateOutcome m table vendor start_linecard object_type vid attrs stale w status w'
          other h in
      (
        rid,
        called,
        (λ nr good vendor_type lc removed. elim outcome [
          | inl (good', (before, same)) ↦
              rw same (translate-insert m law vendor_type rid vid lc removed before nr nv)
          | inr (bad, same) ↦ absurd (ground arith)
        ]),
        (λ bad. elim outcome [ inl (good, made) ↦ absurd (bad good) | inr (bad', same) ↦ same ]),
      )

  finish_remove-cases :
      (object_type vid rid : ℕ) (answer : Status) (w : Syncd m V) (status : Status) (w' : Syncd m V)
      → object_type ≢ linecard
      → finish_remove m table vendor object_type vid rid answer w ≡ (ok status, w')
      → (status ≡ answer)
        × (status ≡ success → w'.translator ≡ erase_rid_and_vid m rid vid w.translator)
        × (status ≢ success → w' ≡ w)
  unfolding finish_remove
  finish_remove-cases object_type vid rid success w status w' other e =
      (ground arith, (λ g. ground arith), (λ b. absurd (ground arith)))
  finish_remove-cases object_type vid rid answer w status w' other e =
      (ground arith, (λ g. absurd (ground arith)), (λ b. ground arith))

  -- A request to remove an object that is no linecard, for a VID that is not null, that does not
  -- throw called the vendor library with the RID of the VID, and returned its status. With
  -- success, and a RID that is not null, the VID has no RID any more, and the RID does not exist;
  -- with any other status the stored maps are as they were.
  pub remove_outcome :
      (object_type vid : ℕ) (w : Syncd m V) (status : Status) (w' : Syncd m V)
      → object_type ≢ linecard
      → vid ≢ null_object_id
      → process_oid_remove m table vendor object_type vid w ≡ (ok status, w')
      → (rid : ℕ) × ((translate_vid_to_rid m vid w.translator).0 ≡ ok rid)
        × ((vendor.remove object_type rid w.hardware).0 ≡ status)
        × (rid ≢ null_object_id
            → status ≡ success
            → (translate_vid_to_rid m vid w'.translator
                ≡ (throws "unable to get RID for VID", w'.translator))
              × (check_rid_exists m rid false w'.translator ≡ ok false))
        × (status ≢ success → w'.translator.db ≡ w.translator.db)
  unfolding process_oid_remove remove_rid
  remove_outcome object_type vid w status w' other nv h =
      let one = translate_vid_to_rid m vid w.translator in
      let w1 : Syncd m V = record w { translator = one.1 } in
      let first = after-ok _ one.0 w1 status w' h in
      let rid = first.0 in
      let call = vendor.remove object_type rid w.hardware in
      let done =
        finish_remove-cases object_type vid rid call.0 (record w1 { hardware = call.1 }) status w'
          other first.2 in
      (
        rid,
        first.1,
        sym done.0,
        (λ nr good.
            let same = (done.1 good) in
            let gone = translate-erase m law rid vid one.1 nr nv (λ x. x) 0 in
            rw same (gone.0, gone.3)),
        (λ bad.
            ap (λ (z : Syncd m V). z.translator.db) (done.2 bad)
            ∙ translate_vid_db m table vendor vid w.translator),
      )

  -- Where a new RID that is not null is saved for a VID without a throw, and the variable that
  -- `tryTranslateRidToVid` reads before it is written happens to hold another RID, known with a
  -- VID that is neither null nor the new one: that VID, an object that the request does not name,
  -- is left without a RID.
  pub stale_variable_erases :
      (apart : IsAsicTable m table) (rid vid stale other : ℕ) (tr tr' : Translator m)
      → rid < 2 ^ 64
      → rid ≢ null_object_id
      → other ≢ null_object_id
      → other ≢ vid
      → rid ≢ stale
      → tr.rid2vid stale ≡ some other
      → save_created m table vendor rid vid stale tr ≡ (ok tt, tr')
      → translate_vid_to_rid m other tr' ≡ (throws "unable to get RID for VID", tr')
  unfolding save_created try_translate_rid_to_vid forget_old remove_asic_object insert_rid_and_vid
      erase_rid_and_vid translate_vid_to_rid
  stale_variable_erases apart rid vid stale other tr tr' hr nr np ne differ known h =
      let found : try_translate_rid_to_vid m rid stale tr ≡ ok (true, other) = ground arith in
      let erased = m.remove_vid_and_rid tr.db other rid in
      let db = (table.remove_asic other erased).1 in
      let run = rw found at h in
      let kept = apart.get_rid-remove erased other other in
      let gone = law.get_rid-remove tr.db other rid other in
      let new = law.get_rid-insert db vid rid other hr in ground arith
