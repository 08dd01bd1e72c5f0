-- ===== src/Requests/Laws.antt =====
-- What a request leaves of the maps between VIDs and RIDs.
use sonic_otairedis.Common.{
  ℕ, ◌≡◌, ◌≢◌, ◌⊎◌, refl, sym, ap, subst, ◌∙◌, inl, inr, false, arith, List, ok, Method, after,
  after-ok, ==_ne, Result-cases,
}
use sonic_otairedis.Otai.{ObjectTypes, Status, success, is_success}
use sonic_otairedis.Metadata.{Attribute}
use sonic_otairedis.Oid.VidManager
use sonic_otairedis.Redis.VidMap.{VidMap}
use sonic_otairedis.Redis.AsicTable.{AsicTable}
use sonic_otairedis.Translator.{
  Translator, insert_rid_and_vid, translate_vid_to_rid, try_translate_rid_to_vid,
}
use sonic_otairedis.Translator.Attributes.Kept.{translate_vid_to_rid-db}
use sonic_otairedis.Requests.{
  Vendor, Syncd, forget_old, save_created, finish_create, create_on, process_oid_create,
  process_oid_set, process_oid_get,
}

module _ ⦃t : ObjectTypes⦄ (m : VidMap) (table : AsicTable m) {V : Type 0} (vendor : Vendor V) where
  open t use {null_object_id, linecard}

  pub translate_vid_db :
      (vid : ℕ) (tr : Translator m) → (translate_vid_to_rid m vid tr).1.db ≡ tr.db
  translate_vid_db vid tr = translate_vid_to_rid-db m vid tr

  -- A pair that was saved is what the translator says at the end.
  pub save_created-insert :
      (rid vid stale : ℕ) (tr : Translator m) (tr' : Translator m)
      → save_created m table vendor rid vid stale tr ≡ (ok tt, tr')
      → (before : Translator m) × (tr' ≡ insert_rid_and_vid m rid vid before)
  unfolding save_created
  save_created-insert rid vid stale tr tr' h =
      let first = after-ok _ (try_translate_rid_to_vid m rid stale tr) tr tt tr' h in
      let old = forget_old m table vendor rid first.0 tr in
      let second = after-ok _ old.0 old.1 tt tr' first.2 in (old.1, ground arith)

  -- A request to set an attribute or to read attributes that does not throw called the vendor
  -- library with the RID of the VID and the attributes of the request, and returned its answer; the
  -- hardware is as that call left it. Whether it throws or not, the stored maps stay as they were.
  pub set_get_outcome :
      (object_type vid : ℕ) (attrs : List Attribute) (w : Syncd m V)
      → (((status : Status) (w' : Syncd m V)
            → process_oid_set m table vendor object_type vid attrs w ≡ (ok status, w')
            → (rid : ℕ) × ((translate_vid_to_rid m vid w.translator).0 ≡ ok rid)
              × (vendor.set object_type rid attrs w.hardware ≡ (status, w'.hardware)))
          × ((process_oid_set m table vendor object_type vid attrs w).1.translator.db
              ≡ w.translator.db))
        × (((answer : Status × List Attribute) (w' : Syncd m V)
              → process_oid_get m table vendor object_type vid attrs w ≡ (ok answer, w')
              → (rid : ℕ) × ((translate_vid_to_rid m vid w.translator).0 ≡ ok rid)
                × (vendor.get object_type rid attrs w.hardware ≡ (answer, w'.hardware)))
            × ((process_oid_get m table vendor object_type vid attrs w).1.translator.db
                ≡ w.translator.db))
  unfolding process_oid_set process_oid_get
  set_get_outcome object_type vid attrs w =
      let kept = translate_vid_db vid w.translator in
      let one = translate_vid_to_rid m vid w.translator in
      let w1 : Syncd m V = record w { translator = one.1 } in
      elim (Result-cases one.0) [
        | inl (message, e) ↦ (
          ((λ status w' h. absurd (ground arith)), rw e kept),
          ((λ answer w' h. absurd (ground arith)), rw e kept),
        )
        | inr (rid, e) ↦ (
          ((λ status w' h. (rid, e, ground arith)), rw e kept),
          ((λ answer w' h. (rid, e, ground arith)), rw e kept),
        )
      ]

  finish_create-cases :
      (start_linecard : ℕ → ℕ → Method (Syncd m V) (Unit {0})) (object_type lc vid stale : ℕ)
      (status : Status) (rid : ℕ) (w : Syncd m V) (status' : Status) (w' : Syncd m V)
      → object_type ≢ linecard
      → finish_create m table vendor start_linecard object_type lc vid stale (status, rid) w
        ≡ (ok status', w')
      → (status' ≡ status)
        × (((status ≡ success)
              × ((before : Translator m) × (w'.translator ≡ insert_rid_and_vid m rid vid before)))
            ⊎ ((is_success status ≡ false) × (w' ≡ w)))
  unfolding finish_create
  finish_create-cases start_linecard object_type lc vid stale success rid w status' w' other h =
      let saved = save_created m table vendor rid vid stale w.translator in
      let first = after-ok _ saved.0 (record w { translator = saved.1 }) status' w' h in
      let made =
        save_created-insert rid vid stale w.translator saved.1 (λ i. (first.1 i, saved.1)) in
      let last : w' ≡ record w { translator = saved.1 } = ground arith in
      (ground arith, inl (refl, (made.0, ap (λ (z : Syncd m V). z.translator) last ∙ made.1)))
  finish_create-cases start_linecard object_type lc vid stale status rid w status' w' other h =
      (ground arith, inr (refl, ground arith))

  -- The call of the vendor library that a request to create an object makes.
  pub record Called (object_type vid : ℕ) (attrs : List Attribute) (w : Syncd m V) (status : Status)
      (rid : ℕ) : Type 0 where
    pub linecard_vid : ℕ
    pub linecard_rid : ℕ
    pub linecard_of : VidManager.linecard_id_query vid ≡ ok linecard_vid
    pub translated : (translate_vid_to_rid m linecard_vid w.translator).0 ≡ ok linecard_rid
    pub answer : (vendor.create object_type linecard_rid attrs w.hardware).0 ≡ (status, rid)

  -- What a request to create an object that is no linecard leaves when it does not throw.
  abbrev pub CreateOutcome : ℕ → Syncd m V → Status → ℕ → Syncd m V → Type 0
  CreateOutcome vid w status rid w' =
      ((status ≡ success)
        × ((before : Translator m) × (w'.translator ≡ insert_rid_and_vid m rid vid before)))
      ⊎ ((is_success status ≡ false) × (w'.translator.db ≡ w.translator.db))

  pub create-CreateOutcome :
      (start_linecard : ℕ → ℕ → Method (Syncd m V) (Unit {0})) (object_type vid : ℕ)
      (attrs : List Attribute) (stale : ℕ) (w : Syncd m V) (status : Status) (w' : Syncd m V)
      → object_type ≢ linecard
      → process_oid_create m table vendor start_linecard object_type vid attrs stale w
        ≡ (ok status, w')
      → (rid : ℕ) × Called object_type vid attrs w status rid × CreateOutcome vid w status rid w'
  unfolding process_oid_create create_on
  create-CreateOutcome start_linecard object_type vid attrs stale w status w' other h =
      let first = after-ok _ (VidManager.linecard_id_query vid) w status w' h in
      let lc = first.0 in
      let one = translate_vid_to_rid m lc w.translator in
      let w1 : Syncd m V = record w { translator = one.1 } in
      let inner : after (create_on m table vendor start_linecard object_type lc vid attrs stale)
            one.0 w1
          ≡ (ok status, w') =
        rw (==_ne object_type linecard other) at first.2 in
      let second = after-ok _ one.0 w1 status w' inner in
      let call = vendor.create object_type second.0 attrs w.hardware in
      let done =
        finish_create-cases start_linecard object_type lc vid stale call.0.0 call.0.1
          (record w1 { hardware = call.1 }) status w' other second.2 in
      (
        call.0.1,
        record {
          linecard_vid = lc;
          linecard_rid = second.0;
          linecard_of = first.1;
          translated = second.1;
          answer = λ i. (sym done.0 i, call.0.1);
        },
        elim done.1 [
          | inl (good, made) ↦ inl (done.0 ∙ good, made)
          | inr (bad, same) ↦ inr (
            subst (λ z. is_success z ≡ false) (sym done.0) bad,
            ap (λ (z : Syncd m V). z.translator.db) same ∙ translate_vid_db lc w.translator,
          )
        ],
      )
