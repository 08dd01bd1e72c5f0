-- ===== src/Requests.antt =====
-- The requests on one object of syncd/Syncd.cpp, `processOid` and the functions that it calls, over
-- the translator and the vendor library, which is a parameter.
pub mod Laws
pub mod Outcome
pub mod AsicState
pub mod Events
use sonic_otairedis.Common.{
  ℕ, Bool, true, false, List, [], ◌∷◌, Result, ok, throws, Method, after, ◌==◌, if◌then◌else◌,
}
use sonic_otairedis.Otai.{ObjectTypes, Status, success, is_success}
use sonic_otairedis.Metadata.{Attribute}
use sonic_otairedis.Serialize.ObjectId.{Text, otai_deserialize_object_id}
use sonic_otairedis.Oid.VidManager
use sonic_otairedis.Redis.VidMap.{VidMap}
use sonic_otairedis.Redis.AsicTable.{AsicTable}
use sonic_otairedis.Translator.{
  Translator, insert_rid_and_vid, erase_rid_and_vid, translate_vid_to_rid, try_translate_rid_to_vid,
}

-- The vendor library, with the state V of the hardware: calls of C functions, which do not throw.
-- `create` gives its status and what it writes for the new id, `get` the list that it writes.
pub record Vendor (V : Type 0) : Type 0 where
  pub create : ℕ → ℕ → List Attribute → V → (Status × ℕ) × V
  pub remove : ℕ → ℕ → V → Status × V
  pub set : ℕ → ℕ → List Attribute → V → Status × V
  pub get : ℕ → ℕ → List Attribute → V → (Status × List Attribute) × V

-- The translator, with the database behind it, and the hardware.
pub record Syncd (m : VidMap) (V : Type 0) : Type 0 where
  pub translator : Translator m
  pub hardware : V

pub data Api : Type 0 where
  create_api remove_api set_api get_api other_api : Api

module _ ⦃t : ObjectTypes⦄ (m : VidMap) (table : AsicTable m) {V : Type 0} (vendor : Vendor V) where
  open t use {null_object_id, linecard}

  -- A method of the translator.
  abbrev pub on_translator : {A : Type 0} → Method (Translator m) A → Method (Syncd m V) A
  on_translator f w = let (r, tr) = f w.translator in (r, record w { translator = tr })

  -- `m_client->removeAsicObject`, on the database behind the translator.
  remove_asic_object : ℕ → Method (Translator m) (Unit {0})
  remove_asic_object vid tr =
      let (r, db) = table.remove_asic vid tr.db in (r, record tr { db = db })

  -- A RID that is known already loses its VID, and that VID its object.
  forget_old : ℕ → Bool × ℕ → Method (Translator m) (Unit {0})
  unfolding remove_asic_object
  forget_old rid (false, old) tr = (ok tt, tr)
  forget_old rid (true, old) tr = remove_asic_object old (erase_rid_and_vid m rid old tr)

  -- What follows a successful creation. `stale` is what the variable `objectVidOld` holds before
  -- `tryTranslateRidToVid` reads it.
  unfoldable pub save_created : ℕ → ℕ → ℕ → Method (Translator m) (Unit {0})
  unfolding forget_old
  save_created rid vid stale tr =
      after
        (λ found tr'.
          after (λ done tr''. (ok tt, insert_rid_and_vid m rid vid tr''))
            (forget_old rid found tr').0 (forget_old rid found tr').1)
        (try_translate_rid_to_vid m rid stale tr) tr

  -- The constructor of `OtaiLinecard`, which reads and stores what a new linecard has, is an argument.
  module _ (start_linecard : ℕ → ℕ → Method (Syncd m V) (Unit {0})) where
    finish_create : ℕ → ℕ → ℕ → ℕ → Status × ℕ → Method (Syncd m V) Status
    unfolding save_created
    finish_create object_type linecard_vid vid stale (success, rid) w =
        after
          (λ saved w'.
            if object_type == linecard
            then after (λ started w''. (ok success, w'')) (start_linecard linecard_vid rid w').0
                (start_linecard linecard_vid rid w').1
            else (ok success, w'))
          (on_translator (save_created rid vid stale) w).0
          (on_translator (save_created rid vid stale) w).1
    finish_create object_type linecard_vid vid stale (status, rid) w = (ok status, w)

    create_on : ℕ → ℕ → ℕ → List Attribute → ℕ → ℕ → Method (Syncd m V) Status
    unfolding finish_create
    create_on object_type linecard_vid vid attrs stale linecard_rid w =
        let (answer, hw) = vendor.create object_type linecard_rid attrs w.hardware in
        finish_create object_type linecard_vid vid stale answer (record w { hardware = hw })

    unfoldable pub process_oid_create : ℕ → ℕ → List Attribute → ℕ → Method (Syncd m V) Status
    unfolding create_on
    process_oid_create object_type vid attrs stale w =
        after
          (λ linecard_vid w'.
            if object_type == linecard
            then create_on object_type linecard_vid vid attrs stale null_object_id w'
            else after (create_on object_type linecard_vid vid attrs stale)
                (on_translator (translate_vid_to_rid m linecard_vid) w').0
                (on_translator (translate_vid_to_rid m linecard_vid) w').1)
          (VidManager.linecard_id_query vid) w

  finish_remove : ℕ → ℕ → ℕ → Status → Method (Syncd m V) Status
  finish_remove object_type vid rid success w =
      let w' = record w { translator = erase_rid_and_vid m rid vid w.translator } in
      if object_type == linecard
      then (throws "remove linecard is not implemented, FIXME", w')
      else (ok success, w')
  finish_remove object_type vid rid status w = (ok status, w)

  remove_rid : ℕ → ℕ → ℕ → Method (Syncd m V) Status
  unfolding finish_remove
  remove_rid object_type vid rid w =
      let (status, hw) = vendor.remove object_type rid w.hardware in
      finish_remove object_type vid rid status (record w { hardware = hw })

  unfoldable pub process_oid_remove : ℕ → ℕ → Method (Syncd m V) Status
  unfolding remove_rid
  process_oid_remove object_type vid w =
      after (remove_rid object_type vid) (on_translator (translate_vid_to_rid m vid) w).0
        (on_translator (translate_vid_to_rid m vid) w).1

  -- `attrs` is the pointer to the list; the library reads its first attribute.
  pub process_oid_set : ℕ → ℕ → List Attribute → Method (Syncd m V) Status
  process_oid_set object_type vid attrs w =
      after
        (λ rid w'.
          let (status, hw) = vendor.set object_type rid attrs w'.hardware in
          (ok status, record w' { hardware = hw }))
        (on_translator (translate_vid_to_rid m vid) w).0
        (on_translator (translate_vid_to_rid m vid) w).1

  pub process_oid_get : ℕ → ℕ → List Attribute → Method (Syncd m V) (Status × List Attribute)
  process_oid_get object_type vid attrs w =
      after
        (λ rid w'.
          let (answer, hw) = vendor.get object_type rid attrs w'.hardware in
          (ok answer, record w' { hardware = hw }))
        (on_translator (translate_vid_to_rid m vid) w).0
        (on_translator (translate_vid_to_rid m vid) w).1

  module _ (start_linecard : ℕ → ℕ → Method (Syncd m V) (Unit {0})) where
    -- The attributes come back as the request leaves them: only `get` writes to them.
    dispatch : Api → ℕ → ℕ → List Attribute → ℕ → Method (Syncd m V) (Status × List Attribute)
    unfolding process_oid_create process_oid_remove process_oid_set process_oid_get
    dispatch create_api object_type vid attrs stale w =
        after (λ status w'. (ok (status, attrs), w'))
          (process_oid_create start_linecard object_type vid attrs stale w).0
          (process_oid_create start_linecard object_type vid attrs stale w).1
    dispatch remove_api object_type vid attrs stale w =
        after (λ status w'. (ok (status, attrs), w')) (process_oid_remove object_type vid w).0
          (process_oid_remove object_type vid w).1
    dispatch set_api object_type vid attrs stale w =
        after (λ status w'. (ok (status, attrs), w')) (process_oid_set object_type vid attrs w).0
          (process_oid_set object_type vid attrs w).1
    dispatch get_api object_type vid attrs stale w = process_oid_get object_type vid attrs w
    dispatch other_api object_type vid attrs stale w = (throws "common api is not implemented", w)

    unfoldable pub process_oid :
        Api → ℕ → Text → List Attribute → ℕ → Method (Syncd m V) (Status × List Attribute)
    unfolding dispatch
    process_oid api object_type str_object_id attrs stale w =
        after (λ vid. dispatch api object_type vid attrs stale)
          (otai_deserialize_object_id str_object_id) w
