-- ===== src/Translator/Coherence.antt =====
-- The local maps never say anything else than the stored ones.
use sonic_otairedis.Common.{
  ℕ, ◌^◌, ◌<◌, ◌≡◌, ◌≢◌, ◌⊎◌, refl, inl, inr, Bool, arith, List, [], ◌∷◌, some, Result, ok, throws,
  ◌==◌, Bool-cases,
}
use sonic_otairedis.Otai.{ObjectTypes, IsOtai}
use sonic_otairedis.Redis.VidMap.{VidMap, IsVidMap}
use sonic_otairedis.Oid.Virtual.{type_bits, allocate_new_object_id}
use sonic_otairedis.Oid.Virtual.Fields.{type_bits_lem}
use sonic_otairedis.Oid.Virtual.Allocation.{allocate-fields}
use sonic_otairedis.Translator.{
  Translator, insert_rid_and_vid, erase_rid_and_vid, clear_local_cache, translate_vid_to_rid,
  translate_rid_to_vid, save_new,
}

module _ ⦃t : ObjectTypes⦄ (m : VidMap) where
  open t use {null_object_id}

  -- What a local map holds is stored, and is not null.
  pub record Coherent (s : Translator m) : Type 0 where
    pub rids :
        (rid vid : ℕ)
        → s.rid2vid rid ≡ some vid
        → (m.get_vid_for_rid s.db rid ≡ ok vid) × (vid ≢ null_object_id)
    pub vids :
        (vid rid : ℕ)
        → s.vid2rid vid ≡ some rid
        → (m.get_rid_for_vid s.db vid ≡ ok rid) × (rid ≢ null_object_id)

module _ ⦃t : ObjectTypes⦄ (m : VidMap) (law : IsVidMap t.null_object_id m) where
  open t use {null_object_id}

  pub insert-Coherent :
      (rid vid : ℕ) (s : Translator m)
      → rid < 2 ^ 64
      → vid < 2 ^ 64
      → rid ≢ null_object_id
      → vid ≢ null_object_id
      → Coherent m s
      → Coherent m (insert_rid_and_vid m rid vid s)
  unfolding insert_rid_and_vid
  insert-Coherent rid vid s hr hv nr nv c = record {
    rids = λ r v e. ground (arith, law.get_vid-insert s.db vid rid r hv, c.rids r v);
    vids = λ v r e. ground (arith, law.get_rid-insert s.db vid rid v hr, c.vids v r);
  }

  pub erase-Coherent :
      (rid vid : ℕ) (s : Translator m) → Coherent m s → Coherent m (erase_rid_and_vid m rid vid s)
  unfolding erase_rid_and_vid
  erase-Coherent rid vid s c = record {
    rids = λ r v e. ground (arith, law.get_vid-remove s.db vid rid r, c.rids r v);
    vids = λ v r e. ground (arith, law.get_rid-remove s.db vid rid v, c.vids v r);
  }

  pub clear-Coherent : (s : Translator m) → Coherent m (clear_local_cache m s)
  unfolding clear_local_cache
  clear-Coherent s = record { rids = λ r v e. cc; vids = λ v r e. cc }

  pub translate_vid-Coherent :
      (vid : ℕ) (s : Translator m) → Coherent m s → Coherent m (translate_vid_to_rid m vid s).1
  unfolding translate_vid_to_rid
  translate_vid-Coherent vid s c = record {
    rids = λ r v e. ground (arith, c.rids r v);
    vids = λ v r e. ground (arith, c.vids v r);
  }

  module _ (o : IsOtai t) where
    -- What an allocation leaves of the database: all that was stored.
    pub allocate-db :
        (ty lc : ℕ) (db : m.Db)
        → ((allocate_new_object_id m.increment ty lc db).1 ≡ db)
          ⊎ ((allocate_new_object_id m.increment ty lc db).1 ≡ (m.increment db).1)
    unfolding allocate_new_object_id
    allocate-db ty lc db = ground arith

    pub allocate-vid :
        (ty lc : ℕ) (db : m.Db) (vid : ℕ) (db' : m.Db)
        → allocate_new_object_id m.increment ty lc db ≡ (ok vid, db')
        → (vid < 2 ^ 64) × (vid ≢ t.null_object_id)
    allocate-vid ty lc db vid db' h =
        let f = allocate-fields o m.increment ty lc db vid db' h in
        let typed : type_bits vid ≡ ty = f.1 in
        let positive = f.0.not_null in
        (
          f.4,
          λ e. omega (
            arith,
            typed,
            positive,
            type_bits_lem vid,
            e,
            o.null_object_id_zero,
            o.null_type_zero,
          ),
        )

    advance-Coherent :
        (s : Translator m) (db : m.Db)
        → (db ≡ s.db) ⊎ (db ≡ (m.increment s.db).1)
        → Coherent m s
        → Coherent m (record s { db = db })
    advance-Coherent s db (inl e) c = rw e c
    advance-Coherent s db (inr e) c = record {
      rids = λ r v h. rw (e, law.get_vid-increment s.db r) (c.rids r v h);
      vids = λ v r h. rw (e, law.get_rid-increment s.db v) (c.vids v r h);
    }

    save_new-Coherent :
        (rid : ℕ) (r : Result ℕ) (db : m.Db) (s : Translator m)
        → rid < 2 ^ 64
        → rid ≢ null_object_id
        → ((vid : ℕ) → r ≡ ok vid → (vid < 2 ^ 64) × (vid ≢ null_object_id))
        → Coherent m (record s { db = db })
        → Coherent m (save_new m rid (r, db) s).1
    unfolding save_new
    save_new-Coherent rid (ok vid) db s hr nr fine c =
        let f = fine vid refl in insert-Coherent rid vid (record s { db = db }) hr f.0 nr f.1 c
    save_new-Coherent rid (throws message) db s hr nr fine c = c

    allocated-Coherent :
        (rid ty lc : ℕ) (s : Translator m)
        → rid < 2 ^ 64
        → rid ≢ null_object_id
        → Coherent m s
        → Coherent m (save_new m rid (allocate_new_object_id m.increment ty lc s.db) s).1
    allocated-Coherent rid ty lc s hr nr c =
        let (r, db) = allocate_new_object_id m.increment ty lc s.db in
        save_new-Coherent rid r db s hr nr
          (λ vid e. allocate-vid ty lc s.db vid db (λ i. (e i, db)))
          (advance-Coherent s db (allocate-db ty lc s.db) c)

    -- Whatever the vendor library says of the RID, its translation keeps the maps coherent.
    pub translate_rid-Coherent :
        (vendor_type : ℕ → ℕ) (rid lc : ℕ) (removed : Bool) (s : Translator m)
        → rid < 2 ^ 64
        → Coherent m s
        → Coherent m (translate_rid_to_vid m vendor_type rid lc removed s).1
    unfolding translate_rid_to_vid
    translate_rid-Coherent vendor_type rid lc removed s hr c =
        elim (Bool-cases (rid == null_object_id)) [
          | inl null ↦ rw (null, translate_rid_to_vid) c
          | inr some' ↦ ground (arith, allocated-Coherent rid (vendor_type rid) lc s hr)
        ]

-- The methods that change the state.
pub data Call : Type 0 where
  inserts erases : ℕ → ℕ → Call
  clears : Call
  to_rid : ℕ → Call
  to_vid : ℕ → ℕ → Bool → Call

module _ ⦃t : ObjectTypes⦄ (m : VidMap) (vendor_type : ℕ → ℕ) where
  -- What a call leaves, whether it returns or throws.
  pub step : Translator m → Call → Translator m
  step s (inserts rid vid) = insert_rid_and_vid m rid vid s
  step s (erases rid vid) = erase_rid_and_vid m rid vid s
  step s clears = clear_local_cache m s
  step s (to_rid vid) = (translate_vid_to_rid m vid s).1
  step s (to_vid rid lc removed) = (translate_rid_to_vid m vendor_type rid lc removed s).1

  pub run : Translator m → List Call → Translator m
  unfolding step
  run s [] = s
  run s (c ∷ cs) = run (step s c) cs

-- Ids are 64-bit numbers, and null is never mapped.
module _ ⦃t : ObjectTypes⦄ where
  abbrev pub IsProper : Call → Type 0
  IsProper (inserts rid vid) =
      (rid < 2 ^ 64) × (vid < 2 ^ 64) × (rid ≢ t.null_object_id) × (vid ≢ t.null_object_id)
  IsProper (to_vid rid lc removed) = rid < 2 ^ 64
  IsProper _ = Unit {0}

  abbrev pub AllProper : List Call → Type 0
  AllProper [] = Unit {0}
  AllProper (c ∷ cs) = IsProper c × AllProper cs

module _ ⦃t : ObjectTypes⦄ (m : VidMap) (law : IsVidMap t.null_object_id m) (o : IsOtai t)
    (vendor_type : ℕ → ℕ) where
  step-Coherent :
      (s : Translator m) (c : Call)
      → IsProper c
      → Coherent m s
      → Coherent m (step m vendor_type s c)
  unfolding step
  step-Coherent s (inserts rid vid) p h = insert-Coherent m law rid vid s p.0 p.1 p.2 p.3 h
  step-Coherent s (erases rid vid) p h = erase-Coherent m law rid vid s h
  step-Coherent s clears p h = clear-Coherent m law s
  step-Coherent s (to_rid vid) p h = translate_vid-Coherent m law vid s h
  step-Coherent s (to_vid rid lc removed) p h =
      translate_rid-Coherent m law o vendor_type rid lc removed s p h

  -- If what the local maps hold is stored, and is not null, it is so after any sequence of calls,
  -- those that throw included, whose ids are 64-bit numbers and that insert no null id.
  pub run-Coherent :
      (cs : List Call) (s : Translator m)
      → AllProper cs
      → Coherent m s
      → Coherent m (run m vendor_type s cs)
  unfolding run
  run-Coherent [] s p h = h
  run-Coherent (c ∷ cs) s p h =
      run-Coherent cs (step m vendor_type s c) p.1 (step-Coherent s c p.0 h)
