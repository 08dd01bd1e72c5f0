-- ===== src/Requests/Events/Effects.antt =====
-- What a request to set an attribute does to the hardware and to the database, from the text of the
-- request on.
use sonic_otairedis.Common.{
  ℕ, ◌≡◌, inl, inr, refl, sym, subst, ◌∙◌, arith, List, ok, Method, after, after-ok, Bool-cases,
  Result-cases, leb, ◌==◌, ◌||◌,
}
use sonic_otairedis.Otai.{ObjectTypes, Status, is_success}
use sonic_otairedis.Metadata.{Attribute, Metadata}
use sonic_otairedis.Serialize.ObjectId.{Text, otai_deserialize_object_id}
use sonic_otairedis.Redis.Database.{Redis, IsRedis}
use sonic_otairedis.Serialize.Texts.{take, find_char}
use sonic_otairedis.Redis.VidMap.{VidMap}
use sonic_otairedis.Redis.AsicTable.{AsicTable}
use sonic_otairedis.Redis.Client.Objects.{SameMaps}
use sonic_otairedis.Translator.{translate_vid_to_rid}
use sonic_otairedis.Translator.Attributes.{translate_attributes_to_rids}
use sonic_otairedis.Translator.Attributes.Kept.{
  translate_vid_to_rid-db, translate_attributes_to_rids-db,
}
use sonic_otairedis.Requests.{Vendor, Syncd, set_api, process_oid, process_oid_set, dispatch}
use sonic_otairedis.Requests.Laws.{set_get_outcome}
use sonic_otairedis.Requests.AsicState.{sync_update_redis_quad_event, sync_update_outcome}
use sonic_otairedis.Requests.Events.{
  Request, Texts, Server, Map, Table, object_id_text, otai_deserialize_object_meta_key, log_failure,
  answer_request, send_api_response, sync_update, translate_request, serve, process_quad_event,
}

module _ ⦃t : ObjectTypes⦄ (texts : Texts) (meta : Metadata) (r : Redis) (law : IsRedis r)
    {V : Type 0} (vendor : Vendor V) where
  abbrev M : VidMap
  M = Map texts meta r law vendor

  abbrev T : AsicTable M
  T = Table texts meta r law vendor

  abbrev At : Type 0
  At = Server M V

  abbrev db_of : At → r.Db
  db_of s = s.syncd.translator.db

  -- What the text of the key and the fields say.
  pub record Reads (request : Request) (object_type vid : ℕ) (attrs : List Attribute) : Type 0 where
    pub named : otai_deserialize_object_meta_key texts request.key ≡ ok (object_type, vid)
    pub listed : texts.deserialize_attr_list object_type request.values ≡ ok attrs

  pub record SetEffect (request : Request) (s : At) (status : Status) (s' : At) : Type 0 where
    pub object_type : ℕ
    pub vid : ℕ
    pub attrs : List Attribute
    pub reads : Reads request object_type vid attrs
    -- The attributes and the id that the vendor library gets.
    pub passed : List Attribute
    pub rid : ℕ
    pub translated :
        (translate_attributes_to_rids M meta object_type attrs s.syncd.translator).0 ≡ ok passed
    pub real :
        (translate_vid_to_rid M vid
          (translate_attributes_to_rids M meta object_type attrs s.syncd.translator).1).0
        ≡ ok rid
    pub called : vendor.set object_type rid passed s.syncd.hardware ≡ (status, s'.syncd.hardware)
    -- The database afterwards.
    pub same_maps : SameMaps r law (db_of s) (db_of s')
    pub stored :
        db_of s'
        ≡ (sync_update_redis_quad_event r texts.meta_key_of texts.isrecoverable status set_api
            request.key request.values
            (db_of s)).1

  -- The id behind the colon is the one of the key.
  object_id_text-named :
      (key : Text) (object_type vid : ℕ)
      → otai_deserialize_object_meta_key texts key ≡ ok (object_type, vid)
      → otai_deserialize_object_id (object_id_text key) ≡ ok vid
  unfolding otai_deserialize_object_meta_key
  object_id_text-named key object_type vid h =
      let name = texts.deserialize_object_type (take (find_char b':' 0 key) key) in
      elim (Result-cases name) [
        | inl (message, e) ↦ absurd (ground arith)
        | inr (ty, e) ↦ elim (Bool-cases (ty == t.null_type || leb t.extensions_max ty)) [
          | inl bad ↦ absurd (ground arith)
          | inr good ↦ elim (Result-cases (otai_deserialize_object_id (object_id_text key))) [
            | inl (message, e') ↦ absurd (ground arith)
            | inr (oid, e') ↦ ground arith
          ]
        ]
      ]

  -- What the answer to a set leaves alone.
  log_failure-kept :
      (vid : ℕ) (s : At)
      → let s' = (log_failure texts meta r law vendor set_api vid s).1 in
        (db_of s' ≡ db_of s) × (s'.syncd.hardware ≡ s.syncd.hardware)
  unfolding log_failure
  log_failure-kept vid s =
      let asked = translate_vid_to_rid M vid s.syncd.translator in
      let kept = translate_vid_to_rid-db M vid s.syncd.translator in
      elim (Result-cases asked.0) [
        | inl (message, e) ↦ rw (e, log_failure) (kept, refl)
        | inr (rid, e) ↦ rw (e, log_failure) (kept, refl)
      ]

  answer_set-kept :
      (object_type vid : ℕ) (result : Status × List Attribute) (s : At)
      → let s' = (answer_request texts meta r law vendor set_api object_type vid result s).1 in
        (db_of s' ≡ db_of s) × (s'.syncd.hardware ≡ s.syncd.hardware)
  unfolding answer_request send_api_response
  answer_set-kept object_type vid (status, attrs) s = elim (Bool-cases (is_success status)) [
    | inl good ↦ rw (good, answer_request) (refl, refl)
    | inr bad ↦ rw (bad, answer_request) (log_failure-kept vid _)
  ]

  module _ (start_linecard : ℕ → ℕ → Method (Syncd M V) (Unit {0})) where
    -- `processOid` of a set, for the id that the text names.
    process_oid-set :
        (object_type vid stale : ℕ) (str_object_id : Text) (attrs : List Attribute) (w : Syncd M V)
        (result : Status × List Attribute) (w' : Syncd M V)
        → otai_deserialize_object_id str_object_id ≡ ok vid
        → process_oid M T vendor start_linecard set_api object_type str_object_id attrs stale w
          ≡ (ok result, w')
        → ((rid : ℕ) × ((translate_vid_to_rid M vid w.translator).0 ≡ ok rid)
            × (vendor.set object_type rid attrs w.hardware ≡ (result.0, w'.hardware)))
          × (w'.translator.db ≡ w.translator.db)
    unfolding process_oid dispatch
    process_oid-set object_type vid stale str_object_id attrs w result w' named h =
        let call = process_oid_set M T vendor object_type vid attrs w in
        let h' : after (λ (status : Status) (w'' : Syncd M V). (ok (status, attrs), w'')) call.0
              call.1
            ≡ (ok result, w') =
          ground arith in
        let first = after-ok _ call.0 call.1 result w' h' in
        let same : first.0 ≡ result.0 = ground arith in
        let end : call.1 ≡ w' = λ i. (first.2 i).1 in
        let outcome = set_get_outcome M T vendor object_type vid attrs w in
        let called = outcome.0.0 first.0 call.1 (λ i. (first.1 i, call.1)) in
        (
          (called.0, called.1, called.2 ∙ (λ i. (same i, (end i).hardware))),
          (λ i. (sym end i).translator.db) ∙ outcome.0.1,
        )

    serve-set :
        (request : Request) (object_type vid stale : ℕ) (attrs : List Attribute) (s : At)
        (status : Status) (s' : At)
        → otai_deserialize_object_id (object_id_text request.key) ≡ ok vid
        → serve texts meta r law vendor start_linecard set_api request object_type vid stale attrs s
          ≡ (ok status, s')
        → ((rid : ℕ) × ((translate_vid_to_rid M vid s.syncd.translator).0 ≡ ok rid)
            × (vendor.set object_type rid attrs s.syncd.hardware ≡ (status, s'.syncd.hardware)))
          × (db_of s'
              ≡ (sync_update_redis_quad_event r texts.meta_key_of texts.isrecoverable status set_api
                  request.key request.values
                  (db_of s)).1)
    unfolding serve sync_update
    serve-set request object_type vid stale attrs s status s' named h =
        let done =
          process_oid M T vendor start_linecard set_api object_type (object_id_text request.key)
            attrs stale s.syncd in
        let first = after-ok _ done.0 (record s { syncd = done.1 }) status s' h in
        let result = first.0 in
        let s1 : At = record s { syncd = done.1 } in
        let outcome =
          process_oid-set object_type vid stale (object_id_text request.key) attrs s.syncd result
            done.1 named (λ i. (first.1 i, done.1)) in
        let answered = answer_request texts meta r law vendor set_api object_type vid result s1 in
        let second = after-ok _ answered.0 answered.1 status s' first.2 in
        let untouched = answer_set-kept object_type vid result s1 in
        let kept = sync_update texts meta r law vendor result.0 set_api request answered.1 in
        let third = after-ok _ kept.0 kept.1 status s' second.2 in
        let same : result.0 ≡ status = ground arith in
        let end : kept.1 ≡ s' = λ i. (third.2 i).1 in
        let before : db_of answered.1 ≡ db_of s = untouched.0 ∙ outcome.1 in
        let hw : done.1.hardware ≡ s'.syncd.hardware =
          sym untouched.1 ∙ (λ i. (end i).syncd.hardware) in
        (
          (outcome.0.0, outcome.0.1, outcome.0.2 ∙ (λ i. (same i, hw i))),
          (λ i. db_of (sym end i)) ∙ (λ i.
              (sync_update_redis_quad_event r texts.meta_key_of texts.isrecoverable (same i) set_api
                request.key request.values (before i)).1),
        )

    set_request-SetEffect :
        (request : Request) (object_type vid stale : ℕ) (attrs : List Attribute) (s : At)
        (status : Status) (s' : At)
        → Reads request object_type vid attrs
        → (let translated = translate_request texts meta r law vendor set_api object_type attrs s in
            after
              (serve texts meta r law vendor start_linecard set_api request object_type vid stale)
              translated.0
              translated.1
            ≡ (ok status, s'))
        → SetEffect request s status s'
    unfolding translate_request
    set_request-SetEffect request object_type vid stale attrs s status s' reads h =
        let tr = translate_attributes_to_rids M meta object_type attrs s.syncd.translator in
        let s1 : At = record s { syncd = record s.syncd { translator = tr.1 } } in
        let first = after-ok _ tr.0 s1 status s' h in
        let named = object_id_text-named request.key object_type vid reads.named in
        let served = serve-set request object_type vid stale first.0 s1 status s' named first.2 in
        let untouched =
          translate_attributes_to_rids-db M meta object_type attrs s.syncd.translator in
        let stored = served.1 ∙ (λ i.
          (sync_update_redis_quad_event r texts.meta_key_of texts.isrecoverable status set_api
            request.key request.values (untouched i)).1) in
        let changed =
          sync_update_outcome r law texts.meta_key_of texts.isrecoverable status set_api request.key
            request.values (db_of s) in
        record {
          object_type = object_type;
          vid = vid;
          attrs = attrs;
          reads = reads;
          passed = first.0;
          rid = served.0.0;
          translated = first.1;
          real = served.0.1;
          called = served.0.2;
          same_maps = subst (λ z. SameMaps r law (db_of s) z) (sym stored) changed.0;
          stored = stored;
        }

    -- A request to set an attribute, from the text on: when serving it returns a status, the vendor
    -- library was called with the RID of the VID that the key names and with the attributes that the
    -- fields give, their VIDs translated, and the status is its answer; the hardware is as that call
    -- left it. The maps between VIDs and RIDs are as they were, and the rest of the database is what
    -- the change of ASIC_STATE for this status makes of it.
    pub set_event-SetEffect :
        (request : Request) (stale : ℕ) (s : At) (status : Status) (s' : At)
        → process_quad_event texts meta r law vendor start_linecard set_api request stale s
          ≡ (ok status, s')
        → SetEffect request s status s'
    unfolding process_quad_event translate_request
    set_event-SetEffect request stale s status s' h =
        elim (Result-cases (otai_deserialize_object_meta_key texts request.key)) [
          | inl (message, e) ↦ absurd (ground arith)
          | inr ((object_type, vid), e) ↦ elim (Bool-cases (t.is_object_type_valid object_type)) [
            | inr invalid ↦ absurd (ground arith)
            | inl valid ↦
                elim (Result-cases (texts.deserialize_attr_list object_type request.values)) [
                  | inl (message, e') ↦ absurd (ground arith)
                  | inr (attrs, e') ↦
                      set_request-SetEffect request object_type vid stale attrs s status s'
                        (record { named = e; listed = e' }) (ground arith)
                ]
          ]
        ]
