-- ===== src/Requests/Events/Answers.antt =====
-- How many answers a request gets, and in which order.
use sonic_otairedis.Common.{
  ℕ, ◌≡◌, inl, inr, refl, sym, ap, ◌∙◌, false, arith, List, [], ◌∷◌, ok, Method, after, after-ok,
  Bool-cases, Result-cases, if◌then◌else◌,
}
use sonic_otairedis.Otai.{ObjectTypes, Status, success, is_success}
use sonic_otairedis.Metadata.{Attribute, Metadata}
use sonic_otairedis.Serialize.ObjectId.{text}
use sonic_otairedis.Serialize.Texts.{same_text}
use sonic_otairedis.Oid.VidManager
use sonic_otairedis.Redis.Database.{Redis, IsRedis}
use sonic_otairedis.Translator.{translate_vid_to_rid}
use sonic_otairedis.Translator.Attributes.{translate_attributes_to_vids}
use sonic_otairedis.Requests.{
  Vendor, Syncd, Api, create_api, remove_api, set_api, get_api, other_api, on_translator,
  process_oid,
}
use sonic_otairedis.Requests.Events.{
  Request, Answer, Texts, Server, Map, Table, on_syncd, otai_deserialize_object_meta_key,
  object_id_text, send, send_api_response, send_attributes, send_get_response, log_failure,
  answer_request, sync_update, translate_request, serve, process_quad_event, process_single_event,
  process_event,
}

module _ ⦃t : ObjectTypes⦄ (texts : Texts) (meta : Metadata) (r : Redis) (law : IsRedis r)
    {V : Type 0} (vendor : Vendor V) where
  abbrev At : Type 0
  At = Server (Map texts meta r law vendor) V

  -- One more answer, with a status.
  abbrev pub OneMore : Status → List Answer → List Answer → Type 0
  OneMore status before after =
      (answer : Answer) × (answer.status ≡ status) × (after ≡ answer ∷ before)

  log_failure-sent :
      (api : Api) (vid : ℕ) (s : At)
      → (log_failure texts meta r law vendor api vid s).1.sent ≡ s.sent
  unfolding log_failure
  log_failure-sent set_api vid s =
      let asked =
        on_translator (Map texts meta r law vendor) (Table texts meta r law vendor) vendor
          (translate_vid_to_rid (Map texts meta r law vendor) vid) s.syncd in
      elim (Result-cases asked.0) [ inl (message, e) ↦ rw e refl | inr (rid, e) ↦ rw e refl ]
  log_failure-sent create_api vid s = refl
  log_failure-sent remove_api vid s = refl
  log_failure-sent get_api vid s = refl
  log_failure-sent other_api vid s = refl

  -- What follows the answer sends nothing.
  logged-sent :
      (api : Api) (vid : ℕ) (status : Status) (s s' : At)
      → (if is_success status then (ok tt, s) else log_failure texts meta r law vendor api vid s)
        ≡ (ok tt, s')
      → s'.sent ≡ s.sent
  logged-sent api vid status s s' h = elim (Bool-cases (is_success status)) [
    | inl good ↦ let e : s ≡ s' = ground arith in λ i. (sym e i).sent
    | inr bad ↦
        let e : log_failure texts meta r law vendor api vid s ≡ (ok tt, s') = ground arith in
        (λ i. (sym e i).1.sent) ∙ log_failure-sent api vid s
  ]

  send_get_response-OneMore :
      (object_type linecard_vid : ℕ) (status : Status) (attrs : List Attribute) (s s' : At)
      → send_get_response texts meta r law vendor object_type linecard_vid status attrs s
        ≡ (ok tt, s')
      → OneMore status s.sent s'.sent
  unfolding send_get_response send_attributes
  send_get_response-OneMore object_type linecard_vid success attrs s s' h =
      let back =
        on_syncd
          (on_translator (Map texts meta r law vendor) (Table texts meta r law vendor) vendor (
            translate_attributes_to_vids (Map texts meta r law vendor) meta texts.vendor_type
              object_type linecard_vid attrs false))
          s in
      let first = after-ok _ back.0 back.1 tt s' h in
      elim (Result-cases (texts.serialize_attr_list object_type first.0)) [
        | inl (message, e) ↦ absurd (ground arith)
        | inr (entry, e) ↦
            let end : send (record { status = success; entry = entry }) back.1 ≡ s' =
              ground arith in
            (_, refl, λ i. (sym end i).sent)
      ]
  send_get_response-OneMore object_type linecard_vid status attrs s s' h =
      (_, refl, sym (λ i. (h i).1.sent))

  answer_request-OneMore :
      (api : Api) (object_type vid : ℕ) (status : Status) (attrs : List Attribute) (s s' : At)
      → answer_request texts meta r law vendor api object_type vid (status, attrs) s ≡ (ok tt, s')
      → OneMore status s.sent s'.sent
  unfolding answer_request send_api_response
  answer_request-OneMore get_api object_type vid status attrs s s' h =
      let first = after-ok _ (VidManager.linecard_id_query vid) s tt s' h in
      send_get_response-OneMore object_type first.0 status attrs s s' first.2
  answer_request-OneMore create_api object_type vid status attrs s s' h =
      (_, refl, logged-sent create_api vid status _ s' h)
  answer_request-OneMore remove_api object_type vid status attrs s s' h =
      (_, refl, logged-sent remove_api vid status _ s' h)
  answer_request-OneMore set_api object_type vid status attrs s s' h =
      (_, refl, logged-sent set_api vid status _ s' h)
  answer_request-OneMore other_api object_type vid status attrs s s' h = absurd (ground arith)

  module _
      (start_linecard : ℕ → ℕ → Method (Syncd (Map texts meta r law vendor) V) (Unit {0})) where
    serve-OneMore :
        (api : Api) (request : Request) (object_type vid stale : ℕ) (attrs : List Attribute)
        (s : At) (status : Status) (s' : At)
        → serve texts meta r law vendor start_linecard api request object_type vid stale attrs s
          ≡ (ok status, s')
        → OneMore status s.sent s'.sent
    unfolding serve sync_update
    serve-OneMore api request object_type vid stale attrs s status s' h =
        let done =
          process_oid (Map texts meta r law vendor) (Table texts meta r law vendor) vendor
            start_linecard api object_type (object_id_text request.key) attrs stale s.syncd in
        let first = after-ok _ done.0 (record s { syncd = done.1 }) status s' h in
        let result = first.0 in
        let s1 : At = record s { syncd = done.1 } in
        let answered = answer_request texts meta r law vendor api object_type vid result s1 in
        let second = after-ok _ answered.0 answered.1 status s' first.2 in
        let sent =
          answer_request-OneMore api object_type vid result.0 result.1 s1 answered.1
            (λ i. (second.1 i, answered.1)) in
        let kept = sync_update texts meta r law vendor result.0 api request answered.1 in
        let third = after-ok _ kept.0 kept.1 status s' second.2 in
        let same : result.0 ≡ status = ground arith in
        (sent.0, sent.1 ∙ same, sym (λ i. (third.2 i).1.sent) ∙ sent.2)

    translate_request-sent :
        (api : Api) (object_type : ℕ) (attrs : List Attribute) (s : At)
        → (translate_request texts meta r law vendor api object_type attrs s).1.sent ≡ s.sent
    unfolding translate_request
    translate_request-sent get_api object_type attrs s = refl
    translate_request-sent create_api object_type attrs s = refl
    translate_request-sent remove_api object_type attrs s = refl
    translate_request-sent set_api object_type attrs s = refl
    translate_request-sent other_api object_type attrs s = refl

    pub process_quad_event-OneMore :
        (api : Api) (request : Request) (stale : ℕ) (s : At) (status : Status) (s' : At)
        → process_quad_event texts meta r law vendor start_linecard api request stale s
          ≡ (ok status, s')
        → OneMore status s.sent s'.sent
    unfolding process_quad_event
    process_quad_event-OneMore api request stale s status s' h =
        elim (Result-cases (otai_deserialize_object_meta_key texts request.key)) [
          | inl (message, e) ↦ absurd (ground arith)
          | inr ((object_type, vid), e) ↦ elim (Bool-cases (t.is_object_type_valid object_type)) [
            | inr invalid ↦ absurd (ground arith)
            | inl valid ↦
                elim (Result-cases (texts.deserialize_attr_list object_type request.values)) [
                  | inl (message, e') ↦ absurd (ground arith)
                  | inr (attrs, e') ↦
                      let translated =
                        translate_request texts meta r law vendor api object_type attrs s in
                      let h' : after
                            (serve texts meta r law vendor start_linecard api request object_type
                              vid stale)
                            translated.0 translated.1
                          ≡ (ok status, s') =
                        ground arith in
                      let first = after-ok _ translated.0 translated.1 status s' h' in
                      let more =
                        serve-OneMore api request object_type vid stale first.0 translated.1 status
                          s' first.2 in
                      (
                        more.0,
                        more.1,
                        more.2
                            ∙ ap (λ z. more.0 ∷ z) (translate_request-sent api object_type attrs s),
                      )
                ]
          ]
        ]

    pub process_single_event-OneMore :
        (request : Request) (stale : ℕ) (s : At) (status : Status) (s' : At)
        → same_text request.key [] ≡ false
        → process_single_event texts meta r law vendor start_linecard request stale s
          ≡ (ok status, s')
        → OneMore status s.sent s'.sent
    unfolding process_single_event
    process_single_event-OneMore request stale s status s' keyed h =
        elim (Bool-cases (same_text request.op (text "create"))) [
          | inl is ↦ process_quad_event-OneMore create_api request stale s status s' (ground arith)
          | inr n1 ↦ elim (Bool-cases (same_text request.op (text "remove"))) [
            | inl is ↦
                process_quad_event-OneMore remove_api request stale s status s' (ground arith)
            | inr n2 ↦ elim (Bool-cases (same_text request.op (text "set"))) [
              | inl is ↦ process_quad_event-OneMore set_api request stale s status s' (ground arith)
              | inr n3 ↦ elim (Bool-cases (same_text request.op (text "get"))) [
                | inl is ↦
                    process_quad_event-OneMore get_api request stale s status s' (ground arith)
                | inr n4 ↦ absurd (ground arith)
              ]
            ]
          ]
        ]

    -- The requests one by one: each returned a status, and added one answer with that status to those
    -- before it; a request with an empty key added none.
    abbrev pub AllAnswered : List (Request × ℕ) → At → At → Type 0
    AllAnswered [] s s' = s ≡ s'
    AllAnswered ((request, stale) ∷ rest) s s' =
        (status : Status) × (s1 : At) × (process_single_event texts meta r law vendor start_linecard
            request stale s
          ≡ (ok status, s1))
        × (same_text request.key [] ≡ false → OneMore status s.sent s1.sent)
        × AllAnswered rest s1 s'

    -- When `processEvent` returns, the requests were served one after the other, each on what the one
    -- before it had left, and each that has a key got exactly one answer, with the status that serving
    -- it returned, in the order of the requests.
    pub process_event-AllAnswered :
        (requests : List (Request × ℕ)) (s s' : At)
        → process_event texts meta r law vendor start_linecard requests s ≡ (ok tt, s')
        → AllAnswered requests s s'
    unfolding process_event
    process_event-AllAnswered [] s s' h = ground arith
    process_event-AllAnswered ((request, stale) ∷ rest) s s' h =
        let first = process_single_event texts meta r law vendor start_linecard request stale s in
        let one = after-ok _ first.0 first.1 tt s' h in
        let e : first ≡ (ok one.0, first.1) = λ i. (one.1 i, first.1) in
        (
          one.0,
          first.1,
          e,
          (λ keyed. process_single_event-OneMore request stale s one.0 first.1 keyed e),
          process_event-AllAnswered rest first.1 s' one.2,
        )
