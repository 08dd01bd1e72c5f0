-- ===== src/FlexCounter/Events/Outcome.antt =====
-- What a request on a counter does, from its text on.
use mathlib.Core.List.{append_assoc}
use sonic_otairedis.Common.{
  ℕ, ◌+◌, ◌^◌, ◌<◌, ◌≡◌, ◌⊎◌, inl, inr, refl, Bool-cases, Option-cases, arith, true, false, List,
  ◌∷◌, [], ◌++◌, Option, none, some, Result, ok, length, length-append, ◌==◌, subst,
}
use sonic_otairedis.Serialize.ObjectId.{Text, otai_serialize_object_id}
use sonic_otairedis.Serialize.ObjectId.RoundTrip.{deserialize-serialize}
use sonic_otairedis.Serialize.Texts.{
  Without, same_text, find_char, next, npos, drop, find_char-append, drop-append, take-append,
}
use sonic_otairedis.Otai.{ObjectTypes}
use sonic_otairedis.Redis.VidMap.{VidMap}
use sonic_otairedis.Translator.{Translator, try_translate_vid_to_rid}
use sonic_otairedis.FlexCounter.Manager.{FlexCounterManager}
use sonic_otairedis.FlexCounter.Manager.Counters.{IsManager, Updated, remove_from-Updated}
use sonic_otairedis.FlexCounter.Manager.Counters.Added.{Adds, add_to-Adds}
use sonic_otairedis.FlexCounter.Events.{
  Commands, Request, serve_counter, translate_and_serve, process_flex_counter_event,
}

-- The key of a counter: its group, a colon, and the id.
abbrev pub counter_key : Text → ℕ → Text
counter_key group_name vid = group_name ++ b':' ∷ otai_serialize_object_id vid

counter_key-parts :
    (group_name id : Text)
    → Without b':' group_name
    → length group_name + 1 < 2 ^ 64
    → (find_char b':' 0 (group_name ++ b':' ∷ id) ≡ length group_name)
      × (drop (next (length group_name)) (group_name ++ b':' ∷ id) ≡ id)
counter_key-parts group_name id plain small =
    let found = find_char-append b':' 0 group_name id plain in
    let upto : Text = group_name ++ b':' ∷ [] in
    let len = length-append group_name (b':' ∷ []) in
    let after_colon : next (length group_name) ≡ length upto = omega arith in
    let whole = append_assoc group_name (b':' ∷ []) id in
    let rest : drop (length upto) (group_name ++ b':' ∷ id) ≡ id =
      subst (λ (z : Text). drop (length upto) z ≡ id) whole (drop-append upto id) in
    (omega arith, rw after_colon rest)

module _ ⦃t : ObjectTypes⦄ (v : VidMap) (tokenize : Text → List Text) (commands : Commands) where
  -- What a request on a VID does to the counters, where the translator gave `looked` for the VID.
  abbrev pub Served :
      Text
      → ℕ
      → Text
      → List (Text × Text)
      → FlexCounterManager
      → Option ℕ × Translator v
      → Result (Unit {0}) × FlexCounterManager
      → Type 0
  Served group_name vid op values m looked end =
      ((looked.0 ≡ none) × (end.0 ≡ ok tt) × Updated group_name vid none m end.1)
      ⊎ ((rid : ℕ) × (looked.0 ≡ some rid)
          × (((same_text op commands.set_command ≡ true)
                × Adds tokenize vid rid group_name values m end)
              ⊎ ((same_text op commands.set_command ≡ false)
                  × (same_text op commands.del_command ≡ true)
                  × (end.0 ≡ ok tt)
                  × Updated group_name vid none m end.1)
              ⊎ ((same_text op commands.set_command ≡ false)
                  × (same_text op commands.del_command ≡ false)
                  × (end.0 ≡ ok tt)
                  × (end.1 ≡ m))))

  serve_counter-Served :
      (group_name : Text) (vid : ℕ) (q : Request) (looked : Option ℕ × Translator v)
      (m : FlexCounterManager)
      → IsManager m
      → Served group_name vid q.op q.values m looked
          (serve_counter v tokenize commands vid group_name q looked.0 m)
  unfolding serve_counter
  serve_counter-Served group_name vid q looked m w = elim (Option-cases looked.0) [
    | inl unknown ↦
        rw (unknown, serve_counter) (inl (refl, refl, remove_from-Updated vid group_name m w))
    | inr (rid, known) ↦ elim (Bool-cases (same_text q.op commands.set_command)) [
      | inl set ↦
          rw (known, serve_counter, set)
            (inr (rid, refl, inl (refl, add_to-Adds tokenize vid rid group_name q.values m w)))
      | inr other ↦ elim (Bool-cases (same_text q.op commands.del_command)) [
        | inl del ↦
            rw (known, serve_counter, other, del)
              (inr
                (rid, refl, inr (inl (refl, refl, refl, remove_from-Updated vid group_name m w))))
        | inr no_del ↦
            rw (known, serve_counter, other, no_del)
              (inr (rid, refl, inr (inr (refl, refl, refl, refl))))
      ]
    ]
  ]

  -- A request on a counter whose key names a group without a colon, in a text below 2^64 - 1 bytes,
  -- and a 64-bit VID; the manager is a map from the names of groups, each `FlexCounter` is of the
  -- group of its name, and none holds a VID twice. Where the translator knows no RID for the VID, the
  -- group has no counter of the VID afterwards, whatever the operation is. Otherwise a request to set
  -- gives the VID a counter with that RID and the ids of the last value, if the group collects and
  -- there is a value, and else leaves the counter that it has; it throws where the VID has no valid
  -- type. A request to delete leaves the group without a counter of the VID, and any other leaves the
  -- groups as they are. No other counter changes, also where it throws, and the translator is as the
  -- lookup of the VID left it.
  pub process_flex_counter_event-Served :
      (group_name : Text) (vid : ℕ) (op : Text) (values : List (Text × Text)) (tr : Translator v)
      (m : FlexCounterManager)
      → Without b':' group_name
      → length group_name + 1 < 2 ^ 64
      → vid < 2 ^ 64
      → IsManager m
      → let end =
          process_flex_counter_event v tokenize commands
            (record { key = counter_key group_name vid; op = op; values = values })
            (tr, m) in
        let looked = try_translate_vid_to_rid v vid tr in
        (end.1.0 ≡ looked.1) × Served group_name vid op values m looked (end.0, end.1.1)
  unfolding process_flex_counter_event translate_and_serve
  process_flex_counter_event-Served group_name vid op values tr m plain small fits w =
      let q : Request = record { key = counter_key group_name vid; op = op; values = values } in
      let looked = try_translate_vid_to_rid v vid tr in
      let parts = counter_key-parts group_name (otai_serialize_object_id vid) plain small in
      let there : (length group_name == npos) ≡ false = ground arith in
      rw
        (
          parts.0,
          there,
          parts.1,
          deserialize-serialize vid fits,
          take-append group_name (b':' ∷ otai_serialize_object_id vid),
        )
        (refl, serve_counter-Served group_name vid q looked m w)
