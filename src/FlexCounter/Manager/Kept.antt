-- ===== src/FlexCounter/Manager/Kept.antt =====
-- What every call of the manager keeps: no `FlexCounter` without work stays in the map.
use sonic_otairedis.Common.{
  ℕ, ◌≡◌, inl, inr, refl, sym, ◌∙◌, arith, false, List, [], ◌∷◌, some, Bool-cases, Option-cases,
  Result-cases, if◌then◌else◌,
}
use sonic_otairedis.Common.Assoc.{find, insert, remove}
use sonic_otairedis.Serialize.ObjectId.{Text}
use sonic_otairedis.Serialize.Texts.{same_text, same_text_refl}
use sonic_otairedis.Serialize.Stoi.{stoi}
use sonic_otairedis.Oid.VidManager
use sonic_otairedis.Otai.{ObjectTypes}
use sonic_otairedis.FlexCounter.{
  FieldNames, FlexCounter, apply_field, apply_fields, add_counter_plugin, remove_counter_plugins,
  remove_counter, discarded, add_collectors, set_poll_interval,
}
use sonic_otairedis.FlexCounter.Manager.{
  FlexCounterManager, get_instance, settle, add_plugin, add_to, Call, call_add_plugin,
  call_remove_plugins, call_add, call_remove, call_remove_instance, call_remove_all, step, run,
}

-- None of the `FlexCounter`s has lost both its plugins and its last collector.
abbrev pub NoneDiscarded : FlexCounterManager → Type 0
NoneDiscarded [] = Unit
NoneDiscarded ((instance_id, fc) ∷ rest) = (discarded fc ≡ false) × NoneDiscarded rest

find-NoneDiscarded :
    (instance_id : Text) (m : FlexCounterManager) (fc : FlexCounter)
    → NoneDiscarded m
    → find same_text instance_id m ≡ some fc
    → discarded fc ≡ false
find-NoneDiscarded instance_id [] fc kept h = absurd cc
find-NoneDiscarded instance_id ((i, fc') ∷ rest) fc kept h =
    elim (Bool-cases (same_text instance_id i)) [
      | inl e ↦
          let found : some fc' ≡ some fc =
            (λ k. if◌then◌else◌ (sym e k) (some fc') (find same_text instance_id rest)) ∙ h in
          let same : fc' ≡ fc = cc in (λ k. discarded (sym same k)) ∙ kept.0
      | inr e ↦
          find-NoneDiscarded instance_id rest fc kept.1
            ((λ k. if◌then◌else◌ (sym e k) (some fc') (find same_text instance_id rest)) ∙ h)
    ]

insert-NoneDiscarded :
    (instance_id : Text) (fc : FlexCounter) (m : FlexCounterManager)
    → NoneDiscarded m
    → discarded fc ≡ false
    → NoneDiscarded (insert same_text instance_id fc m)
insert-NoneDiscarded instance_id fc [] kept live = (live, tt)
insert-NoneDiscarded instance_id fc ((i, fc') ∷ rest) kept live =
    elim (Bool-cases (same_text instance_id i)) [
      | inl e ↦ rw e (live, kept.1)
      | inr e ↦ rw e (kept.0, insert-NoneDiscarded instance_id fc rest kept.1 live)
    ]

remove-NoneDiscarded :
    (instance_id : Text) (m : FlexCounterManager)
    → NoneDiscarded m
    → NoneDiscarded (remove same_text instance_id m)
remove-NoneDiscarded instance_id [] kept = tt
remove-NoneDiscarded instance_id ((i, fc') ∷ rest) kept =
    elim (Bool-cases (same_text instance_id i)) [
      | inl e ↦ rw e (kept.1)
      | inr e ↦ rw e (kept.0, remove-NoneDiscarded instance_id rest kept.1)
    ]

-- The `FlexCounter` that was just put in is the one that is removed.
remove_insert-NoneDiscarded :
    (instance_id : Text) (fc : FlexCounter) (m : FlexCounterManager)
    → NoneDiscarded m
    → NoneDiscarded (remove same_text instance_id (insert same_text instance_id fc m))
remove_insert-NoneDiscarded instance_id fc [] kept = rw (same_text_refl instance_id) tt
remove_insert-NoneDiscarded instance_id fc ((i, fc') ∷ rest) kept =
    elim (Bool-cases (same_text instance_id i)) [
      | inl e ↦ rw (e, e) (kept.1)
      | inr e ↦ rw (e, e) (kept.0, remove_insert-NoneDiscarded instance_id fc rest kept.1)
    ]

settle-NoneDiscarded :
    (instance_id : Text) (fc : FlexCounter) (m : FlexCounterManager)
    → NoneDiscarded m
    → NoneDiscarded (settle instance_id fc m)
settle-NoneDiscarded instance_id fc m kept = elim (Bool-cases (discarded fc)) [
  | inl e ↦ rw e (remove_insert-NoneDiscarded instance_id fc m kept)
  | inr e ↦ rw e (insert-NoneDiscarded instance_id fc m kept e)
]

get_instance-NoneDiscarded :
    (instance_id : Text) (m : FlexCounterManager)
    → NoneDiscarded m
    → (discarded (get_instance instance_id m).0 ≡ false)
      × NoneDiscarded (get_instance instance_id m).1
get_instance-NoneDiscarded instance_id m kept = elim (Option-cases (find same_text instance_id m)) [
  | inr (fc, h) ↦ rw (h, get_instance) (find-NoneDiscarded instance_id m fc kept h, kept)
  | inl new ↦ rw (new, get_instance) (refl, insert-NoneDiscarded instance_id _ m kept refl)
]

apply_field_flag :
    (names : FieldNames) (f : Text × Text) (fc : FlexCounter)
    → (apply_field names f fc).1.is_discarded ≡ fc.is_discarded
unfolding apply_field
apply_field_flag names (field, value) fc = elim (Result-cases (stoi value)) [
  | inl (message, e) ↦ rw (e, apply_field, set_poll_interval) (ground arith)
  | inr (n, e) ↦ rw (e, apply_field, set_poll_interval) (ground arith)
]

apply_fields_flag :
    (names : FieldNames) (values : List (Text × Text)) (fc : FlexCounter)
    → (apply_fields names values fc).1.is_discarded ≡ fc.is_discarded
unfolding apply_fields
apply_fields_flag names [] fc = refl
apply_fields_flag names (f ∷ rest) fc =
    let one = apply_field_flag names f fc in
    elim (Result-cases (apply_field names f fc).0) [
      | inl (message, e) ↦ rw e one
      | inr (done, e) ↦ rw e (apply_fields_flag names rest (apply_field names f fc).1 ∙ one)
    ]

add_plugin-NoneDiscarded :
    (names : FieldNames) (instance_id : Text) (values : List (Text × Text)) (m : FlexCounterManager)
    → NoneDiscarded m
    → NoneDiscarded (add_plugin names instance_id values m).1
unfolding add_plugin add_counter_plugin
add_plugin-NoneDiscarded names instance_id values m kept =
    let instance' = get_instance-NoneDiscarded instance_id m kept in
    let flag =
      apply_fields_flag names values
        (record (get_instance instance_id m).0 { is_discarded = false }) in
    insert-NoneDiscarded instance_id _ _ instance'.1 (ground arith)

module _ ⦃t : ObjectTypes⦄ (tokenize : Text → List Text) where
  add_to-NoneDiscarded :
      (vid rid : ℕ) (instance_id : Text) (values : List (Text × Text)) (m : FlexCounterManager)
      → NoneDiscarded m
      → NoneDiscarded (add_to tokenize vid rid instance_id values m).1
  unfolding add_to
  add_to-NoneDiscarded vid rid instance_id values m kept =
      let instance' = get_instance-NoneDiscarded instance_id m kept in
      elim (Result-cases (VidManager.object_type_query vid)) [
        | inl (message, e) ↦ rw e (insert-NoneDiscarded instance_id _ _ instance'.1 instance'.0)
        | inr (object_type, e) ↦ rw e (
            settle-NoneDiscarded instance_id
              (add_collectors tokenize object_type vid rid values (get_instance instance_id m).0) _
              instance'.1)
      ]

  module _ (names : FieldNames) where
    step-NoneDiscarded :
        (c : Call) (m : FlexCounterManager)
        → NoneDiscarded m
        → NoneDiscarded (step tokenize names c m)
    step-NoneDiscarded (call_add_plugin instance_id values) m kept =
        add_plugin-NoneDiscarded names instance_id values m kept
    step-NoneDiscarded (call_remove_plugins instance_id) m kept =
        settle-NoneDiscarded instance_id (remove_counter_plugins (get_instance instance_id m).0) _
          (get_instance-NoneDiscarded instance_id m kept).1
    step-NoneDiscarded (call_add vid rid instance_id values) m kept =
        add_to-NoneDiscarded vid rid instance_id values m kept
    step-NoneDiscarded (call_remove vid instance_id) m kept =
        settle-NoneDiscarded instance_id (remove_counter vid (get_instance instance_id m).0) _
          (get_instance-NoneDiscarded instance_id m kept).1
    step-NoneDiscarded (call_remove_instance instance_id) m kept =
        remove-NoneDiscarded instance_id m kept
    step-NoneDiscarded call_remove_all m kept = tt

    -- The map of `FlexCounter`s after any sequence of calls, those that throw included: if none in
    -- it has lost both its plugins and its last collector, that is so afterwards.
    pub run-NoneDiscarded :
        (cs : List Call) (m : FlexCounterManager)
        → NoneDiscarded m
        → NoneDiscarded (run tokenize names cs m)
    run-NoneDiscarded [] m kept = kept
    run-NoneDiscarded (c ∷ cs) m kept = run-NoneDiscarded cs _ (step-NoneDiscarded c m kept)
