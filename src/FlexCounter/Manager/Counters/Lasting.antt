-- ===== src/FlexCounter/Manager/Counters/Lasting.antt =====
-- The calls of the manager keep what a map of groups is.
use sonic_otairedis.Common.{
  ℕ, ◌≡◌, inl, inr, refl, ap, ◌∙◌, arith, false, List, [], ◌∷◌, ◌==◌, Bool-cases, Option-cases,
  Result-cases,
}
use sonic_otairedis.Common.Assoc.{
  find, contains, insert, remove, Distinct, insert-Distinct, remove-Distinct,
}
use sonic_otairedis.Serialize.ObjectId.{Text}
use sonic_otairedis.Serialize.Texts.{same_text, same_text_eq, same_text_other}
use sonic_otairedis.Serialize.Stoi.{stoi}
use sonic_otairedis.Serialize.TextMaps.{contains-insert}
use sonic_otairedis.Oid.VidManager
use sonic_otairedis.Otai.{ObjectTypes}
use sonic_otairedis.FlexCounter.{
  FieldNames, FlexCounter, new_counter, group_of, discarded, apply_field, apply_fields,
  add_counter_plugin, remove_counter_plugins, remove_counter, add_collectors, collects,
  set_poll_interval,
}
use sonic_otairedis.FlexCounter.Manager.{
  FlexCounterManager, get_instance, settle, add_plugin, add_to, Call, call_add_plugin,
  call_remove_plugins, call_add, call_remove, call_remove_instance, call_remove_all, step, run,
}
use sonic_otairedis.FlexCounter.Manager.Counters.{IsManager, find-IsManager}

-- What is asked of the `FlexCounter` of a group.
abbrev IsOf : Text → FlexCounter → Type 0
IsOf group_name fc = Distinct ◌==◌ fc.collectors × (fc.prop_group ≡ group_of group_name)

insert-IsManager :
    (g : Text) (fc : FlexCounter) (m : FlexCounterManager)
    → IsManager m
    → IsOf g fc
    → IsManager (insert same_text g fc m)
insert-IsManager g fc [] w own = (refl, own.0, own.1, tt)
insert-IsManager g fc ((g', fc') ∷ rest) w own = elim (Bool-cases (same_text g g')) [
  | inl e ↦
      let key : g ≡ g' = same_text_eq g g' e in rw e (w.0, own.0, own.1 ∙ ap group_of key, w.3)
  | inr e ↦
      let other : same_text g' g ≡ false = same_text_other g g' e in
      rw e (contains-insert g' g fc rest w.0 other, w.1, w.2, insert-IsManager g fc rest w.3 own)
]

contains-remove :
    (k j : Text) (m : FlexCounterManager)
    → contains same_text k m ≡ false
    → contains same_text k (remove same_text j m) ≡ false
contains-remove k j [] h = refl
contains-remove k j ((i, fc) ∷ rest) h = let ih = contains-remove k j rest in ground arith

remove-IsManager :
    (g : Text) (m : FlexCounterManager) → IsManager m → IsManager (remove same_text g m)
remove-IsManager g [] w = tt
remove-IsManager g ((g', fc') ∷ rest) w = elim (Bool-cases (same_text g g')) [
  | inl e ↦ rw e (w.3)
  | inr e ↦ rw e (contains-remove g' g rest w.0, w.1, w.2, remove-IsManager g rest w.3)
]

settle-IsManager :
    (g : Text) (fc : FlexCounter) (m : FlexCounterManager)
    → IsManager m
    → IsOf g fc
    → IsManager (settle g fc m)
settle-IsManager g fc m w own =
    let put = insert-IsManager g fc m w own in
    elim (Bool-cases (discarded fc)) [
      | inl e ↦ rw e (remove-IsManager g (insert same_text g fc m) put)
      | inr e ↦ rw e put
    ]

get_instance-IsManager :
    (g : Text) (m : FlexCounterManager)
    → IsManager m
    → IsOf g (get_instance g m).0 × IsManager (get_instance g m).1
get_instance-IsManager g m w = elim (Option-cases (find same_text g m)) [
  | inr (fc, h) ↦ rw (h, get_instance) (find-IsManager g m fc w h, w)
  | inl new ↦
      let own : IsOf g (new_counter g) = (tt, refl) in
      rw (new, get_instance) (own, insert-IsManager g (new_counter g) m w own)
]

apply_field-IsOf :
    (names : FieldNames) (g : Text) (f : Text × Text) (fc : FlexCounter)
    → IsOf g fc
    → IsOf g (apply_field names f fc).1
unfolding apply_field
apply_field-IsOf names g (field, value) fc own = elim (Result-cases (stoi value)) [
  | inl (message, e) ↦ rw (e, apply_field, set_poll_interval) (ground arith)
  | inr (n, e) ↦ rw (e, apply_field, set_poll_interval) (ground arith)
]

apply_fields-IsOf :
    (names : FieldNames) (g : Text) (values : List (Text × Text)) (fc : FlexCounter)
    → IsOf g fc
    → IsOf g (apply_fields names values fc).1
unfolding apply_fields
apply_fields-IsOf names g [] fc own = own
apply_fields-IsOf names g (f ∷ rest) fc own =
    let one = apply_field-IsOf names g f fc own in
    elim (Result-cases (apply_field names f fc).0) [
      | inl (message, e) ↦ rw e one
      | inr (done, e) ↦ rw e (apply_fields-IsOf names g rest (apply_field names f fc).1 one)
    ]

add_plugin-IsManager :
    (names : FieldNames) (g : Text) (values : List (Text × Text)) (m : FlexCounterManager)
    → IsManager m
    → IsManager (add_plugin names g values m).1
unfolding add_plugin add_counter_plugin
add_plugin-IsManager names g values m w =
    let i = get_instance-IsManager g m w in
    insert-IsManager g _ _ i.1
      (apply_fields-IsOf names g values (record (get_instance g m).0 { is_discarded = false }) i.0)

module _ ⦃t : ObjectTypes⦄ (tokenize : Text → List Text) where
  add_collectors-IsOf :
      (object_type vid rid : ℕ) (g : Text) (values : List (Text × Text)) (fc : FlexCounter)
      → IsOf g fc
      → IsOf g (add_collectors tokenize object_type vid rid values fc)
  add_collectors-IsOf object_type vid rid g [] fc own = own
  add_collectors-IsOf object_type vid rid g ((field, value) ∷ rest) fc own =
      let one : IsOf g (add_collectors tokenize object_type vid rid ((field, value) ∷ []) fc) =
        elim (Bool-cases (collects fc.prop_group)) [
          | inl c ↦ rw c (insert-Distinct vid _ fc.collectors own.0, own.1)
          | inr c ↦ rw c own
        ] in
      add_collectors-IsOf object_type vid rid g rest _ one

  add_to-IsManager :
      (vid rid : ℕ) (g : Text) (values : List (Text × Text)) (m : FlexCounterManager)
      → IsManager m
      → IsManager (add_to tokenize vid rid g values m).1
  unfolding add_to
  add_to-IsManager vid rid g values m w =
      let i = get_instance-IsManager g m w in
      elim (Result-cases (VidManager.object_type_query vid)) [
        | inl (message, e) ↦ rw e (insert-IsManager g _ _ i.1 i.0)
        | inr (object_type, e) ↦ rw e (
            settle-IsManager g
              (add_collectors tokenize object_type vid rid values (get_instance g m).0) _ i.1
              (add_collectors-IsOf object_type vid rid g values (get_instance g m).0 i.0))
      ]

  module _ (names : FieldNames) where
    step-IsManager :
        (c : Call) (m : FlexCounterManager) → IsManager m → IsManager (step tokenize names c m)
    step-IsManager (call_add_plugin g values) m w = add_plugin-IsManager names g values m w
    step-IsManager (call_remove_plugins g) m w =
        let i = get_instance-IsManager g m w in
        settle-IsManager g (remove_counter_plugins (get_instance g m).0) _ i.1 i.0
    step-IsManager (call_add vid rid g values) m w = add_to-IsManager vid rid g values m w
    step-IsManager (call_remove vid g) m w =
        let i = get_instance-IsManager g m w in
        settle-IsManager g (remove_counter vid (get_instance g m).0) _ i.1
          (remove-Distinct vid (get_instance g m).0.collectors i.0.0, i.0.1)
    step-IsManager (call_remove_instance g) m w = remove-IsManager g m w
    step-IsManager call_remove_all m w = tt

    -- The calls of the manager, those that throw included, keep that it is a map of groups, none of
    -- which holds a VID twice.
    run-IsManager :
        (cs : List Call) (m : FlexCounterManager)
        → IsManager m
        → IsManager (run tokenize names cs m)
    run-IsManager [] m w = w
    run-IsManager (c ∷ cs) m w = run-IsManager cs _ (step-IsManager c m w)
