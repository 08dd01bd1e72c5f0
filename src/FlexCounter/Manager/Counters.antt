-- ===== src/FlexCounter/Manager/Counters.antt =====
-- The manager seen from outside: which collector a group has for a VID, and what the calls change of
-- that.
pub mod Added
pub mod Lasting
use Prim.Native.String.{String}
use sonic_otairedis.Common.{
  ℕ, ◌≡◌, inl, inr, refl, sym, subst, ◌∙◌, ap, arith, Bool, true, false, ◌&&◌, List, [], ◌∷◌,
  Option, none, some, Result, ok, throws, ◌==◌, ==_eq, ==_refl, Bool-cases, Option-cases,
  Result-cases, ◌⊎◌, if◌then◌else◌,
}
use sonic_otairedis.Common.Assoc.{
  find, contains, insert, remove, Distinct, find-insert as find-insert_num,
  find-remove as find-remove_num,
}
use sonic_otairedis.Serialize.ObjectId.{Text}
use sonic_otairedis.Serialize.Texts.{same_text, same_text_refl, same_text_eq}
use sonic_otairedis.Serialize.TextMaps.{find-insert, find-remove, insert-Distinct}
use sonic_otairedis.Otai.{ObjectTypes}
use sonic_otairedis.Oid.VidManager
use sonic_otairedis.FlexCounter.{
  PropertyGroup, Collector, FlexCounter, new_counter, group_of, collects, discarded, remove_counter,
  add_collectors,
}
use sonic_otairedis.FlexCounter.Manager.{
  FlexCounterManager, get_instance, settle, remove_from, add_to,
}

-- The collector that a group has for a VID.
abbrev collector_at : ℕ → Option FlexCounter → Option Collector
collector_at vid none = none
collector_at vid (some fc) = find ◌==◌ vid fc.collectors

abbrev pub counter_of : Text → ℕ → FlexCounterManager → Option Collector
counter_of group_name vid m = collector_at vid (find same_text group_name m)

-- The maps of the source hold no key twice, and each `FlexCounter` is of the group of its name.
abbrev pub IsManager : FlexCounterManager → Type 0
IsManager [] = Unit
IsManager ((group_name, fc) ∷ rest) =
    (contains same_text group_name rest ≡ false)
    × Distinct ◌==◌ fc.collectors
    × (fc.prop_group ≡ group_of group_name)
    × IsManager rest

-- The counter of one VID in one group has changed to `new`, and no other.
abbrev pub Updated : Text → ℕ → Option Collector → FlexCounterManager → FlexCounterManager → Type 0
Updated group_name vid new m m' =
    (g : Text) (v : ℕ)
    → counter_of g v m' ≡ (if same_text g group_name && (v == vid) then new else counter_of g v m)

-- Every counter is as it was.
abbrev pub Unchanged : FlexCounterManager → FlexCounterManager → Type 0
Unchanged m m' = (g : Text) (v : ℕ) → counter_of g v m' ≡ counter_of g v m

IsManager-Distinct : (m : FlexCounterManager) → IsManager m → Distinct same_text m
IsManager-Distinct [] w = tt
IsManager-Distinct ((g, fc) ∷ rest) w = (w.0, IsManager-Distinct rest w.3)

-- What is known of the `FlexCounter` of a group.
pub find-IsManager :
    (g : Text) (m : FlexCounterManager) (fc : FlexCounter)
    → IsManager m
    → find same_text g m ≡ some fc
    → Distinct ◌==◌ fc.collectors × (fc.prop_group ≡ group_of g)
find-IsManager g [] fc w h = cc
find-IsManager g ((i, fc') ∷ rest) fc w h = elim (Bool-cases (same_text g i)) [
  | inr e ↦ find-IsManager g rest fc w.3 (rw e at h)
  | inl e ↦
      let found : some fc' ≡ some fc = rw e at h in
      let same : fc' ≡ fc = cc in
      let i_g : i ≡ g = sym (same_text_eq g i e) in
      (
        subst (λ (z : FlexCounter). Distinct ◌==◌ z.collectors) same w.1,
        ap (λ (z : FlexCounter). z.prop_group) (sym same) ∙ w.2 ∙ ap group_of i_g,
      )
]

-- The `FlexCounter` that a call works on, and the map in which it stands.
record Taken (g : Text) (m : FlexCounterManager) : Type 0 where
  pub keys : Distinct same_text (get_instance g m).1
  pub vids : Distinct ◌==◌ (get_instance g m).0.collectors
  pub group : (get_instance g m).0.prop_group ≡ group_of g
  pub own : (v : ℕ) → find ◌==◌ v (get_instance g m).0.collectors ≡ counter_of g v m
  pub others : (g' : Text) (v : ℕ) → counter_of g' v (get_instance g m).1 ≡ counter_of g' v m

insert-counters :
    (g : Text) (fc : FlexCounter) (m : FlexCounterManager) (g' : Text) (v : ℕ)
    → counter_of g' v (insert same_text g fc m)
      ≡ (if same_text g' g then find ◌==◌ v fc.collectors else counter_of g' v m)
insert-counters g fc m g' v =
    let found = ap (collector_at v) (find-insert g' g fc m) in
    elim (Bool-cases (same_text g' g)) [
      | inl e ↦
          rw e (found ∙ ap (λ b. collector_at v (if b then some fc else find same_text g' m)) e)
      | inr e ↦
          rw e (found ∙ ap (λ b. collector_at v (if b then some fc else find same_text g' m)) e)
    ]

get_instance-Taken : (g : Text) (m : FlexCounterManager) → IsManager m → Taken g m
get_instance-Taken g m w = elim (Option-cases (find same_text g m)) [
  | inr (fc, h) ↦
      let known = find-IsManager g m fc w h in
      record {
        keys = rw (h, get_instance) (IsManager-Distinct m w);
        vids = rw (h, get_instance) (known.0);
        group = rw (h, get_instance) (known.1);
        own = λ v. rw (h, get_instance) refl;
        others = λ g' v. rw (h, get_instance) refl;
      }
  | inl new ↦ record {
    keys = rw (new, get_instance) (insert-Distinct g (new_counter g) m (IsManager-Distinct m w));
    vids = rw (new, get_instance) tt;
    group = rw (new, get_instance) refl;
    own = λ v. rw (new, get_instance) refl;
    others = λ g' v.
        let there = insert-counters g (new_counter g) m g' v in
        elim (Bool-cases (same_text g' g)) [
          | inl e ↦
              let absent : counter_of g' v m ≡ none =
                ap (λ z. counter_of z v m) (same_text_eq g' g e) ∙ ap (collector_at v) new in
              rw (new, get_instance) (there ∙ (rw (e, absent) refl))
          | inr e ↦ rw (new, get_instance) (there ∙ (rw e refl))
        ];
  }
]

find-none : (v : ℕ) (fc : FlexCounter) → discarded fc ≡ true → find ◌==◌ v fc.collectors ≡ none
find-none v fc h = empty fc.collectors (ground arith)
  where
    empty :
        (l : List (ℕ × Collector))
        → elim l [ [] ↦ true | _ ∷ _ ↦ false ] ≡ true
        → find ◌==◌ v l ≡ none
    empty [] e = refl
    empty (x ∷ l) e = cc

-- A `FlexCounter` that is put back, or that leaves the map with nothing to do.
settle-counters :
    (g : Text) (fc : FlexCounter) (m : FlexCounterManager)
    → Distinct same_text m
    → (g' : Text) (v : ℕ)
    → counter_of g' v (settle g fc m)
      ≡ (if same_text g' g then find ◌==◌ v fc.collectors else counter_of g' v m)
settle-counters g fc m d g' v = elim (Bool-cases (discarded fc)) [
  | inr e ↦ rw e (insert-counters g fc m g' v)
  | inl e ↦
      let left =
        ap (collector_at v)
          (find-remove g' g (insert same_text g fc m) (insert-Distinct g fc m d)) in
      let before = insert-counters g fc m g' v in
      let none_there = find-none v fc e in
      elim (Bool-cases (same_text g' g)) [
        | inl f ↦ rw (e, f) (left ∙ (rw f (sym none_there)))
        | inr f ↦
            let inside = insert same_text g fc m in
            let kept =
              left ∙ ap (λ b. collector_at v (if b then none else find same_text g' inside)) f in
            let before' =
              before ∙ ap (λ b. if b then find ◌==◌ v fc.collectors else counter_of g' v m) f in
            rw (e, f) (kept ∙ before')
      ]
]

-- A `FlexCounter` that is put back as it was.
back-Unchanged :
    (g : Text) (m : FlexCounterManager)
    → IsManager m
    → Unchanged m (insert same_text g (get_instance g m).0 (get_instance g m).1)
back-Unchanged g m w g' v =
    let i = get_instance-Taken g m w in
    let back = insert-counters g (get_instance g m).0 (get_instance g m).1 g' v in
    let own = i.own v in
    let other = i.others g' v in
    elim (Bool-cases (same_text g' g)) [
      | inr e ↦ ground arith
      | inl e ↦
          let same : counter_of g' v m ≡ counter_of g v m =
            ap (λ z. counter_of z v m) (same_text_eq g' g e) in
          ground arith
    ]

-- What one call changes of the collectors of its `FlexCounter`, it changes of the whole.
settle-Updated :
    (vid : ℕ) (g : Text) (m : FlexCounterManager) (fc : FlexCounter) (new : Option Collector)
    → IsManager m
    → ((v : ℕ)
        → find ◌==◌ v fc.collectors
          ≡ (if v == vid then new else find ◌==◌ v (get_instance g m).0.collectors))
    → Updated g vid new m (settle g fc (get_instance g m).1)
settle-Updated vid g m fc new w changed g' v =
    let i = get_instance-Taken g m w in
    let settled = settle-counters g fc (get_instance g m).1 i.keys g' v in
    let change = changed v in
    let own = i.own v in
    let other = i.others g' v in
    elim (Bool-cases (same_text g' g)) [
      | inr e ↦ ground arith
      | inl e ↦
          let same : counter_of g' v m ≡ counter_of g v m =
            ap (λ z. counter_of z v m) (same_text_eq g' g e) in
          ground arith
    ]

-- A counter is gone from its group, and the others stay.
pub remove_from-Updated :
    (vid : ℕ) (g : Text) (m : FlexCounterManager)
    → IsManager m
    → Updated g vid none m (remove_from vid g m)
remove_from-Updated vid g m w =
    let i = get_instance-Taken g m w in
    settle-Updated vid g m (remove_counter vid (get_instance g m).0) none w
      (λ v. find-remove_num v vid (get_instance g m).0.collectors i.vids)
