-- ===== src/FlexCounter/Manager/Counters/Added.antt =====
-- What adding a counter changes of the collectors.
use Prim.Native.String.{String}
use sonic_otairedis.Common.{
  ℕ, ◌≡◌, inl, inr, refl, sym, ◌∙◌, ap, List, [], ◌∷◌, Option, none, some, Result, ok, throws, ◌==◌,
  ==_eq, ==_refl, Bool-cases, Result-cases, ◌⊎◌, if◌then◌else◌,
}
use sonic_otairedis.Common.Assoc.{find, find-insert as find-insert_num}
use sonic_otairedis.Serialize.ObjectId.{Text}
use sonic_otairedis.Otai.{ObjectTypes}
use sonic_otairedis.Oid.VidManager
use sonic_otairedis.FlexCounter.{
  PropertyGroup, Collector, FlexCounter, group_of, collects, add_collectors,
}
use sonic_otairedis.FlexCounter.Manager.{FlexCounterManager, get_instance, add_to}
use sonic_otairedis.FlexCounter.Manager.Counters.{
  counter_of, IsManager, Updated, Unchanged, get_instance-Taken, back-Unchanged, settle-Updated,
}

abbrev pub last_value : List (Text × Text) → Option Text
last_value [] = none
last_value ((field, value) ∷ []) = some value
last_value ((field, value) ∷ f ∷ rest) = last_value (f ∷ rest)

last_value-some :
    (f : Text × Text) (rest : List (Text × Text)) → (x : Text) × (last_value (f ∷ rest) ≡ some x)
last_value-some (field, value) [] = (value, refl)
last_value-some (field, value) (f ∷ rest) = last_value-some f rest

module _ (tokenize : Text → List Text) where
  -- The collector that takes the place of `old`: for the last value, if the group collects.
  abbrev pub added : PropertyGroup → ℕ → ℕ → ℕ → Option Text → Option Collector → Option Collector
  added group object_type vid rid none old = old
  added group object_type vid rid (some value) old =
      if collects group
      then some (record {
        group = group;
        object_type = object_type;
        vid = vid;
        rid = rid;
        counter_ids = tokenize value;
      })
      else old

  -- A collector that was just put in does not matter for what takes its place.
  added_twice :
      (group : PropertyGroup) (object_type vid rid : ℕ) (value : Text) (last : Option Text)
      → ((x : Text) × (last ≡ some x))
      → (old mid : Option Collector) → mid ≡ added group object_type vid rid (some value) old
      → added group object_type vid rid last mid ≡ added group object_type vid rid last old
  added_twice group object_type vid rid value none (x, h) old mid own = absurd cc
  added_twice group object_type vid rid value (some y) h old mid own =
      elim (Bool-cases (collects group)) [
        | inl c ↦ rw c refl
        | inr c ↦ let kept : mid ≡ old = rw c at own in rw c kept
      ]

  -- The collectors after one value.
  abbrev collecting : ℕ → ℕ → ℕ → Text → FlexCounter → FlexCounter
  collecting object_type vid rid value fc =
      add_collectors tokenize object_type vid rid ((value, value) ∷ []) fc

  collecting-counters :
      (object_type vid rid : ℕ) (value : Text) (fc : FlexCounter) (v : ℕ)
      → find ◌==◌ v (collecting object_type vid rid value fc).collectors ≡ (
          if v == vid
          then added fc.prop_group object_type vid rid (some value) (find ◌==◌ vid fc.collectors)
          else find ◌==◌ v fc.collectors)
  collecting-counters object_type vid rid value fc v = elim (Bool-cases (collects fc.prop_group)) [
    | inl c ↦ rw c (find-insert_num v vid _ fc.collectors)
    | inr c ↦ rw c (kept fc.collectors)
  ]
    where
      kept :
          (l : List (ℕ × Collector))
          → find ◌==◌ v l ≡ (if v == vid then find ◌==◌ vid l else find ◌==◌ v l)
      kept l = elim (Bool-cases (v == vid)) [
        | inl e ↦ rw e (ap (λ z. find ◌==◌ z l) (==_eq v vid e))
        | inr e ↦ rw e refl
      ]

  collecting_group :
      (object_type vid rid : ℕ) (value : Text) (fc : FlexCounter)
      → (collecting object_type vid rid value fc).prop_group ≡ fc.prop_group
  collecting_group object_type vid rid value fc = elim (Bool-cases (collects fc.prop_group)) [
    | inl c ↦ rw c refl
    | inr c ↦ rw c refl
  ]

  -- The collectors after all values have the last one.
  add_collectors-counters :
      (object_type vid rid : ℕ) (values : List (Text × Text)) (fc : FlexCounter) (v : ℕ)
      → find ◌==◌ v (add_collectors tokenize object_type vid rid values fc).collectors ≡ (
          if v == vid
          then added fc.prop_group object_type vid rid
              (last_value values)
              (find ◌==◌ vid fc.collectors)
          else find ◌==◌ v fc.collectors)
  add_collectors-counters object_type vid rid [] fc v = elim (Bool-cases (v == vid)) [
    | inl e ↦ rw e (ap (λ z. find ◌==◌ z fc.collectors) (==_eq v vid e))
    | inr e ↦ rw e refl
  ]
  add_collectors-counters object_type vid rid ((field, value) ∷ []) fc v =
      collecting-counters object_type vid rid value fc v
  add_collectors-counters object_type vid rid ((field, value) ∷ f ∷ rest) fc v =
      let fc' = collecting object_type vid rid value fc in
      let ih = add_collectors-counters object_type vid rid (f ∷ rest) fc' v in
      let old = find ◌==◌ vid fc.collectors in
      let mid = find ◌==◌ vid fc'.collectors in
      let last = last_value (f ∷ rest) in
      let first : Option Collector = added fc.prop_group object_type vid rid (some value) old in
      let one = collecting-counters object_type vid rid value fc v in
      let group = collecting_group object_type vid rid value fc in
      let own : mid ≡ first =
        collecting-counters object_type vid rid value fc vid
        ∙ ap (λ b. if b then first else old) (==_refl vid) in
      let before : Option Collector = added fc'.prop_group object_type vid rid last mid in
      let after_all : Option Collector = added fc.prop_group object_type vid rid last old in
      elim (Bool-cases (v == vid)) [
        | inl e ↦
            ih
            ∙ (ap (λ b. if b then before else find ◌==◌ v fc'.collectors) e
                ∙ (ap (λ z. added z object_type vid rid last mid) group
                    ∙ (added_twice fc.prop_group object_type vid rid value last
                          (last_value-some f rest) old mid own
                        ∙ sym (ap (λ b. if b then after_all else find ◌==◌ v fc.collectors) e))))
        | inr e ↦
            ih
            ∙ (ap (λ b. if b then before else find ◌==◌ v fc'.collectors) e
                ∙ (one
                    ∙ (ap (λ b. if b then first else find ◌==◌ v fc.collectors) e
                        ∙ sym (ap (λ b. if b then after_all else find ◌==◌ v fc.collectors) e))))
      ]

  module _ ⦃t : ObjectTypes⦄ where
    -- What a request to add a counter does: the collector of the last value takes the place of the
    -- one before, if the group collects; it throws where the VID has no valid type.
    abbrev pub Adds :
        ℕ
        → ℕ
        → Text
        → List (Text × Text)
        → FlexCounterManager
        → Result (Unit {0}) × FlexCounterManager
        → Type 0
    Adds vid rid g values m end =
        ((object_type : ℕ) × (VidManager.object_type_query vid ≡ ok object_type)
          × (end.0 ≡ ok tt)
          × Updated g vid
              (added (group_of g) object_type vid rid (last_value values) (counter_of g vid m)) m
              end.1)
        ⊎ ((message : String) × (VidManager.object_type_query vid ≡ throws message)
            × (end.0 ≡ throws message)
            × Unchanged m end.1)

    pub add_to-Adds :
        (vid rid : ℕ) (g : Text) (values : List (Text × Text)) (m : FlexCounterManager)
        → IsManager m
        → Adds vid rid g values m (add_to tokenize vid rid g values m)
    unfolding add_to
    add_to-Adds vid rid g values m w =
        let i = get_instance-Taken g m w in
        let fc = (get_instance g m).0 in
        elim (Result-cases (VidManager.object_type_query vid)) [
          | inr (object_type, e) ↦ inl (
            object_type,
            e,
            (rw e refl),
            rw e (
                settle-Updated vid g m (add_collectors tokenize object_type vid rid values fc)
                  (added (group_of g) object_type vid rid (last_value values) (counter_of g vid m))
                  w
                  (λ v. add_collectors-counters object_type vid rid values fc v ∙ (λ n.
                    if v == vid
                    then added (i.group n) object_type vid rid (last_value values) (i.own vid n)
                    else find ◌==◌ v fc.collectors))),
          )
          | inl (message, e) ↦ inr (message, e, (rw e refl), rw e (back-Unchanged g m w))
        ]
