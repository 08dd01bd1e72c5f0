-- ===== src/Collector/Gauge/Extremes.antt =====
-- The greatest and the least reading of a window, and how many readings its mean is taken of.
use sonic_otairedis.Common.{
  ℕ, ◌+◌, ◌%◌, ◌^◌, ◌≤◌, ◌<◌, ◌≡◌, ◌⊎◌, refl, subst, sym, ap, ◌∙◌, inl, inr, arith, List, [], ◌∷◌,
  Option, none, some, true, length, ltb, ◌==◌, if◌then◌else◌, Bool-cases,
}
use sonic_otairedis.Collector.Gauge.{
  Sign, less, same, greater, is_greater, is_less, is_same, GaugeType, AvgMinMax, raise_max,
  lower_min, set_instant, set_avg, open_gauge, read_gauge, miss_gauge,
}

-- The sign of the difference of two numbers.
abbrev pub sign : ℕ → ℕ → Sign
sign a b = if ltb a b then less else if a == b then same else greater

-- The readings of a window with their times, and the time at which the vendor library failed.
abbrev pub taken {ℓ} : {A : Type ℓ} → List (Option A × ℕ) → List (A × ℕ) → List (A × ℕ)
taken [] seen = seen
taken ((none, now) ∷ rs) seen = taken rs seen
taken ((some x, now) ∷ rs) seen = taken rs ((x, now) ∷ seen)

module _ {A : Type 0} where
  abbrev pub Among : A → ℕ → List (A × ℕ) → Type 0
  Among x now [] = ⊥
  Among x now ((y, t) ∷ seen) = ((x ≡ y) × (now ≡ t)) ⊎ Among x now seen

  abbrev pub AllKeys : (A → Type 0) → List (A × ℕ) → Type 0
  AllKeys P [] = Unit
  AllKeys P ((y, t) ∷ seen) = P y × AllKeys P seen

  AllKeys-map :
      (P Q : A → Type 0)
      → ((x : A) → P x → Q x)
      → (seen : List (A × ℕ)) → AllKeys P seen
      → AllKeys Q seen
  AllKeys-map P Q f [] h = tt
  AllKeys-map P Q f ((y, t) ∷ seen) h = (f y h.0, AllKeys-map P Q f seen h.1)

module _ {A : Type 0} (g : GaugeType A) (key : A → ℕ)
    (ordered : (a b : A) → g.compare_stats a b ≡ sign (key a) (key b)) where
  -- The sum of the readings, of which the last on the list was the first.
  abbrev pub total : List (A × ℕ) → Option A
  total [] = none
  total ((x, now) ∷ seen) =
      some (elim (total seen) [ none ↦ g.first_stat x | some sum ↦ g.inc_stat sum x ])

  -- The mean that is shown: a first reading as it is, and later the sum of the readings, divided by
  -- their number, as far as the comparison tells.
  abbrev pub MeanOf : List (A × ℕ) → A → Type 0
  MeanOf [] mean = ⊥
  MeanOf ((x, now) ∷ []) mean = mean ≡ x
  MeanOf ((x, now) ∷ y ∷ seen) mean =
      (sum : A) × (total ((x, now) ∷ y ∷ seen) ≡ some sum)
      × (key mean ≡ key (g.div_stat sum (length ((x, now) ∷ y ∷ seen))))

  -- A round inside a window: the reading, or `none` where the vendor library failed.
  abbrev pub gauge_round : Option A × ℕ → AvgMinMax A → AvgMinMax A
  gauge_round (none, now) v = miss_gauge v
  gauge_round (some x, now) v = (read_gauge g now x v).0

  abbrev pub gauge_rounds : List (Option A × ℕ) → AvgMinMax A → AvgMinMax A
  gauge_rounds [] v = v
  gauge_rounds (r ∷ rs) v = gauge_rounds rs (gauge_round r v)

  -- What a window says of the readings so far.
  pub record Extremes (seen : List (A × ℕ)) (v : AvgMinMax A) : Type 0 where
    pub max_taken : Among v.maxvalue v.maxtime seen
    pub max_greatest : AllKeys (λ y. key y ≤ key v.maxvalue) seen
    pub min_taken : Among v.minvalue v.mintime seen
    pub min_least : AllKeys (λ y. key v.minvalue ≤ key y) seen
    pub counted : v.accnum ≡ length seen
    pub summed : total seen ≡ some v.accvalue
    pub mean : MeanOf seen v.avgvalue

  sign-greater : (a b : A) → is_greater (g.compare_stats a b) ≡ ltb (key b) (key a)
  sign-greater a b = rw (ordered a b) (ground arith)

  sign-less : (a b : A) → is_less (g.compare_stats a b) ≡ ltb (key a) (key b)
  sign-less a b = rw (ordered a b) (ground arith)

  -- The parts of a round leave what they do not set.
  raise_max-kept :
      (now : ℕ) (x : A) (v : AvgMinMax A)
      → let v' = (raise_max g now x v).0 in
        (v'.minvalue ≡ v.minvalue)
        × (v'.mintime ≡ v.mintime)
        × (v'.accnum ≡ v.accnum)
        × (v'.accvalue ≡ v.accvalue)
  unfolding raise_max
  raise_max-kept now x v = elim (Bool-cases (is_greater (g.compare_stats x v.maxvalue))) [
    | inl e ↦ rw (e, raise_max) (refl, refl, refl, refl)
    | inr e ↦ rw (e, raise_max) (refl, refl, refl, refl)
  ]

  lower_min-kept :
      (now : ℕ) (x : A) (v : AvgMinMax A)
      → let v' = (lower_min g now x v).0 in
        (v'.maxvalue ≡ v.maxvalue)
        × (v'.maxtime ≡ v.maxtime)
        × (v'.accnum ≡ v.accnum)
        × (v'.accvalue ≡ v.accvalue)
  unfolding lower_min
  lower_min-kept now x v = elim (Bool-cases (is_less (g.compare_stats x v.minvalue))) [
    | inl e ↦ rw (e, lower_min) (refl, refl, refl, refl)
    | inr e ↦ rw (e, lower_min) (refl, refl, refl, refl)
  ]

  abbrev Kept : AvgMinMax A → AvgMinMax A → Type 0
  Kept v v' =
      (v'.maxvalue ≡ v.maxvalue)
      × (v'.maxtime ≡ v.maxtime)
      × (v'.minvalue ≡ v.minvalue)
      × (v'.mintime ≡ v.mintime)

  set_instant-Kept :
      (x : A) (v : AvgMinMax A)
      → let v' = (set_instant g x v).0 in
        Kept v v' × (v'.accnum ≡ v.accnum) × (v'.accvalue ≡ v.accvalue)
  unfolding set_instant
  set_instant-Kept x v = elim (Bool-cases (is_same (g.compare_stats x v.instantvalue))) [
    | inl e ↦ rw (e, set_instant) ((refl, refl, refl, refl), refl, refl)
    | inr e ↦ rw (e, set_instant) ((refl, refl, refl, refl), refl, refl)
  ]

  sign-same : (a b : A) → is_same (g.compare_stats a b) ≡ true → key a ≡ key b
  sign-same a b h = let by = ordered a b in ground arith

  -- The sum goes on, and the mean is taken of it.
  abbrev Averages : A → AvgMinMax A → AvgMinMax A → Type 0
  Averages x v v' =
      (v'.accnum ≡ (v.accnum + 1) % 2 ^ 64)
      × (v'.accvalue ≡ g.inc_stat v.accvalue x)
      × (key v'.avgvalue ≡ key (g.div_stat (g.inc_stat v.accvalue x) ((v.accnum + 1) % 2 ^ 64)))

  set_avg-Averages :
      (x : A) (v : AvgMinMax A) → let v' = (set_avg g x v).0 in Kept v v' × Averages x v v'
  unfolding set_avg
  set_avg-Averages x v =
      let mean = g.div_stat (g.inc_stat v.accvalue x) ((v.accnum + 1) % 2 ^ 64) in
      elim (Bool-cases (is_same (g.compare_stats mean v.avgvalue))) [
        | inl e ↦
            rw (e, set_avg)
              ((refl, refl, refl, refl), (refl, refl, sym (sign-same mean v.avgvalue e)))
        | inr e ↦ rw (e, set_avg) ((refl, refl, refl, refl), (refl, refl, refl))
      ]

  raise_max-Passes :
      (now : ℕ) (x : A) (v : AvgMinMax A)
      → let v' = (raise_max g now x v).0 in
        ((key v.maxvalue < key x) × (v'.maxvalue ≡ x) × (v'.maxtime ≡ now))
        ⊎ ((key x ≤ key v.maxvalue) × (v'.maxvalue ≡ v.maxvalue) × (v'.maxtime ≡ v.maxtime))
  unfolding raise_max
  raise_max-Passes now x v =
      let by = sign-greater x v.maxvalue in
      elim (Bool-cases (is_greater (g.compare_stats x v.maxvalue))) [
        | inl e ↦ inl ((ground arith), rw (e, raise_max) refl, rw (e, raise_max) refl)
        | inr e ↦ inr ((ground arith), rw (e, raise_max) refl, rw (e, raise_max) refl)
      ]

  lower_min-Passes :
      (now : ℕ) (x : A) (v : AvgMinMax A)
      → let v' = (lower_min g now x v).0 in
        ((key x < key v.minvalue) × (v'.minvalue ≡ x) × (v'.mintime ≡ now))
        ⊎ ((key v.minvalue ≤ key x) × (v'.minvalue ≡ v.minvalue) × (v'.mintime ≡ v.mintime))
  unfolding lower_min
  lower_min-Passes now x v =
      let by = sign-less x v.minvalue in
      elim (Bool-cases (is_less (g.compare_stats x v.minvalue))) [
        | inl e ↦ inl ((ground arith), rw (e, lower_min) refl, rw (e, lower_min) refl)
        | inr e ↦ inr ((ground arith), rw (e, lower_min) refl, rw (e, lower_min) refl)
      ]

  -- A reading takes the place of the greatest and of the least where it passes them.
  abbrev Passes : ℕ → A → AvgMinMax A → AvgMinMax A → Type 0
  Passes now x v v' =
      (((key v.maxvalue < key x) × (v'.maxvalue ≡ x) × (v'.maxtime ≡ now))
        ⊎ ((key x ≤ key v.maxvalue) × (v'.maxvalue ≡ v.maxvalue) × (v'.maxtime ≡ v.maxtime)))
      × (((key x < key v.minvalue) × (v'.minvalue ≡ x) × (v'.mintime ≡ now))
          ⊎ ((key v.minvalue ≤ key x) × (v'.minvalue ≡ v.minvalue) × (v'.mintime ≡ v.mintime)))
      × Averages x v v'

  read_gauge-Passes : (now : ℕ) (x : A) (v : AvgMinMax A) → Passes now x v (read_gauge g now x v).0
  unfolding read_gauge
  read_gauge-Passes now x v =
      let v1 = (raise_max g now x v).0 in
      let v2 = (lower_min g now x v1).0 in
      let v3 = (set_instant g x v2).0 in
      let k1 = raise_max-kept now x v in
      let k2 = lower_min-kept now x v1 in
      let k3 = set_instant-Kept x v2 in
      let k4 = set_avg-Averages x v3 in
      let count : v3.accnum ≡ v.accnum = k3.1 ∙ (k2.2 ∙ k1.2) in
      let sum : v3.accvalue ≡ v.accvalue = k3.2 ∙ (k2.3 ∙ k1.3) in
      (
        (elim (raise_max-Passes now x v) [
          | inl (lt, value, time) ↦
              inl (lt, k4.0.0 ∙ (k3.0.0 ∙ (k2.0 ∙ value)), k4.0.1 ∙ (k3.0.1 ∙ (k2.1 ∙ time)))
          | inr (le, value, time) ↦
              inr (le, k4.0.0 ∙ (k3.0.0 ∙ (k2.0 ∙ value)), k4.0.1 ∙ (k3.0.1 ∙ (k2.1 ∙ time)))
        ]),
        (elim (lower_min-Passes now x v1) [
          | inl (lt, value, time) ↦ inl (
            subst (λ z. key x < key z) k1.0 lt,
            k4.0.2 ∙ (k3.0.2 ∙ value),
            k4.0.3 ∙ (k3.0.3 ∙ time),
          )
          | inr (le, value, time) ↦ inr (
            subst (λ z. key z ≤ key x) k1.0 le,
            k4.0.2 ∙ (k3.0.2 ∙ (value ∙ k1.0)),
            k4.0.3 ∙ (k3.0.3 ∙ (time ∙ k1.1)),
          )
        ]),
        (
          k4.1.0 ∙ ap (λ n. (n + 1) % 2 ^ 64) count,
          k4.1.1 ∙ ap (λ z. g.inc_stat z x) sum,
          k4.1.2 ∙ (λ i. key (g.div_stat (g.inc_stat (sum i) x) ((count i + 1) % 2 ^ 64))),
        ),
      )

  total_next :
      (now : ℕ) (x : A) (seen : List (A × ℕ)) (sum : A)
      → total seen ≡ some sum
      → total ((x, now) ∷ seen) ≡ some (g.inc_stat sum x)
  total_next now x seen sum e = rw e refl

  mean_next :
      (now : ℕ) (x : A) (seen : List (A × ℕ)) (sum before mean : A)
      → total seen ≡ some sum
      → MeanOf seen before
      → key mean ≡ key (g.div_stat (g.inc_stat sum x) (length ((x, now) ∷ seen)))
      → MeanOf ((x, now) ∷ seen) mean
  mean_next now x [] sum before mean e m h = absurd m
  mean_next now x (y ∷ seen) sum before mean e m h =
      (g.inc_stat sum x, total_next now x (y ∷ seen) sum e, h)

  read_gauge-Extremes :
      (now : ℕ) (x : A) (v : AvgMinMax A) (seen : List (A × ℕ))
      → length seen + 1 < 2 ^ 64
      → Extremes seen v
      → Extremes ((x, now) ∷ seen) (read_gauge g now x v).0
  read_gauge-Extremes now x v seen small e =
      let v' = (read_gauge g now x v).0 in
      let p = read_gauge-Passes now x v in
      let number : (v.accnum + 1) % 2 ^ 64 ≡ length ((x, now) ∷ seen) =
        let n = e.counted in omega arith in
      let counted_next : v'.accnum ≡ length ((x, now) ∷ seen) = p.2.0 ∙ number in
      let summed_next : total ((x, now) ∷ seen) ≡ some v'.accvalue =
        total_next now x seen v.accvalue e.summed ∙ ap some (sym p.2.1) in
      record {
        max_taken = elim p.0 [
          | inl (lt, value, time) ↦ inl (value, time)
          | inr (le, value, time) ↦ inr (
              subst (λ z. Among z v'.maxtime seen) (sym value)
                (subst (λ z. Among v.maxvalue z seen) (sym time) e.max_taken))
        ];
        max_greatest = elim p.0 [
          | inl (lt, value, time) ↦
              let all =
                AllKeys-map (λ y. key y ≤ key v.maxvalue) (λ y. key y ≤ key x) (λ y h. omega arith)
                  seen e.max_greatest in
              subst (λ z. AllKeys (λ y. key y ≤ key z) ((x, now) ∷ seen)) (sym value)
                (omega arith, all)
          | inr (le, value, time) ↦
              subst (λ z. AllKeys (λ y. key y ≤ key z) ((x, now) ∷ seen)) (sym value)
                (le, e.max_greatest)
        ];
        min_taken = elim p.1 [
          | inl (lt, value, time) ↦ inl (value, time)
          | inr (le, value, time) ↦ inr (
              subst (λ z. Among z v'.mintime seen) (sym value)
                (subst (λ z. Among v.minvalue z seen) (sym time) e.min_taken))
        ];
        min_least = elim p.1 [
          | inl (lt, value, time) ↦
              let all =
                AllKeys-map (λ y. key v.minvalue ≤ key y) (λ y. key x ≤ key y) (λ y h. omega arith)
                  seen e.min_least in
              subst (λ z. AllKeys (λ y. key z ≤ key y) ((x, now) ∷ seen)) (sym value)
                (omega arith, all)
          | inr (le, value, time) ↦
              subst (λ z. AllKeys (λ y. key z ≤ key y) ((x, now) ∷ seen)) (sym value)
                (le, e.min_least)
        ];
        counted = counted_next;
        summed = summed_next;
        mean =
            mean_next now x seen v.accvalue v.avgvalue v'.avgvalue e.summed e.mean
              (p.2.2 ∙ (λ i. key (g.div_stat (g.inc_stat v.accvalue x) (number i))));
      }

  miss_gauge-Extremes :
      (v : AvgMinMax A) (seen : List (A × ℕ)) → Extremes seen v → Extremes seen (miss_gauge v)
  unfolding miss_gauge
  miss_gauge-Extremes v seen e = record {
    max_taken = e.max_taken;
    max_greatest = e.max_greatest;
    min_taken = e.min_taken;
    min_least = e.min_least;
    counted = e.counted;
    summed = e.summed;
    mean = e.mean;
  }

  rounds-Extremes :
      (rs : List (Option A × ℕ)) (v : AvgMinMax A) (seen : List (A × ℕ))
      → length rs + length seen < 2 ^ 64
      → Extremes seen v
      → Extremes (taken rs seen) (gauge_rounds rs v)
  rounds-Extremes [] v seen small e = e
  rounds-Extremes ((none, now) ∷ rs) v seen small e =
      rounds-Extremes rs (miss_gauge v) seen (omega arith) (miss_gauge-Extremes v seen e)
  rounds-Extremes ((some x, now) ∷ rs) v seen small e =
      rounds-Extremes rs (read_gauge g now x v).0 ((x, now) ∷ seen) (omega arith)
        (read_gauge-Extremes now x v seen (omega arith) e)

  -- For a statistic whose comparison is that of a number for each value (`key`): in a window that
  -- began with a reading, after any further rounds, fewer than 2^64 - 1, some of which may have failed,
  -- the greatest value is one of the readings and has the time of that reading, no reading has a
  -- greater number, and the same holds of the least value. The sum is that of all readings, in their
  -- order, and the count is their number. The mean that is shown is the reading where there is but
  -- one, and else it has the number of the sum divided by the count.
  pub window-Extremes :
      (start now : ℕ) (x : A) (v : AvgMinMax A) (rs : List (Option A × ℕ))
      → length rs + 1 < 2 ^ 64
      → Extremes (taken rs ((x, now) ∷ [])) (gauge_rounds rs (open_gauge g start now x v))
  unfolding open_gauge
  window-Extremes start now x v rs small =
      rounds-Extremes rs (open_gauge g start now x v) ((x, now) ∷ []) small (record {
        max_taken = inl (refl, refl);
        max_greatest = (omega arith, tt);
        min_taken = inl (refl, refl);
        min_least = (omega arith, tt);
        counted = refl;
        summed = refl;
        mean = refl;
      })
