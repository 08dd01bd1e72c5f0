-- ===== src/Collector/Stat/Windows.antt =====
-- What the history says of a window, and what Redis shows of the one that is open.
use sonic_otairedis.Common.{
  ℕ, suc, ◌+◌, ◌%◌, ◌^◌, ◌<◌, ◌≡◌, refl, ap, subst, ◌∙◌, inl, inr, Bool, true, false, ◌||◌, arith,
  List, [], ◌∷◌, Option, none, some, ◌==◌, Option-cases, if◌then◌else◌,
}
use sonic_otairedis.Collector.{complete, incomplete}
use sonic_otairedis.Collector.Stat.{
  StatType, Accumulated, Write, write_value, write_history, write_starttime, write_validity,
  update_periodic_value, count_failure, close_window,
}

module _ {A : Type 0} (st : StatType A) where
  open st use {inc_stat, differs}

  -- A round inside a window: the reading, or `none` where the vendor library failed.
  abbrev pub round : Option A → Accumulated A → Accumulated A
  round none v = count_failure v
  round (some x) v = (update_periodic_value st false 0 x v).0

  abbrev pub rounds : List (Option A) → Accumulated A → Accumulated A
  rounds [] v = v
  rounds (r ∷ rs) v = rounds rs (round r v)

  abbrev pub total : A → List (Option A) → A
  total sum [] = sum
  total sum (none ∷ rs) = total sum rs
  total sum (some x ∷ rs) = total (inc_stat sum x) rs

  abbrev pub failures : List (Option A) → ℕ
  failures [] = 0
  failures (none ∷ rs) = suc (failures rs)
  failures (some x ∷ rs) = failures rs

  -- An open window.
  record Open (v : Accumulated A) (start interval expire : ℕ) (sum : A) (failed : ℕ) : Type 0 where
    opened : v.init ≡ false
    from : v.starttime ≡ start
    lasts : v.interval ≡ interval
    kept : v.expiretime ≡ expire
    sums : v.stataccvalue ≡ sum
    unfinished : v.validity ≡ incomplete
    counted : v.failurecount ≡ failed

  rounds-Open :
      (rs : List (Option A)) (v : Accumulated A) (start interval expire : ℕ) (sum : A) (failed : ℕ)
      → failed + failures rs < 2 ^ 32
      → Open v start interval expire sum failed
      → Open (rounds rs v) start interval expire (total sum rs) (failed + failures rs)
  unfolding update_periodic_value count_failure
  rounds-Open [] v start interval expire sum failed h o =
      subst (Open v start interval expire sum) (omega arith) o
  rounds-Open (none ∷ rs) v start interval expire sum failed h o =
      subst (Open (rounds rs (count_failure v)) start interval expire (total sum rs)) (omega arith)
        (rounds-Open rs (count_failure v) start interval expire sum (failed + 1) (omega arith)
          (record {
            opened = o.opened;
            from = o.from;
            lasts = o.lasts;
            kept = o.kept;
            sums = o.sums;
            unfinished = o.unfinished;
            counted = ap (λ n. (n + 1) % 2 ^ 32) o.counted ∙ omega arith;
          }))
  rounds-Open (some x ∷ rs) v start interval expire sum failed h o =
      let unopened = o.opened in
      let sums = ap (λ a. inc_stat a x) o.sums in
      let next = (update_periodic_value st false 0 x v).0 in
      rounds-Open rs next start interval expire (inc_stat sum x) failed h (record {
        opened = ground (arith, o.opened);
        from = ground (arith, o.from);
        lasts = ground (arith, o.lasts);
        kept = ground (arith, o.kept);
        sums = ground arith;
        unfinished = ground (arith, o.unfinished);
        counted = ground (arith, o.counted);
      })

  -- Where a window was opened with a first reading, and after rounds inside it, failed ones
  -- included, fewer than 2 ^ 32, another one is opened: the history is given one row, with the time
  -- at which the window was opened, its length, the sum of all its readings, and the validity
  -- complete if no reading failed and incomplete if one did; and the row of the open window shows
  -- the new start and the new reading, incomplete.
  pub window_history :
      (timeout : Bool) (start start' : ℕ) (x y : A) (rs : List (Option A)) (v : Accumulated A)
      → (v.init || timeout) ≡ true
      → failures rs < 2 ^ 32
      → (update_periodic_value st true start' y
          (rounds rs (update_periodic_value st timeout start x v).0)).1
        ≡ write_history (record {
          starttime = start;
          interval = v.interval;
          validity = if failures rs == 0 then complete else incomplete;
          value = total x rs;
          expire = v.expiretime;
        })
          ∷ write_starttime start'
          ∷ write_value y
          ∷ write_validity incomplete
          ∷ []
  unfolding update_periodic_value close_window
  window_history timeout start start' x y rs v h few =
      let first = (update_periodic_value st timeout start x v).0 in
      let open' : Open first start v.interval v.expiretime x 0 = record {
        opened = ground arith;
        from = ground arith;
        lasts = ground arith;
        kept = ground arith;
        sums = ground arith;
        unfinished = ground arith;
        counted = ground arith;
      } in
      let last = rounds-Open rs first start v.interval v.expiretime x 0 (omega arith) open' in
      let count : (rounds rs first).failurecount ≡ failures rs = last.counted ∙ omega arith in
      rw (last.opened, last.from, last.lasts, last.kept, last.sums, last.unfinished, count) refl

-- The value that a row shows after some writes.
abbrev pub shown : {A : Type 0} → Option A → List (Write A) → Option A
shown value [] = value
shown value (write_value x ∷ ws) = shown (some x) ws
shown value (w ∷ ws) = shown value ws

-- A round of a collector: the reading, or `none`, and the clock's timeout and start.
pub record Round (A : Type 0) : Type 0 where
  pub reading : Option A
  pub timeout : Bool
  pub start : ℕ

module _ {A : Type 0} (st : StatType A) where
  -- The sum, and what its row shows.
  abbrev pub play : Round A → Accumulated A × Option A → Accumulated A × Option A
  play r (v, row) = elim r.reading [
    | none ↦ (count_failure v, row)
    | some x ↦
        let next = update_periodic_value st r.timeout r.start x v in (next.0, shown row next.1)
  ]

  abbrev pub play_all : List (Round A) → Accumulated A × Option A → Accumulated A × Option A
  play_all [] s = s
  play_all (r ∷ rs) s = play_all rs (play r s)

  pub record Mirrors (s : Accumulated A × Option A) : Type 0 where
    pub shows :
        s.0.init ≡ false → (s.1 ≡ some s.0.stataccvalue) × (s.0.statvaluedb ≡ s.0.stataccvalue)

  module _ (exact : (a b : A) → st.differs a b ≡ false → a ≡ b) where
    play-Mirrors : (r : Round A) (s : Accumulated A × Option A) → Mirrors s → Mirrors (play r s)
    unfolding update_periodic_value close_window count_failure
    play-Mirrors r (v, row) before = elim (Option-cases r.reading) [
      | inl failed ↦ rw failed (record { shows = before.shows })
      | inr (x, read) ↦ rw read (record {
        shows = λ opened.
            ground (arith, before.shows, exact (st.inc_stat v.stataccvalue x) v.statvaluedb);
      })
    ]

    -- Where the comparison tells any two values apart: after any sequence of rounds, failed ones and
    -- new windows included, the row of an open window shows the sum that the collector holds.
    pub row_shows_sum :
        (rs : List (Round A)) (s : Accumulated A × Option A) → Mirrors s → Mirrors (play_all rs s)
    row_shows_sum [] s before = before
    row_shows_sum (r ∷ rs) s before = row_shows_sum rs (play r s) (play-Mirrors r s before)
