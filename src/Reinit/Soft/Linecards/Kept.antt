-- ===== src/Reinit/Soft/Linecards/Kept.antt =====
-- What `softReinit` leaves of the maps, whether it returns or throws.
use sonic_otairedis.Common.{
  ℕ, ◌≡◌, inl, inr, refl, subst, sym, List, [], ◌∷◌, Result, after-state, Bool-cases,
}
use sonic_otairedis.Otai.{ObjectTypes, is_success}
use sonic_otairedis.Metadata.{Attribute, Metadata}
use sonic_otairedis.Serialize.ObjectId.{Text}
use sonic_otairedis.Requests.{Vendor}
use sonic_otairedis.Reinit.{ObjectIdMap, AsicState, prepare_asic_state}
use sonic_otairedis.Reinit.Objects.{Reiniter}
use sonic_otairedis.Reinit.Objects.Renamed.{Extends}
use sonic_otairedis.Reinit.BoardMode.{LinecardAttrs, flag_attr}
use sonic_otairedis.Reinit.Linecards.{
  linecard_vid, set_on_linecard, previous_rid, stop_pre_config_linecards,
}
use sonic_otairedis.Reinit.Linecards.Kept.{set_left_same, one_linecard-state}
use sonic_otairedis.Reinit.Linecards.Known.{
  FromBefore, previous_rid-Extends, previous_rid-FromBefore, stop_linecards-Extends,
}
use sonic_otairedis.Reinit.Soft.{Chosen, soft_oids}
use sonic_otairedis.Reinit.Soft.Linecards.{
  Soft, no_start, soft_configure, soft_start, keep_linecard, chosen_of, soft_linecard,
  soft_linecards, soft_objects, soft_group, soft_reinit,
}
use sonic_otairedis.Reinit.Soft.Stored.{insert-Extends, soft_each-AsStored}

-- The translated VIDs are those of a map that has all of `first`, and with it at most RID 0.
record MapsKept {V : Type 0} (first : ObjectIdMap) (w : Soft V) : Type 0 where
  pub as_stored : Extends w.0.translated_v2r w.1
  pub none_lost : Extends first w.1
  pub from_before : FromBefore first w.1

-- What a soft reinitialisation from the stored map `first` leaves.
pub record RidsKept {V : Type 0} (first : ObjectIdMap) (w : Soft V) : Type 0 where
  pub translated : FromBefore first w.0.translated_v2r
  pub none_lost : Extends first w.1

module _ ⦃t : ObjectTypes⦄ (meta : Metadata) (linecard_attrs : LinecardAttrs) {V : Type 0}
    (vendor : Vendor V) (asic : AsicState) where
  open t use {linecard}

  soft_start_same :
      (chosen : Chosen) (s : Reiniter V)
      → (soft_start meta linecard_attrs vendor asic chosen s).1.translated_v2r ≡ s.translated_v2r
  unfolding soft_start soft_configure set_on_linecard
  soft_start_same chosen s =
      let answer =
        vendor.set linecard s.linecard_rid (flag_attr linecard_attrs.start_pre_configuration ∷ [])
          s.hardware in
      elim (Bool-cases (is_success answer.0)) [
        | inr e ↦ rw e refl
        | inl e ↦ rw e (set_left_same meta linecard_attrs vendor no_start asic [] chosen.attrs _)
      ]

  keep_linecard-MapsKept :
      (first : ObjectIdMap) (vid : ℕ) (chosen : Chosen) (w : Soft V)
      → MapsKept first w
      → MapsKept first (keep_linecard meta linecard_attrs vendor asic vid chosen w).1
  unfolding keep_linecard
  keep_linecard-MapsKept first vid chosen (s, m) kept =
      let known = previous_rid meta linecard_attrs vendor no_start asic [] vid m in
      let previous = previous_rid-Extends meta linecard_attrs vendor no_start asic [] vid m in
      record {
        as_stored =
            subst (λ z. Extends z known.1) (sym (soft_start_same chosen _))
              (insert-Extends s.translated_v2r known.1 vid known.0 previous.0
                (λ k r h. previous.1 k r (kept.as_stored k r h)));
        none_lost = λ k r h. previous.1 k r (kept.none_lost k r h);
        from_before =
            previous_rid-FromBefore meta linecard_attrs vendor no_start asic [] first m vid
              kept.none_lost kept.from_before;
      }

  soft_linecards-MapsKept :
      (first : ObjectIdMap) (w : Soft V)
      → MapsKept first w
      → MapsKept first (soft_linecards meta linecard_attrs vendor asic w).1
  unfolding soft_linecards soft_linecard
  soft_linecards-MapsKept first w kept =
      one_linecard-state _ (λ a b. MapsKept first a → MapsKept first b) (λ a k. k)
        (λ str_vid asic_key a k.
          after-state {P = MapsKept first} _
            (linecard_vid meta linecard_attrs vendor no_start asic [] str_vid) a k
            (λ vid b k'.
              after-state {P = MapsKept first} _
                (chosen_of meta linecard_attrs vendor asic asic_key) b k'
                (keep_linecard-MapsKept first vid)))
        asic.linecards w kept

  soft_objects-MapsKept :
      (first : ObjectIdMap) (w : Soft V)
      → MapsKept first w
      → MapsKept first (soft_objects meta linecard_attrs vendor asic w).1
  unfolding soft_objects soft_oids
  soft_objects-MapsKept first (s, m) kept = record {
    as_stored = soft_each-AsStored meta vendor asic m asic.oids s kept.as_stored;
    none_lost = kept.none_lost;
    from_before = kept.from_before;
  }

  stop_linecards-MapsKept :
      (first : ObjectIdMap) (w : Soft V)
      → MapsKept first w
      → MapsKept first (stop_pre_config_linecards meta linecard_attrs vendor no_start asic [] w).1
  stop_linecards-MapsKept first w kept =
      let stopped = stop_linecards-Extends meta linecard_attrs vendor no_start asic [] w in
      record {
        as_stored =
            subst
              (λ z.
                Extends z
                  (stop_pre_config_linecards meta linecard_attrs vendor no_start asic [] w).1.1)
              (sym stopped.0) (λ k r h. stopped.1 k r (kept.as_stored k r h));
        none_lost = λ k r h. stopped.1 k r (kept.none_lost k r h);
        from_before = stopped.2 first kept.none_lost kept.from_before;
      }

  soft_group-MapsKept :
      (first : ObjectIdMap) (w : Soft V)
      → MapsKept first w
      → MapsKept first (soft_group meta linecard_attrs vendor asic w).1
  unfolding soft_group
  soft_group-MapsKept first w kept =
      after-state {P = MapsKept first} _ (soft_linecards meta linecard_attrs vendor asic w).0
        (soft_linecards meta linecard_attrs vendor asic w).1 (soft_linecards-MapsKept first w kept)
        (λ done w1 k1.
          after-state {P = MapsKept first} _ (soft_objects meta linecard_attrs vendor asic w1).0
            (soft_objects meta linecard_attrs vendor asic w1).1 (soft_objects-MapsKept first w1 k1)
            (λ done' w2 k2. stop_linecards-MapsKept first w2 k2))

module _ ⦃t : ObjectTypes⦄ (meta : Metadata) (linecard_attrs : LinecardAttrs) {V : Type 0}
    (vendor : Vendor V) (deserialize_object_type : Text → Result ℕ)
    (get_attributes : ℕ → Text → Result (List Attribute)) where
  soft_reinit-MapsKept :
      (groups : List (List Text)) (asic : AsicState) (first : ObjectIdMap) (w : Soft V)
      → MapsKept first w
      → MapsKept first
          (soft_reinit meta linecard_attrs vendor deserialize_object_type get_attributes groups asic
            w).1
  unfolding soft_reinit
  soft_reinit-MapsKept [] asic first w kept = kept
  soft_reinit-MapsKept (keys ∷ rest) asic first w kept =
      after-state {P = MapsKept first} _
        (prepare_asic_state deserialize_object_type get_attributes keys asic) w kept
        (λ asic' w1 k1.
          after-state {P = MapsKept first} _ (soft_group meta linecard_attrs vendor asic' w1).0
            (soft_group meta linecard_attrs vendor asic' w1).1
            (soft_group-MapsKept meta linecard_attrs vendor asic' first w1 k1)
            (λ done w2 k2. soft_reinit-MapsKept rest asic' first w2 k2))

  -- Soft reinitialisation of any groups of keys, from a translation that has no RIDs but those of the
  -- stored map: whether it returns or throws, each VID that is translated then has the RID that the
  -- stored map had for it at the start, or it had none there and is translated to RID 0; and the
  -- stored map has kept the RID of every VID that it had.
  pub soft_reinit-RidsKept :
      (groups : List (List Text)) (asic : AsicState) (first : ObjectIdMap) (s : Reiniter V)
      → Extends s.translated_v2r first
      → RidsKept first
          (soft_reinit meta linecard_attrs vendor deserialize_object_type get_attributes groups asic
            (s, first)).1
  soft_reinit-RidsKept groups asic first s e =
      let end =
        soft_reinit-MapsKept groups asic first (s, first)
          (record { as_stored = e; none_lost = λ k r h. h; from_before = λ k r h. inl h }) in
      record {
        translated = λ k r h. end.from_before k r (end.as_stored k r h);
        none_lost = end.none_lost;
      }
