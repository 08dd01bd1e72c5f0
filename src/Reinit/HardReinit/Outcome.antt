-- ===== src/Reinit/HardReinit/Outcome.antt =====
-- What `hardReinit` has reached when it returns.
use sonic_otairedis.Common.{ℕ, ◌≡◌, subst, sym, ◌∙◌, true, ok, Method, after-ok, ◌==◌}
use sonic_otairedis.Common.Assoc.{contains, Distinct}
use sonic_otairedis.Otai.{ObjectTypes}
use sonic_otairedis.Metadata.{Metadata}
use sonic_otairedis.Requests.{Vendor}
use sonic_otairedis.Reinit.{ObjectIdMap, AsicState}
use sonic_otairedis.Reinit.Objects.{Reiniter, process_oids}
use sonic_otairedis.Reinit.Objects.Renamed.{AllTranslated}
use sonic_otairedis.Reinit.Objects.Keeps.{process_each-Keeps}
use sonic_otairedis.Reinit.Check.{check_all_ids, check_all_ids_iff}
use sonic_otairedis.Reinit.BoardMode.{LinecardAttrs}
use sonic_otairedis.Reinit.Linecards.{process_linecards, stop_pre_config_linecards}
use sonic_otairedis.Reinit.HardReinit.{reinit_prepared}
use sonic_otairedis.Reinit.Linecards.Kept.{process_linecards-Distinct, stop_linecards-Keeps}

module _ ⦃t : ObjectTypes⦄ (meta : Metadata) (linecard_attrs : LinecardAttrs) {V : Type 0}
    (vendor : Vendor V) (start_linecard : ℕ → ℕ → Method V (Unit {0})) (asic : AsicState)
    (vid_to_rid : ObjectIdMap) where
  -- Reinitialisation from a prepared ASIC_STATE, with maps that hold no VID twice: when it returns,
  -- each object of the ASIC_STATE is null or has an RID in the new map, and so has each VID of the
  -- stored map.
  pub reinit_prepared-AllTranslated :
      (depth : ℕ) (s s' : Reiniter V)
      → Distinct ◌==◌ s.translated_v2r
      → Distinct ◌==◌ vid_to_rid
      → reinit_prepared meta linecard_attrs vendor start_linecard asic vid_to_rid depth s
        ≡ (ok tt, s')
      → AllTranslated asic.oids s'.translated_v2r
        × ((vid : ℕ)
            → contains ◌==◌ vid vid_to_rid ≡ true
            → contains ◌==◌ vid s'.translated_v2r ≡ true)
  unfolding reinit_prepared process_oids
  reinit_prepared-AllTranslated depth s s' d d' h =
      let linecards =
        process_linecards meta linecard_attrs vendor start_linecard asic vid_to_rid depth s in
      let first = after-ok _ linecards.0 linecards.1 tt s' h in
      let s1 = linecards.1 in
      let d1 =
        process_linecards-Distinct meta linecard_attrs vendor start_linecard asic vid_to_rid depth s
          s1 (λ i. (first.1 i, s1)) d in
      let objects = process_oids meta vendor asic vid_to_rid depth s1 in
      let second = after-ok _ objects.0 objects.1 tt s' first.2 in
      let s2 = objects.1 in
      let each =
        process_each-Keeps meta vendor asic vid_to_rid depth asic.oids s1 s2
          (λ i. (second.1 i, s2)) in
      let stopped =
        stop_pre_config_linecards meta linecard_attrs vendor start_linecard asic vid_to_rid
          (s2, vid_to_rid) in
      let kept =
        stop_linecards-Keeps meta linecard_attrs vendor start_linecard asic vid_to_rid
          (s2, vid_to_rid) in
      let third = after-ok _ stopped.0 stopped.1.0 tt s' second.2 in
      let s3 = stopped.1.0 in
      let end : s3 ≡ s' = λ i. (third.2 i).1 in
      let checked : check_all_ids s3.translated_v2r stopped.1.1 ≡ ok tt = λ i. (third.2 i).0 in
      let d3 : Distinct ◌==◌ s3.translated_v2r =
        subst (λ z. Distinct ◌==◌ z) (sym kept.0) (each.0.distinct d1) in
      let same = (check_all_ids_iff s3.translated_v2r stopped.1.1 d3 (kept.1 d')).0 checked in
      (
        subst (λ z. AllTranslated asic.oids z.translated_v2r) end
            (subst (λ z. AllTranslated asic.oids z) (sym kept.0) each.1),
        (λ vid stored.
            subst (λ z. contains ◌==◌ vid z.translated_v2r ≡ true) end
              (same vid ∙ kept.2 vid stored)),
      )
