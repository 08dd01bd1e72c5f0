-- ===== src/Reinit/HardReinit.antt =====
-- `hardReinit` of syncd/SingleReiniter.cpp, which puts the parts together.
pub mod Outcome
use Prim.Native.String.{String}
use sonic_otairedis.Common.{
  ℕ, zero, suc, ◌-◌, Bool, true, false, ◌&&◌, ◌||◌, List, [], ◌∷◌, Option, none, some, Result, ok,
  throws, Method, after, length, ltb, ◌==◌, if◌then◌else◌,
}
use sonic_otairedis.Common.Int.{pos}
use sonic_otairedis.Common.Assoc.{find, contains, insert}
use sonic_otairedis.Otai.{ObjectTypes, Status, success, is_success}
use sonic_otairedis.Metadata.{null_list, Value, Attribute, AttrMeta, Metadata}
use sonic_otairedis.Serialize.ObjectId.{Text, otai_deserialize_object_id}
use sonic_otairedis.Serialize.Texts.{same_text, take}
use sonic_otairedis.Requests.{Vendor}
use sonic_otairedis.Reinit.{ObjectIdMap, StringHash, AsicState, prepare_asic_state}
use sonic_otairedis.Reinit.Objects.{
  Reiniter, process_attributes_for_oids, process_single_vid, process_oids,
}
use sonic_otairedis.Reinit.Check.{check_all_ids}
use sonic_otairedis.Reinit.BoardMode.{LinecardAttrs}
use sonic_otairedis.Reinit.Linecards.{process_linecards, stop_pre_config_linecards}

module _ ⦃t : ObjectTypes⦄ (meta : Metadata) (linecard_attrs : LinecardAttrs) {V : Type 0}
    (vendor : Vendor V) (start_linecard : ℕ → ℕ → Method V (Unit {0})) (asic : AsicState)
    (vid_to_rid : ObjectIdMap) where
  -- `hardReinit` after `prepareAsicState`; it ends with the state and the new map.
  unfoldable pub reinit_prepared : ℕ → Method (Reiniter V) (Unit {0})
  unfolding process_linecards process_oids stop_pre_config_linecards check_all_ids
  reinit_prepared depth s =
      after
        (λ linecards s1.
          after
            (λ objects s2.
              let stopped =
                stop_pre_config_linecards meta linecard_attrs vendor start_linecard asic vid_to_rid
                  (s2, vid_to_rid) in
              after (λ done s3. (check_all_ids s3.translated_v2r stopped.1.1, s3)) stopped.0
                stopped.1.0)
            (process_oids meta vendor asic vid_to_rid depth s1).0
            (process_oids meta vendor asic vid_to_rid depth s1).1)
        (process_linecards meta linecard_attrs vendor start_linecard asic vid_to_rid depth s).0
        (process_linecards meta linecard_attrs vendor start_linecard asic vid_to_rid depth s).1

-- `SingleReiniter` for the keys of ASIC_STATE, on hardware that has nothing yet.
module _ ⦃t : ObjectTypes⦄ (meta : Metadata) (linecard_attrs : LinecardAttrs) {V : Type 0}
    (vendor : Vendor V) (start_linecard : ℕ → ℕ → Method V (Unit {0}))
    (deserialize_object_type : Text → Result ℕ)
    (get_attributes : ℕ → Text → Result (List Attribute)) where
  unfoldable pub hard_reinit : ℕ → ObjectIdMap → List Text → V → Result (Unit {0}) × Reiniter V
  unfolding prepare_asic_state reinit_prepared
  hard_reinit depth vid_to_rid asic_keys hw =
      after
        (λ asic. reinit_prepared meta linecard_attrs vendor start_linecard asic vid_to_rid depth)
        (prepare_asic_state deserialize_object_type get_attributes asic_keys
          (record { oids = []; linecards = []; attributes_lists = [] }))
        (record {
          translated_v2r = [];
          translated_r2v = [];
          linecard_rid = t.null_object_id;
          hardware = hw;
        })
