-- ===== src/Reinit/Soft/Linecards.antt =====
-- `processLinecards`, `stopPreConfigLinecards` and `softReinit` of syncd/SoftReiniter.cpp. The loops
-- read and write the map of VIDs from before, so the methods change it with the object; that a
-- linecard starts is not asked for here. The groups of keys are those of `m_linecardMap`.
pub mod Kept
use sonic_otairedis.Common.{
  ℕ, List, [], ◌∷◌, Option, none, some, Result, ok, throws, Method, after, ◌==◌,
}
use sonic_otairedis.Common.Assoc.{find, insert}
use sonic_otairedis.Otai.{ObjectTypes}
use sonic_otairedis.Metadata.{Attribute, Metadata}
use sonic_otairedis.Serialize.ObjectId.{Text}
use sonic_otairedis.Serialize.Texts.{same_text}
use sonic_otairedis.Requests.{Vendor}
use sonic_otairedis.Reinit.{ObjectIdMap, AsicState, prepare_asic_state}
use sonic_otairedis.Reinit.Objects.{Reiniter}
use sonic_otairedis.Reinit.BoardMode.{LinecardAttrs, flag_attr, set_board_mode}
use sonic_otairedis.Reinit.Linecards.{
  one_linecard, linecard_vid, set_on_linecard, set_left, previous_rid, stop_pre_config_linecards,
}
use sonic_otairedis.Reinit.Soft.{Chosen, choose, clearing, soft_oids}

abbrev pub no_start : {V : Type 0} → ℕ → ℕ → Method V (Unit {0})
no_start vid rid hw = (ok tt, hw)

-- The object with `m_vidToRidMap`.
abbrev pub Soft : Type 0 → Type 0
Soft V = Reiniter V × ObjectIdMap

module _ ⦃t : ObjectTypes⦄ (meta : Metadata) (linecard_attrs : LinecardAttrs) {V : Type 0}
    (vendor : Vendor V) (asic : AsicState) where
  open t use {linecard}

  -- `setBoardMode`, which clears the text before each question.
  abbrev soft_set_board_mode : Text → ℕ → V → V
  soft_set_board_mode = set_board_mode linecard_attrs linecard (clearing vendor)

  -- The board mode, and the attributes that were chosen.
  pub soft_configure : Chosen → Method (Reiniter V) (Unit {0})
  unfolding set_left set_board_mode
  soft_configure chosen s =
      set_left meta linecard_attrs vendor no_start asic [] chosen.attrs (record s {
        hardware = elim chosen.mode [
          | none ↦ s.hardware
          | some mode ↦ soft_set_board_mode mode s.linecard_rid s.hardware
        ];
      })

  pub soft_start : Chosen → Method (Reiniter V) (Unit {0})
  unfolding soft_configure set_on_linecard
  soft_start chosen s =
      let told =
        set_on_linecard meta linecard_attrs vendor no_start asic []
          "failed to start pre-config linecard" (flag_attr linecard_attrs.start_pre_configuration)
          s in
      after (λ done. soft_configure chosen) told.0 told.1

  -- The linecard keeps its RID.
  pub keep_linecard : ℕ → Chosen → Method (Soft V) (Unit {0})
  unfolding soft_start
  keep_linecard vid chosen (s, m) =
      let known = previous_rid meta linecard_attrs vendor no_start asic [] vid m in
      let started = soft_start chosen (record s {
        linecard_rid = known.0;
        translated_v2r = insert ◌==◌ vid known.0 s.translated_v2r;
        translated_r2v = insert ◌==◌ known.0 vid s.translated_r2v;
      }) in
      (started.0, (started.1, known.1))

  pub chosen_of : Text → Result Chosen
  unfolding choose
  chosen_of asic_key = elim (find same_text asic_key asic.attributes_lists) [
    | none ↦ throws "null pointer: attribute list"
    | some attrs ↦ choose meta linecard_attrs.board_mode linecard attrs
  ]

  pub soft_linecard : Text → Text → Method (Soft V) (Unit {0})
  unfolding keep_linecard linecard_vid chosen_of
  soft_linecard str_vid asic_key w =
      after (λ vid. after (keep_linecard vid) (chosen_of asic_key))
        (linecard_vid meta linecard_attrs vendor no_start asic [] str_vid) w

  pub soft_linecards : Method (Soft V) (Unit {0})
  unfolding soft_linecard
  soft_linecards w = one_linecard soft_linecard asic.linecards w

  -- `processOids`, which leaves the map from before.
  pub soft_objects : Method (Soft V) (Unit {0})
  unfolding soft_oids
  soft_objects (s, m) =
      ((soft_oids meta vendor asic m s).0, ((soft_oids meta vendor asic m s).1, m))

  abbrev pub soft_stop_linecards : Method (Soft V) (Unit {0})
  soft_stop_linecards = stop_pre_config_linecards meta linecard_attrs vendor no_start asic []

  -- The body of the loop of `softReinit` after `prepareAsicState`.
  pub soft_group : Method (Soft V) (Unit {0})
  unfolding soft_linecards soft_objects stop_pre_config_linecards
  soft_group w =
      after
        (λ linecards w1.
          after (λ objects. soft_stop_linecards) (soft_objects w1).0 (soft_objects w1).1)
        (soft_linecards w).0 (soft_linecards w).1

module _ ⦃t : ObjectTypes⦄ (meta : Metadata) (linecard_attrs : LinecardAttrs) {V : Type 0}
    (vendor : Vendor V) (deserialize_object_type : Text → Result ℕ)
    (get_attributes : ℕ → Text → Result (List Attribute)) where
  abbrev soft_prepare : List Text → AsicState → Result AsicState
  soft_prepare = prepare_asic_state deserialize_object_type get_attributes

  -- The maps of the ASIC_STATE are not emptied between the groups.
  unfoldable pub soft_reinit : List (List Text) → AsicState → Method (Soft V) (Unit {0})
  unfolding soft_group prepare_asic_state
  soft_reinit [] asic w = (ok tt, w)
  soft_reinit (keys ∷ rest) asic w =
      after
        (λ asic' w'.
          after (λ done. soft_reinit rest asic') (soft_group meta linecard_attrs vendor asic' w').0
            (soft_group meta linecard_attrs vendor asic' w').1)
        (soft_prepare keys asic) w
