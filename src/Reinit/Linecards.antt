-- ===== src/Reinit/Linecards.antt =====
-- `processLinecards` and `stopPreConfigLinecards` of syncd/SingleReiniter.cpp.
pub mod Kept
pub mod Known
use Prim.Native.String.{String}
use sonic_otairedis.Common.{
  ℕ, zero, suc, ◌-◌, Bool, true, false, ◌&&◌, ◌||◌, List, [], ◌∷◌, Option, none, some, Result, ok,
  throws, Method, after, length, ltb, ◌==◌, if◌then◌else◌,
}
use sonic_otairedis.Common.Int.{pos}
use sonic_otairedis.Common.Assoc.{find, contains, insert}
use sonic_otairedis.Otai.{ObjectTypes, Status, success, is_success}
use sonic_otairedis.Metadata.{null_list, Value, Attribute, AttrMeta, Metadata}
use sonic_otairedis.Serialize.ObjectId.{Text, otai_deserialize_object_id}
use sonic_otairedis.Serialize.Texts.{same_text, take}
use sonic_otairedis.Requests.{Vendor}
use sonic_otairedis.Reinit.{ObjectIdMap, StringHash, AsicState, prepare_asic_state}
use sonic_otairedis.Reinit.Objects.{
  Reiniter, process_attributes_for_oids, process_single_vid, process_oids,
}
use sonic_otairedis.Reinit.Check.{check_all_ids}
use sonic_otairedis.Reinit.BoardMode.{LinecardAttrs, flag_attr, set_board_mode}

-- The attributes of a linecard by their use.
pub record Split : Type 0 where
  pub attrs : List Attribute
  pub mode : Option Text
  pub attrs_left : List Attribute

module _ (meta : Metadata) (linecard_attrs : LinecardAttrs) (linecard : ℕ) where
  split_one : AttrMeta → Attribute → Split → Split
  split_one md a later =
      if md.mandatory_on_create || md.create_only
      then record later { attrs = a ∷ later.attrs }
      else if a.id == linecard_attrs.board_mode
      then record later {
        mode = elim later.mode [ none ↦ some a.value.chardata | some mode ↦ some mode ];
      }
      else record later { attrs_left = a ∷ later.attrs_left }

  -- The last board mode on the list is the one that stays.
  pub split : List Attribute → Result Split
  unfolding split_one
  split [] = ok (record { attrs = []; mode = none; attrs_left = [] })
  split (a ∷ rest) = elim (meta.get_attr_metadata linecard a.id) [
    | none ↦ throws "null pointer: metadata"
    | some md ↦ elim (split rest) [
      | throws message ↦ throws message
      | ok later ↦ ok (split_one md a later)
    ]
  ]

-- The loops over the linecards, of which there is at most one.
abbrev pub one_linecard :
    {S : Type 0} → (Text → Text → Method S (Unit {0})) → StringHash → Method S (Unit {0})
one_linecard f [] s = (ok tt, s)
one_linecard f ((str_vid, asic_key) ∷ []) s = f str_vid asic_key s
one_linecard f (_ ∷ _ ∷ _) s =
    (throws "multiple linecards in single hard reinit are not allowed", s)

-- The constructor of `OtaiLinecard`, which reads what the new linecard has, is an argument.
module _ ⦃t : ObjectTypes⦄ (meta : Metadata) (linecard_attrs : LinecardAttrs) {V : Type 0}
    (vendor : Vendor V) (start_linecard : ℕ → ℕ → Method V (Unit {0})) (asic : AsicState)
    (vid_to_rid : ObjectIdMap) where
  open t use {null_object_id, linecard}

  -- One attribute is set on the linecard, or the method throws.
  unfoldable pub set_on_linecard : String → Attribute → Method (Reiniter V) (Unit {0})
  set_on_linecard message a s =
      let answer = vendor.set linecard s.linecard_rid (a ∷ []) s.hardware in
      (if is_success answer.0 then ok tt else throws message, record s { hardware = answer.1 })

  unfoldable pub set_left : List Attribute → Method (Reiniter V) (Unit {0})
  unfolding set_on_linecard
  set_left [] s = (ok tt, s)
  set_left (a ∷ rest) s =
      after (λ done. set_left rest) (set_on_linecard "failed to set attribute" a s).0
        (set_on_linecard "failed to set attribute" a s).1

  -- What follows the creation: the attributes left, under their new ids.
  configure : ℕ → Split → Method (Reiniter V) (Unit {0})
  unfolding process_single_vid set_left set_board_mode
  configure depth parts s =
      let hw : V = elim parts.mode [
        | none ↦ s.hardware
        | some mode ↦ set_board_mode linecard_attrs linecard vendor mode s.linecard_rid s.hardware
      ] in
      let left =
        process_attributes_for_oids (process_single_vid meta vendor asic vid_to_rid depth) meta
          linecard parts.attrs_left (record s { hardware = hw }) in
      after set_left left.0 left.1

  -- `OtaiLinecard` is made, and the linecard hears that its configuration starts.
  begin_config : ℕ → ℕ → Split → Method (Reiniter V) (Unit {0})
  unfolding configure set_on_linecard
  begin_config depth vid parts s =
      let started = start_linecard vid s.linecard_rid s.hardware in
      after
        (λ done s'.
          let told =
            set_on_linecard "failed to start pre-config linecard"
              (flag_attr linecard_attrs.start_pre_configuration) s' in
          after (λ done'. configure depth parts) told.0 told.1)
        started.0 (record s { hardware = started.1 })

  save_linecard : ℕ → ℕ → Split → Status × ℕ → Method (Reiniter V) (Unit {0})
  unfolding begin_config
  save_linecard depth vid parts (success, rid) s = begin_config depth vid parts (record s {
    translated_v2r = insert ◌==◌ vid rid s.translated_v2r;
    translated_r2v = insert ◌==◌ rid vid s.translated_r2v;
    linecard_rid = rid;
  })
  save_linecard depth vid parts (status, rid) s =
      (throws "failed to create linecard", record s { linecard_rid = rid })

  create_linecard : ℕ → ℕ → Split → Method (Reiniter V) (Unit {0})
  unfolding save_linecard
  create_linecard depth vid parts s =
      let answer = vendor.create linecard 0 parts.attrs s.hardware in
      save_linecard depth vid parts answer.0 (record s { hardware = answer.1 })

  -- The two checks of the VID of a linecard that both loops over the linecards begin with.
  unfoldable pub linecard_vid : Text → Result ℕ
  linecard_vid str_vid = elim (otai_deserialize_object_id str_vid) [
    | throws message ↦ throws message
    | ok vid ↦
        if vid == null_object_id
        then throws "linecard id can't be NULL"
        else if contains same_text str_vid asic.oids
        then ok vid
        else throws "failed to find VID in OIDs map"
  ]

  linecard_split : Text → Result Split
  unfolding split
  linecard_split asic_key = elim (find same_text asic_key asic.attributes_lists) [
    | none ↦ throws "null pointer: attribute list"
    | some attrs ↦ split meta linecard_attrs linecard attrs
  ]

  process_linecard : ℕ → Text → Text → Method (Reiniter V) (Unit {0})
  unfolding create_linecard linecard_vid linecard_split
  process_linecard depth str_vid asic_key s =
      after (λ vid. after (create_linecard depth vid) (linecard_split asic_key))
        (linecard_vid str_vid) s

  unfoldable pub process_linecards : ℕ → Method (Reiniter V) (Unit {0})
  unfolding process_linecard
  process_linecards depth s = one_linecard (process_linecard depth) asic.linecards s

  -- `m_vidToRidMap[vid]`: the RID from before, and a new entry if there is none.
  abbrev pub previous_rid : ℕ → ObjectIdMap → ℕ × ObjectIdMap
  previous_rid vid m = elim (find ◌==◌ vid m) [
    | some rid ↦ (rid, m)
    | none ↦ (0, insert ◌==◌ vid 0 m)
  ]

  -- The object changes with its map of VIDs from before.
  stop_pre_config : ℕ → Method (Reiniter V × ObjectIdMap) (Unit {0})
  unfolding set_on_linecard
  stop_pre_config vid (s, m) =
      let known = previous_rid vid m in
      let told =
        set_on_linecard "failed to stop pre-config linecard"
          (flag_attr linecard_attrs.stop_pre_configuration) (record s { linecard_rid = known.0 }) in
      (told.0, (told.1, known.1))

  unfoldable pub stop_pre_config_linecards : Method (Reiniter V × ObjectIdMap) (Unit {0})
  unfolding linecard_vid stop_pre_config
  stop_pre_config_linecards w =
      one_linecard (λ str_vid asic_key. after stop_pre_config (linecard_vid str_vid)) asic.linecards
        w
