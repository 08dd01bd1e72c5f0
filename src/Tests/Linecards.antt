-- ===== src/Tests/Linecards.antt =====
-- A linecard whose board mode has to be set, the whole of a reinitialisation, its last check, and
-- the keys that it reads.
use sonic_otairedis.Common.{
  ℕ, ◌+◌, ◌≡◌, ◌↔◌, refl, true, List, [], ◌∷◌, Result, ok, throws, ◌==◌, if◌then◌else◌,
}
use sonic_otairedis.Common.Assoc.{contains, Distinct}
use sonic_otairedis.Otai.{success}
use sonic_otairedis.Metadata.{Attribute}
use sonic_otairedis.Serialize.ObjectId.{
  otai_deserialize_object_id, Text, text, otai_serialize_object_id,
}
use sonic_otairedis.Serialize.Texts.{Without, same_text}
use sonic_otairedis.Oid.VidManager
use sonic_otairedis.Oid.Virtual
use sonic_otairedis.Requests.{Vendor}
use sonic_otairedis.Reinit.{ObjectIdMap, AsicState}
use sonic_otairedis.Reinit.Keys.{asic_key}
use sonic_otairedis.Reinit.Objects.{Reiniter}
use sonic_otairedis.Reinit.Objects.Renamed.{AllTranslated}
use sonic_otairedis.Reinit.Check.{check_all_ids, check_all_ids_iff}
use sonic_otairedis.Reinit.BoardMode.{LinecardAttrs, text_attr, set_board_mode}
use sonic_otairedis.Reinit.HardReinit.{reinit_prepared, hard_reinit}
use sonic_otairedis.Reinit.BoardMode.Polls.{Polls, set_board_mode-Polls}
use sonic_otairedis.Reinit.HardReinit.Outcome.{reinit_prepared-AllTranslated}
use sonic_otairedis.Tests.World.{types}
use sonic_otairedis.Tests.Reinit.{
  card, parent, child, meta, Calls, vendor, number, gain, child_attrs, parent_attrs, stored,
}

abbrev pub attrs_of_linecards : LinecardAttrs
attrs_of_linecards = record {
  board_mode = 4;
  start_pre_configuration = 10;
  stop_pre_configuration = 11;
  chardata_size = 8;
}

abbrev card_attrs : List Attribute
card_attrs = number ∷ text_attr 4 (text "400G") ∷ gain ∷ []

abbrev pub state : AsicState
state = record {
  oids =
      (text "oid:0x1000000000000", text "l")
      ∷ (text "oid:0x4000000000002", text "c")
      ∷ (text "oid:0x3000000000001", text "p")
      ∷ [];
  linecards = (text "oid:0x1000000000000", text "l") ∷ [];
  attributes_lists =
      (text "l", card_attrs) ∷ (text "c", child_attrs) ∷ (text "p", parent_attrs) ∷ [];
}

abbrev pub empty : Reiniter Calls
empty = record { translated_v2r = []; translated_r2v = []; linecard_rid = 0; hardware = [] }

abbrev run : Result (Unit {0}) × Reiniter Calls
run =
    reinit_prepared meta attrs_of_linecards vendor (λ vid rid hw. (ok tt, hw)) state stored 3 empty

-- The linecard has RID 100 now, but the end of the configuration was told to its RID from before.
run_test :
    (run.0 ≡ ok tt)
    × (run.1.translated_v2r ≡ (card, 100) ∷ (parent, 104) ∷ (child, 105) ∷ [])
    × (run.1.linecard_rid ≡ 1)
unfolding reinit_prepared otai_deserialize_object_id VidManager.object_type_query
    Virtual.object_type_query Virtual.type_bits otai_serialize_object_id
run_test = (refl, refl, refl)

-- Without the linecard in the map from before the end of the configuration is told to RID 0, and
-- the last check finds the VID that this put into the map.
missing_test :
    (reinit_prepared meta attrs_of_linecards vendor
      (λ vid rid hw. (ok tt, hw))
      state
      ((parent, 2) ∷ (child, 3) ∷ [])
      3
      empty).0
    ≡ ok tt
unfolding reinit_prepared otai_deserialize_object_id VidManager.object_type_query
    Virtual.object_type_query Virtual.type_bits otai_serialize_object_id
missing_test = refl

stored-Distinct : Distinct ◌==◌ stored
stored-Distinct = (refl, (refl, (refl, tt)))

reinit_prepared-AllTranslated_example :
    AllTranslated state.oids run.1.translated_v2r
    × ((vid : ℕ) → contains ◌==◌ vid stored ≡ true → contains ◌==◌ vid run.1.translated_v2r ≡ true)
reinit_prepared-AllTranslated_example =
    reinit_prepared-AllTranslated meta attrs_of_linecards vendor (λ vid rid hw. (ok tt, hw)) state
      stored 3 empty run.1 tt stored-Distinct (λ i. (run_test.0 i, run.1))

abbrev renewed : ObjectIdMap
renewed = (parent, 2) ∷ (card, 9) ∷ (child, 7) ∷ []

check_all_ids_iff_example :
    check_all_ids renewed stored ≡ ok tt
    ↔ ((k : ℕ) → contains ◌==◌ k renewed ≡ contains ◌==◌ k stored)
check_all_ids_iff_example =
    check_all_ids_iff renewed stored (refl, (refl, (refl, tt))) stored-Distinct

check_test :
    (check_all_ids renewed stored ≡ ok tt)
    × (check_all_ids ((parent, 2) ∷ (card, 9) ∷ []) stored
        ≡ throws "vid to rid map is not empty after translation")
    × (check_all_ids ((5, 2) ∷ []) stored ≡ throws "failed to find vid in previous map")
unfolding check_all_ids
check_test = (refl, refl, refl)

abbrev key : Text
key = asic_key (text "PORT") (text "oid:0x3000000000001")

plain_name : Without b':' (text "PORT")
plain_name = (refl, (refl, (refl, (refl, tt))))

-- A linecard that takes the mode at the third poll: the hardware counts the polls.
abbrev slow : Vendor ℕ
slow = record {
  create = λ ty lc attrs hw. ((success, 0), hw);
  remove = λ ty rid hw. (success, hw);
  set = λ ty rid attrs hw. (success, hw);
  get = λ ty rid attrs hw.
      ((success, text_attr 4 (if hw == 3 then text "400G" else text "100G") ∷ []), hw + 1);
}

set_board_mode-Polls_example : Polls 1 slow 100 attrs_of_linecards (text "400G") 0
set_board_mode-Polls_example = set_board_mode-Polls 1 slow 100 attrs_of_linecards (text "400G") 0

polls_test : set_board_mode attrs_of_linecards 1 slow (text "400G") 100 0 ≡ 4
unfolding set_board_mode
polls_test = refl

-- A mode that the linecard never takes: one answer before, and 600 after.
never_test : set_board_mode attrs_of_linecards 1 slow (text "800G") 100 0 ≡ 601
unfolding set_board_mode
never_test = refl

abbrev pub read_type : Text → Result ℕ
read_type name =
    if same_text name (text "CARD")
    then ok 1
    else if same_text name (text "PORT")
    then ok 3
    else throws "unknown type"

abbrev pub read_attrs : ℕ → Text → Result (List Attribute)
read_attrs ty asic_text = ok (if ty == 1 then card_attrs else parent_attrs)

abbrev pub keys : List Text
keys = text "ASIC_STATE:PORT:oid:0x3000000000001" ∷ text "ASIC_STATE:CARD:oid:0x1000000000000" ∷ []

hard_reinit_test :
    let end =
      hard_reinit meta attrs_of_linecards vendor
        (λ vid rid hw. (ok tt, hw))
        read_type
        read_attrs
        2
        ((card, 7) ∷ (parent, 2) ∷ [])
        keys
        [] in
    (end.0 ≡ ok tt) × (end.1.translated_v2r ≡ (card, 100) ∷ (parent, 104) ∷ [])
unfolding hard_reinit otai_deserialize_object_id VidManager.object_type_query
    Virtual.object_type_query Virtual.type_bits otai_serialize_object_id
hard_reinit_test = (refl, refl)
