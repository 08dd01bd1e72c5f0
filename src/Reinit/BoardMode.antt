-- ===== src/Reinit/BoardMode.antt =====
-- `setBoardMode` of syncd/SingleReiniter.cpp, and what the linecard's own attributes are called.
-- The call of `sleep_for` between two polls is left out, and an attribute that the source builds
-- has zero where it sets nothing. `value.chardata` is the text before its first zero.
pub mod Polls
use Prim.Native.String.{String}
use sonic_otairedis.Common.{
  ℕ, zero, suc, ◌-◌, Bool, true, false, ◌&&◌, ◌||◌, List, [], ◌∷◌, Option, none, some, Result, ok,
  throws, Method, after, length, ltb, ◌==◌, if◌then◌else◌,
}
use sonic_otairedis.Common.Int.{pos}
use sonic_otairedis.Common.Assoc.{find, contains, insert}
use sonic_otairedis.Otai.{ObjectTypes, Status, success, is_success}
use sonic_otairedis.Metadata.{null_list, Value, Attribute, AttrMeta, Metadata}
use sonic_otairedis.Serialize.ObjectId.{Text, otai_deserialize_object_id}
use sonic_otairedis.Serialize.Texts.{same_text, take}
use sonic_otairedis.Requests.{Vendor}
use sonic_otairedis.Reinit.{ObjectIdMap, StringHash, AsicState, prepare_asic_state}
use sonic_otairedis.Reinit.Objects.{
  Reiniter, process_attributes_for_oids, process_single_vid, process_oids,
}
use sonic_otairedis.Reinit.Check.{check_all_ids}

-- OTAI_LINECARD_ATTR_BOARD_MODE, _START_PRE_CONFIGURATION and _STOP_PRE_CONFIGURATION, and the size
-- of `value.chardata`.
pub record LinecardAttrs : Type 0 where
  pub board_mode : ℕ
  pub start_pre_configuration : ℕ
  pub stop_pre_configuration : ℕ
  pub chardata_size : ℕ

abbrev zero_value : Value
zero_value = record {
  booldata = false;
  s32 = pos 0;
  oid = 0;
  objlist = null_list 0;
  numbers = null_list 0;
  chardata = [];
  u32_min = 0;
  u32_max = 0;
  s32_min = pos 0;
  s32_max = pos 0;
}

abbrev pub text_attr : ℕ → Text → Attribute
text_attr id chardata = record { id = id; value = record zero_value { chardata = chardata } }

abbrev pub flag_attr : ℕ → Attribute
flag_attr id = record { id = id; value = record zero_value { booldata = true } }

-- `attr.value.chardata`, of the one attribute that was passed.
abbrev pub chardata_of : List Attribute → Text
chardata_of [] = []
chardata_of (a ∷ rest) = a.value.chardata

module _ (linecard_attrs : LinecardAttrs) (linecard : ℕ) {V : Type 0} (vendor : Vendor V) where
  abbrev pub reached : Text → Status × List Attribute → Bool
  reached mode (status, attrs) = is_success status && same_text mode (chardata_of attrs)

  -- The loop, with the number of rounds that are left of its 10 * 60.
  pub wait_board_mode : ℕ → Text → ℕ → List Attribute → V → V
  wait_board_mode zero mode rid attrs hw = hw
  wait_board_mode (suc rounds) mode rid attrs hw =
      let polled = vendor.get linecard rid attrs hw in
      elim (reached mode polled.0) [
        | true ↦ polled.1
        | false ↦ wait_board_mode rounds mode rid polled.0.1 polled.1
      ]

  unfoldable pub set_board_mode : Text → ℕ → V → V
  unfolding wait_board_mode
  set_board_mode mode rid hw =
      let current = vendor.get linecard rid (text_attr linecard_attrs.board_mode [] ∷ []) hw in
      let wanted =
        text_attr linecard_attrs.board_mode (take (linecard_attrs.chardata_size - 1) mode) ∷ [] in
      let answer = vendor.set linecard rid wanted current.1 in
      elim (reached mode current.0) [
        | true ↦ current.1
        | false ↦ elim (is_success answer.0) [
          | false ↦ answer.1
          | true ↦ wait_board_mode 600 mode rid wanted answer.1
        ]
      ]
