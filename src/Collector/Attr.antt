-- ===== src/Collector/Attr.antt =====
-- syncd/pm/OtaiAttrCollector.cpp: attributes that are written to a table when they change. Of the
-- metadata of an attribute the name of its field and the type of its value count. How values that are
-- no lists compare, and how values are written (`otai_serialize_attr_value` of
-- meta/OtaiSerialize.cpp), are arguments. The table is what was written to it, the last first.
pub mod Rows
pub mod Shown
use sonic_otairedis.Common.{
  ℕ, Bool, true, false, ◌||◌, List, [], ◌∷◌, Result, ok, throws, if◌then◌else◌,
}
use sonic_otairedis.Otai.{Status, success, uninitialized, object_not_ready, is_success}
use sonic_otairedis.Metadata.{ValueType, Value, Attribute, AttrMeta}
use sonic_otairedis.Serialize.ObjectId.{Text}
use sonic_otairedis.Requests.{Vendor}
use sonic_otairedis.Collector.Copies.{Saved, transfer_attributes, compare_attribute}

pub record AttrEntry : Type 0 where
  pub init : Bool
  pub field : Text
  pub attrvaluetype : ValueType
  pub attr : Attribute
  pub attrdb : Saved

abbrev pub StateTable : Type 0
StateTable = List (Text × Text)

-- The answers of an attribute that the constructor keeps.
abbrev pub supported : Status → Bool
supported success = true
supported uninitialized = true
supported object_not_ready = true
supported _ = false

abbrev pub readable : AttrMeta → Bool
readable md = if md.create_only || md.set_only then false else true

-- What the pointer to the one attribute shows after the call.
abbrev pub answered : Attribute → List Attribute → Attribute
answered a [] = a
answered a (b ∷ rest) = b

module _ {V : Type 0} (vendor : Vendor V) (object_type rid : ℕ) where
  -- The loop of the constructor, over attributes and buffers as `newOtaiAttr` makes them.
  unfoldable pub make_entries : List (AttrMeta × Text × Attribute × Saved) → V → List AttrEntry × V
  make_entries [] hw = ([], hw)
  make_entries ((md, field, a, saved) ∷ rest) hw =
      let answer = vendor.get object_type rid (a ∷ []) hw in
      let asked = make_entries rest answer.1 in
      let skipped = make_entries rest hw in
      if readable md
      then (
        if supported answer.0.0
            then record {
              init = true;
              field = field;
              attrvaluetype = md.attrvaluetype;
              attr = a;
              attrdb = saved;
            }
              ∷ asked.0
            else asked.0,
        asked.1,
      )
      else skipped

  module _ (differ : ValueType → Value → Value → Bool) (text_of : Text → Attribute → Text) where
    -- The reading is in the table before it is copied, and the status of the copy is dropped.
    abbrev pub after_transfer :
        AttrEntry
        → StateTable
        → Result (Status × Saved)
        → Result (Unit {0}) × AttrEntry × StateTable
    after_transfer e table (throws message) = (throws message, e, table)
    after_transfer e table (ok (status, saved)) = (ok tt, record e { attrdb = saved }, table)

    pub save_value : AttrEntry → StateTable → Result (Unit {0}) × AttrEntry × StateTable
    save_value e table =
        after_transfer (record e { init = false }) ((e.field, text_of e.field e.attr) ∷ table)
          (transfer_attributes e.attrvaluetype e.attr e.attrdb)

    abbrev pub after_compare :
        AttrEntry → StateTable → Result Bool → Result (Unit {0}) × AttrEntry × StateTable
    unfolding save_value
    after_compare e table (throws message) = (throws message, e, table)
    after_compare e table (ok changed) = if changed then save_value e table else (ok tt, e, table)

    unfoldable pub update_current_value :
        AttrEntry → StateTable → Result (Unit {0}) × AttrEntry × StateTable
    unfolding save_value
    update_current_value e table =
        if e.init
        then save_value e table
        else after_compare e table (compare_attribute differ e.attrvaluetype e.attrdb e.attr)

    -- A reading that fails leaves the table, whatever its status is.
    pub collect_attr :
        AttrEntry
        → Status × List Attribute
        → StateTable
        → Result (Unit {0}) × AttrEntry × StateTable
    unfolding update_current_value
    collect_attr e (status, attrs) table =
        let read : AttrEntry = record e { attr = answered e.attr attrs } in
        if is_success status then update_current_value read table else (ok tt, read, table)

    -- An entry was collected: the others follow, or the round ends where it threw.
    abbrev pub before_others :
        Result (Unit {0}) × AttrEntry × StateTable
        → List AttrEntry
        → V
        → Result (Unit {0}) × List AttrEntry × V × StateTable
        → Result (Unit {0}) × List AttrEntry × V × StateTable
    before_others (throws message, e, table) rest hw others = (throws message, e ∷ rest, hw, table)
    before_others (ok _, e, table) rest hw (result, es, hw', table') = (result, e ∷ es, hw', table')

    unfoldable pub collect_attrs :
        List AttrEntry → V → StateTable → Result (Unit {0}) × List AttrEntry × V × StateTable
    unfolding collect_attr
    collect_attrs [] hw table = (ok tt, [], hw, table)
    collect_attrs (e ∷ rest) hw table =
        let answer = vendor.get object_type rid (e.attr ∷ []) hw in
        let one = collect_attr e answer.0 table in
        let others = collect_attrs rest answer.1 one.2 in before_others one rest answer.1 others
