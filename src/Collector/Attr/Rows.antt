-- ===== src/Collector/Attr/Rows.antt =====
-- Which rows of the table are written, and what a row shows of its attribute.
use sonic_otairedis.Common.{
  ℕ, ◌≡◌, ◌⊎◌, inl, inr, refl, ◌∙◌, Bool, true, false, List, [], ◌∷◌, some, Result, ok, throws,
  if◌then◌else◌,
}
use sonic_otairedis.Common.Assoc.{find}
use sonic_otairedis.Otai.{Status, is_success}
use sonic_otairedis.Metadata.{ValueType, Value, Attribute}
use sonic_otairedis.Serialize.ObjectId.{Text}
use sonic_otairedis.Serialize.Texts.{same_text, same_text_other}
use sonic_otairedis.Requests.{Vendor}
use sonic_otairedis.Collector.Copies.{Saved, transfer_attributes, compare_attribute}
use sonic_otairedis.Collector.Attr.{
  AttrEntry, StateTable, save_value, update_current_value, collect_attr, collect_attrs, answered,
  after_transfer, after_compare, before_others,
}

-- No entry has the field.
abbrev pub Without : Text → List AttrEntry → Type 0
Without field [] = Unit
Without field (e ∷ rest) = (same_text field e.field ≡ false) × Without field rest

-- Each entry has a field of its own.
abbrev pub FieldsDistinct : List AttrEntry → Type 0
FieldsDistinct [] = Unit
FieldsDistinct (e ∷ rest) = Without e.field rest × FieldsDistinct rest

-- The result of an attribute's functions.
abbrev pub Update : Type 0
Update = Result (Unit {0}) × AttrEntry × StateTable

-- What holds of each branch where it is taken.
pub if_either :
    (P : Update → Type 0) (b : Bool) {x y : Update}
    → (b ≡ true → P x)
    → (b ≡ false → P y)
    → P (if b then x else y)
if_either P true p q = p refl
if_either P false p q = q refl

module _ {V : Type 0} (vendor : Vendor V) (object_type rid : ℕ)
    (differ : ValueType → Value → Value → Bool) (text_of : Text → Attribute → Text) where
  -- The row has the text of an attribute that does not differ from the saved value.
  abbrev pub ShownIn : StateTable → AttrEntry → Type 0
  ShownIn table e =
      (e.init ≡ true)
      ⊎ ((shown : Attribute) × (find same_text e.field table ≡ some (text_of e.field shown))
          × (compare_attribute differ e.attrvaluetype e.attrdb shown ≡ ok false))

  abbrev pub AllShown : StateTable → List AttrEntry → Type 0
  AllShown table [] = Unit
  AllShown table (e ∷ rest) = ShownIn table e × AllShown table rest

  abbrev pub collect_one :
      AttrEntry → Status × List Attribute → StateTable → Result (Unit {0}) × AttrEntry × StateTable
  collect_one = collect_attr vendor object_type rid differ text_of

  -- The copy does not write to the table.
  after_transfer_table :
      (e : AttrEntry) (table : StateTable) (copied : Result (Status × Saved))
      → (after_transfer vendor object_type rid differ text_of e table copied).2 ≡ table
  after_transfer_table e table (throws message) = refl
  after_transfer_table e table (ok (status, saved)) = refl

  -- Only the entry's own field is written.
  save_value_others :
      (e : AttrEntry) (table : StateTable) (field : Text)
      → same_text field e.field ≡ false
      → find same_text field (save_value vendor object_type rid differ text_of e table).2
        ≡ find same_text field table
  unfolding save_value
  save_value_others e table field other =
      let row : Text × Text = (e.field, text_of e.field e.attr) in
      rw
        (after_transfer_table (record e { init = false }) (row ∷ table)
          (transfer_attributes e.attrvaluetype e.attr e.attrdb))
        (rw other refl)

  after_compare_others :
      (e : AttrEntry) (table : StateTable) (field : Text) (changed : Result Bool)
      → same_text field e.field ≡ false
      → find same_text field (after_compare vendor object_type rid differ text_of e table changed).2
        ≡ find same_text field table
  unfolding after_compare
  after_compare_others e table field (throws message) other = refl
  after_compare_others e table field (ok true) other = save_value_others e table field other
  after_compare_others e table field (ok false) other = refl

  update_others :
      (e : AttrEntry) (table : StateTable) (field : Text)
      → same_text field e.field ≡ false
      → find same_text field (update_current_value vendor object_type rid differ text_of e table).2
        ≡ find same_text field table
  unfolding update_current_value
  update_others e table field other =
      let compared = compare_attribute differ e.attrvaluetype e.attrdb e.attr in
      if_either (λ r. find same_text field r.2 ≡ find same_text field table) e.init
        (λ new. save_value_others e table field other)
        (λ old. after_compare_others e table field compared other)

  collect_one_others :
      (e : AttrEntry) (answer : Status × List Attribute) (table : StateTable) (field : Text)
      → same_text field e.field ≡ false
      → find same_text field (collect_one e answer table).2 ≡ find same_text field table
  unfolding collect_attr
  collect_one_others e (status, attrs) table field other =
      let written = update_others (record e { attr = answered e.attr attrs }) table field other in
      if_either (λ r. find same_text field r.2 ≡ find same_text field table) (is_success status)
        (λ read. written) (λ failed. refl)

  before_others_either :
      (P : StateTable → Type 0) (one : Update) (rest : List AttrEntry) (hw : V)
      (others : Result (Unit {0}) × List AttrEntry × V × StateTable)
      → P one.2
      → P others.3
      → P (before_others vendor object_type rid differ text_of one rest hw others).3
  before_others_either P (throws message, e, table) rest hw others p q = p
  before_others_either P (ok _, e, table) rest hw others p q = q

  pub before_others_ok :
      (one : Update) (rest : List AttrEntry) (hw : V)
      (others : Result (Unit {0}) × List AttrEntry × V × StateTable)
      → one.0 ≡ ok tt
      → before_others vendor object_type rid differ text_of one rest hw others
        ≡ (others.0, one.1 ∷ others.1, others.2, others.3)
  before_others_ok (throws message, e, table) rest hw others p = absurd cc
  before_others_ok (ok _, e, table) rest hw others p = refl

  pub collect_attrs_others :
      (es : List AttrEntry) (hw : V) (table : StateTable) (field : Text)
      → Without field es
      → find same_text field (collect_attrs vendor object_type rid differ text_of es hw table).3
        ≡ find same_text field table
  unfolding collect_attrs
  collect_attrs_others [] hw table field w = refl
  collect_attrs_others (e ∷ rest) hw table field w =
      let answer = vendor.get object_type rid (e.attr ∷ []) hw in
      let one = collect_one e answer.0 table in
      let first = collect_one_others e answer.0 table field w.0 in
      let later = collect_attrs_others rest answer.1 one.2 field w.1 in
      before_others_either (λ t. find same_text field t ≡ find same_text field table) one rest
        answer.1 (collect_attrs vendor object_type rid differ text_of rest answer.1 one.2) first
        (later ∙ first)

  pub collect_one-AllShown :
      (e : AttrEntry) (answer : Status × List Attribute) (table : StateTable) (es : List AttrEntry)
      → Without e.field es
      → AllShown table es
      → AllShown (collect_one e answer table).2 es
  collect_one-AllShown e answer table [] w shown = tt
  collect_one-AllShown e answer table (f ∷ rest) w shown =
      let kept = collect_one_others e answer table f.field (same_text_other e.field f.field w.0) in
      (
        elim shown.0 [ inl new ↦ inl new | inr (a, row, same) ↦ inr (a, kept ∙ row, same) ],
        collect_one-AllShown e answer table rest w.1 shown.1,
      )
