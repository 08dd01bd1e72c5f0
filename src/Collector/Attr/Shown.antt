-- ===== src/Collector/Attr/Shown.antt =====
-- What a round of readings makes of the entries and of the table.
use sonic_otairedis.Common.{
  ℕ, ◌≡◌, ◌⊎◌, inl, inr, refl, sym, ◌∙◌, Bool, true, false, List, [], ◌∷◌, Result, ok, subst, ap,
}
use sonic_otairedis.Common.Assoc.{find}
use sonic_otairedis.Otai.{Status, is_success}
use sonic_otairedis.Metadata.{ValueType, Value, Attribute}
use sonic_otairedis.Serialize.ObjectId.{Text}
use sonic_otairedis.Serialize.Texts.{same_text, same_text_refl}
use sonic_otairedis.Requests.{Vendor}
use sonic_otairedis.Collector.Copies.{compare_attribute, compare_member, member_of}
use sonic_otairedis.Collector.Copies.Faithful.{Fits, compare-Fits, transfer-same}
use sonic_otairedis.Collector.Attr.{
  AttrEntry, StateTable, save_value, update_current_value, collect_attr, collect_attrs, answered,
  after_compare,
}
use sonic_otairedis.Collector.Attr.Rows.{
  FieldsDistinct, Update, if_either, ShownIn, AllShown, before_others_ok, collect_attrs_others,
  collect_one-AllShown,
}

module _ {V : Type 0} (vendor : Vendor V) (object_type rid : ℕ)
    (differ : ValueType → Value → Value → Bool) (text_of : Text → Attribute → Text) where
  abbrev collect_one :
      AttrEntry → Status × List Attribute → StateTable → Result (Unit {0}) × AttrEntry × StateTable
  collect_one = collect_attr vendor object_type rid differ text_of

  -- The reading failed, or it can be copied whole.
  abbrev pub AnswerFits : AttrEntry → Status × List Attribute → Type 0
  AnswerFits e (status, attrs) =
      (is_success status ≡ false) ⊎ Fits e.attrvaluetype (answered e.attr attrs) e.attrdb

  -- The entries of a round, each read on the hardware that the one before it left.
  abbrev pub AllFit : List AttrEntry → V → Type 0
  AllFit [] hw = Unit
  AllFit (e ∷ rest) hw =
      AnswerFits e (vendor.get object_type rid (e.attr ∷ []) hw).0
      × AllFit rest (vendor.get object_type rid (e.attr ∷ []) hw).1

  -- What one reading does to an entry, and what the table shows of it in the end.
  pub record Collected (e : AttrEntry) (answer : Status × List Attribute) (table : StateTable)
      (e' : AttrEntry) : Type 0 where
    pub same_field : e'.field ≡ e.field
    pub same_type : e'.attrvaluetype ≡ e.attrvaluetype
    pub reading : e'.attr ≡ answered e.attr answer.1
    pub up_to_date :
        ((is_success answer.0 ≡ true)
          × (e'.init ≡ false)
          × (compare_attribute differ e'.attrvaluetype e'.attrdb e'.attr ≡ ok false))
        ⊎ ((is_success answer.0 ≡ false) × (e'.init ≡ e.init) × (e'.attrdb ≡ e.attrdb))
    pub shown : ShownIn vendor object_type rid differ text_of table e'

  abbrev pub AllCollected : List AttrEntry → V → StateTable → List AttrEntry → Type 0
  AllCollected [] hw table [] = Unit
  AllCollected (e ∷ rest) hw table (e' ∷ rest') =
      Collected e (vendor.get object_type rid (e.attr ∷ []) hw).0 table e'
      × AllCollected rest (vendor.get object_type rid (e.attr ∷ []) hw).1 table rest'
  AllCollected _ hw table _ = ⊥

  -- Writes to other fields do not matter.
  Collected-later :
      (e : AttrEntry) (answer : Status × List Attribute) (table table' : StateTable)
      (e' : AttrEntry)
      → find same_text e.field table' ≡ find same_text e.field table
      → Collected e answer table e'
      → Collected e answer table' e'
  Collected-later e answer table table' e' kept c =
      let kept' : find same_text e'.field table' ≡ find same_text e'.field table =
        subst (λ f. find same_text f table' ≡ find same_text f table) (sym c.same_field) kept in
      record {
        same_field = c.same_field;
        same_type = c.same_type;
        reading = c.reading;
        up_to_date = c.up_to_date;
        shown = elim c.shown [
          | inl new ↦ inl new
          | inr (a, row, same) ↦ inr (a, kept' ∙ row, same)
        ];
      }

  -- An entry after a successful reading was looked at.
  record UpToDate (e : AttrEntry) (r : Update) : Type 0 where
    returns : r.0 ≡ ok tt
    same_field : r.1.field ≡ e.field
    same_type : r.1.attrvaluetype ≡ e.attrvaluetype
    same_reading : r.1.attr ≡ e.attr
    not_new : r.1.init ≡ false
    copied : compare_attribute differ r.1.attrvaluetype r.1.attrdb r.1.attr ≡ ok false
    shown : ShownIn vendor object_type rid differ text_of r.2 r.1

  module _ (differ_refl : (ty : ValueType) (v : Value) → differ ty v v ≡ false) where
    save_value-UpToDate :
        (e : AttrEntry) (table : StateTable)
        → Fits e.attrvaluetype e.attr e.attrdb
        → UpToDate e (save_value vendor object_type rid differ text_of e table)
    unfolding save_value
    save_value-UpToDate e table fits =
        let copied = transfer-same differ differ_refl e.attrvaluetype e.attr e.attrdb fits in
        let self = same_text_refl e.field in
        rw (copied.1) (record {
          returns = refl;
          same_field = refl;
          same_type = refl;
          same_reading = refl;
          not_new = refl;
          copied = copied.2;
          shown = inr (e.attr, rw self refl, copied.2);
        })

    update-UpToDate :
        (e : AttrEntry) (table : StateTable)
        → ShownIn vendor object_type rid differ text_of table e
        → Fits e.attrvaluetype e.attr e.attrdb
        → UpToDate e (update_current_value vendor object_type rid differ text_of e table)
    unfolding update_current_value after_compare
    update-UpToDate e table shown fits =
        let saved = save_value-UpToDate e table fits in
        let compared = compare-Fits differ differ_refl e.attrvaluetype e.attr e.attrdb fits in
        let changed =
          compare_member differ e.attrvaluetype (member_of e.attrvaluetype) e.attrdb e.attr.value in
        if_either (UpToDate e) e.init (λ new. saved)
          (λ old. rw compared (
            if_either (UpToDate e) changed (λ differs. saved)
              (λ same. record {
                returns = refl;
                same_field = refl;
                same_type = refl;
                same_reading = refl;
                not_new = old;
                copied = compared ∙ ap ok same;
                shown = shown;
              })))

    collect_one-Collected :
        (e : AttrEntry) (answer : Status × List Attribute) (table : StateTable)
        → ShownIn vendor object_type rid differ text_of table e
        → AnswerFits e answer
        → let r = collect_one e answer table in (r.0 ≡ ok tt) × Collected e answer r.2 r.1
    unfolding collect_attr
    collect_one-Collected e (status, attrs) table shown fits =
        let now : AttrEntry = record e { attr = answered e.attr attrs } in
        if_either (λ r. (r.0 ≡ ok tt) × Collected e (status, attrs) r.2 r.1) (is_success status)
          (λ read.
            let fits' : Fits e.attrvaluetype now.attr e.attrdb = elim fits [
              | inl failed ↦ absurd cc
              | inr f ↦ f
            ] in
            let u = update-UpToDate now table shown fits' in
            (
              u.returns,
              record {
                same_field = u.same_field;
                same_type = u.same_type;
                reading = u.same_reading;
                up_to_date = inl (read, u.not_new, u.copied);
                shown = u.shown;
              },
            ))
          (λ failed. (
            refl,
            record {
              same_field = refl;
              same_type = refl;
              reading = refl;
              up_to_date = inr (failed, refl, refl);
              shown = shown;
            },
          ))

    -- A round of `collect` over entries with fields of their own, where the table shows each value
    -- that was saved once, and each reading that succeeds can be copied whole: it has the id of the
    -- saved value and a type that is copied, and it is no list, or a list, not NULL, that is no
    -- longer than the one saved before it, which was not empty. Then the round does not throw, and
    -- every entry is read, on the hardware that the reading before left, and keeps its field and
    -- type. Where the reading succeeds, the saved value and the reading do not differ afterwards;
    -- where it fails, the saved value stays. For each entry that was saved once, the table then has
    -- the text of an attribute that does not differ from the saved value. Values that are no lists
    -- are taken not to differ from themselves.
    pub collect_attrs-AllCollected :
        (es : List AttrEntry) (hw : V) (table : StateTable)
        → FieldsDistinct es
        → AllShown vendor object_type rid differ text_of table es
        → AllFit es hw
        → let end = collect_attrs vendor object_type rid differ text_of es hw table in
          (end.0 ≡ ok tt) × AllCollected es hw end.3 end.1
    unfolding collect_attrs
    collect_attrs-AllCollected [] hw table d shown fits = (refl, tt)
    collect_attrs-AllCollected (e ∷ rest) hw table d shown fits =
        let answer = vendor.get object_type rid (e.attr ∷ []) hw in
        let one = collect_one e answer.0 table in
        let others = collect_attrs vendor object_type rid differ text_of rest answer.1 one.2 in
        let first = collect_one-Collected e answer.0 table shown.0 fits.0 in
        let later =
          collect_attrs-AllCollected rest answer.1 one.2 d.1
            (collect_one-AllShown vendor object_type rid differ text_of e answer.0 table rest d.0
              shown.1)
            fits.1 in
        let kept =
          collect_attrs_others vendor object_type rid differ text_of rest answer.1 one.2 e.field
            d.0 in
        rw
          (
            before_others_ok vendor object_type rid differ text_of one rest answer.1 others first.0,
            collect_attrs,
          )
          (later.0, (Collected-later e answer.0 one.2 others.3 one.1 kept first.1, later.1))
