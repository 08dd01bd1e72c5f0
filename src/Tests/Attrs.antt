-- ===== src/Tests/Attrs.antt =====
-- A collector of two attributes: the first can be read and changes, the second is not ready.
use sonic_otairedis.Common.{
  ℕ, zero, suc, ◌+◌, ◌≡◌, refl, Bool, true, false, not, List, [], ◌∷◌, ok, some, inl, inr, ◌==◌,
  ==_refl, if◌then◌else◌,
}
use sonic_otairedis.Common.Assoc.{find}
use sonic_otairedis.Otai.{Status, success, failure, object_not_ready, buffer_overflow}
use sonic_otairedis.Metadata.{
  ValueType, type_object_id, type_object_list, null_list, items, Value, Attribute, AttrMeta,
}
use sonic_otairedis.Serialize.ObjectId.{Text, text}
use sonic_otairedis.Requests.{Vendor}
use sonic_otairedis.Serialize.Texts.{same_text}
use sonic_otairedis.Collector.Copies.{
  Buffer, Saved, transfer_attributes, transfer_list, compare_attribute, compare_list,
}
use sonic_otairedis.Collector.Attr.{StateTable, AttrEntry, make_entries, collect_attrs}
use sonic_otairedis.Collector.Attr.Shown.{AllCollected, collect_attrs-AllCollected}
use sonic_otairedis.Tests.Checks.{plain, mode}

abbrev reading : ℕ → ℕ → Attribute
reading id x = record { id = id; value = record plain { oid = x } }

abbrev read : List Attribute → ℕ → (Status × List Attribute) × ℕ
read [] hw = ((failure, []), hw)
read (a ∷ rest) hw =
    if a.id == 1
    then ((success, reading 1 hw ∷ []), hw + 1)
    else if a.id == 2
    then ((object_not_ready, a ∷ rest), hw + 1)
    else ((failure, a ∷ rest), hw + 1)

abbrev vendor : Vendor ℕ
vendor = record {
  create = λ ty lc attrs hw. ((success, 0), hw);
  remove = λ ty rid hw. (success, hw);
  set = λ ty rid attrs hw. (success, hw);
  get = λ ty rid attrs hw. read attrs hw;
}

abbrev read_only : AttrMeta
read_only = record mode { attrvaluetype = type_object_id; create_only = false; set_only = false }

abbrev differ : ValueType → Value → Value → Bool
differ ty a b = not (a.oid == b.oid)

differ_refl : (ty : ValueType) (a : Value) → differ ty a a ≡ false
differ_refl ty a = let e = ==_refl a.oid in rw e refl

abbrev text_of : Text → Attribute → Text
text_of field a = a.value.oid ∷ []

abbrev buffer : {A : Type 0} → Buffer A
buffer = record { count = 512; cells = [] }

abbrev saved : ℕ → Saved
saved id = record { id = id; value = (reading id 0).value; objects = buffer; numbers = buffer }

abbrev fresh : ℕ → Text → AttrEntry
fresh id field = record {
  init = true;
  field = field;
  attrvaluetype = type_object_id;
  attr = reading id 0;
  attrdb = saved id;
}

abbrev entries : List AttrEntry
entries = fresh 1 (text "power") ∷ fresh 2 (text "state") ∷ []

-- The third attribute is not supported.
make_entries_test :
    make_entries vendor 3 77
      ((read_only, text "power", reading 1 0, saved 1)
        ∷ (read_only, text "state", reading 2 0, saved 2)
        ∷ (read_only, text "gone", reading 3 0, saved 3)
        ∷ [])
      10
    ≡ (entries, 13)
unfolding make_entries
make_entries_test = refl

collect_test :
    (collect_attrs vendor 3 77 differ text_of entries 5 []).3 ≡ (text "power", 5 ∷ []) ∷ []
unfolding collect_attrs transfer_attributes
collect_test = refl

collect_attrs-AllCollected_example :
    let end = collect_attrs vendor 3 77 differ text_of entries 5 [] in
    (end.0 ≡ ok tt) × AllCollected vendor 3 77 differ text_of entries 5 end.3 end.1
collect_attrs-AllCollected_example =
    collect_attrs-AllCollected vendor 3 77 differ text_of differ_refl entries 5 []
      ((refl, tt), (tt, tt)) (inl refl, (inl refl, tt)) (inr (refl, tt), (inl refl, tt))

-- An attribute that is a list of objects. The hardware is the answers that are left.
abbrev Answers : Type 0
Answers = List (Status × List ℕ)

abbrev objects : List ℕ → Attribute
objects xs = record { id = 4; value = record plain { objlist = items xs } }

abbrev answer_next : Answers → (Status × List Attribute) × Answers
answer_next [] = ((failure, []), [])
answer_next ((status, xs) ∷ rest) = ((status, objects xs ∷ []), rest)

abbrev lists : Vendor Answers
lists = record {
  create = λ ty lc attrs hw. ((success, 0), hw);
  remove = λ ty rid hw. (success, hw);
  set = λ ty rid attrs hw. (success, hw);
  get = λ ty rid attrs hw. answer_next hw;
}

abbrev objects_text : Text → Attribute → Text
objects_text field a = elim a.value.objlist [ null_list n ↦ [] | items xs ↦ xs ]

abbrev ports : List AttrEntry
ports =
    record {
      init = true;
      field = text "ports";
      attrvaluetype = type_object_list;
      attr = objects [];
      attrdb = saved 4;
    }
    ∷ []

abbrev rounds : ℕ → List AttrEntry → Answers → StateTable → StateTable
unfolding collect_attrs
rounds zero es hw table = table
rounds (suc n) es hw table =
    let end = collect_attrs lists 3 77 differ objects_text es hw table in rounds n end.1 end.2 end.3

abbrev history : Answers
history =
    (success, 1 ∷ 2 ∷ 3 ∷ [])
    ∷ (success, 1 ∷ 2 ∷ [])
    ∷ (buffer_overflow, 1 ∷ 2 ∷ 3 ∷ [])
    ∷ (success, 7 ∷ 8 ∷ 9 ∷ [])
    ∷ (success, 1 ∷ 2 ∷ 3 ∷ [])
    ∷ []

-- The list grows again: of 7, 8, 9 only the count is copied, so that the old cells are compared
-- with the last reading, and the row stays at 7, 8, 9.
stale_row_test : find same_text (text "ports") (rounds 5 ports history []) ≡ some (7 ∷ 8 ∷ 9 ∷ [])
unfolding rounds collect_attrs transfer_attributes transfer_list compare_attribute compare_list
stale_row_test = refl
