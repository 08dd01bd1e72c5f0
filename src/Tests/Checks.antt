-- ===== src/Tests/Checks.antt =====
-- The validations on a concrete object type with two attributes: 1, mandatory, an enumeration, and
-- 2, a list of object ids.
use sonic_otairedis.Common.{
  ℕ, ◌+◌, ◌≤◌, ◌≡◌, ◌≢◌, ◌↔◌, ◌⊎◌, refl, true, false, ltb, arith, List, [], ◌∷◌, none, some, ok,
  ◌==◌, length, if◌then◌else◌,
}
use sonic_otairedis.Common.Int.{pos, negsuc}
use sonic_otairedis.Otai.{success, invalid_parameter, mandatory_attribute_missing}
use sonic_otairedis.Metadata.{
  type_int32, type_object_list, items, Value, Attribute, AttrMeta, Metadata,
}
use sonic_otairedis.Meta.Checks.{
  ◌>>>◌, validate_oid, max_list_count, accept, reject, enum_check, enum_list_check, validation_list,
}
use sonic_otairedis.Meta.ObjList.{validation_objlist}
use sonic_otairedis.Meta.ObjList.Laws.{
  All, Distinct, Fits, SameTypeButFirst, validation_objlist_iff,
}
use sonic_otairedis.Meta.Values.{value_check, printable}
use sonic_otairedis.Meta.Create.{ids, attributes, validation_create}
use sonic_otairedis.Meta.Create.Laws.{Accepted, validation_create-Accepted}
use sonic_otairedis.Meta.SetGet.{validation_get}
use sonic_otairedis.Meta.Calls.{
  Statistics, validate_stats, get_stats_ext, Implementation, create, set, get,
}
use sonic_otairedis.Meta.Calls.Admission.{Settable, Readable}
use sonic_otairedis.Meta.Calls.Gate.{Refused, create-gate, set-gate, get-gate}
use sonic_otairedis.Tests.World.{types}

abbrev pub plain : Value
plain = record {
  booldata = false;
  s32 = pos 2;
  oid = 0;
  objlist = items [];
  numbers = items [];
  chardata = [];
  u32_min = 0;
  u32_max = 0;
  s32_min = pos 0;
  s32_max = pos 0;
}

abbrev pub mode : AttrMeta
mode = record {
  attrid = 1;
  attrvaluetype = type_int32;
  read_only = false;
  create_only = false;
  set_only = false;
  is_key = false;
  mandatory_on_create = true;
  isenum = true;
  isenumlist = false;
  isoidattribute = false;
  isrecoverable = true;
  allownullobjectid = false;
  allowedobjecttypeslength = 0;
  isconditional = false;
  conditions = [];
  defaultvalue = plain;
  is_allowed_enum_value = λ v. elim v [ pos n ↦ ltb n 4 | negsuc n ↦ false ];
  is_allowed_object_type = λ ty. false;
}

abbrev pub ports : AttrMeta
ports = record mode {
  attrid = 2;
  attrvaluetype = type_object_list;
  mandatory_on_create = false;
  isenum = false;
  isoidattribute = true;
  is_allowed_object_type = λ ty. true;
}

-- Ids below 100 are of type 1, those below 200 of type 3, the others of type 4; 10 is the linecard.
abbrev pub meta : Metadata
meta = record {
  get_attr_metadata = λ ty id. if id == 1 then some mode else if id == 2 then some ports else none;
  attributes_metadata = λ ty. mode ∷ ports ∷ [];
  query_object_type = λ oid. if ltb oid 100 then 1 else if ltb oid 200 then 3 else 4;
  query_linecard_id = λ oid. 10;
}

-- An implementation that counts its calls.
abbrev impl : Implementation ℕ
impl = record {
  create_object = λ ty lc l s. (ok (success, some 150), s + 1);
  remove_object = λ ty oid s. (ok success, s + 1);
  set_attribute = λ ty oid a s. (ok success, s + 1);
  get_attributes = λ ty oid l s. (ok (success, items l), s + 1);
  get_counters = λ ty oid cs m s. (ok (success, []), s + 1);
}

abbrev request : List Attribute
request = record { id = 1; value = plain } ∷ []

accepted_test : validation_create meta 3 10 (items request) ≡ accept
unfolding validation_create value_check enum_check enum_list_check
accepted_test = refl

twice_test :
    validation_create meta 3 10 (items (record { id = 1; value = plain } ∷ request)) ≡ reject
unfolding validation_create value_check enum_check enum_list_check
twice_test = refl

validation_create-Accepted_example : Accepted meta 3 10 request
validation_create-Accepted_example =
    validation_create-Accepted meta 3 10 request (λ e. omega arith) accepted_test

-- Attribute 3 is to be passed exactly where attribute 1 is 2; with 3 for a default value it is not.
abbrev conditional : AttrMeta
conditional = record mode {
  attrid = 3;
  isconditional = true;
  conditions = record { attrid = 1; booldata = false; s32 = pos 2 } ∷ [];
}

abbrev conditional_meta : Metadata
conditional_meta = record meta {
  get_attr_metadata = λ ty id.
      if id == 1
      then some
          (record mode { mandatory_on_create = false; defaultvalue = record plain { s32 = pos 3 } })
      else some conditional;
  attributes_metadata = λ ty. conditional ∷ [];
}

conditional_test :
    (validation_create conditional_meta 3 10
        (items (record { id = 1; value = plain } ∷ record { id = 3; value = plain } ∷ []))
      ≡ accept)
    × (validation_create conditional_meta 3 10 (items request) ≡ ok mandatory_attribute_missing)
    × (validation_create conditional_meta 3 10 (items (record { id = 3; value = plain } ∷ []))
        ≡ reject)
    × (validation_create conditional_meta 3 10 (items []) ≡ accept)
unfolding validation_create value_check enum_check enum_list_check
conditional_test = (refl, refl, refl, refl)

Fits-first : Fits meta ports 10 150
Fits-first = record {
  not_null = λ e. omega arith;
  typed = λ e. omega arith;
  allowed = refl;
  same_linecard = refl;
}

Fits-second : Fits meta ports 10 250
Fits-second = record {
  not_null = λ e. omega arith;
  typed = λ e. omega arith;
  allowed = refl;
  same_linecard = refl;
}

abbrev three : List ℕ
three = 150 ∷ 151 ∷ 152 ∷ []

validation_objlist_iff_example : (validation_objlist meta ports 10 (items three) ≡ accept) ↔ (
    (length three ≤ max_list_count)
    × All (Fits meta ports 10) three
    × Distinct three
    × SameTypeButFirst meta ports 10 three)
validation_objlist_iff_example =
    validation_objlist_iff meta ports 10 three
      ((λ e. omega arith), ((λ e. omega arith), ((λ e. omega arith), tt)))

abbrev modes : AttrMeta
modes = record mode { isenumlist = true }

create-gate_example :
    let checks =
      validate_oid meta 3 (some 0) true >>> validation_create meta 3 10 (items request) in
    let answer = create meta impl 3 (some 0) 10 (items request) 7 in
    ((checks ≡ accept) × Accepted meta 3 10 request × (answer ≡ (ok (success, some 150), 8)))
    ⊎ ((checks ≢ accept) × Refused (λ status. (status, some 0)) 7 answer)
create-gate_example = create-gate meta impl 3 10 (some 0) request 7 (λ e. omega arith)

abbrev change : Attribute
change = record { id = 1; value = plain }

set-gate_example :
    (Settable meta 3 150 change × (set meta impl 3 150 (some change) 7 ≡ (ok success, 8)))
    ⊎ Refused (λ status. status) 7 (set meta impl 3 150 (some change) 7)
set-gate_example = set-gate meta impl 3 150 change 7

get-gate_example :
    let validated = validate_oid meta 3 (some 150) false in
    let checks = validation_get meta 3 150 (items request) in
    let answer = get meta impl 3 150 (items request) 7 in
    (ids (attributes checks.1) ≡ ids request)
    × (((validated ≢ accept) × Refused (λ status. (status, items request)) 7 answer)
        ⊎ ((validated ≡ accept)
            × (checks.0 ≢ accept)
            × Refused (λ status. (status, checks.1)) 7 answer)
        ⊎ ((validated ≡ accept)
            × (checks.0 ≡ accept)
            × Readable meta 3 request
            × (answer ≡ (ok (success, items (attributes checks.1)), 8))))
get-gate_example = get-gate meta impl 3 150 request 7

abbrev statistics : Statistics
statistics = record { stat_enum = λ ty. some (λ c. ltb c 3); is_stats_mode = λ m. ltb m 2 }

stats_test :
    (get_stats_ext meta impl statistics 3 150 (items (0 ∷ 2 ∷ [])) 1 7 ≡ (ok (success, []), 8))
    × (get_stats_ext meta impl statistics 3 150 (items (0 ∷ 3 ∷ [])) 1 7
        ≡ (ok (invalid_parameter, []), 7))
unfolding get_stats_ext validate_stats validate_oid
stats_test = (refl, refl)

chardata_test : (printable (0x41 ∷ 0 ∷ 7 ∷ []) ≡ accept) × (printable (0x41 ∷ 7 ∷ []) ≡ reject)
unfolding printable
chardata_test = (refl, refl)

list_test : validation_list {A = ℕ} (items []) ≡ reject
unfolding validation_list
list_test = refl
