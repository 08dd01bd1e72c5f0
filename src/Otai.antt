-- ===== src/Otai.antt =====
-- What the program takes from the OTAI headers (the submodule OTAI): the object types by number,
-- the test that the generated metadata has for them, and the status codes.
use sonic_otairedis.Common.{ℕ, ◌<◌, ◌≡◌, Bool, true, false}

pub record ObjectTypes : Type 0 where
  -- OTAI_NULL_OBJECT_ID and OTAI_OBJECT_TYPE_NULL
  pub null_object_id : ℕ
  pub null_type : ℕ
  -- OTAI_OBJECT_TYPE_LINECARD, _OCM and _OTDR
  pub linecard : ℕ
  pub ocm : ℕ
  pub otdr : ℕ
  -- OTAI_OBJECT_TYPE_EXTENSIONS_MAX
  pub extensions_max : ℕ
  -- otai_metadata_is_object_type_valid
  pub is_object_type_valid : ℕ → Bool

-- What the headers promise of them; the last bound is the `static_assert` of both managers.
pub record IsOtai (t : ObjectTypes) : Type 0 where
  pub null_object_id_zero : t.null_object_id ≡ 0
  pub null_type_zero : t.null_type ≡ 0
  pub linecard_pos : 0 < t.linecard
  pub linecard_below : t.linecard < t.extensions_max
  pub linecard_valid : t.is_object_type_valid t.linecard ≡ true
  pub valid_pos : (x : ℕ) → t.is_object_type_valid x ≡ true → 0 < x
  pub valid_below : (x : ℕ) → t.is_object_type_valid x ≡ true → x < t.extensions_max
  pub extensions_max_below : t.extensions_max < 255

-- otai_status_t: the codes that the program itself returns, and all others by number.
pub data Status : Type 0 where
  success failure invalid_parameter not_implemented mandatory_attribute_missing : Status
  buffer_overflow uninitialized object_not_ready : Status
  other : ℕ → Status

abbrev pub is_success : Status → Bool
is_success success = true
is_success _ = false
