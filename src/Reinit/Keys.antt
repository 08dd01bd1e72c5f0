-- ===== src/Reinit/Keys.antt =====
-- The keys of ASIC_STATE as `RedisClient` writes them and as `SingleReiniter` reads them.
use mathlib.Core.List.{append_assoc}
use sonic_otairedis.Common.{
  ◌+◌, ◌-◌, ◌^◌, ◌%◌, ◌<◌, ◌≡◌, subst, arith, [], ◌∷◌, ◌++◌, length, length-append,
}
use sonic_otairedis.Serialize.ObjectId.{Text}
use sonic_otairedis.Serialize.Texts.{Without, drop, find_char-append, drop-append, take-append}
use sonic_otairedis.Redis.Client.{asic_state_prefix}
use sonic_otairedis.Reinit.{type_text, get_object_id_from_asic_key}

-- ASIC_STATE, a colon, the name of a type, a colon, and an id: that is a key.
abbrev pub asic_key : Text → Text → Text
asic_key name id = asic_state_prefix ++ name ++ b':' ∷ id

-- From a key of ASIC_STATE with a name that holds no colon, in a text below 2^64 - 1 bytes, the
-- reiniter reads back that name and that id.
pub key-parts :
    (name id : Text)
    → Without b':' name
    → length name + 12 < 2 ^ 64
    → (type_text (asic_key name id) ≡ name) × (get_object_id_from_asic_key (asic_key name id) ≡ id)
unfolding type_text get_object_id_from_asic_key
key-parts name id plain small =
    let found = find_char-append b':' 11 name id plain in
    let upto : Text = asic_state_prefix ++ (name ++ b':' ∷ []) in
    let len = length-append name (b':' ∷ []) in
    let whole = append_assoc name (b':' ∷ []) id in
    let count : (11 + length name + 2 ^ 64 - 11) % 2 ^ 64 ≡ length name = omega arith in
    let after : (11 + length name + 1) % 2 ^ 64 ≡ length upto = omega arith in
    let rest : drop (length upto) (asic_key name id) ≡ id =
      subst (λ (z : Text). drop (length upto) (asic_state_prefix ++ z) ≡ id) whole
        (drop-append upto id) in
    (rw (found, count) (take-append name (b':' ∷ id)), rw (found, after) rest)
