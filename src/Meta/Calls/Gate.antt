-- ===== src/Meta/Calls/Gate.antt =====
-- When the methods of `Meta` reach the implementation, and what they answer when they do not.
use Prim.Native.String.{String}
use sonic_otairedis.Common.{
  ℕ, ◌≡◌, ◌≢◌, ◌⊎◌, inl, inr, refl, subst, sym, ◌∙◌, true, false, List, Option, some, Result, ok,
  throws, Method,
}
use sonic_otairedis.Otai.{ObjectTypes, IsOtai, Status, success, is_success}
use sonic_otairedis.Metadata.{items, Attribute, Metadata}
use sonic_otairedis.Meta.Checks.{accept, reject, ◌>>>◌, validate_oid}
use sonic_otairedis.Meta.Create.{ids, attributes, validation_create}
use sonic_otairedis.Meta.Create.Laws.{>>>-accept, Accepted, validation_create-Accepted}
use sonic_otairedis.Meta.SetGet.{validation_get, validation_set}
use sonic_otairedis.Meta.Calls.Admission.{
  Removable, Settable, Readable, remove_checks-accept, remove_checks-reject,
  validation_set-Settable, validation_get-accept, validation_get-ids,
}
use sonic_otairedis.Meta.Calls.{Implementation, checked, create, get, remove, set}

-- A method's result when its request is refused: another status than success, or what the check
-- throws, with the implementation's state as it was.
abbrev pub Refused {ℓ} : {S : Type 0} {A : Type ℓ} → (Status → A) → S → Result A × S → Type ℓ
Refused refused s r =
    ((status : Status) × (is_success status ≡ false) × (r ≡ (ok (refused status), s)))
    ⊎ ((message : String) × (r ≡ (throws message, s)))

checked-cases {ℓ} :
    {S : Type 0} {A : Type ℓ} (c : Result Status) (refused : Status → A) (call : Method S A) (s : S)
    → ((c ≡ accept) × (checked c refused call s ≡ call s))
      ⊎ ((c ≢ accept) × Refused refused s (checked c refused call s))
checked-cases (ok success) refused call s = inl (refl, refl)
checked-cases (ok status) refused call s = inr ((λ e. cc), inl (status, refl, refl))
checked-cases (throws message) refused call s = inr ((λ e. cc), inr (message, refl))

module _ ⦃t : ObjectTypes⦄ (meta : Metadata) where
  module _ {S : Type 0} (impl : Implementation S) where
    -- A request to remove an object goes to the implementation exactly when its object type is one
    -- of those between the null type and the extensions and its object id is not null and of that
    -- type; any other is answered with an invalid parameter, and the implementation's state is kept.
    pub remove-gate :
        (o : IsOtai t) (object_type oid : ℕ) (s : S)
        → (Removable t meta object_type oid
            → remove meta impl object_type oid s ≡ impl.remove_object object_type oid s)
          × (¬ Removable t meta object_type oid → remove meta impl object_type oid s ≡ (reject, s))
    unfolding remove
    remove-gate o object_type oid s = (
      (λ good. rw (remove, remove_checks-accept meta o object_type oid good) refl),
      (λ bad. rw (remove, remove_checks-reject meta object_type oid bad) refl),
    )

    -- A request to create an object of another type than linecard: either it passes the checks of its
    -- id and of its attributes, has all that an accepted request has, and goes to the implementation
    -- as it is; or it does not pass them, and is answered with a status that is no success, or
    -- throws, with the caller's id and the implementation's state kept.
    pub create-gate :
        (object_type lc : ℕ) (object_id : Option ℕ) (l : List Attribute) (s : S)
        → object_type ≢ t.linecard
        → let checks =
            validate_oid meta object_type object_id true
            >>> validation_create meta object_type lc (items l) in
          let answer = create meta impl object_type object_id lc (items l) s in
          ((checks ≡ accept)
            × Accepted meta object_type lc l
            × (answer ≡ impl.create_object object_type lc l s))
          ⊎ ((checks ≢ accept) × Refused (λ status. (status, object_id)) s answer)
    unfolding create
    create-gate object_type lc object_id l s other =
        elim (checked-cases
          (validate_oid meta object_type object_id true
            >>> validation_create meta object_type lc (items l))
          (λ status. (status, object_id)) (impl.create_object object_type lc l) s) [
            | inr refused ↦ inr refused
            | inl (accepted, same) ↦ inl (
              accepted,
              validation_create-Accepted meta object_type lc l other
                  (>>>-accept (validate_oid meta object_type object_id true)
                    (validation_create meta object_type lc (items l)) accepted).1,
              same,
            )
          ]

    -- A request to set an attribute goes to the implementation only when the attribute is known
    -- for the object type, is not read-only, create-only or a key, has a value that passes its
    -- check, and the object is of that type; else it is answered with a status that is no success,
    -- or throws, and the implementation's state is kept.
    pub set-gate :
        (object_type oid : ℕ) (a : Attribute) (s : S)
        → (Settable meta object_type oid a
            × (set meta impl object_type oid (some a) s ≡ impl.set_attribute object_type oid a s))
          ⊎ Refused (λ status. status) s (set meta impl object_type oid (some a) s)
    unfolding set
    set-gate object_type oid a s =
        elim (checked-cases
          (validate_oid meta object_type (some oid) false
            >>> validation_set meta object_type oid (some a))
          (λ status. status) (impl.set_attribute object_type oid a) s) [
            | inr (bad, refused) ↦ inr refused
            | inl (accepted, same) ↦ inl (
              validation_set-Settable meta object_type oid a
                  (>>>-accept (validate_oid meta object_type (some oid) false)
                    (validation_set meta object_type oid (some a)) accepted).1,
              same,
            )
          ]

    -- A request to read attributes: its object id does not pass its checks, and the caller's list is
    -- left as it was; or the attributes do not pass theirs, and the list is as these checks leave it;
    -- or both pass, each attribute is known for the object type, is not set-only and has a list that
    -- passes its check, and the request goes to the implementation, with the list as the checks leave
    -- it. In the first two cases it is answered with a status that is no success, or throws, and the
    -- implementation's state is kept. Whatever the checks of the attributes return or throw, the list
    -- that they leave holds the ids of the request in their order.
    pub get-gate :
        (object_type oid : ℕ) (l : List Attribute) (s : S)
        → let validated = validate_oid meta object_type (some oid) false in
          let checks = validation_get meta object_type oid (items l) in
          let answer = get meta impl object_type oid (items l) s in
          (ids (attributes checks.1) ≡ ids l)
          × (((validated ≢ accept) × Refused (λ status. (status, items l)) s answer)
              ⊎ ((validated ≡ accept)
                  × (checks.0 ≢ accept)
                  × Refused (λ status. (status, checks.1)) s answer)
              ⊎ ((validated ≡ accept)
                  × (checks.0 ≡ accept)
                  × Readable meta object_type l
                  × (answer ≡ impl.get_attributes object_type oid (attributes checks.1) s)))
    unfolding get
    get-gate object_type oid l s =
        let validated = validate_oid meta object_type (some oid) false in
        let checks = validation_get meta object_type oid (items l) in
        let call = impl.get_attributes object_type oid (attributes checks.1) in
        let inner = checked checks.0 (λ status. (status, checks.1)) call in
        (
          validation_get-ids meta object_type oid l,
          (elim (checked-cases validated (λ status. (status, items l)) inner s) [
            | inr refused ↦ inl refused
            | inl (known, same) ↦
                elim (checked-cases checks.0 (λ status. (status, checks.1)) call s) [
                  | inr (bad, refused) ↦ inr (
                      inl (
                        known,
                        bad,
                        subst (λ z. Refused (λ status. (status, checks.1)) s z) (sym same) refused,
                      ))
                  | inl (accepted, passed) ↦ inr (
                      inr (
                        known,
                        accepted,
                        validation_get-accept meta object_type oid l accepted,
                        same ∙ passed,
                      ))
                ]
          ]),
        )
