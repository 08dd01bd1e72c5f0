-- ===== src/Meta/Create/Conditions.antt =====
-- When a condition on another attribute holds, said without the code, and that the loop over the
-- conditions of `meta_generic_validation_create` finds it.
use sonic_otairedis.Common.{
  ℕ, ◌≡◌, ◌≢◌, ◌⊎◌, ◌↔◌, inl, inr, refl, sym, subst, ◌∙◌, arith, Bool, true, false, List, [], ◌∷◌,
  none, some, ok, ◌==◌, ==_eq, Bool-cases, Option-cases, ap,
}
use sonic_otairedis.Common.Int.{ℤ, pos, negsuc, eqb_ℤ}
use sonic_otairedis.Otai.{ObjectTypes}
use sonic_otairedis.Metadata.{ValueType, type_bool, Value, Attribute, Condition, AttrMeta, Metadata}
use sonic_otairedis.Meta.Checks.{member}
use sonic_otairedis.Meta.Create.{
  ids, attr_by_id, is_bool, same_bool, condition_value, any_condition,
}

-- The value that the condition wants: a truth value, or else a number.
abbrev pub Matches : Condition → AttrMeta → Value → Type 0
Matches c cmd v =
    ((cmd.attrvaluetype ≡ type_bool) × (v.booldata ≡ c.booldata))
    ⊎ ((cmd.attrvaluetype ≢ type_bool) × (v.s32 ≡ c.s32))

-- The first attribute that was passed with the id.
abbrev pub First : ℕ → Attribute → List Attribute → Type 0
First id a [] = ⊥
First id a (b ∷ l) = ((b.id ≡ id) × (a ≡ b)) ⊎ ((b.id ≢ id) × First id a l)

abbrev pub Missing : ℕ → List Attribute → Type 0
Missing id [] = Unit
Missing id (b ∷ l) = (b.id ≢ id) × Missing id l

-- The value that was passed for an attribute, or else its default one.
abbrev pub Given : List Attribute → AttrMeta → ℕ → Value → Type 0
Given l cmd id v =
    ((a : Attribute) × First id a l × (v ≡ a.value)) ⊎ (Missing id l × (v ≡ cmd.defaultvalue))

-- An attribute was passed, or it was not.
pub member-Missing :
    (id : ℕ) (l : List Attribute)
    → ((member id (ids l) ≡ true) × ¬ Missing id l) ⊎ ((member id (ids l) ≡ false) × Missing id l)
member-Missing id [] = inr (refl, tt)
member-Missing id (b ∷ l) = elim (Bool-cases (b.id == id)) [
  | inl e ↦ rw e (inl (refl, λ m. m.0 (==_eq b.id id e)))
  | inr e ↦ rw e (elim (member-Missing id l) [
    | inl (there, known) ↦ inl (there, λ m. known m.1)
    | inr (none_there, m) ↦ inr (none_there, ((λ same. ground arith), m))
  ])
]

eqb_ℤ-eq : (a b : ℤ) → eqb_ℤ a b ≡ true → a ≡ b
eqb_ℤ-eq (pos m) (pos n) h = ap pos (ground arith)
eqb_ℤ-eq (pos m) (negsuc n) h = absurd (ground arith)
eqb_ℤ-eq (negsuc m) (pos n) h = absurd (ground arith)
eqb_ℤ-eq (negsuc m) (negsuc n) h = ap negsuc (ground arith)

eqb_ℤ_refl : (a : ℤ) → eqb_ℤ a a ≡ true
eqb_ℤ_refl (pos m) = ground arith
eqb_ℤ_refl (negsuc m) = ground arith

same_bool-eq : (a b : Bool) → same_bool a b ≡ true → b ≡ a
unfolding same_bool
same_bool-eq true b h = h
same_bool-eq false true h = cc
same_bool-eq false false h = refl

same_bool_refl : (a : Bool) → same_bool a a ≡ true
unfolding same_bool
same_bool_refl true = refl
same_bool_refl false = refl

is_bool-cases :
    (ty : ValueType)
    → ((ty ≡ type_bool) × (is_bool ty ≡ true)) ⊎ ((ty ≢ type_bool) × (is_bool ty ≡ false))
is_bool-cases type_bool = inl (refl, refl)
is_bool-cases _ = inr ((λ e. cc), refl)

condition_value-Matches :
    (c : Condition) (cmd : AttrMeta) (v : Value) → condition_value c cmd v ≡ true ↔ Matches c cmd v
unfolding condition_value
condition_value-Matches c cmd v = elim (is_bool-cases cmd.attrvaluetype) [
  | inl (ty, e) ↦ rw e (
    (λ h. inl (ty, same_bool-eq c.booldata v.booldata h)),
    (λ m. elim m [
      | inl (_, same) ↦ rw same (same_bool_refl c.booldata)
      | inr (other, _) ↦ absurd (other ty)
    ]),
  )
  | inr (ty, e) ↦ rw e (
    (λ h. inr (ty, sym (eqb_ℤ-eq c.s32 v.s32 h))),
    (λ m. elim m [ inl (bool, _) ↦ absurd (ty bool) | inr (_, same) ↦ rw same (eqb_ℤ_refl c.s32) ]),
  )
]

-- The lookup of the code finds the first one.
attr_by_id-Given :
    (l : List Attribute) (cmd : AttrMeta) (id : ℕ)
    → Given l cmd id (elim (attr_by_id id l) [ none ↦ cmd.defaultvalue | some a ↦ a.value ])
attr_by_id-Given [] cmd id = inr (tt, refl)
attr_by_id-Given (b ∷ l) cmd id = elim (Bool-cases (b.id == id)) [
  | inl e ↦ rw e (inl (b, inl (==_eq b.id id e, refl), refl))
  | inr e ↦ rw e (elim (attr_by_id-Given l cmd id) [
    | inl (a, first, v) ↦ inl (a, inr ((λ same. ground arith), first), v)
    | inr (missing, v) ↦ inr (((λ same. ground arith), missing), v)
  ])
]

-- There is one such value.
First-unique : (l : List Attribute) (id : ℕ) (a b : Attribute) → First id a l → First id b l → a ≡ b
First-unique [] id a b f g = absurd f
First-unique (x ∷ l) id a b (inl (_, p)) (inl (_, q)) = p ∙ sym q
First-unique (x ∷ l) id a b (inl (p, _)) (inr (q, _)) = absurd (q p)
First-unique (x ∷ l) id a b (inr (p, _)) (inl (q, _)) = absurd (p q)
First-unique (x ∷ l) id a b (inr (_, f)) (inr (_, g)) = First-unique l id a b f g

First-Missing : (l : List Attribute) (id : ℕ) (a : Attribute) → First id a l → ¬ Missing id l
First-Missing [] id a f m = f
First-Missing (x ∷ l) id a (inl (p, _)) m = m.0 p
First-Missing (x ∷ l) id a (inr (_, f)) m = First-Missing l id a f m.1

Given-unique :
    (l : List Attribute) (cmd : AttrMeta) (id : ℕ) (v w : Value)
    → Given l cmd id v
    → Given l cmd id w
    → v ≡ w
Given-unique l cmd id v w (inl (a, f, p)) (inl (b, g, q)) =
    p ∙ ap (λ (z : Attribute). z.value) (First-unique l id a b f g) ∙ sym q
Given-unique l cmd id v w (inl (a, f, p)) (inr (m, q)) = absurd (First-Missing l id a f m)
Given-unique l cmd id v w (inr (m, p)) (inl (a, f, q)) = absurd (First-Missing l id a f m)
Given-unique l cmd id v w (inr (m, p)) (inr (m', q)) = p ∙ sym q

module _ (meta : Metadata) where
  -- The attribute of the condition is known, and what is given for it is the value wanted.
  abbrev pub Holds : ℕ → List Attribute → Condition → Type 0
  Holds object_type l c =
      (cmd : AttrMeta) × (v : Value) × (meta.get_attr_metadata object_type c.attrid ≡ some cmd)
      × Given l cmd c.attrid v
      × Matches c cmd v

  abbrev pub AnyHolds : ℕ → List Attribute → List Condition → Type 0
  AnyHolds object_type l [] = ⊥
  AnyHolds object_type l (c ∷ rest) = Holds object_type l c ⊎ AnyHolds object_type l rest

module _ ⦃t : ObjectTypes⦄ (meta : Metadata) where
  pub any_condition-AnyHolds :
      (object_type : ℕ) (l : List Attribute) (cs : List Condition) (found : Bool)
      → any_condition meta object_type l cs ≡ ok found
      → ((found ≡ true) × AnyHolds meta object_type l cs)
        ⊎ ((found ≡ false) × ¬ AnyHolds meta object_type l cs)
  unfolding any_condition
  any_condition-AnyHolds object_type l [] found h = inr (cc, λ no. no)
  any_condition-AnyHolds object_type l (c ∷ rest) found h =
      elim (Option-cases (meta.get_attr_metadata object_type c.attrid)) [
        | inl e ↦ cc (rw (e, any_condition) at h)
        | inr (cmd, e) ↦
            let v : Value = elim (attr_by_id c.attrid l) [
              | none ↦ cmd.defaultvalue
              | some a ↦ a.value
            ] in
            let given : Given l cmd c.attrid v = attr_by_id-Given l cmd c.attrid in
            let run = rw (e, any_condition) at h in
            let refuted : condition_value c cmd v ≡ false → ¬ Holds meta object_type l c =
              λ fails (cmd', w, e', given', matches).
                let same : some cmd' ≡ some cmd = sym e' ∙ e in
                let same' : cmd' ≡ cmd = cc in
                let given'' : Given l cmd c.attrid w =
                  subst (λ z. Given l z c.attrid w) same' given' in
                let matches' : Matches c cmd v =
                  subst (λ z. Matches c cmd z) (Given-unique l cmd c.attrid w v given'' given)
                    (subst (λ z. Matches c z w) same' matches) in
                let true_too = (condition_value-Matches c cmd v).1 matches' in cc in
            elim (Bool-cases (condition_value c cmd v)) [
              | inl it_does ↦ inl (
                (ground arith),
                inl (cmd, v, e, given, (condition_value-Matches c cmd v).0 it_does),
              )
              | inr not_this ↦
                  elim (any_condition-AnyHolds object_type l rest found (ground arith)) [
                    | inl (t, some_holds) ↦ inl (t, inr some_holds)
                    | inr (f, none_holds) ↦ inr (
                      f,
                      λ any. elim any [
                        | inr later ↦ none_holds later
                        | inl other ↦ refuted not_this other
                      ],
                    )
                  ]
            ]
      ]
