-- ===== src/Meta/ObjList/Laws.antt =====
-- Which lists of ids `meta_generic_validation_objlist` accepts.
use sonic_otairedis.Common.{
  ℕ, suc, ◌≤◌, ◌≡◌, ◌≢◌, ◌↔◌, ◌⊎◌, inl, inr, refl, sym, subst, ◌∙◌, ◌<◌, true, false, arith, List,
  [], ◌∷◌, length,
}
use sonic_otairedis.Otai.{ObjectTypes}
use sonic_otairedis.Metadata.{items, AttrMeta, Metadata}
use sonic_otairedis.Meta.Checks.{max_list_count, accept, member}
use sonic_otairedis.Meta.ObjList.{
  Element, refuse, skip, take, element, objlist_loop, validation_objlist,
}

abbrev pub All : (ℕ → Type 0) → List ℕ → Type 0
All P [] = Unit {0}
All P (x ∷ xs) = P x × All P xs

abbrev pub Distinct : List ℕ → Type 0
Distinct [] = Unit {0}
Distinct (x ∷ xs) = (member x xs ≡ false) × Distinct xs

-- No element of the second list is in the first.
abbrev Avoids : List ℕ → List ℕ → Type 0
Avoids seen = All (λ x. member x seen ≡ false)

Avoids-nil : (xs : List ℕ) → Avoids [] xs
Avoids-nil [] = tt
Avoids-nil (x ∷ xs) = (refl, Avoids-nil xs)

Avoids-cons :
    (x : ℕ) (seen xs : List ℕ) → member x xs ≡ false → Avoids seen xs → Avoids (x ∷ seen) xs
Avoids-cons x seen [] h a = tt
Avoids-cons x seen (y ∷ xs) h a = (ground arith, Avoids-cons x seen xs (ground arith) a.1)

Avoids-uncons :
    (x : ℕ) (seen xs : List ℕ) → Avoids (x ∷ seen) xs → (member x xs ≡ false) × Avoids seen xs
Avoids-uncons x seen [] a = (refl, tt)
Avoids-uncons x seen (y ∷ xs) a =
    let ih = Avoids-uncons x seen xs a.1 in (ground arith, (ground arith, ih.1))

Element-cases : (e : Element) → (e ≡ refuse) ⊎ ((e ≡ skip) ⊎ ((ot : ℕ) × (e ≡ take ot)))
Element-cases refuse = inl refl
Element-cases skip = inr (inl refl)
Element-cases (take ot) = inr (inr (ot, refl))

module _ ⦃t : ObjectTypes⦄ (meta : Metadata) (md : AttrMeta) (linecard_id : ℕ) where
  open t use {null_object_id}
  open meta use {query_object_type, query_linecard_id}

  -- An id that is fit for the attribute, seen by itself.
  pub record Fits (oid : ℕ) : Type 0 where
    pub not_null : oid ≢ null_object_id
    pub typed : query_object_type oid ≢ null_object_id
    pub allowed : md.is_allowed_object_type (query_object_type oid) ≡ true
    pub same_linecard : query_linecard_id oid ≡ linecard_id

  abbrev pub HasType : ℕ → ℕ → Type 0
  HasType ot oid = query_object_type oid ≡ ot

  abbrev NotNull : ℕ → Type 0
  NotNull oid = oid ≢ null_object_id

  -- From the third element on.
  rest_accepts :
      (i : ℕ) (seen : List ℕ) (ot : ℕ) (xs : List ℕ)
      → All Fits xs
      → All (HasType ot) xs
      → Distinct xs
      → Avoids seen xs
      → objlist_loop meta md linecard_id (suc (suc i)) seen ot xs ≡ accept
  unfolding objlist_loop
  rest_accepts i seen ot [] f h d a = refl
  rest_accepts i seen ot (x ∷ xs) f h d a =
      let fit = f.0 in
      ground (
        arith,
        rest_accepts (suc i) (x ∷ seen) (query_object_type x) xs f.1,
        Avoids-cons x seen xs d.0 a.1,
      )

  abbrev Late : List ℕ → ℕ → List ℕ → Type 0
  Late seen ot xs = All Fits xs × All (HasType ot) xs × Distinct xs × Avoids seen xs

  -- What an accepted element says of it.
  element-take :
      (i : ℕ) (seen : List ℕ) (ot x ot' : ℕ)
      → element meta md linecard_id i seen ot x ≡ take ot'
      → Fits x
        × (query_object_type x ≡ ot')
        × (member x seen ≡ false)
        × (1 < i → query_object_type x ≡ ot)
  unfolding element
  element-take i seen ot x ot' h = ground arith

  element-skip :
      (i : ℕ) (seen : List ℕ) (ot x : ℕ)
      → element meta md linecard_id i seen ot x ≡ skip
      → x ≡ null_object_id
  unfolding element
  element-skip i seen ot x h = ground arith

  rest_sound :
      (i : ℕ) (seen : List ℕ) (ot : ℕ) (xs : List ℕ)
      → All NotNull xs
      → objlist_loop meta md linecard_id (suc (suc i)) seen ot xs ≡ accept
      → Late seen ot xs
  unfolding objlist_loop
  rest_sound i seen ot [] nn h = (tt, tt, tt, tt)
  rest_sound i seen ot (x ∷ xs) nn h =
      elim (Element-cases (element meta md linecard_id (suc (suc i)) seen ot x)) [
        | inl e ↦ cc (rw (e, objlist_loop) at h)
        | inr (inl e) ↦ absurd (nn.0 (element-skip (suc (suc i)) seen ot x e))
        | inr (inr (ot', e)) ↦
            let fact = element-take (suc (suc i)) seen ot x ot' e in
            let rest = rest_sound (suc i) (x ∷ seen) ot' xs nn.1 (rw (e, objlist_loop) at h) in
            let apart = Avoids-uncons x seen xs rest.3 in
            let same : ot' ≡ ot = sym fact.1 ∙ fact.3 (omega arith) in
            (
              (fact.0, rest.0),
              (fact.3 (omega arith), subst (λ z. All (HasType z) xs) same rest.1),
              (apart.0, rest.2),
              (fact.2, apart.1),
            )
      ]

  -- All elements after the second have the second one's type; the first one may have another.
  abbrev pub SameTypeButFirst : List ℕ → Type 0
  SameTypeButFirst (x ∷ y ∷ zs) = All (HasType (query_object_type y)) zs
  SameTypeButFirst _ = Unit {0}

  element-early :
      (i : ℕ) (seen : List ℕ) (ot x : ℕ)
      → i ≤ 1
      → Fits x
      → member x seen ≡ false
      → element meta md linecard_id i seen ot x ≡ take (query_object_type x)
  unfolding element
  element-early i seen ot x h f a = ground arith

  early_accepts :
      (i : ℕ) (seen : List ℕ) (ot x : ℕ) (xs : List ℕ)
      → i ≤ 1
      → Fits x
      → member x seen ≡ false
      → objlist_loop meta md linecard_id i seen ot (x ∷ xs)
        ≡ objlist_loop meta md linecard_id (suc i) (x ∷ seen) (query_object_type x) xs
  unfolding objlist_loop
  early_accepts i seen ot x xs h f a = rw (element-early i seen ot x h f a, objlist_loop)

  early_sound :
      (i : ℕ) (seen : List ℕ) (ot x : ℕ) (xs : List ℕ)
      → NotNull x
      → objlist_loop meta md linecard_id i seen ot (x ∷ xs) ≡ accept
      → Fits x
        × (member x seen ≡ false)
        × (objlist_loop meta md linecard_id (suc i) (x ∷ seen) (query_object_type x) xs ≡ accept)
  unfolding objlist_loop
  early_sound i seen ot x xs nn h = elim (Element-cases (element meta md linecard_id i seen ot x)) [
    | inl e ↦ cc (rw (e, objlist_loop) at h)
    | inr (inl e) ↦ absurd (nn (element-skip i seen ot x e))
    | inr (inr (ot', e)) ↦
        let fact = element-take i seen ot x ot' e in
        (fact.0, fact.2, rw fact.1 (rw (e, objlist_loop) at h))
  ]

  loop_accepts :
      (xs : List ℕ) (ot : ℕ)
      → All Fits xs
      → Distinct xs
      → SameTypeButFirst xs
      → objlist_loop meta md linecard_id 0 [] ot xs ≡ accept
  unfolding objlist_loop
  loop_accepts [] ot f d s = refl
  loop_accepts (x ∷ []) ot f d s = early_accepts 0 [] ot x [] (omega arith) f.0 refl
  loop_accepts (x ∷ y ∷ zs) ot f d s =
      let apart : Avoids (y ∷ x ∷ []) zs =
        Avoids-cons y (x ∷ []) zs d.1.0 (Avoids-cons x [] zs (ground arith) (Avoids-nil zs)) in
      early_accepts 0 [] ot x (y ∷ zs) (omega arith) f.0 refl
      ∙ early_accepts 1 (x ∷ []) (query_object_type x) y zs (omega arith) f.1.0 (ground arith)
      ∙ rest_accepts 0 (y ∷ x ∷ []) (query_object_type y) zs f.1.1 s d.1.1 apart

  loop_sound :
      (xs : List ℕ) (ot : ℕ)
      → All NotNull xs
      → objlist_loop meta md linecard_id 0 [] ot xs ≡ accept
      → All Fits xs × Distinct xs × SameTypeButFirst xs
  loop_sound [] ot nn h = (tt, tt, tt)
  loop_sound (x ∷ []) ot nn h = (((early_sound 0 [] ot x [] nn.0 h).0, tt), (refl, tt), tt)
  loop_sound (x ∷ y ∷ zs) ot nn h =
      let first = early_sound 0 [] ot x (y ∷ zs) nn.0 h in
      let second = early_sound 1 (x ∷ []) (query_object_type x) y zs nn.1.0 first.2 in
      let rest = rest_sound 0 (y ∷ x ∷ []) (query_object_type y) zs nn.1.1 second.2 in
      let apart = Avoids-uncons y (x ∷ []) zs rest.3 in
      let apart' = Avoids-uncons x [] zs apart.1 in
      let fresh : member x (y ∷ zs) ≡ false = ground (arith, second.1, apart'.0) in
      ((first.0, (second.0, rest.0)), (fresh, (apart.0, rest.2)), rest.1)

  -- A list of ids none of which is null is accepted exactly when it has at most 4096 ids, each id
  -- has a type that the attribute allows and is of the linecard, no id stands twice, and all have
  -- one type, but for the first, whose type is not compared.
  pub validation_objlist_iff :
      (xs : List ℕ)
      → All (λ oid. oid ≢ null_object_id) xs
      → (validation_objlist meta md linecard_id (items xs) ≡ accept)
        ↔ ((length xs ≤ max_list_count) × All Fits xs × Distinct xs × SameTypeButFirst xs)
  unfolding validation_objlist
  validation_objlist_iff xs nn = (
    λ h.
        let inner : objlist_loop meta md linecard_id 0 [] t.null_type xs ≡ accept = ground arith in
        let s = loop_sound xs t.null_type nn inner in (ground arith, s.0, s.1, s.2),
    λ h. ground (arith, loop_accepts xs t.null_type h.1 h.2 h.3),
  )

  -- Two different ids that fit the attribute and have different types are accepted as a list: the
  -- comparison of types starts at the third element.
  pub pair_accepted :
      (a b : ℕ)
      → a ≢ b
      → Fits a
      → Fits b
      → query_object_type a ≢ query_object_type b
      → validation_objlist meta md linecard_id (items (a ∷ b ∷ [])) ≡ accept
  pair_accepted a b ne f g differ =
      (validation_objlist_iff (a ∷ b ∷ []) (f.not_null, (g.not_null, tt))).1
        (omega arith, (f, (g, tt)), (ground arith, (refl, tt)), tt)
