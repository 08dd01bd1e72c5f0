-- ===== src/Translator/Attributes/One.antt =====
-- One attribute whose RIDs were translated to VIDs is translated back to what it was.
use sonic_otairedis.Common.{
  ℕ, ◌^◌, ◌<◌, ◌≡◌, refl, ap, subst, Bool, true, false, arith, List, [], ◌∷◌, ok, Method, after-ok,
}
use sonic_otairedis.Otai.{ObjectTypes, IsOtai}
use sonic_otairedis.Metadata.{
  ValueType, type_object_id, type_object_list, null_list, items, Attribute, AttrMeta,
}
use sonic_otairedis.Redis.VidMap.{VidMap, IsVidMap}
use sonic_otairedis.Translator.{
  Translator, translate_rid_to_vid, translate_rids, translate_vid_to_rid, translate_vids,
}
use sonic_otairedis.Translator.Coherence.{Coherent, translate_vid-Coherent}
use sonic_otairedis.Translator.Linked.{Linked}
use sonic_otairedis.Translator.RoundTrip.{
  Stands, AllStand, AllSmall, translate_vid-Stands, translate_vids-AllStand, translate_rid-Made,
  translate_rids-AllMade,
}
use sonic_otairedis.Translator.Attributes.{
  Ids, one_id, many_ids, no_ids, ids_by, ids_of, with_oid, with_objlist, translate_ids,
}

ids_by-with_oid :
    (ty : ValueType) (isoid : Bool) (a : Attribute) (oid vid : ℕ)
    → ids_by ty isoid a ≡ one_id oid
    → (ids_by ty isoid (with_oid a vid) ≡ one_id vid) × (a.value.oid ≡ oid)
ids_by-with_oid type_object_id isoid a oid vid h = (refl, ground arith)
ids_by-with_oid type_object_list isoid a oid vid h = cc
ids_by-with_oid _ isoid a oid vid h = cc

ids_by-with_objlist :
    (ty : ValueType) (isoid : Bool) (a : Attribute) (oids vids : List ℕ)
    → ids_by ty isoid a ≡ many_ids (items oids)
    → (ids_by ty isoid (with_objlist a vids) ≡ many_ids (items vids))
      × (a.value.objlist ≡ items oids)
ids_by-with_objlist type_object_id isoid a oids vids h = cc
ids_by-with_objlist type_object_list isoid a oids vids h = (refl, ground arith)
ids_by-with_objlist _ isoid a oids vids h = cc

module _ ⦃t : ObjectTypes⦄ (m : VidMap) (law : IsVidMap t.null_object_id m) (o : IsOtai t)
    (vendor_type : ℕ → ℕ) (lc : ℕ) where
  -- The list of VIDs leaves the database alone, and keeps the maps coherent.
  translate_vids-Coherent :
      (vids : List ℕ) (s : Translator m) → Coherent m s → Coherent m (translate_vids m vids s).1
  unfolding translate_vids
  translate_vids-Coherent [] s c = c
  translate_vids-Coherent (vid ∷ vids) s c =
      let one = translate_vid-Coherent m law vid s c in
      let rest = translate_vids-Coherent vids (translate_vid_to_rid m vid s).1 one in ground arith

  translate_vid_db : (vid : ℕ) (s : Translator m) → (translate_vid_to_rid m vid s).1.db ≡ s.db
  unfolding translate_vid_to_rid
  translate_vid_db vid s = ground arith

  translate_vids_db : (vids : List ℕ) (s : Translator m) → (translate_vids m vids s).1.db ≡ s.db
  unfolding translate_vids
  translate_vids_db [] s = refl
  translate_vids_db (vid ∷ vids) s =
      let one = translate_vid_db vid s in
      let rest = translate_vids_db vids (translate_vid_to_rid m vid s).1 in ground arith

  abbrev pub SmallIds : Ids → Type 0
  SmallIds (one_id oid) = oid < 2 ^ 64
  SmallIds (many_ids (items oids)) = AllSmall m law o vendor_type lc oids
  SmallIds _ = Unit {0}

  -- What a translated attribute is, by the ids that it held.
  abbrev pub IdsStand : m.Db → Attribute → Attribute → Ids → Type 0
  IdsStand db a b (one_id oid) = (vid : ℕ) × (b ≡ with_oid a vid) × Stands m law db oid vid
  IdsStand db a b (many_ids (items oids)) =
      (vids : List ℕ) × (b ≡ with_objlist a vids) × AllStand m law o vendor_type lc db oids vids
  IdsStand db a b (many_ids (null_list n)) = (b ≡ a) × (n ≡ 0)
  IdsStand db a b (no_ids isoid) = (b ≡ a) × (isoid ≡ false)

  -- A later state keeps what is stored.
  pub record Later (s s' : Translator m) : Type 0 where
    pub coherent : Coherent m s'
    pub linked : Linked m s'.db
    pub kept : (r v : ℕ) → Stands m law s.db r v → Stands m law s'.db r v

  all_kept :
      (s s' : Translator m) (oids vids : List ℕ)
      → Later s s'
      → AllStand m law o vendor_type lc s.db oids vids
      → AllStand m law o vendor_type lc s'.db oids vids
  all_kept s s' [] [] l a = tt
  all_kept s s' [] (v ∷ vids) l a = absurd a
  all_kept s s' (r ∷ oids) [] l a = absurd a
  all_kept s s' (r ∷ oids) (v ∷ vids) l a = (l.kept r v a.0, all_kept s s' oids vids l a.1)

  pub IdsStand-kept :
      (s s' : Translator m) (a b : Attribute) (i : Ids)
      → Later s s'
      → IdsStand s.db a b i
      → IdsStand s'.db a b i
  IdsStand-kept s s' a b (one_id oid) l (vid, e, p) = (vid, e, l.kept oid vid p)
  IdsStand-kept s s' a b (many_ids (items oids)) l (vids, e, p) =
      (vids, e, all_kept s s' oids vids l p)
  IdsStand-kept s s' a b (many_ids (null_list n)) l p = p
  IdsStand-kept s s' a b (no_ids isoid) l p = p

  -- The translations that the attributes are given.
  abbrev pub to_vid : ℕ → Method (Translator m) ℕ
  to_vid rid = translate_rid_to_vid m vendor_type rid lc false

  abbrev pub to_vids : List ℕ → Method (Translator m) (List ℕ)
  to_vids rids = translate_rids m vendor_type rids lc false

  pub ids_forth :
      (a : Attribute) (i : Ids) (s : Translator m) (b : Attribute) (s' : Translator m)
      → SmallIds i
      → Coherent m s
      → Linked m s.db
      → translate_ids to_vid to_vids a i s ≡ (ok b, s')
      → Later s s' × IdsStand s'.db a b i
  unfolding translate_ids
  ids_forth a (one_id oid) s b s' small c l h =
      let one = translate_rid_to_vid m vendor_type oid lc false s in
      let first = after-ok _ one.0 one.1 b s' h in
      let made =
        translate_rid-Made m law o vendor_type lc oid s first.0 one.1 small c l
          (λ i. (first.1 i, one.1)) in
      let last : one.1 ≡ s' = ap (λ z. z.1) first.2 in
      let wrote : b ≡ with_oid a first.0 = ground arith in
      subst (λ u. Later s u × IdsStand u.db a b (one_id oid)) last
        (
          record { coherent = made.coherent; linked = made.linked; kept = made.kept },
          (first.0, wrote, made.stands),
        )
  ids_forth a (many_ids (items oids)) s b s' small c l h =
      let all = translate_rids m vendor_type oids lc false s in
      let first = after-ok _ all.0 all.1 b s' h in
      let made =
        translate_rids-AllMade m law o vendor_type lc oids s first.0 all.1 small c l
          (λ i. (first.1 i, all.1)) in
      let last : all.1 ≡ s' = ap (λ z. z.1) first.2 in
      let wrote : b ≡ with_objlist a first.0 = ground arith in
      subst (λ u. Later s u × IdsStand u.db a b (many_ids (items oids))) last
        (
          record { coherent = made.coherent; linked = made.linked; kept = made.kept },
          (first.0, wrote, made.stand),
        )
  ids_forth a (many_ids (null_list n)) s b s' small c l h =
      let last : s ≡ s' = ground arith in
      subst (λ u. Later s u × IdsStand u.db a b (many_ids (null_list n))) last
        (record { coherent = c; linked = l; kept = λ r v p. p }, (ground arith, ground arith))
  ids_forth a (no_ids true) s b s' small c l h = cc
  ids_forth a (no_ids false) s b s' small c l h =
      let last : s ≡ s' = ground arith in
      subst (λ u. Later s u × IdsStand u.db a b (no_ids false)) last
        (record { coherent = c; linked = l; kept = λ r v p. p }, (ground arith, refl))

  -- The way back of one attribute: what it was, with the database as it is and coherent maps.
  pub record Returned (s : Translator m) (a b : Attribute) (i : Ids) : Type 0 where
    pub result : (translate_ids (translate_vid_to_rid m) (translate_vids m) b i s).0 ≡ ok a
    pub same_db : (translate_ids (translate_vid_to_rid m) (translate_vids m) b i s).1.db ≡ s.db
    pub still : Coherent m (translate_ids (translate_vid_to_rid m) (translate_vids m) b i s).1

  with_oid_back :
      (a : Attribute) (vid oid : ℕ) → a.value.oid ≡ oid → with_oid (with_oid a vid) oid ≡ a
  with_oid_back a vid oid h = subst (λ z. with_oid a z ≡ a) h refl

  with_objlist_back :
      (a : Attribute) (vids oids : List ℕ)
      → a.value.objlist ≡ items oids
      → with_objlist (with_objlist a vids) oids ≡ a
  with_objlist_back a vids oids h =
      subst (λ z. record a { value = record a.value { objlist = z } } ≡ a) h refl

  oid-Returned :
      (s : Translator m) (a : Attribute) (oid vid : ℕ)
      → a.value.oid ≡ oid
      → Coherent m s
      → Linked m s.db
      → Stands m law s.db oid vid
      → Returned s a (with_oid a vid) (one_id vid)
  unfolding translate_ids
  oid-Returned s a oid vid h c l p =
      let one = translate_vid-Stands m law s oid vid c l p in
      record {
        result = rw one.0 (ap ok (with_oid_back a vid oid h));
        same_db = rw one.0 one.1;
        still = rw one.0 (translate_vid-Coherent m law vid s c);
      }

  objlist-Returned :
      (s : Translator m) (a : Attribute) (oids vids : List ℕ)
      → a.value.objlist ≡ items oids
      → Coherent m s
      → Linked m s.db
      → AllStand m law o vendor_type lc s.db oids vids
      → Returned s a (with_objlist a vids) (many_ids (items vids))
  unfolding translate_ids
  objlist-Returned s a oids vids h c l p =
      let all = translate_vids-AllStand m law o vendor_type lc oids vids s c l p in
      record {
        result = rw all (ap ok (with_objlist_back a vids oids h));
        same_db = rw all (translate_vids_db vids s);
        still = rw all (translate_vids-Coherent vids s c);
      }

  pub ids_back :
      (md : AttrMeta) (s : Translator m) (a b : Attribute) (i : Ids)
      → ids_of md a ≡ i
      → Coherent m s
      → Linked m s.db
      → IdsStand s.db a b i
      → Returned s a b (ids_of md b)
  unfolding translate_ids
  ids_back md s a b (one_id oid) e c l (vid, w, p) =
      let same = ids_by-with_oid md.attrvaluetype md.isoidattribute a oid vid e in
      rw (w, same.0) (oid-Returned s a oid vid same.1 c l p)
  ids_back md s a b (many_ids (items oids)) e c l (vids, w, p) =
      let same = ids_by-with_objlist md.attrvaluetype md.isoidattribute a oids vids e in
      rw (w, same.0) (objlist-Returned s a oids vids same.1 c l p)
  ids_back md s a b (many_ids (null_list n)) e c l (w, z) =
      rw (w, e) (record { result = ground arith; same_db = ground arith; still = ground arith })
  ids_back md s a b (no_ids isoid) e c l (w, z) =
      rw (w, e, z) (record { result = refl; same_db = refl; still = c })
