-- ===== src/Reinit/Objects/Recreated.antt =====
-- What `processOids` has done when it returns: every object that it translated was created on the
-- hardware, with its attributes under their new ids.
pub mod Step
pub mod Whole
use sonic_otairedis.Common.{
  ℕ, zero, suc, ◌+◌, ◌≤◌, ◌<◌, ◌≡◌, ◌≢◌, ◌⊎◌, inl, inr, refl, subst, sym, ◌∙◌, arith, true, false,
  List, [], ◌∷◌, Option, none, some, Result, ok, Method, after, after-ok, ◌==◌, ==_eq, ==_ne,
  ==_refl, Bool-cases, Option-cases, Result-cases, if◌then◌else◌,
}
use sonic_otairedis.Common.Assoc.{find, insert, find-insert}
use sonic_otairedis.Otai.{ObjectTypes, Status, success, is_success}
use sonic_otairedis.Metadata.{Attribute, Metadata}
use sonic_otairedis.Serialize.ObjectId.{Text, otai_serialize_object_id, otai_deserialize_object_id}
use sonic_otairedis.Serialize.Texts.{same_text}
use sonic_otairedis.Oid.VidManager
use sonic_otairedis.Requests.{Vendor}
use sonic_otairedis.Reinit.{ObjectIdMap, StringHash, AsicState}
use sonic_otairedis.Reinit.Objects.{
  Reiniter, attrs_for_create, process_attributes_for_oids, save_object, create_object,
  process_object, process_single_vid, process_each, process_oids,
}
use sonic_otairedis.Reinit.Objects.Renamed.{Extends, renamed_id, renamed, renamed-Extends}
use sonic_otairedis.Reinit.Objects.Renamed.Loops.{OfAttributes, process_attributes_for_oids-R}

-- The states of the hardware that calls of `create` for a linecard lead to.
pub data Creates {V : Type 0} (vendor : Vendor V) (linecard_rid : ℕ) : V → V → Type 0 where
  done : {v : V} → Creates vendor linecard_rid v v
  create_then :
      {v v' : V} (object_type : ℕ) (attrs : List Attribute)
      → Creates vendor linecard_rid (vendor.create object_type linecard_rid attrs v).1 v'
      → Creates vendor linecard_rid v v'

module _ {V : Type 0} (vendor : Vendor V) (linecard_rid : ℕ) where
  pub Creates_trans :
      {a b c : V}
      → Creates vendor linecard_rid a b
      → Creates vendor linecard_rid b c
      → Creates vendor linecard_rid a c
  Creates_trans Creates.done k = k
  Creates_trans (Creates.create_then object_type attrs h) k =
      Creates.create_then object_type attrs (Creates_trans h k)

module _ ⦃t : ObjectTypes⦄ (asic : AsicState) where
  -- An attribute list of the ASIC_STATE, for the object of a VID.
  pub record Listed (vid : ℕ) : Type 0 where
    pub object_type : ℕ
    pub asic_key : Text
    pub attrs : List Attribute
    pub typed : VidManager.object_type_query vid ≡ ok object_type
    pub named : find same_text (otai_serialize_object_id vid) asic.oids ≡ some asic_key
    pub kept : find same_text asic_key asic.attributes_lists ≡ some attrs

module _ ⦃t : ObjectTypes⦄ (meta : Metadata) (asic : AsicState) where
  open t use {null_object_id}

  -- The references of the objects form no circle: an object has a rank above those it refers to.
  abbrev pub Below : (ℕ → ℕ) → ℕ → ℕ → Type 0
  Below rank bound vid = (vid ≡ null_object_id) ⊎ (rank vid < bound)

  abbrev pub Ranked : (ℕ → ℕ) → Type 0
  Ranked rank =
      (vid : ℕ) (l : Listed asic vid)
      → OfAttributes meta (Below rank (rank vid)) l.object_type l.attrs

module _ ⦃t : ObjectTypes⦄ (meta : Metadata) {V : Type 0} (vendor : Vendor V)
    (asic : AsicState) where
  -- Between two states of the hardware, the object was created: with those of its attributes that
  -- a creation needs, under the ids that the map gives, and `rid` was the answer.
  pub record Recreated (linecard_rid : ℕ) (m : ObjectIdMap) (from to : V) (vid rid : ℕ)
      : Type 0 where
    pub listed : Listed asic vid
    pub attrs : List Attribute
    pub before : V
    pub attrs_renamed : renamed meta listed.object_type m listed.attrs ≡ some attrs
    pub reached : Creates vendor linecard_rid from before
    pub answered :
        (vendor.create listed.object_type linecard_rid
          (attrs_for_create meta listed.object_type attrs)
          before).0
        ≡ (success, rid)
    pub rest :
        Creates vendor linecard_rid
          (vendor.create listed.object_type linecard_rid
            (attrs_for_create meta listed.object_type attrs)
            before).1
          to

  -- Of every VID that was not translated in `start`.
  abbrev pub AllRecreated : Reiniter V → Reiniter V → Type 0
  AllRecreated start s =
      (vid rid : ℕ)
      → find ◌==◌ vid s.translated_v2r ≡ some rid
      → (find ◌==◌ vid start.translated_v2r ≡ some rid)
        ⊎ Recreated start.linecard_rid s.translated_v2r start.hardware s.hardware vid rid

  -- What a step below a rank does.
  pub record Grows (rank : ℕ → ℕ) (bound : ℕ) (start a b : Reiniter V) : Type 0 where
    pub extends : Extends a.translated_v2r b.translated_v2r
    pub above :
        (vid : ℕ)
        → bound ≤ rank vid
        → find ◌==◌ vid b.translated_v2r ≡ find ◌==◌ vid a.translated_v2r
    pub same_linecard : b.linecard_rid ≡ a.linecard_rid
    pub creates : Creates vendor a.linecard_rid a.hardware b.hardware
    pub recreated :
        a.linecard_rid ≡ start.linecard_rid
        → Creates vendor start.linecard_rid start.hardware a.hardware
        → AllRecreated start a
        → AllRecreated start b

  pub Grows-refl : (rank : ℕ → ℕ) (bound : ℕ) (start s : Reiniter V) → Grows rank bound start s s
  Grows-refl rank bound start s = record {
    extends = λ vid rid h. h;
    above = λ vid h. refl;
    same_linecard = refl;
    creates = Creates.done;
    recreated = λ l c h. h;
  }

  pub Grows-trans :
      (rank : ℕ → ℕ) (bound : ℕ) (start a b c : Reiniter V)
      → Grows rank bound start a b
      → Grows rank bound start b c
      → Grows rank bound start a c
  Grows-trans rank bound start a b c g h =
      let later : Creates vendor a.linecard_rid b.hardware c.hardware =
        subst (λ lc. Creates vendor lc b.hardware c.hardware) g.same_linecard h.creates in
      record {
        extends = λ vid rid k. h.extends vid rid (g.extends vid rid k);
        above = λ vid k. h.above vid k ∙ g.above vid k;
        same_linecard = h.same_linecard ∙ g.same_linecard;
        creates = Creates_trans vendor a.linecard_rid g.creates later;
        recreated = λ l k r.
            h.recreated (g.same_linecard ∙ l)
              (Creates_trans vendor start.linecard_rid k
                (subst (λ lc. Creates vendor lc a.hardware b.hardware) l g.creates))
              (g.recreated l k r);
      }

  pub Grows-weaken :
      (rank : ℕ → ℕ) (low high : ℕ) (start a b : Reiniter V)
      → low ≤ high
      → Grows rank low start a b
      → Grows rank high start a b
  Grows-weaken rank low high start a b le g = record {
    extends = g.extends;
    above = λ vid h. g.above vid (omega arith);
    same_linecard = g.same_linecard;
    creates = g.creates;
    recreated = g.recreated;
  }
