-- ===== src/Common/Control.antt =====
-- `SWSS_LOG_THROW` as a value, and methods that change an object and may throw: what was written
-- before the throw stays written, so the state comes back in both cases.
use Prim.Native.String.{String}
use mathlib.Core.Path.{◌≡◌, refl}
use mathlib.Core.Logic.{◌⊎◌, inl, inr}

-- The text is the start of the message that the source throws.
pub data Result {ℓ} (A : Type ℓ) : Type ℓ where
  ok : A → Result A
  throws : String → Result A

pub Result-cases {ℓ} :
    {A : Type ℓ} (r : Result A)
    → ((message : String) × (r ≡ throws message)) ⊎ ((a : A) × (r ≡ ok a))
Result-cases (ok a) = inr (a, refl)
Result-cases (throws message) = inl (message, refl)

abbrev pub Method {ℓ κ} : Type ℓ → Type κ → Type (ℓ ⊔ κ)
Method S A = S → Result A × S

-- The method returned, and did not throw.
abbrev pub Returns {ℓ κ} : {S : Type ℓ} {A : Type κ} → Result A × S → Type (ℓ ⊔ κ)
Returns {S = S} {A = A} r = (a : A) × (s : S) × (r ≡ (ok a, s))

module _ {ℓ κ} {S : Type ℓ} {A B : Type κ} where
  abbrev pub after : (A → Method S B) → Result A → Method S B
  after f (ok a) s = f a s
  after f (throws message) s = (throws message, s)

  -- A chain that returns: its first part did, and the rest on what that left.
  pub after-ok :
      (f : A → Method S B) (r : Result A) (s : S) (b : B) (s' : S)
      → after f r s ≡ (ok b, s')
      → (a : A) × (r ≡ ok a) × (f a s ≡ (ok b, s'))
  after-ok f (ok a) s b s' h = (a, refl, h)
  after-ok f (throws message) s b s' h = cc

  -- A chain whose parts return.
  pub after-Returns :
      (f : A → Method S B) (r : Result A) (s : S)
      → Returns (r, s)
      → ((a : A) (s' : S) → r ≡ ok a → s ≡ s' → Returns (f a s'))
      → Returns (after f r s)
  after-Returns f (ok a) s first rest = rest a s refl refl
  after-Returns f (throws message) s (a, s', h) rest = absurd cc

  -- What the parts of a chain keep, the chain keeps, also when it throws.
  pub after-state :
      {P : S → Type 0} (f : A → Method S B) (r : Result A) (s : S)
      → P s
      → ((a : A) (s' : S) → P s' → P (f a s').1)
      → P (after f r s).1
  after-state f (ok a) s p rest = rest a s p
  after-state f (throws message) s p rest = p
