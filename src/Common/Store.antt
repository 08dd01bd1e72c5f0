-- ===== src/Common/Store.antt =====
-- `std::map` and `std::unordered_map` with numbers for keys, by what `find` returns.
use Prim.Native.Nat.{ℕ}
use mathlib.Core.Option.{Option, none, some}
use sonic_otairedis.Common.Tests.{◌==◌, if◌then◌else◌}

abbrev pub NatMap {ℓ} : Type ℓ → Type ℓ
NatMap V = ℕ → Option V

module _ {ℓ} {V : Type ℓ} where
  abbrev pub no_entries : NatMap V
  no_entries k = none

  -- m[k] = v
  abbrev pub put : NatMap V → ℕ → V → NatMap V
  put m k v j = if k == j then some v else m j

  -- m.erase(k)
  abbrev pub erase : NatMap V → ℕ → NatMap V
  erase m k j = if k == j then none else m j
