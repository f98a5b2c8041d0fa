-- ===== src/Base/Maps.antt =====
-- Go maps as association lists: `get` is `v, ok := m[k]`, `put` is `m[k] = v`, `delete` is
-- `delete(m, k)`. The order of the list stands for one order of a `range` over the map.
use Prim.Native.Nat.{suc}
use mathlib.Core.Path.{◌≡◌, refl}
use mathlib.Core.List.{List, [], ◌∷◌}
use mathlib.Core.Option.{Option, none, some}
use native.Mathlib.Omega.{arith}
use blockchain_sybil_attack.Base.Tests.{if◌then◌else◌, is_some}
use blockchain_sybil_attack.Base.Lists.{length}
use blockchain_sybil_attack.Base.Equality.{Eq, ◌==◌, ==_iff}

abbrev pub Map {ℓ κ} : Type ℓ → Type κ → Type (ℓ ⊔ κ)
Map K V = List (K × V)

module _ {ℓ κ} {K : Type ℓ} {V : Type κ} ⦃e : Eq K⦄ where
  unfoldable pub get : Map K V → K → Option V
  get [] k = none
  get ((j, v) ∷ m) k = if j == k then some v else get m k

  unfoldable pub put : Map K V → K → V → Map K V
  put [] k v = (k, v) ∷ []
  put ((j, w) ∷ m) k v = if j == k then (k, v) ∷ m else (j, w) ∷ put m k v

  unfoldable pub delete : Map K V → K → Map K V
  delete [] k = []
  delete ((j, w) ∷ m) k = let rest = delete m k in if j == k then rest else (j, w) ∷ rest

  pub get-put :
      (m : Map K V) (k j : K) (v : V) → get (put m k v) j ≡ (if k == j then some v else get m j)
  unfolding get put
  get-put [] k j v = refl
  get-put ((i, w) ∷ m) k j v = ground (arith, ==_iff k j, ==_iff i k, ==_iff i j, get-put m k j v)

  pub get-put_self : (m : Map K V) (k : K) (v : V) → get (put m k v) k ≡ some v
  get-put_self m k v = ground (arith, get-put m k k v, ==_iff k k)

  pub get-delete : (m : Map K V) (k j : K) → get (delete m k) j ≡ (if k == j then none else get m j)
  unfolding get delete
  get-delete [] k j = ground arith
  get-delete ((i, w) ∷ m) k j = ground (arith, ==_iff k j, ==_iff i k, ==_iff i j, get-delete m k j)

  -- A write adds an entry exactly when the key is new.
  pub length-put :
      (m : Map K V) (k : K) (v : V)
      → length (put m k v) ≡ (if is_some (get m k) then length m else suc (length m))
  unfolding get put
  length-put [] k v = refl
  length-put ((i, w) ∷ m) k v = ground (arith, length-put m k v)
