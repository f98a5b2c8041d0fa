-- ===== src/Base/Outcomes.antt =====
-- Run-time panics as values. A handler that panics has no result. `fatal` is `log.Fatal`. `out_of_fuel` is no panic of the
-- program: it says that a loop was given too few rounds.
use mathlib.Core.Path.{◌≡◌, refl}
use mathlib.Core.Logic.{◌⊎◌, inl, inr}
use mathlib.Core.Option.{Option, none, some}

pub data Panic : Type 0 where
  nil_dereference nil_map_write index_out_of_range bad_integrity bad_hex divide_by_zero
        length_out_of_range fatal out_of_fuel :
      Panic

pub data Outcome {ℓ} (A : Type ℓ) : Type ℓ where
  ok : A → Outcome A
  panic : Panic → Outcome A

infixl 5 ◌>>=◌
abbrev pub ◌>>=◌ {ℓ κ} : {A : Type ℓ} {B : Type κ} → Outcome A → (A → Outcome B) → Outcome B
ok a >>= f = f a
panic p >>= f = panic p

-- `*p` for a pointer that may be nil.
abbrev pub deref {ℓ} : {A : Type ℓ} → Option A → Outcome A
deref none = panic nil_dereference
deref (some a) = ok a

-- A loop that may run out of rounds.
abbrev pub fueled {ℓ} : {A : Type ℓ} → Option A → Outcome A
fueled none = panic out_of_fuel
fueled (some a) = ok a

pub Outcome-cases {ℓ} :
    {A : Type ℓ} (o : Outcome A) → ((a : A) × (o ≡ ok a)) ⊎ ((p : Panic) × (o ≡ panic p))
Outcome-cases (ok a) = inl (a, refl)
Outcome-cases (panic p) = inr (p, refl)
