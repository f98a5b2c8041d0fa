-- ===== src/Base/Words.antt =====
-- Go's functions on text: `strings.Contains`, `strings.Join` and `strings.Split`.
use Prim.Native.Nat.{ℕ}
use mathlib.Core.Bool.{Bool, true, false, ◌&&◌, ◌||◌}
use mathlib.Core.List.{List, [], ◌∷◌, ◌++◌}
use blockchain_sybil_attack.Base.Equality.{◌==◌, nat_eq, Text}

unfoldable pub has_prefix : Text → Text → Bool
has_prefix [] t = true
has_prefix (c ∷ k) [] = false
has_prefix (c ∷ k) (d ∷ t) = c == d && has_prefix k t

-- `strings.Contains(t, k)`.
unfoldable pub contains : Text → Text → Bool
unfolding has_prefix
contains [] k = has_prefix k []
contains (c ∷ t) k = has_prefix k (c ∷ t) || contains t k

-- `strings.Join(words, separator)`.
unfoldable pub join : Text → List Text → Text
join separator [] = []
join separator (k ∷ []) = k
join separator (k ∷ l ∷ words) = k ++ separator ++ join separator (l ∷ words)

-- `strings.Split` at a character: `acc` is the part read so far.
unfoldable pub split_from : ℕ → Text → Text → List Text
split_from separator [] acc = acc ∷ []
split_from separator (c ∷ s) acc = elim (c == separator) [
  | true ↦ acc ∷ split_from separator s []
  | false ↦ split_from separator s (acc ++ c ∷ [])
]

abbrev pub split : ℕ → Text → List Text
split separator s = split_from separator s []
