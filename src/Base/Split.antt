-- ===== src/Base/Split.antt =====
-- Texts that are split at a character.
use Prim.Native.Nat.{ℕ}
use mathlib.Core.Path.{◌≡◌, refl, sym, ap, ◌∙◌}
use mathlib.Core.Bool.{false}
use mathlib.Core.List.{List, [], ◌∷◌, ◌++◌, append_assoc, append-nil}
use native.Mathlib.Omega.{arith}
use blockchain_sybil_attack.Base.Equality.{◌==◌, nat_eq, ==_refl, Text}
use blockchain_sybil_attack.Base.Lists.{All}
use blockchain_sybil_attack.Base.Words.{split_from, split, join}

-- A text without a character.
abbrev pub Free : ℕ → Text → Type 0
Free separator = All (λ c. (c == separator) ≡ false)

split_from-other :
    (separator c : ℕ) (rest acc : Text)
    → (c == separator) ≡ false
    → split_from separator (c ∷ rest) acc ≡ split_from separator rest (acc ++ c ∷ [])
unfolding split_from
split_from-other separator c rest acc other = ground arith

split_from-Free :
    (separator : ℕ) (word rest acc : Text)
    → Free separator word
    → split_from separator (word ++ rest) acc ≡ split_from separator rest (acc ++ word)
split_from-Free separator [] rest acc free = ap (split_from separator rest) (sym (append-nil acc))
split_from-Free separator (c ∷ word) rest acc (differ, free) =
    split_from-other separator c (word ++ rest) acc differ
    ∙ split_from-Free separator word rest (acc ++ c ∷ []) free
    ∙ ap (split_from separator rest) (append_assoc acc (c ∷ []) word)

split_from-separator :
    (separator : ℕ) (rest acc : Text)
    → split_from separator (separator ∷ rest) acc ≡ acc ∷ split_from separator rest []
unfolding split_from
split_from-separator separator rest acc = ground (arith, ==_refl separator)

split_from-end : (separator : ℕ) (acc : Text) → split_from separator [] acc ≡ acc ∷ []
unfolding split_from
split_from-end separator acc = refl

pub split-pair :
    (separator : ℕ) (key word : Text)
    → Free separator key
    → Free separator word
    → split separator (key ++ separator ∷ word) ≡ key ∷ word ∷ []
split-pair separator key word free_key free_word =
    split_from-Free separator key (separator ∷ word) [] free_key
    ∙ split_from-separator separator word key
    ∙ ap (◌∷◌ key) (
        ap (λ w. split_from separator w []) (sym (append-nil word))
        ∙ split_from-Free separator word [] [] free_word
        ∙ split_from-end separator word)

-- Words that do not hold the separator are split as they were joined.
pub split-join :
    (separator : ℕ) (word : Text) (words : List Text)
    → Free separator word
    → All (Free separator) words
    → split separator (join (separator ∷ []) (word ∷ words)) ≡ word ∷ words
unfolding join
split-join separator word [] free all =
    ap (λ w. split_from separator w []) (sym (append-nil word))
    ∙ split_from-Free separator word [] [] free
    ∙ split_from-end separator word
split-join separator word (next ∷ words) free (free_next, all) =
    ap (λ t. split_from separator t [])
      (append_assoc word (separator ∷ []) (join (separator ∷ []) (next ∷ words)))
    ∙ split_from-Free separator word (separator ∷ join (separator ∷ []) (next ∷ words)) [] free
    ∙ split_from-separator separator (join (separator ∷ []) (next ∷ words)) word
    ∙ ap (◌∷◌ word) (split-join separator next words free_next all)
