-- ===== src/Files/Chunks.antt =====
-- Chunks and metafiles of code/filehandler.go.
use blockchain_sybil_attack.Base.{
  ℕ, zero, suc, ◌+◌, ◌-◌, ◌*◌, ◌≤◌, ◌<◌, ◌≡◌, refl, ap, sym, ◌∙◌, Bool-cases, inl, inr, some, List,
  [], ◌∷◌, ◌++◌, map, append_assoc, append-nil, Text, Bytes, Map, put, nat_eq, text_eq, length,
  length-append, length-drop, take-append-drop, take, drop, ltb, All, hex, if◌then◌else◌, ok, ◌>>=◌,
  arith,
}
use blockchain_sybil_attack.Chain.Platform.{Platform}
use blockchain_sybil_attack.Files.{chunk_size, chunks_from, split_from, split_metafile}

unfoldable pub flat : List Bytes → Bytes
flat [] = []
flat (b ∷ bs) = b ++ flat bs

take-append : (h m : Bytes) (n : ℕ) → length h ≡ n → take n (h ++ m) ≡ h
take-append [] m zero e = refl
take-append [] m (suc n) e = absurd (omega arith)
take-append (b ∷ h) m zero e = absurd (omega arith)
take-append (b ∷ h) m (suc n) e = ap (◌∷◌ b) (take-append h m n (omega arith))

drop-append : (h m : Bytes) (n : ℕ) → length h ≡ n → drop n (h ++ m) ≡ m
drop-append [] m zero e = refl
drop-append [] m (suc n) e = absurd (omega arith)
drop-append (b ∷ h) m zero e = absurd (omega arith)
drop-append (b ∷ h) m (suc n) e = drop-append h m n (omega arith)

split_from-append :
    (h m : Bytes) (fuel : ℕ)
    → length h ≡ 32
    → split_from (suc fuel) (h ++ m) ≡ (split_from fuel m >>= (λ hashes. ok (hex h ∷ hashes)))
unfolding split_from
split_from-append h m fuel e =
    let taken = take-append h m 32 e in
    let dropped = drop-append h m 32 e in let longer = length-append h m in ground arith

split_from-flat :
    (hs : List Bytes) (fuel : ℕ)
    → All (λ h. length h ≡ 32) hs
    → length (flat hs) < fuel
    → split_from fuel (flat hs) ≡ ok (map hex hs)
unfolding flat
split_from-flat [] zero all enough = absurd (omega arith)
split_from-flat [] (suc fuel) all enough = unfold split_from in refl
split_from-flat (h ∷ hs) zero all enough = absurd (omega arith)
split_from-flat (h ∷ hs) (suc fuel) (e, all) enough =
    let rest = split_from-flat hs fuel all (omega (arith, length-append h (flat hs))) in
    split_from-append h (flat hs) fuel e ∙ ground arith

-- Hashes of 32 bytes that are written one after the other are split into the same hashes.
pub split_metafile-flat :
    (hs : List Bytes) → All (λ h. length h ≡ 32) hs → split_metafile (flat hs) ≡ ok (map hex hs)
unfolding split_metafile
split_metafile-flat hs all = split_from-flat hs (length (flat hs) + 1) all (omega arith)

drop-nil : (n : ℕ) → drop {A = ℕ} n [] ≡ []
drop-nil zero = refl
drop-nil (suc n) = refl

suc_plus : (i n : ℕ) → suc (i + n) ≡ suc i + n
suc_plus i n = omega arith

drop-drop : (n i : ℕ) (xs : Bytes) → drop n (drop i xs) ≡ drop (i + n) xs
drop-drop n zero xs = ap (λ k. drop k xs) (omega arith)
drop-drop n (suc i) [] = drop-nil n ∙ sym (drop-nil (suc i + n))
drop-drop n (suc i) (x ∷ xs) = drop-drop n i xs ∙ ap (λ k. drop k (x ∷ xs)) (suc_plus i n)

take-all : (n : ℕ) (xs : Bytes) → length xs ≤ n → take n xs ≡ xs
take-all zero [] h = refl
take-all zero (x ∷ xs) h = absurd (omega arith)
take-all (suc n) [] h = refl
take-all (suc n) (x ∷ xs) h = ap (◌∷◌ x) (take-all n xs (omega arith))

drop-all : (n : ℕ) (xs : Bytes) → length xs ≤ n → drop n xs ≡ []
drop-all zero [] h = refl
drop-all zero (x ∷ xs) h = absurd (omega arith)
drop-all (suc n) [] h = refl
drop-all (suc n) (x ∷ xs) h = drop-all n xs (omega arith)

-- A chunk of `content`.
unfoldable pub Piece : Bytes → Bytes → Type 0
Piece content p =
    (k : ℕ) × (chunk_size * k < length content)
    × (p ≡ take chunk_size (drop (chunk_size * k) content))

unfoldable pub stored : Platform → Map Text Bytes → List Bytes → Map Text Bytes
stored lib chunks [] = chunks
stored lib chunks (p ∷ ps) = stored lib (put chunks (hex (lib.sha256 p)) p) ps

-- What the loop of `addFile` finds from offset `i` on: chunks of the content, that make up what is
-- left of it.
unfoldable pub Cut : Platform → ℕ → Bytes → ℕ → Bytes → Map Text Bytes → Type 0
Cut lib fuel content k metafile chunks =
    (ps : List Bytes) × (chunks_from lib fuel content (chunk_size * k) metafile chunks
      ≡ some (metafile ++ flat (map lib.sha256 ps), stored lib chunks ps))
    × (flat ps ≡ drop (chunk_size * k) content)
    × All (Piece content) ps

chunk_end : Bytes → ℕ → ℕ
chunk_end content i =
    if ltb (length content) (i + chunk_size) then length content else i + chunk_size

chunk_of :
    (content : Bytes) (i : ℕ)
    → take (chunk_end content i - i) (drop i content) ≡ take chunk_size (drop i content)
unfolding chunk_end
chunk_of content i =
    let left = length-drop i content in
    elim (Bool-cases (ltb (length content) (i + chunk_size))) [
      | inl last ↦
          let e : chunk_end content i ≡ length content = ground arith in
          ap (λ n. take (n - i) (drop i content)) e
          ∙ take-all (length content - i) (drop i content) (omega arith)
          ∙ sym (take-all chunk_size (drop i content) (grind arith))
      | inr inner ↦
          let e : chunk_end content i - i ≡ chunk_size = ground arith in
          ap (λ n. take n (drop i content)) e
    ]

chunks_from-round :
    (lib : Platform) (fuel : ℕ) (content : Bytes) (i : ℕ) (metafile : Bytes)
    (chunks : Map Text Bytes)
    → chunks_from lib (suc fuel) content i metafile chunks ≡ (
        if ltb i (length content)
        then chunks_from lib fuel content
            (i + chunk_size)
            (metafile ++ lib.sha256 (take chunk_size (drop i content)))
            (put chunks
              (hex (lib.sha256 (take chunk_size (drop i content))))
              (take chunk_size (drop i content)))
        else some (metafile, chunks))
unfolding chunks_from chunk_end
chunks_from-round lib fuel content i metafile chunks =
    ap
      (λ chunk.
        if ltb i (length content)
        then chunks_from lib fuel content (i + chunk_size) (metafile ++ lib.sha256 chunk)
            (put chunks (hex (lib.sha256 chunk)) chunk)
        else some (metafile, chunks))
      (chunk_of content i)

pub cut :
    (lib : Platform) (fuel : ℕ) (content : Bytes) (k : ℕ) (metafile : Bytes)
    (chunks : Map Text Bytes)
    → 1 ≤ fuel
    → length content < chunk_size * k + fuel
    → Cut lib fuel content k metafile chunks
unfolding Cut flat stored Piece
cut lib zero content k metafile chunks some_fuel enough = absurd (omega arith)
cut lib (suc fuel) content k metafile chunks some_fuel enough =
    elim (Bool-cases (ltb (chunk_size * k) (length content))) [
      | inr done ↦ (
        [],
        chunks_from-round lib fuel content (chunk_size * k) metafile chunks
            ∙ ground (arith, append-nil metafile),
        sym (drop-all (chunk_size * k) content (ground arith)),
        tt,
      )
      | inl more ↦
          let chunk = take chunk_size (drop (chunk_size * k) content) in
          let h = lib.sha256 chunk in
          let (ps, run, whole, all) =
            cut lib fuel content (k + 1) (metafile ++ h) (put chunks (hex h) chunk) (ground arith)
              (ground arith) in
          let next : chunk_size * k + chunk_size ≡ chunk_size * (k + 1) = omega arith in
          let rest : flat ps ≡ drop chunk_size (drop (chunk_size * k) content) =
            whole
            ∙ ap (λ j. drop j content) (sym next)
            ∙ sym (drop-drop chunk_size (chunk_size * k) content) in
          (
            chunk ∷ ps,
            chunks_from-round lib fuel content (chunk_size * k) metafile chunks
                ∙ grind (arith, append_assoc metafile h (flat (map lib.sha256 ps))),
            ap (◌++◌ chunk) rest ∙ take-append-drop chunk_size (drop (chunk_size * k) content),
            ((k, ground arith, refl), all),
          )
    ]
