-- ===== src/Chain/Block/Work.antt =====
-- What the proof-of-work test of `Block.isValid` accepts.
use blockchain_sybil_attack.Base.{
  ℕ, zero, suc, ◌+◌, ◌*◌, ◌<◌, ◌≤◌, ◌≡◌, ◌↔◌, refl, Bool, true, false, [], ◌∷◌, Bytes, AreBytes,
  length, ltb, nat_eqb, if◌then◌else◌, arith, get_or, take,
}
use blockchain_sybil_attack.Chain.Platform.{Platform}
use blockchain_sybil_attack.Chain.Block.{
  Block, expiration, all_zero_digits, binary_digits, enough_zeros, expired, hash, is_valid,
}

-- The first three bytes of a digest as a big-endian number.
abbrev pub leading24 : Bytes → ℕ
leading24 d = get_or d 0 0 * 65536 + get_or d 1 0 * 256 + get_or d 2 0

abbrev same : Bool → Bool → Bool
same true b = b
same false b = if b then false else true

-- The test passes for the numbers below a bound.
passes : (ℕ → Bool) → ℕ → Bool
passes test zero = true
passes test (suc bound) = if test bound then passes test bound else false

passes-at : (test : ℕ → Bool) (c bound : ℕ) → c < bound → passes test bound ≡ true → test c ≡ true
unfolding passes
passes-at test c zero below all = absurd (omega arith)
passes-at test c (suc bound) below all = ground (arith, passes-at test c bound)

-- The loop over the seven leading digits of a byte.
last_digits : ℕ → Bool
last_digits c = all_zero_digits (take 7 (binary_digits 8 c))

last_digits_table : passes (λ c. same (last_digits c) (ltb c 2)) 256 ≡ true
unfolding passes last_digits all_zero_digits binary_digits
last_digits_table = refl

same_eq : (a b : Bool) → same a b ≡ true → a ≡ b
same_eq true b h = ground arith
same_eq false b h = ground arith

last_digits_lem : (c : ℕ) → c < 256 → last_digits c ≡ ltb c 2
last_digits_lem c h =
    same_eq (last_digits c) (ltb c 2)
      (passes-at (λ c. same (last_digits c) (ltb c 2)) c 256 h last_digits_table)

three_bytes : ℕ → ℕ → ℕ → Bool
three_bytes a b c = if nat_eqb a 0 then (if nat_eqb b 0 then last_digits c else false) else false

enough_zeros-three_bytes :
    (a b c : ℕ) (d : Bytes) → enough_zeros (a ∷ b ∷ c ∷ d) ≡ three_bytes a b c
unfolding enough_zeros three_bytes last_digits
enough_zeros-three_bytes a b c d = ground arith

three_bytes_iff : (a b c : ℕ) → c < 256 → (three_bytes a b c ≡ true) ↔ (a * 65536 + b * 256 + c < 2)
unfolding three_bytes
three_bytes_iff a b c h = ground (arith, last_digits_lem c h)

-- The test passes exactly when the 23 leading bits of the digest are zero.
pub enough_zeros-leading24 :
    (d : Bytes) → length d ≡ 32 → AreBytes d → (enough_zeros d ≡ true) ↔ (leading24 d < 2)
enough_zeros-leading24 (a ∷ b ∷ c ∷ d) n h =
    rw enough_zeros-three_bytes (three_bytes_iff a b c h.1.1.0)
enough_zeros-leading24 [] n h = absurd (omega arith)
enough_zeros-leading24 (a ∷ []) n h = absurd (omega arith)
enough_zeros-leading24 (a ∷ b ∷ []) n h = absurd (omega arith)

enough_zeros-hash :
    (lib : Platform) (b : Block) → (enough_zeros (hash lib b) ≡ true) ↔ (leading24 (hash lib b) < 2)
unfolding hash
enough_zeros-hash lib b =
    enough_zeros-leading24 (hash lib b) (lib.sha256_length _) (lib.sha256_bytes _)

-- A block is valid at a clock reading exactly when it is at most `expiration` old then and its
-- hash, read as a big-endian number, has its 23 leading bits zero.
pub is_valid_iff :
    (lib : Platform) (now : ℕ) (b : Block)
    → (is_valid lib now b ≡ true)
      ↔ ((now ≤ b.timestamp.instant + expiration) × (leading24 (hash lib b) < 2))
unfolding is_valid expired
is_valid_iff lib now b = ground (arith, enough_zeros-hash lib b)
