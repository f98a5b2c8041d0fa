-- ===== src/Chain/Block.antt =====
-- The type `Block` of code/blockchain.go, its bytes, its hash, and the proof-of-work test.
pub mod Work
use blockchain_sybil_attack.Base.{
  ℕ, zero, suc, ◌+◌, ◌-◌, ◌*◌, ◌/◌, ◌%◌, Bool, true, false, [], ◌∷◌, ◌++◌, Text, Bytes, put_uint32,
  put_uint64, take, get_or, ◌==◌, nat_eq, ltb, if◌then◌else◌,
}
use blockchain_sybil_attack.Chain.Platform.{Platform, Time, RsaPublicKey}

abbrev pub difficulty : ℕ
difficulty = 23

-- `time.Second*360`, in nanoseconds.
abbrev pub expiration : ℕ
expiration = 1_000_000_000 * 360

pub record BcPublicKey : Type 0 where
  pub n : Bytes
  pub e : ℕ

pub record Block : Type 0 where
  pub node_id : ℕ
  pub timestamp : Time
  pub pub_key : BcPublicKey
  pub nonce : Bytes
  pub previous_hash : Bytes

unfoldable pub pub_key_to_bytes : BcPublicKey → Bytes
pub_key_to_bytes key = key.n ++ put_uint32 key.e

-- `%08b` of a byte, most significant digit first.
unfoldable pub binary_digits : ℕ → ℕ → Text
binary_digits zero n = []
binary_digits (suc k) n = binary_digits k (n / 2) ++ (48 + n % 2) ∷ []

-- The loop over the bytes that must be zero.
unfoldable pub all_zero : Bytes → Bool
all_zero [] = true
all_zero (b ∷ bs) = if b == 0 then all_zero bs else false

-- The loop over the digits that must be the character 0.
unfoldable pub all_zero_digits : Text → Bool
all_zero_digits [] = true
all_zero_digits (c ∷ cs) = if c == 48 then all_zero_digits cs else false

-- `int(math.Ceil(difficulty/8.0))`.
abbrev pub nb_zero_bytes : ℕ
nb_zero_bytes = (difficulty + 7) / 8

abbrev pub remaining_nb_bits : ℕ
remaining_nb_bits = difficulty - (nb_zero_bytes - 1) * 8

-- The test on the digest, which has 32 bytes.
unfoldable pub enough_zeros : Bytes → Bool
unfolding all_zero all_zero_digits binary_digits
enough_zeros digest =
    let h = take nb_zero_bytes digest in
    if all_zero (take (nb_zero_bytes - 1) h)
    then all_zero_digits (take remaining_nb_bits (binary_digits 8 (get_or h (nb_zero_bytes - 1) 0)))
    else false

-- `time.Since` at the clock reading `now`. A negative duration is not above the bound.
unfoldable pub expired : ℕ → Block → Bool
expired now b = ltb expiration (now - b.timestamp.instant)

module _ (lib : Platform) where
  unfoldable pub bc_pub_key_to_rsa_pub_key : BcPublicKey → RsaPublicKey
  bc_pub_key_to_rsa_pub_key key = record { modulus = lib.gob_int_decode key.n; exponent = key.e }

  unfoldable pub rsa_pub_key_to_bc_pub_key : RsaPublicKey → BcPublicKey
  rsa_pub_key_to_bc_pub_key key = record { n = lib.gob_int key.modulus; e = key.exponent }

  unfoldable pub get_bytes : Block → Bytes
  unfolding pub_key_to_bytes
  get_bytes b =
      (((put_uint64 b.node_id ++ lib.gob_time b.timestamp) ++ pub_key_to_bytes b.pub_key)
        ++ b.nonce)
      ++ b.previous_hash

  unfoldable pub hash : Block → Bytes
  hash b = lib.sha256 (get_bytes b)

  unfoldable pub is_valid : ℕ → Block → Bool
  is_valid now b = if expired now b then false else enough_zeros (hash b)
