-- ===== src/Chain/Platform.antt =====
-- What code/*.go takes from Go's library and is not written in the repository: SHA-256, the Gob
-- encodings, and RSA signatures. The laws are documented facts about them.
use blockchain_sybil_attack.Base.{ℕ, Bytes, AreBytes, Bool, Option, length, ◌≡◌}

-- `time.Time`: the instant in nanoseconds since the epoch, and the offset of its location.
pub record Time : Type 0 where
  pub instant : ℕ
  pub zone : ℕ

-- `rsa.PublicKey`; the exponent is the bit pattern of its `int`.
pub record RsaPublicKey : Type 0 where
  pub modulus : ℕ
  pub exponent : ℕ

pub record Platform : Type 0 where
  pub sha256 : Bytes → Bytes
  pub sha256_length : (d : Bytes) → length (sha256 d) ≡ 32
  pub sha256_bytes : (d : Bytes) → AreBytes (sha256 d)
  pub gob_time : Time → Bytes
  pub gob_int : ℕ → Bytes
  pub gob_int_decode : Bytes → ℕ
  pub gob_int_back : (n : ℕ) → gob_int_decode (gob_int n) ≡ n
  -- the signature of a digest with a private key, which is the key pair's modulus and exponent
  -- of the secret half; `none` is an error
  pub sign : RsaPublicKey → Bytes → Option Bytes
  pub verify : RsaPublicKey → Bytes → Bytes → Bool
