-- ===== src/Files/Transfer/Hex.antt =====
-- Hexadecimal text of code/filehandler.go is read back.
use blockchain_sybil_attack.Base.{
  ℕ, ◌+◌, ◌*◌, ◌/◌, ◌%◌, ◌<◌, ◌≡◌, refl, ap, ◌∙◌, true, false, some, [], ◌∷◌, Text, Bytes, AreBytes,
  ◌==◌, nat_eq, text_eq, text_eqb, hex, hex_digit, length, ◌≤◌, ok, arith,
}
use blockchain_sybil_attack.Files.{hex_value, hex_decode}
use blockchain_sybil_attack.Files.Transfer.Fetching.{all_hex, hash_bytes}

-- Hexadecimal text is read back.
hex_value-hex_digit : (d : ℕ) → d < 16 → hex_value (hex_digit d) ≡ some d
unfolding hex_digit
hex_value-hex_digit d h = ground arith

pub all_hex-hex : (bs : Bytes) → AreBytes bs → all_hex (hex bs) ≡ true
unfolding hex
all_hex-hex [] h = refl
all_hex-hex (b ∷ bs) (small, h) = ground (
  arith,
  hex_value-hex_digit (b / 16) (omega arith),
  hex_value-hex_digit (b % 16) (omega arith),
  all_hex-hex bs h,
)

hex_decode-pair :
    (c d high low : ℕ) (cs : Text)
    → hex_value c ≡ some high
    → hex_value d ≡ some low
    → hex_decode (c ∷ d ∷ cs) ≡ (16 * high + low) ∷ hex_decode cs
unfolding hex_decode
hex_decode-pair c d high low cs e f = ground arith

pub hex_decode-hex : (bs : Bytes) → AreBytes bs → hex_decode (hex bs) ≡ bs
unfolding hex
hex_decode-hex [] h = unfold hex_decode in refl
hex_decode-hex (b ∷ bs) (small, h) =
    let whole : 16 * (b / 16) + b % 16 ≡ b = omega arith in
    hex_decode-pair (hex_digit (b / 16)) (hex_digit (b % 16)) (b / 16) (b % 16) (hex bs)
      (hex_value-hex_digit (b / 16) (omega arith)) (hex_value-hex_digit (b % 16) (omega arith))
    ∙ ap (◌∷◌ (16 * (b / 16) + b % 16)) (hex_decode-hex bs h)
    ∙ ap (λ c. c ∷ bs) whole

pub hash_bytes-hex : (bs : Bytes) → AreBytes bs → hash_bytes (hex bs) ≡ ok bs
unfolding hash_bytes
hash_bytes-hex bs h = ground (arith, all_hex-hex bs h, hex_decode-hex bs h)

pub hex_not_empty : (bs : Bytes) → 1 ≤ length bs → (hex bs == []) ≡ false
unfolding hex text_eqb
hex_not_empty [] h = absurd (omega arith)
hex_not_empty (b ∷ bs) h = refl
