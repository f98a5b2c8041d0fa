-- ===== src/Base/Encoding.antt =====
-- Go's fixed-width encodings: little-endian integers and lower-case hexadecimal text.
use Prim.Native.Nat.{ℕ, zero, suc, ◌+◌, ◌/◌, ◌%◌, ◌^◌, ◌<◌}
use mathlib.Core.Path.{◌≡◌, refl, ap}
use mathlib.Core.List.{List, [], ◌∷◌}
use blockchain_sybil_attack.Base.Tests.{if◌then◌else◌, ltb}
use blockchain_sybil_attack.Base.Lists.{length, All}
use blockchain_sybil_attack.Base.Equality.{Text}

abbrev pub Bytes : Type 0
Bytes = List ℕ

abbrev pub AreBytes : Bytes → Type 0
AreBytes = All (λ b. b < 256)

-- The `k` low bytes of a number, least significant first.
unfoldable pub little_endian : ℕ → ℕ → Bytes
little_endian zero n = []
little_endian (suc k) n = n % 256 ∷ little_endian k (n / 256)

-- `binary.LittleEndian.PutUint64` into a new slice of eight bytes.
abbrev pub put_uint64 : ℕ → Bytes
put_uint64 n = little_endian 8 (n % 2 ^ 64)

-- `binary.LittleEndian.PutUint32(b, uint32(n))`.
abbrev pub put_uint32 : ℕ → Bytes
put_uint32 n = little_endian 4 (n % 2 ^ 32)

pub length-little_endian : (k n : ℕ) → length (little_endian k n) ≡ k
unfolding little_endian
length-little_endian zero n = refl
length-little_endian (suc k) n = ap suc (length-little_endian k (n / 256))

unfoldable pub hex_digit : ℕ → ℕ
hex_digit d = if ltb d 10 then 48 + d else 87 + d

-- `hex.EncodeToString`.
unfoldable pub hex : Bytes → Text
unfolding hex_digit
hex [] = []
hex (b ∷ bs) = hex_digit (b / 16) ∷ hex_digit (b % 16) ∷ hex bs
