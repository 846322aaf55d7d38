-- ===== src/Bincoder.antt =====
-- lib/bincoder: the binary coder of texts and frames, with the parts that both directions share.
pub mod Encoder
pub mod Decoder
pub mod Stream
pub mod Writing
pub mod Sample
pub mod Framing
mod Cursor
pub mod RoundTrip
pub mod Bounds
mod Tests
use mygosh.Base.{ℕ, ◌+◌, ◌*◌, ◌/◌, ◌%◌, ◌<◌, ◌≡◌, refl, List, [], ◌∷◌, length, take, drop, arith}

-- A byte is a number below 256.
abbrev pub Bytes : Type 0
Bytes = List ℕ

-- The errors of the package, by the message they carry.
pub data CodeErr : Type 0 where
  too_long trailing truncated invalid_bool over_maximum invalid_utf8 unexpected : CodeErr

-- `binary.BigEndian.PutUint32`
unfoldable pub put_u32 : ℕ → Bytes
put_u32 n = n / 16777216 % 256 ∷ n / 65536 % 256 ∷ n / 256 % 256 ∷ n % 256 ∷ []

-- `binary.BigEndian.Uint32`, which reads the first four bytes.
unfoldable pub get_u32 : Bytes → ℕ
get_u32 (a ∷ b ∷ c ∷ d ∷ bs) = a * 16777216 + b * 65536 + c * 256 + d
get_u32 _ = 0

-- `b[0]`
unfoldable pub first : Bytes → ℕ
first [] = 0
first (b ∷ bs) = b

-- `b[start:end]`
unfoldable pub slice : ℕ → ℕ → Bytes → Bytes
slice start n b = take n (drop start b)

pub get-put_u32 : (n : ℕ) → n < 4294967296 → get_u32 (put_u32 n) ≡ n
unfolding get_u32 put_u32
get-put_u32 n h = omega arith

pub length-put_u32 : (n : ℕ) → length (put_u32 n) ≡ 4
unfolding put_u32
length-put_u32 n = refl
