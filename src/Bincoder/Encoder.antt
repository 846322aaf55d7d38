-- ===== src/Bincoder/Encoder.antt =====
-- lib/bincoder/encoder.go: the encoder, which keeps its first error.
use mygosh.Base.{ℕ, ◌%◌, ◌^◌, Bool, Option, none, some, [], ◌∷◌, ◌++◌, length, ltb, if◌then◌else◌}
use mygosh.Base.{max_uint32}
use mygosh.Bincoder.{Bytes, CodeErr, too_long, put_u32}

pub record Encoder : Type 0 where
  pub buf : Bytes
  pub err : Option CodeErr

unfoldable pub new_encoder : Encoder
new_encoder = record { buf = []; err = none }

unfoldable pub len : Encoder → ℕ
len e = length e.buf

-- `Result` is nil after an error.
unfoldable pub result : Encoder → Bytes
result e = elim e.err [ none ↦ e.buf | some x ↦ [] ]

unfoldable pub write : Bytes → Encoder → Encoder
write b e = elim e.err [ none ↦ record e { buf = e.buf ++ b } | some x ↦ e ]

unfoldable pub byte : ℕ → Encoder → Encoder
byte b e = elim e.err [ none ↦ write (b ∷ []) e | some x ↦ e ]

unfoldable pub bool : Bool → Encoder → Encoder
bool v e = if v then byte 1 e else byte 0 e

unfoldable pub u32 : ℕ → Encoder → Encoder
u32 n e = elim e.err [ none ↦ write (put_u32 n) e | some x ↦ e ]

unfoldable pub bytes : Bytes → Encoder → Encoder
bytes b e = elim e.err [
  | some x ↦ e
  | none ↦
      if ltb max_uint32 (length b)
      then record e { err = some too_long }
      else write b (u32 (length b % 2 ^ 32) e)
]

-- `[]byte(s)` is the text's bytes.
unfoldable pub utf8_string : Bytes → Encoder → Encoder
utf8_string s e = bytes s e
