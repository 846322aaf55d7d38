-- ===== src/Bincoder/Decoder.antt =====
-- lib/bincoder/decoder.go: the decoder of a buffer, which keeps its first error.
use mygosh.Base.{ℕ, ◌+◌, Bool, true, false, not, Option, none, some, [], ◌∷◌, ◌==◌, length, drop}
use mygosh.Base.{ltb, if◌then◌else◌, max_uint32, ◌&&◌, ◌%◌, ◌^◌}
use mygosh.Bincoder.{
  Bytes, CodeErr, trailing, truncated, invalid_bool, over_maximum, invalid_utf8, unexpected,
}
use mygosh.Bincoder.{get_u32, first, slice}

pub record Decoder : Type 0 where
  pub buf : Bytes
  pub off : ℕ
  pub err : Option CodeErr
  pub max_bytes : ℕ  -- uint32

unfoldable pub new_cursor : Bytes → Decoder
new_cursor b = record { buf = b; off = 0; err = none; max_bytes = max_uint32 }

unfoldable pub with_max_bytes : ℕ → Decoder → Decoder
with_max_bytes n c = record c { max_bytes = n }

unfoldable pub rest : Decoder → Bytes
rest c = elim c.err [ none ↦ drop c.off c.buf | some e ↦ [] ]

unfoldable pub done : Decoder → Option CodeErr
done c = elim c.err [
  | some e ↦ some e
  | none ↦ if c.off == length c.buf then none else some trailing
]

-- A method returns its value and the decoder that it leaves.
abbrev pub Read {ℓ} : Type ℓ → Type ℓ
Read A = Decoder → A × Decoder

unfoldable pub fail : CodeErr → Decoder → Decoder
fail e c = record c { err = some e }

-- `x := m(); if c.err != nil { return zero }; return k(x)`
unfoldable pub and_then {ℓ κ} : {A : Type ℓ} {B : Type κ} → Read A → B → (A → Read B) → Read B
and_then m zero k c = let (a, d) = m c in elim d.err [ some e ↦ (zero, d) | none ↦ k a d ]

unfoldable pub take : ℕ → Read Bytes
unfolding fail
take n c = elim c.err [
  | some e ↦ ([], c)
  | none ↦
      if ltb (length c.buf) (c.off + n)
      then ([], fail truncated c)
      else (slice c.off n c.buf, record c { off = c.off + n })
]

unfoldable pub byte : Read ℕ
byte = and_then (take 1) 0 λ b c. (first b, c)

unfoldable pub bool : Read Bool
bool =
    and_then byte false λ b c.
      if b == 0 then (false, c) else if b == 1 then (true, c) else (false, fail invalid_bool c)

unfoldable pub u32 : Read ℕ
u32 = and_then (take 4) 0 λ b c. (get_u32 b, c)

unfoldable pub bytes : Read Bytes
bytes = and_then u32 [] λ n c. if ltb c.max_bytes n then ([], fail over_maximum c) else take n c

-- `valid` is `utf8.Valid`.
unfoldable pub utf8_string : (Bytes → Bool) → Read Bytes
utf8_string valid =
    and_then bytes [] λ b c. if not (valid b) then ([], fail invalid_utf8 c) else (b, c)

-- `bytes.Equal`
unfoldable pub equal : Bytes → Bytes → Bool
equal [] [] = true
equal (x ∷ xs) (y ∷ ys) = x == y && equal xs ys
equal _ _ = false

unfoldable pub expect_bytes : Bytes → Read (Unit {0})
expect_bytes want =
    and_then (take (length want % 2 ^ 32)) tt
      λ got c. if not (equal got want) then (tt, fail unexpected c) else (tt, c)
