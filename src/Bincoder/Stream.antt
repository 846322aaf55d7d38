-- ===== src/Bincoder/Stream.antt =====
-- lib/bincoder/rw.go: the coder over an io.Reader and an io.Writer.
use mygosh.Base.{ℕ, zero, suc, ◌%◌, ◌^◌, Bool, true, false, not, ◌&&◌, Option, none, some, [], ◌∷◌}
use mygosh.Base.{◌==◌, length, take, drop, ltb, if◌then◌else◌, max_uint32}
use mygosh.Bincoder.{Bytes, put_u32, get_u32, first}

-- `too_large` is the error of a length over the maximum, or over the length field's width.
pub data IoErr : Type 0 where
  eof unexpected_eof short_write too_large bad_bool no_fuel : IoErr
  device : ℕ → IoErr

-- A reader is the bytes that are still to come before its end.
-- A result is a value or an error, each with the bytes left.
pub data Got {ℓ} (A : Type ℓ) : Type ℓ where
  got : A → Bytes → Got A
  failed : IoErr → Bytes → Got A

unfoldable pub then_read {ℓ κ} : {A : Type ℓ} {B : Type κ} → Got A → (A → Bytes → Got B) → Got B
then_read (got a r) k = k a r
then_read (failed e r) k = failed e r

-- `io.ReadFull`: EOF before the first byte, an unexpected EOF after it; both consume the rest.
unfoldable pub read_full : ℕ → Bytes → Got Bytes
read_full n r =
    if ltb (length r) n
    then (if length r == 0 then failed eof [] else failed unexpected_eof [])
    else got (take n r) (drop n r)

unfoldable pub read_byte : Bytes → Got ℕ
read_byte r = then_read (read_full 1 r) λ b t. got (first b) t

unfoldable pub read_bool : Bytes → Got Bool
read_bool r =
    then_read (read_byte r)
      λ b t. if b == 0 then got false t else if b == 1 then got true t else failed bad_bool t

unfoldable pub read_u32 : Bytes → Got ℕ
read_u32 r = then_read (read_full 4 r) λ b t. got (get_u32 b) t

unfoldable pub read_bytes : ℕ → Bytes → Got Bytes
read_bytes max r =
    then_read (read_u32 r)
      λ n t. if not (max == 0) && ltb (max % 2 ^ 32) n then failed too_large t else read_full n t

-- What one call of `w.Write` returns: the count, the error by a number, and the writer's next state.
pub record Written {ℓ} (W : Type ℓ) : Type ℓ where
  pub count : ℕ
  pub error : Option ℕ
  pub next : W

-- One round of the loop: what `Write` returned decides whether the `rest` of the loop runs.
unfoldable pub after_write {ℓ} :
    {W : Type ℓ} → Option ℕ → ℕ → W → Option IoErr × W → Option IoErr × W
after_write (some e) n v rest = (some (device e), v)
after_write none n v rest = if n == 0 then (some short_write, v) else rest

-- `if err := first; err != nil { return err }; return k()`
unfoldable pub then_write {ℓ} :
    {W : Type ℓ} → Option IoErr × W → (W → Option IoErr × W) → Option IoErr × W
then_write (some e, v) k = (some e, v)
then_write (none, v) k = k v

-- The writer of the program is a parameter: its state and its `Write`.
module _ {ℓ} {W : Type ℓ} (write : W → Bytes → Written W) where
  -- Each round of the loop that goes on consumes a byte or more, so the length is fuel enough.
  unfoldable pub write_loop : ℕ → Bytes → W → Option IoErr × W
  write_loop fuel [] w = (none, w)
  write_loop zero (b ∷ p) w = (some no_fuel, w)
  write_loop (suc fuel) (b ∷ p) w =
      let r = write w (b ∷ p) in
      let rest = write_loop fuel (drop r.count (b ∷ p)) r.next in
      after_write r.error r.count r.next rest

  unfoldable pub write_full : Bytes → W → Option IoErr × W
  write_full p w = write_loop (length p) p w

  unfoldable pub write_byte : ℕ → W → Option IoErr × W
  write_byte b w = write_full (b ∷ []) w

  unfoldable pub write_bool : Bool → W → Option IoErr × W
  write_bool v w = if v then write_byte 1 w else write_byte 0 w

  unfoldable pub write_u32 : ℕ → W → Option IoErr × W
  write_u32 n w = write_full (put_u32 n) w

  unfoldable pub write_bytes : Bytes → W → Option IoErr × W
  write_bytes b w =
      if ltb max_uint32 (length b)
      then (some too_large, w)
      else then_write (write_u32 (length b % 2 ^ 32) w) λ v. write_full b v
