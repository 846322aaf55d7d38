-- ===== src/Command/Chunks.antt =====
-- `chunkedFrames` of lib/command/codec.go: data in frames of a bounded size.
use mygosh.Base.{
  ℕ, zero, suc, ◌+◌, ◌-◌, ◌/◌, Bool, true, false, some, List, [], ◌∷◌, ◌==◌, length, take, drop,
  leb, ltb, if◌then◌else◌,
}
use mygosh.Base.Result.{Result, ok, fail, ◌>>=◌}
use mygosh.Bincoder.{Bytes}
use mygosh.Command.{
  CommandErr, cannot_carry, marshal_message, ClientFrame, stdin, ServerFrame, stdout, stderr,
}
use mygosh.Wire.{Codec}

-- The longest chunk that was tried and could be encoded, 0 if none yet.
pub record Best : Type 0 where
  pub size : ℕ
  pub encoded : Bytes

-- `encode` is `marshalMessage(build(chunk), maximum)`.
module _ (encode : Bytes → Result CommandErr Bytes) where
  -- The binary search over the sizes from `low` to `high`. Each round leaves at least one size
  -- less, so `high` is fuel enough where `low` is 1.
  unfoldable pub search : ℕ → Bytes → ℕ → ℕ → Best → Best
  search zero input low high best = best
  search (suc fuel) input low high best =
      let mid = low + (high - low) / 2 in
      elim (leb low high) [
        | false ↦ best
        | true ↦ elim (encode (take mid input)) [
          | ok frame ↦ search fuel input (mid + 1) high (record { size = mid; encoded = frame })
          | fail e ↦ search fuel input low (mid - 1) best
        ]
      ]

  -- `min`
  unfoldable pub min : ℕ → ℕ → ℕ
  min a b = if ltb b a then b else a

  unfoldable pub longest : Bytes → ℕ → Best
  longest input maximum =
      let high = min (length input) maximum in
      search high input 1 high (record { size = 0; encoded = [] })

  -- The loop over the data; each round takes a byte or more, so its length is fuel enough.
  unfoldable pub chunk_loop : ℕ → Bytes → ℕ → Result CommandErr (List Bytes)
  chunk_loop fuel [] maximum = ok []
  chunk_loop zero (b ∷ bs) maximum = fail cannot_carry
  chunk_loop (suc fuel) (b ∷ bs) maximum =
      let best = longest (b ∷ bs) maximum in
      let rest = chunk_loop fuel (drop best.size (b ∷ bs)) maximum in
      if best.size == 0 then fail cannot_carry else rest >>= λ frames. ok (best.encoded ∷ frames)

-- `defaultMaximumFrameSize`
abbrev pub default_maximum_frame_size : ℕ
default_maximum_frame_size = 16384

abbrev pub effective_maximum : ℕ → ℕ
effective_maximum maximum = if maximum == 0 then default_maximum_frame_size else maximum

unfoldable pub chunked_frames :
    (encode : ℕ → Bytes → Result CommandErr Bytes) → Bytes → ℕ → Result CommandErr (List Bytes)
chunked_frames encode input maximum =
    let m = effective_maximum maximum in chunk_loop (encode m) (length input) input m

unfoldable pub encode_client_stdin : Codec ClientFrame → Bytes → ℕ → Result CommandErr (List Bytes)
encode_client_stdin codec input maximum =
    chunked_frames (λ m chunk. marshal_message codec (some (stdin chunk)) m) input maximum

-- The frames of one read in `copyOutput`.
unfoldable pub encode_output : Codec ServerFrame → Bool → Bytes → ℕ → Result CommandErr (List Bytes)
encode_output codec is_stderr input maximum =
    chunked_frames
      (λ m chunk. marshal_message codec (some (if is_stderr then stderr chunk else stdout chunk)) m)
      input maximum
