-- ===== src/Command/Carried.antt =====
-- About the frames that lib/command/codec.go cuts data into.
use mygosh.Base.{ℕ, zero, suc, ◌≤◌, ◌<◌, ◌≡◌, refl, subst, inl, inr, false, Bool-cases}
use mygosh.Base.{
  List, [], ◌∷◌, ◌++◌, ◌==◌, length, take, drop, length-take, length-drop, append-take-drop, arith,
}
use mygosh.Base.Result.{Result, ok, bind-ok, ok_injective}
use mygosh.Bincoder.{Bytes}
use mygosh.Command.{CommandErr}
use mygosh.Command.Chunks.{min, longest, chunk_loop}
use mygosh.Command.Search.{Tried, search-Tried, Hopes, search-positive}

-- The frames encode the chunks that the input is made of, each of a byte or more and at most
-- `maximum`.
pub data Carries (encode : Bytes → Result CommandErr Bytes) (maximum : ℕ)
    : Bytes → List Bytes → Type 0 where
  carries_nothing : Carries encode maximum [] []
  carries_chunk :
      (chunk rest frame : Bytes) (frames : List Bytes)
      → 0 < length chunk
      → length chunk ≤ maximum
      → encode chunk ≡ ok frame
      → Carries encode maximum rest frames
      → Carries encode maximum (chunk ++ rest) (frame ∷ frames)

module _ (encode : Bytes → Result CommandErr Bytes) where
  min-bounds :
      (a b : ℕ) → (min encode a b ≤ a) × (min encode a b ≤ b) × (1 ≤ a → 1 ≤ b → 1 ≤ min encode a b)
  unfolding min
  min-bounds a b = (ground arith, ground arith, λ h k. ground (arith, h, k))

  longest-Tried :
      (input : Bytes) (maximum : ℕ)
      → Tried encode input (min encode (length input) maximum) (longest encode input maximum)
  unfolding longest
  longest-Tried input maximum =
      let high = min encode (length input) maximum in
      search-Tried encode high input 1 high high (record { size = 0; encoded = [] }) (omega arith)
        (record { bounded = omega arith; works = λ p. ground (arith, p) })

  longest-positive :
      (input frame : Bytes) (maximum : ℕ)
      → encode (take 1 input) ≡ ok frame
      → 1 ≤ length input
      → 1 ≤ maximum
      → 0 < (longest encode input maximum).size
  unfolding longest Hopes
  longest-positive input frame maximum one h k =
      let high = min encode (length input) maximum in
      let (a, b, c) = min-bounds (length input) maximum in
      search-positive encode high input frame 1 high (record { size = 0; encoded = [] }) one
        (omega arith) (inr (refl, c h k, omega arith))

  -- The chunk of one round, in front of the frames of the rest.
  longest-Carries :
      (input : Bytes) (maximum : ℕ) (frames : List Bytes)
      → let best = longest encode input maximum in
        0 < best.size
        → Carries encode maximum (drop best.size input) frames
        → Carries encode maximum input (best.encoded ∷ frames)
  longest-Carries input maximum frames p c =
      let best = longest encode input maximum in
      let t = longest-Tried input maximum in
      let (a, b, _) = min-bounds (length input) maximum in
      let size = length-take best.size input (omega (arith, t.bounded, a)) in
      subst (λ x. Carries encode maximum x (best.encoded ∷ frames))
        (append-take-drop best.size input)
        (carries_chunk (take best.size input) (drop best.size input) best.encoded frames
          (omega (arith, size, p)) (omega (arith, size, t.bounded, b)) (t.works p) c)

  pub chunk_loop-Carries :
      (fuel : ℕ) (input : Bytes) (maximum : ℕ) (frames : List Bytes)
      → chunk_loop encode fuel input maximum ≡ ok frames
      → Carries encode maximum input frames
  unfolding chunk_loop
  chunk_loop-Carries fuel [] maximum frames h =
      subst (Carries encode maximum []) (ok_injective [] frames h) carries_nothing
  chunk_loop-Carries zero (b ∷ bs) maximum frames h = ground (arith, h)
  chunk_loop-Carries (suc fuel) (b ∷ bs) maximum frames h =
      let best = longest encode (b ∷ bs) maximum in
      elim (Bool-cases (best.size == 0)) [
        | inl e ↦ ground (arith, rw e at h)
        | inr e ↦
            let (rest, k, l) =
              bind-ok (chunk_loop encode fuel (drop best.size (b ∷ bs)) maximum) _ frames
                (rw e at h) in
            subst (Carries encode maximum (b ∷ bs)) (ok_injective (best.encoded ∷ rest) frames l) (
              longest-Carries (b ∷ bs) maximum rest (ground (arith, e))
                (chunk_loop-Carries fuel (drop best.size (b ∷ bs)) maximum rest k))
      ]

  -- Where every single byte can be encoded, the loop ends with frames.
  pub chunk_loop-total :
      (fuel : ℕ) (input : Bytes) (maximum : ℕ)
      → ((b : ℕ) → (frame : Bytes) × (encode (b ∷ []) ≡ ok frame))
      → 1 ≤ maximum
      → length input ≤ fuel
      → (frames : List Bytes) × (chunk_loop encode fuel input maximum ≡ ok frames)
  unfolding chunk_loop
  chunk_loop-total fuel [] maximum one m h = ([], refl)
  chunk_loop-total zero (b ∷ bs) maximum one m h = ground (arith, h)
  chunk_loop-total (suc fuel) (b ∷ bs) maximum one m h =
      let best = longest encode (b ∷ bs) maximum in
      let positive : 0 < best.size =
        longest-positive (b ∷ bs) (one b).0 maximum (one b).1 (omega arith) m in
      let t = longest-Tried (b ∷ bs) maximum in
      let (a, _, _) = min-bounds (length (b ∷ bs)) maximum in
      let found : (best.size == 0) ≡ false = ground (arith, positive) in
      let shorter : length (drop best.size (b ∷ bs)) ≤ fuel =
        omega (arith, h, positive, length-drop best.size (b ∷ bs) (omega (arith, t.bounded, a))) in
      let (frames, e) = chunk_loop-total fuel (drop best.size (b ∷ bs)) maximum one m shorter in
      (best.encoded ∷ frames, rw (found, e) refl)
