-- ===== src/Command/Search.antt =====
-- The binary search of lib/command/codec.go for the longest chunk that can be encoded.
use mygosh.Base.{
  ℕ, zero, suc, ◌+◌, ◌-◌, ◌/◌, ◌≤◌, ◌<◌, ◌≡◌, refl, sym, ap, subst, ◌∙◌, ◌⊎◌, inl, inr, Bool, true,
  false, Bool-cases, ==_iff,
}
use mygosh.Base.{◌==◌, take, leb, arith}
use mygosh.Base.Result.{Result, ok, fail, Result-cases}
use mygosh.Bincoder.{Bytes}
use mygosh.Command.{CommandErr}
use mygosh.Command.Chunks.{Best, search}

module _ (encode : Bytes → Result CommandErr Bytes) where
  -- What the search knows of its best size; `bound` is the first `high`.
  pub record Tried (input : Bytes) (bound : ℕ) (best : Best) : Type 0 where
    pub bounded : best.size ≤ bound
    pub works : 0 < best.size → encode (take best.size input) ≡ ok best.encoded

  mid : ℕ → ℕ → ℕ
  mid low high = low + (high - low) / 2

  -- One round of the search.
  search-stops :
      (fuel : ℕ) (input : Bytes) (low high : ℕ) (best : Best)
      → leb low high ≡ false
      → search encode (suc fuel) input low high best ≡ best
  unfolding search
  search-stops fuel input low high best e = subst (λ b. round b ≡ best) (sym e) refl
    where
      round : Bool → Best
      round b = elim b [
        | false ↦ best
        | true ↦ elim (encode (take (low + (high - low) / 2) input)) [
          | ok frame ↦
              search encode fuel input (low + (high - low) / 2 + 1) high
                (record { size = low + (high - low) / 2; encoded = frame })
          | fail x ↦ search encode fuel input low (low + (high - low) / 2 - 1) best
        ]
      ]

  search-tries :
      (fuel : ℕ) (input : Bytes) (low high : ℕ) (best : Best) (r : Result CommandErr Bytes)
      → leb low high ≡ true
      → encode (take (mid low high) input) ≡ r
      → search encode (suc fuel) input low high best ≡ elim r [
        | ok frame ↦
            search encode fuel input
              (mid low high + 1)
              high
              (record { size = mid low high; encoded = frame })
        | fail x ↦ search encode fuel input low (mid low high - 1) best
      ]
  unfolding search mid
  search-tries fuel input low high best r e f = subst (λ b. round b ≡ tried r) (sym e) (ap tried f)
    where
      tried : Result CommandErr Bytes → Best
      tried x = elim x [
        | ok frame ↦
            search encode fuel input (low + (high - low) / 2 + 1) high
              (record { size = low + (high - low) / 2; encoded = frame })
        | fail x ↦ search encode fuel input low (low + (high - low) / 2 - 1) best
      ]

      round : Bool → Best
      round b = elim b [
        | false ↦ best
        | true ↦ tried (encode (take (low + (high - low) / 2) input))
      ]

  mid-bounds : (low high : ℕ) → leb low high ≡ true → (low ≤ mid low high) × (mid low high ≤ high)
  unfolding mid
  mid-bounds low high e = (omega arith, ground (arith, e))

  pub search-Tried :
      (fuel : ℕ) (input : Bytes) (low high bound : ℕ) (best : Best)
      → high ≤ bound
      → Tried input bound best
      → Tried input bound (search encode fuel input low high best)
  unfolding search
  search-Tried zero input low high bound best h t = t
  search-Tried (suc fuel) input low high bound best h t = elim (Bool-cases (leb low high)) [
    | inr e ↦ subst (Tried input bound) (sym (search-stops fuel input low high best e)) t
    | inl e ↦
        let (above, below) = mid-bounds low high e in
        elim (Result-cases (encode (take (mid low high) input))) [
          | inl (frame, f) ↦
              subst (Tried input bound) (sym (search-tries fuel input low high best (ok frame) e f))
                (search-Tried fuel input (mid low high + 1) high bound
                  (record { size = mid low high; encoded = frame }) h
                  (record { bounded = omega (arith, below, h); works = λ _. f }))
          | inr (x, f) ↦
              subst (Tried input bound) (sym (search-tries fuel input low high best (fail x) e f)) (
                search-Tried fuel input low (mid low high - 1) bound best (omega (arith, below, h))
                  t)
        ]
  ]

  -- A search that can still try the size 1, or has found a size.
  unfoldable pub Hopes : ℕ → ℕ → ℕ → Best → Type 0
  Hopes fuel low high best = (0 < best.size) ⊎ ((low ≡ 1) × (1 ≤ high) × (high ≤ fuel))

  pub search-positive :
      (fuel : ℕ) (input frame : Bytes) (low high : ℕ) (best : Best)
      → encode (take 1 input) ≡ ok frame
      → 1 ≤ low
      → Hopes fuel low high best
      → 0 < (search encode fuel input low high best).size
  unfolding search Hopes
  search-positive zero input frame low high best one l (inl p) = p
  search-positive zero input frame low high best one l (inr (a, b, c)) = ground (arith, b, c)
  search-positive (suc fuel) input frame low high best one l (inl p) =
      elim (Bool-cases (leb low high)) [
        | inr e ↦ subst (λ b. 0 < b.size) (sym (search-stops fuel input low high best e)) p
        | inl e ↦
            let (above, below) = mid-bounds low high e in
            elim (Result-cases (encode (take (mid low high) input))) [
              | inl (g, f) ↦
                  subst (λ b. 0 < b.size) (sym (search-tries fuel input low high best (ok g) e f))
                    (search-positive fuel input frame (mid low high + 1) high
                      (record { size = mid low high; encoded = g }) one (omega (arith, l))
                      (inl (omega (arith, l, above))))
              | inr (x, f) ↦
                  subst (λ b. 0 < b.size) (sym (search-tries fuel input low high best (fail x) e f))
                    (search-positive fuel input frame low (mid low high - 1) best one l (inl p))
            ]
      ]
  search-positive (suc fuel) input frame low high best one l (inr (a, b, c)) =
      let in_range : leb low high ≡ true = ground (arith, a, b) in
      let (above, below) = mid-bounds low high in_range in
      elim (Result-cases (encode (take (mid low high) input))) [
        | inl (g, f) ↦
            subst (λ b. 0 < b.size) (sym (search-tries fuel input low high best (ok g) in_range f))
              (search-positive fuel input frame (mid low high + 1) high
                (record { size = mid low high; encoded = g }) one (omega (arith, l))
                (inl (omega (arith, l, above))))
        | inr (x, f) ↦
            subst (λ b. 0 < b.size)
              (sym (search-tries fuel input low high best (fail x) in_range f))
              (search-positive fuel input frame low (mid low high - 1) best one l (
                inr (
                  a,
                  above_one (mid low high) x f (omega (arith, a, above)),
                  omega (arith, c, below),
                )))
      ]
    where
      above_one : (m : ℕ) (x : CommandErr) → encode (take m input) ≡ fail x → 1 ≤ m → 1 ≤ m - 1
      above_one m x f k = elim (Bool-cases (m == 1)) [
        | inl e ↦
            ground
              (arith, sym one ∙ subst (λ n. encode (take n input) ≡ fail x) ((==_iff m 1).0 e) f)
        | inr e ↦ ground (arith, e, k)
      ]

  -- `high` is fuel enough where `low` is 1: with a range that the fuel covers, one more unit of fuel
  -- changes nothing.
  search-fuel :
      (fuel : ℕ) (input : Bytes) (low high : ℕ) (best : Best)
      → 1 ≤ low
      → suc high ≤ low + fuel
      → search encode (suc fuel) input low high best ≡ search encode fuel input low high best
  unfolding search
  search-fuel zero input low high best l h =
      search-stops zero input low high best (ground (arith, h))
  search-fuel (suc fuel) input low high best l h = elim (Bool-cases (leb low high)) [
    | inr e ↦
        search-stops (suc fuel) input low high best e
        ∙ sym (search-stops fuel input low high best e)
    | inl e ↦
        let (above, below) = mid-bounds low high e in
        elim (Result-cases (encode (take (mid low high) input))) [
          | inl (g, f) ↦
              search-tries (suc fuel) input low high best (ok g) e f
              ∙ search-fuel fuel input (mid low high + 1) high
                  (record { size = mid low high; encoded = g }) (omega arith)
                  (omega (arith, h, above))
              ∙ sym (search-tries fuel input low high best (ok g) e f)
          | inr (x, f) ↦
              search-tries (suc fuel) input low high best (fail x) e f
              ∙ search-fuel fuel input low (mid low high - 1) best l
                  (omega (arith, h, l, above, below))
              ∙ sym (search-tries fuel input low high best (fail x) e f)
        ]
  ]
