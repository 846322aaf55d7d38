-- ===== src/Base/Maps.antt =====
-- Go maps with integer keys: an association list, and a list of keys for a set.
use mygosh.Base.Tests.{◌==◌, if◌then◌else◌, Bool-cases}
use mygosh.Base.Lists.{All, length, sum_by}
use Prim.Native.Nat.{ℕ, ◌+◌, ◌≤◌}
use mathlib.Core.Path.{◌≡◌, refl, subst}
use mathlib.Core.Logic.{inl, inr}
use mathlib.Core.Bool.{Bool, true, false}
use mathlib.Core.Option.{Option, none, some}
use mathlib.Core.List.{List, [], ◌∷◌}
use native.Mathlib.Omega.{arith}

module _ {ℓ} {V : Type ℓ} where
  unfoldable pub lookup : ℕ → List (ℕ × V) → Option V
  lookup k [] = none
  lookup k ((j, v) ∷ m) = if j == k then some v else lookup k m

  -- Rewrites the entry that `lookup` finds; an absent key changes nothing.
  unfoldable pub update : ℕ → (V → V) → List (ℕ × V) → List (ℕ × V)
  update k f [] = []
  update k f ((j, w) ∷ m) = if j == k then (j, f w) ∷ m else (j, w) ∷ update k f m

  pub lookup-update_self :
      (k : ℕ) (f : V → V) (w : V) (m : List (ℕ × V))
      → lookup k m ≡ some w
      → lookup k (update k f m) ≡ some (f w)
  unfolding lookup update
  lookup-update_self k f w [] h = ground arith
  lookup-update_self k f w ((j, u) ∷ m) h = ground (arith, lookup-update_self k f w m)

  pub lookup-update_ne :
      (k i : ℕ) (f : V → V) (m : List (ℕ × V))
      → (i == k) ≡ false
      → lookup k (update i f m) ≡ lookup k m
  unfolding lookup update
  lookup-update_ne k i f [] h = refl
  lookup-update_ne k i f ((j, u) ∷ m) h = ground (arith, lookup-update_ne k i f m)

  -- A measure of the values, over a map in which one entry is rewritten.
  pub sum_by-update :
      (g : V → ℕ) (k : ℕ) (f : V → V) (w : V) (m : List (ℕ × V))
      → lookup k m ≡ some w
      → sum_by (λ e. g e.1) (update k f m) + g w ≡ sum_by (λ e. g e.1) m + g (f w)
  unfolding lookup update
  sum_by-update g k f w [] h = ground arith
  sum_by-update g k f w ((j, u) ∷ m) h = ground (arith, sum_by-update g k f w m)

  -- A rewriting that keeps the measure of every value keeps the sum.
  pub sum_by-update_same :
      (g : V → ℕ) (k : ℕ) (f : V → V) (m : List (ℕ × V))
      → ((v : V) → g (f v) ≡ g v)
      → sum_by (λ e. g e.1) (update k f m) ≡ sum_by (λ e. g e.1) m
  unfolding update
  sum_by-update_same g k f [] h = refl
  sum_by-update_same g k f ((j, u) ∷ m) h = ground (arith, h u, sum_by-update_same g k f m h)

  pub le-sum_by :
      (g : V → ℕ) (k : ℕ) (w : V) (m : List (ℕ × V))
      → lookup k m ≡ some w
      → g w ≤ sum_by (λ e. g e.1) m
  unfolding lookup
  le-sum_by g k w [] h = ground arith
  le-sum_by g k w ((j, u) ∷ m) h = ground (arith, le-sum_by g k w m)

  pub All-update {κ} :
      (P : V → Type κ) (k : ℕ) (f : V → V) (m : List (ℕ × V))
      → All (λ e. P e.1) m
      → ((v : V) → P v → P (f v))
      → All (λ e. P e.1) (update k f m)
  unfolding update
  All-update P k f [] h p = h
  All-update P k f ((j, u) ∷ m) h p = elim (Bool-cases (j == k)) [
    | inl e ↦ rw e (p u h.0, h.1)
    | inr e ↦ rw e (h.0, All-update P k f m h.1 p)
  ]

  -- The same where the new entry alone is known to be good.
  pub All-update_at {κ} :
      (P : V → Type κ) (k : ℕ) (f : V → V) (w : V) (m : List (ℕ × V))
      → lookup k m ≡ some w
      → All (λ e. P e.1) m
      → P (f w)
      → All (λ e. P e.1) (update k f m)
  unfolding lookup update
  All-update_at P k f w [] e h p = h
  All-update_at P k f w ((j, u) ∷ m) e h p = elim (Bool-cases (j == k)) [
    | inl t ↦ rw t (subst (λ v. P (f v)) (hit t) p, h.1)
    | inr t ↦ rw t (h.0, All-update_at P k f w m (miss t) h.1 p)
  ]
    where
      hit : (j == k) ≡ true → w ≡ u
      hit t = ground arith

      miss : (j == k) ≡ false → lookup k m ≡ some w
      miss t = ground arith

  pub All-lookup {κ} :
      (P : V → Type κ) (k : ℕ) (v : V) (m : List (ℕ × V))
      → All (λ e. P e.1) m
      → lookup k m ≡ some v
      → P v
  unfolding lookup
  All-lookup P k v [] h e = absurd (ground arith)
  All-lookup P k v ((j, u) ∷ m) h e = elim (Bool-cases (j == k)) [
    | inl t ↦ subst P (hit t) h.0
    | inr t ↦ All-lookup P k v m h.1 (miss t)
  ]
    where
      hit : (j == k) ≡ true → u ≡ v
      hit t = ground arith

      miss : (j == k) ≡ false → lookup k m ≡ some v
      miss t = ground arith

-- Sets of keys.
unfoldable pub member : ℕ → List ℕ → Bool
member k [] = false
member k (j ∷ m) = if j == k then true else member k m

-- A key stands in a set once, since what is added is new: its one entry is removed.
unfoldable pub delete : ℕ → List ℕ → List ℕ
delete k [] = []
delete k (j ∷ m) = if j == k then m else j ∷ delete k m

pub length-delete : (k : ℕ) (m : List ℕ) → member k m ≡ true → length (delete k m) + 1 ≡ length m
unfolding member delete
length-delete k [] h = cc
length-delete k (j ∷ m) h = ground (arith, length-delete k m)

-- Removes every entry whose value is `v`.
unfoldable pub delete_values : ℕ → List (ℕ × ℕ) → List (ℕ × ℕ)
delete_values v [] = []
delete_values v ((k, w) ∷ m) = if w == v then delete_values v m else (k, w) ∷ delete_values v m
