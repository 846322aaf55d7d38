-- ===== src/Text/Order.antt =====
-- The order of texts by bytes, and sorting by it, for slices.Sort.
use mygosh.Base.{
  ◌++◌, suc, ◌≡◌, refl, Bool, true, false, ◌||◌, List, [], ◌∷◌, ◌==◌, ltb, length, if◌then◌else◌,
}
use mygosh.Base.{All, Bool-cases, inl, inr, arith, subst, ◌∙◌}
use mygosh.Text.{Text, same, member, Distinct, member-append, same_sound, same_self}

unfoldable pub text_leb : Text → Text → Bool
text_leb [] u = true
text_leb (x ∷ t) [] = false
text_leb (x ∷ t) (y ∷ u) =
    let rest = text_leb t u in if ltb x y then true else if x == y then rest else false

unfoldable pub insert : Text → List Text → List Text
insert t [] = t ∷ []
insert t (u ∷ us) = let rest = insert t us in if text_leb t u then t ∷ u ∷ us else u ∷ rest

-- `slices.Sort`
unfoldable pub sort : List Text → List Text
sort [] = []
sort (t ∷ ts) = insert t (sort ts)

unfoldable pub Sorted : List Text → Type 0
Sorted [] = Unit
Sorted (t ∷ []) = Unit
Sorted (t ∷ u ∷ us) = (text_leb t u ≡ true) × Sorted (u ∷ us)

text_leb_total : (t u : Text) → text_leb t u ≡ false → text_leb u t ≡ true
unfolding text_leb
text_leb_total [] u h = ground (arith, h)
text_leb_total (x ∷ t) [] h = refl
text_leb_total (x ∷ t) (y ∷ u) h = ground (arith, h, text_leb_total t u)

insert-Sorted_after :
    (v t : Text) (us : List Text)
    → text_leb v t ≡ true
    → Sorted (v ∷ us)
    → Sorted (insert t us)
    → Sorted (v ∷ insert t us)
unfolding Sorted insert
insert-Sorted_after v t [] h s i = (h, tt)
insert-Sorted_after v t (u ∷ us) h s i = elim (Bool-cases (text_leb t u)) [
  | inl e ↦ rw e (h, (e, s.1))
  | inr e ↦ rw e (s.0, rw e at i)
]

insert-Sorted : (t : Text) (us : List Text) → Sorted us → Sorted (insert t us)
unfolding Sorted insert
insert-Sorted t [] s = tt
insert-Sorted t (u ∷ us) s = elim (Bool-cases (text_leb t u)) [
  | inl e ↦ rw e (e, s)
  | inr e ↦
      rw e (insert-Sorted_after u t us (text_leb_total t u e) s (insert-Sorted t us (tail u us s)))
]
  where
    tail : (u : Text) (us : List Text) → Sorted (u ∷ us) → Sorted us
    tail u [] s = tt
    tail u (v ∷ vs) s = s.1

pub sort-Sorted : (ts : List Text) → Sorted (sort ts)
unfolding Sorted sort
sort-Sorted [] = tt
sort-Sorted (t ∷ ts) = insert-Sorted t (sort ts) (sort-Sorted ts)

-- A sorted list is its own sorting.
pub sort_fixed : (ts : List Text) → Sorted ts → sort ts ≡ ts
unfolding Sorted sort insert
sort_fixed [] s = refl
sort_fixed (t ∷ []) s = refl
sort_fixed (t ∷ u ∷ us) s = rw (sort_fixed (u ∷ us) s.1, s.0) refl

member-insert : (x t : Text) (us : List Text) → member x (insert t us) ≡ (same x t || member x us)
unfolding member insert
member-insert x t [] = refl
member-insert x t (u ∷ us) = ground (arith, member-insert x t us)

pub member-sort : (x : Text) (ts : List Text) → member x (sort ts) ≡ member x ts
unfolding member sort
member-sort x [] = refl
member-sort x (t ∷ ts) = rw (member-insert x t (sort ts), member-sort x ts) refl

length-insert : (t : Text) (us : List Text) → length (insert t us) ≡ suc (length us)
unfolding insert
length-insert t [] = refl
length-insert t (u ∷ us) = ground (arith, length-insert t us)

pub length-sort : (ts : List Text) → length (sort ts) ≡ length ts
unfolding sort
length-sort [] = refl
length-sort (t ∷ ts) = rw (length-insert t (sort ts), length-sort ts) refl

All-insert {ℓ} :
    (P : Text → Type ℓ) (t : Text) (us : List Text) → P t → All P us → All P (insert t us)
unfolding insert
All-insert P t [] p h = (p, h)
All-insert P t (u ∷ us) p h = elim (Bool-cases (text_leb t u)) [
  | inl e ↦ rw e (p, h)
  | inr e ↦ rw e (h.0, All-insert P t us p h.1)
]

pub All-sort {ℓ} : (P : Text → Type ℓ) (ts : List Text) → All P ts → All P (sort ts)
unfolding sort
All-sort P [] h = h
All-sort P (t ∷ ts) h = All-insert P t (sort ts) h.0 (All-sort P ts h.1)

pub same_sym : (s t : Text) → same s t ≡ false → same t s ≡ false
same_sym s t h = elim (Bool-cases (same t s)) [
  | inl e ↦ ground (arith, h, subst (λ x. same x t ≡ true) (same_sound t s e) (same_self t))
  | inr e ↦ e
]

Distinct-insert :
    (t : Text) (us : List Text) → member t us ≡ false → Distinct us → Distinct (insert t us)
unfolding insert Distinct member
Distinct-insert t [] n d = (n, d)
Distinct-insert t (u ∷ us) n d = elim (Bool-cases (text_leb t u)) [
  | inl e ↦ rw e (n, d)
  | inr e ↦ rw e (
    rw (member-insert u t us, same_sym t u (ground (arith, n))) d.0,
    Distinct-insert t us (ground (arith, n)) d.1,
  )
]

pub Distinct-sort : (ts : List Text) → Distinct ts → Distinct (sort ts)
unfolding sort Distinct
Distinct-sort [] d = d
Distinct-sort (t ∷ ts) d =
    Distinct-insert t (sort ts) (member-sort t ts ∙ d.0) (Distinct-sort ts d.1)

-- A name of a list without repetitions is new to the names before it.
pub new_name :
    (allowed names : List Text) (x : Text)
    → Distinct (allowed ++ (x ∷ names))
    → member x allowed ≡ false
unfolding Distinct member
new_name [] names x d = refl
new_name (u ∷ allowed) names x d = rw (same_sym u x apart, new_name allowed names x d.1) refl
  where
    apart : same u x ≡ false
    apart = ground (arith, d.0, member-append u allowed (x ∷ names))
