-- ===== src/Text.antt =====
-- Go's strings as lists of bytes, and what the program uses of the packages strings and slices.
-- White space is ASCII's.
pub mod Order
pub mod Pairs
use mygosh.Base.{
  ℕ, ◌≡◌, refl, ap, Bool, true, false, not, ◌&&◌, ◌||◌, List, [], ◌∷◌, ◌==◌, leb, ltb, length,
  if◌then◌else◌,
}
use mygosh.Base.{==_iff, Bool-cases, inl, inr, arith, ◌++◌}
use Prim.Native.Char.{code}
use Prim.Native.String.{String}

abbrev pub Text : Type 0
Text = List ℕ

-- The bytes of an ASCII literal.
unfoldable pub text_of : String → Text
text_of String.[] = []
text_of (String.◌∷◌ c s) = code c ∷ text_of s

unfoldable pub is_space : ℕ → Bool
is_space c = c == 32 || (leb 9 c && leb c 13)

unfoldable pub trim_left : Text → Text
trim_left [] = []
trim_left (c ∷ t) = let rest = trim_left t in if is_space c then rest else c ∷ t

unfoldable pub is_empty : Text → Bool
is_empty [] = true
is_empty (c ∷ t) = false

unfoldable pub trim_right : Text → Text
trim_right [] = []
trim_right (c ∷ t) = let rest = trim_right t in if is_space c && is_empty rest then [] else c ∷ rest

-- `strings.TrimSpace`
unfoldable pub trim_space : Text → Text
trim_space t = trim_right (trim_left t)

-- `strings.ContainsRune` of a byte.
unfoldable pub contains : ℕ → Text → Bool
contains b [] = false
contains b (c ∷ t) = c == b || contains b t

unfoldable pub same : Text → Text → Bool
same [] [] = true
same (x ∷ xs) (y ∷ ys) = x == y && same xs ys
same _ _ = false

unfoldable pub member : Text → List Text → Bool
member t [] = false
member t (u ∷ us) = same t u || member t us

pub same_sound : (s t : Text) → same s t ≡ true → s ≡ t
unfolding same
same_sound [] [] h = refl
same_sound [] (y ∷ ys) h = ground (arith, h)
same_sound (x ∷ xs) [] h = ground (arith, h)
same_sound (x ∷ xs) (y ∷ ys) h = elim (Bool-cases (x == y)) [
  | inl e ↦ rw ((==_iff x y).0 e, same_sound xs ys (rw e at h)) refl
  | inr e ↦ ground (arith, h, e)
]

pub same_self : (t : Text) → same t t ≡ true
unfolding same
same_self [] = refl
same_self (x ∷ xs) = ground (arith, same_self xs)

trim_right-trim_right : (t : Text) → trim_right (trim_right t) ≡ trim_right t
unfolding trim_right is_empty
trim_right-trim_right [] = refl
trim_right-trim_right (c ∷ t) = elim (Bool-cases (is_space c && is_empty (trim_right t))) [
  | inl e ↦ rw e refl
  | inr e ↦ rw (e, trim_right-trim_right t, e) refl
]

-- A text that starts with a byte that is no space, or has none.
trim_left-fixed : (t : Text) → trim_left (trim_right (trim_left t)) ≡ trim_right (trim_left t)
unfolding trim_left trim_right is_empty
trim_left-fixed [] = refl
trim_left-fixed (c ∷ t) = elim (Bool-cases (is_space c)) [
  | inl e ↦ rw e (trim_left-fixed t)
  | inr e ↦ rw (e, e, e) refl
]

pub trim_space-trim_space : (t : Text) → trim_space (trim_space t) ≡ trim_space t
unfolding trim_space
trim_space-trim_space t = rw (trim_left-fixed t) (trim_right-trim_right (trim_left t))

pub member-append :
    (t : Text) (us vs : List Text) → member t (us ++ vs) ≡ (member t us || member t vs)
unfolding member
member-append t [] vs = refl
member-append t (u ∷ us) vs = ground (arith, member-append t us vs)

-- No text of the list stands in it twice.
unfoldable pub Distinct : List Text → Type 0
Distinct [] = Unit
Distinct (t ∷ ts) = (member t ts ≡ false) × Distinct ts
