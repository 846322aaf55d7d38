-- ===== src/Bincoder/Bounds.antt =====
-- About the cursor and the first error of the decoder in lib/bincoder/decoder.go.
use mygosh.Base.{
  ℕ, ◌+◌, ◌≤◌, ◌≡◌, refl, sym, subst, ◌∙◌, Option, none, some, Option-cases, inl, inr,
}
use mygosh.Base.{
  List, [], ◌∷◌, Bool, true, false, not, Bool-cases, length, ltb, ◌==◌, if◌then◌else◌, ◌%◌, ◌^◌,
  arith,
}
use mygosh.Bincoder.{
  Bytes, CodeErr, invalid_bool, over_maximum, invalid_utf8, unexpected, truncated, slice,
}
use mygosh.Bincoder.Decoder
use mygosh.Bincoder.Decoder.{Decoder, Read}

-- From `c` to `d` the buffer and the limit are kept, the cursor moves on inside the buffer, and
-- an error freezes the decoder.
pub record Advances (c d : Decoder) : Type 0 where
  pub buffer : d.buf ≡ c.buf
  pub limit : d.max_bytes ≡ c.max_bytes
  pub forward : c.off ≤ d.off
  pub inside : c.off ≤ length c.buf → d.off ≤ length d.buf
  pub frozen : (e : CodeErr) → c.err ≡ some e → d ≡ c

pub standing : (c : Decoder) → Advances c c
standing c = record {
  buffer = refl;
  limit = refl;
  forward = omega arith;
  inside = λ h. h;
  frozen = λ e h. refl;
}

pub onward : (c d f : Decoder) → Advances c d → Advances d f → Advances c f
onward c d f p q = record {
  buffer = q.buffer ∙ p.buffer;
  limit = q.limit ∙ p.limit;
  forward = omega (arith, p.forward, q.forward);
  inside = λ h. q.inside (p.inside h);
  frozen = λ e h. q.frozen e (subst (λ x. x.err ≡ some e) (sym (p.frozen e h)) h) ∙ p.frozen e h;
}

-- A decoder that has not failed may fail where it stands.
failing : (e : CodeErr) (c : Decoder) → c.err ≡ none → Advances c (Decoder.fail e c)
unfolding Decoder.fail
failing e c h = record {
  buffer = refl;
  limit = refl;
  forward = omega arith;
  inside = λ k. k;
  frozen = λ x k. ground (arith, h, k);
}

unfoldable Keeps {ℓ} : {A : Type ℓ} → Read A → Type 0
Keeps r = (c : Decoder) → Advances c (r c).1

take_healthy : ℕ → Decoder → Bytes × Decoder
take_healthy n c =
    if ltb (length c.buf) (c.off + n)
    then ([], Decoder.fail truncated c)
    else (slice c.off n c.buf, record c { off = c.off + n })

take_healthy-Advances : (n : ℕ) (c : Decoder) → c.err ≡ none → Advances c (take_healthy n c).1
unfolding take_healthy
take_healthy-Advances n c h = elim (Bool-cases (ltb (length c.buf) (c.off + n))) [
  | inl t ↦ rw t (failing truncated c h)
  | inr t ↦ rw t (moved (ground (arith, t)))
]
  where
    moved : c.off + n ≤ length c.buf → Advances c (record c { off = c.off + n })
    moved k = record {
      buffer = refl;
      limit = refl;
      forward = omega arith;
      inside = λ _. k;
      frozen = λ x e. ground (arith, h, e);
    }

take-Keeps : (n : ℕ) → Keeps (Decoder.take n)
unfolding Keeps Decoder.take take_healthy
take-Keeps n c = elim (Option-cases c.err) [
  | inr (e, h) ↦ subst (λ o. Advances c (branch o).1) (sym h) (standing c)
  | inl h ↦ subst (λ o. Advances c (branch o).1) (sym h) (take_healthy-Advances n c h)
]
  where
    branch : Option CodeErr → Bytes × Decoder
    branch o = elim o [ some e ↦ ([], c) | none ↦ take_healthy n c ]

and_then-Keeps {ℓ κ} :
    {A : Type ℓ} {B : Type κ} (r : Read A) (zero : B) (k : A → Read B)
    → Keeps r
    → ((x : A) (c : Decoder) → c.err ≡ none → Advances c (k x c).1)
    → Keeps (Decoder.and_then r zero k)
unfolding Keeps Decoder.and_then
and_then-Keeps {B = B} r zero k p q c = elim (Option-cases (r c).1.err) [
  | inr (e, h) ↦ subst (λ o. Advances c (branch o).1) (sym h) (p c)
  | inl h ↦
      subst (λ o. Advances c (branch o).1) (sym h)
        (onward c (r c).1 (k (r c).0 (r c).1).1 (p c) (q (r c).0 (r c).1 h))
]
  where
    branch : Option CodeErr → B × Decoder
    branch o = elim o [ some e ↦ (zero, (r c).1) | none ↦ k (r c).0 (r c).1 ]

-- A check that lets the value pass, or fails.
checked-Advances {ℓ} :
    {B : Type ℓ} (bad : Bool) (x y : B) (e : CodeErr) (c d : Decoder)
    → c.err ≡ none
    → Advances c d
    → Advances c ((if◌then◌else◌ {A = B × Decoder}) bad (x, Decoder.fail e c) (y, d)).1
checked-Advances true x y e c d h a = failing e c h
checked-Advances false x y e c d h a = a

byte-Keeps : Keeps Decoder.byte
unfolding Decoder.byte
byte-Keeps = and_then-Keeps (Decoder.take 1) 0 _ (take-Keeps 1) λ x c h. standing c

bool-Keeps : Keeps Decoder.bool
unfolding Decoder.bool
bool-Keeps = and_then-Keeps Decoder.byte false _ byte-Keeps λ b c h. elim (Bool-cases (b == 0)) [
  | inl t ↦ rw t (standing c)
  | inr t ↦ elim (Bool-cases (b == 1)) [
    | inl u ↦ rw (t, u) (standing c)
    | inr u ↦ rw (t, u) (failing invalid_bool c h)
  ]
]

u32-Keeps : Keeps Decoder.u32
unfolding Decoder.u32
u32-Keeps = and_then-Keeps (Decoder.take 4) 0 _ (take-Keeps 4) λ x c h. standing c

bytes-Keeps : Keeps Decoder.bytes
unfolding Keeps Decoder.bytes
bytes-Keeps = and_then-Keeps Decoder.u32 [] _ u32-Keeps λ n c h.
    elim (Bool-cases (ltb c.max_bytes n)) [
      | inl t ↦ rw t (failing over_maximum c h)
      | inr t ↦ rw t (take-Keeps n c)
    ]

utf8_string-Keeps : (valid : Bytes → Bool) → Keeps (Decoder.utf8_string valid)
unfolding Decoder.utf8_string
utf8_string-Keeps valid =
    and_then-Keeps Decoder.bytes [] _ bytes-Keeps
      λ b c h. checked-Advances (not (valid b)) [] b invalid_utf8 c c h (standing c)

expect_bytes-Keeps : (want : Bytes) → Keeps (Decoder.expect_bytes want)
unfolding Decoder.expect_bytes
expect_bytes-Keeps want =
    and_then-Keeps (Decoder.take (length want % 2 ^ 32)) tt _ (take-Keeps (length want % 2 ^ 32))
      λ got c h. checked-Advances (not (Decoder.equal got want)) tt tt unexpected c c h (standing c)

-- The calls of a decoder's client.
pub data Call : Type 0 where
  take : ℕ → Call
  byte bool u32 bytes utf8_string : Call
  expect_bytes : Bytes → Call

pub call : (Bytes → Bool) → Call → Decoder → Decoder
call valid (take n) c = (Decoder.take n c).1
call valid byte c = (Decoder.byte c).1
call valid bool c = (Decoder.bool c).1
call valid u32 c = (Decoder.u32 c).1
call valid bytes c = (Decoder.bytes c).1
call valid utf8_string c = (Decoder.utf8_string valid c).1
call valid (expect_bytes want) c = (Decoder.expect_bytes want c).1

pub calls : (Bytes → Bool) → List Call → Decoder → Decoder
calls valid [] c = c
calls valid (x ∷ xs) c = calls valid xs (call valid x c)

call-Advances : (valid : Bytes → Bool) (x : Call) (c : Decoder) → Advances c (call valid x c)
unfolding call Keeps
call-Advances valid (take n) c = take-Keeps n c
call-Advances valid byte c = byte-Keeps c
call-Advances valid bool c = bool-Keeps c
call-Advances valid u32 c = u32-Keeps c
call-Advances valid bytes c = bytes-Keeps c
call-Advances valid utf8_string c = utf8_string-Keeps valid c
call-Advances valid (expect_bytes want) c = expect_bytes-Keeps want c

-- Whatever a client calls, in whatever order: the buffer and the limit stay as they are, the
-- cursor never moves back, it never leaves the buffer it was in, and after a first error no call
-- changes the decoder.
pub calls-Advances :
    (valid : Bytes → Bool) (xs : List Call) (c : Decoder) → Advances c (calls valid xs c)
unfolding calls
calls-Advances valid [] c = standing c
calls-Advances valid (x ∷ xs) c =
    onward c (call valid x c) (calls valid xs (call valid x c)) (call-Advances valid x c)
      (calls-Advances valid xs (call valid x c))
