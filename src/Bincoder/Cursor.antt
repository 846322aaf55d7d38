-- ===== src/Bincoder/Cursor.antt =====
-- What is left to read under a decoder's cursor, for lib/bincoder/decoder.go.
use mygosh.Base.{ℕ, ◌+◌, ◌≤◌, ◌≡◌, refl, sym, ap, subst, none, some, [], ◌++◌}
use mygosh.Base.{false, if◌then◌else◌, length, take, drop, ltb, length-append, arith}
use mygosh.Base.{take-append, drop-append, drop-add, length-drop, append_assoc}
use mygosh.Bincoder.{Bytes, slice}
use mygosh.Bincoder.Decoder
use mygosh.Bincoder.Decoder.{Decoder, Read}

-- The decoder has not failed, its cursor is inside the buffer, and `bs` is left of it.
pub record At (m : ℕ) (bs : Bytes) (c : Decoder) : Type 0 where
  pub healthy : c.err ≡ none
  pub inside : c.off ≤ length c.buf
  pub left : drop c.off c.buf ≡ bs
  pub limit : c.max_bytes ≡ m

-- A reader yields `x` from the front bytes `xs`, whatever follows them.
unfoldable pub Reads {ℓ} : {A : Type ℓ} → ℕ → Bytes → A → Read A → Type ℓ
Reads {A = A} m xs x r =
    (rest : Bytes) (c : Decoder) → At m (xs ++ rest) c → ((r c).0 ≡ x) × At m rest (r c).1

take_inside :
    (n : ℕ) (c : Decoder)
    → c.err ≡ none
    → c.off + n ≤ length c.buf
    → Decoder.take n c ≡ (slice c.off n c.buf, record c { off = c.off + n })
unfolding Decoder.take
take_inside n c h k = rw h (ground arith)

pub take-Reads : (m : ℕ) (xs : Bytes) → Reads m xs xs (Decoder.take (length xs))
unfolding Reads Decoder.take slice
take-Reads m xs rest c a = rw (take_inside (length xs) c a.healthy fits) (value, after)
  where
    sized : length xs + length rest + c.off ≡ length c.buf
    sized = omega (arith, length-drop c.off c.buf a.inside, ap length a.left, length-append xs rest)

    fits : c.off + length xs ≤ length c.buf
    fits = omega (arith, sized)

    value : take (length xs) (drop c.off c.buf) ≡ xs
    value = rw a.left (take-append xs rest)

    after : At m rest (record c { off = c.off + length xs })
    after = record {
      healthy = a.healthy;
      inside = fits;
      left = rw (drop-add c.off (length xs) c.buf) (rw a.left (drop-append xs rest));
      limit = a.limit;
    }

-- The sequel of `and_then`, on the first reader's result.
unfoldable resume {ℓ κ} : {A : Type ℓ} {B : Type κ} → B → (A → Read B) → A × Decoder → B × Decoder
resume zero k (x, c) = elim c.err [ some e ↦ (zero, c) | none ↦ k x c ]

resume_healthy {ℓ κ} :
    {A : Type ℓ} {B : Type κ} (zero : B) (k : A → Read B) (t : A × Decoder)
    → t.1.err ≡ none
    → resume zero k t ≡ k t.0 t.1
unfolding resume
resume_healthy {B = B} zero k t h =
    subst (λ e. elim e [ some x ↦ (zero, t.1) | none ↦ k t.0 t.1 ] ≡ k t.0 t.1) (sym h) refl

goes_on {ℓ κ} :
    {A : Type ℓ} {B : Type κ} (m : ℕ) (xs ys rest : Bytes) (x : A) (y zero : B) (k : A → Read B)
    (t : A × Decoder)
    → Reads m ys y (k x)
    → t.0 ≡ x
    → At m (ys ++ rest) t.1
    → ((resume zero k t).0 ≡ y) × At m rest (resume zero k t).1
unfolding Reads
goes_on m xs ys rest x y zero k t q value after =
    rw (resume_healthy zero k t after.healthy, value) (q rest t.1 after)

-- A reader's sequel runs where the reader left off.
pub and_then-Reads {ℓ κ} :
    {A : Type ℓ} {B : Type κ} (m : ℕ) (xs ys : Bytes) (x : A) (y zero : B) (r : Read A)
    (k : A → Read B)
    → Reads m xs x r
    → Reads m ys y (k x)
    → Reads m (xs ++ ys) y (Decoder.and_then r zero k)
unfolding Reads resume Decoder.and_then
and_then-Reads m xs ys x y zero r k p q rest c a =
    let (value, after) = p (ys ++ rest) c (subst (λ bs. At m bs c) (append_assoc xs ys rest) a) in
    goes_on m xs ys rest x y zero k (r c) q value after

-- A guard on the limit that lets the reader pass.
pub if-Reads {ℓ} :
    {A : Type ℓ} (m n : ℕ) (xs : Bytes) (x : A) (bad r : Read A)
    → n ≤ m
    → Reads m xs x r
    → Reads m xs x λ c. if ltb c.max_bytes n then bad c else r c
unfolding Reads
if-Reads m n xs x bad r h q rest c a = rw passes (q rest c a)
  where
    passes : ltb c.max_bytes n ≡ false
    passes = rw a.limit (ground (arith, h))

-- A reader that stands still.
pub return-Reads {ℓ} : {A : Type ℓ} (m : ℕ) (x : A) → Reads m [] x λ c. (x, c)
unfolding Reads
return-Reads m x rest c a = (refl, a)
