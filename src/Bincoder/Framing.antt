-- ===== src/Bincoder/Framing.antt =====
-- Length-prefixed byte strings over a stream, for lib/bincoder/rw.go.
use mygosh.Base.{
  ◌⊎◌, ℕ, zero, suc, ◌+◌, ◌≤◌, ◌<◌, ◌≡◌, refl, sym, ap, subst, ◌∙◌, Option, none, some, inl, inr,
}
use mygosh.Base.{
  List, [], ◌∷◌, ◌++◌, Bool, true, false, not, ◌&&◌, length, take, drop, ltb, ◌==◌, arith,
}
use mygosh.Base.{length-append, take-append, drop-append, append_assoc, ◌%◌, ◌^◌, max_uint32}
use mygosh.Bincoder.{Bytes, put_u32, get-put_u32, length-put_u32}
use native.Mathlib.Nat.{suc-add}
use mygosh.Bincoder.Stream
use mygosh.Bincoder.Stream.{Written, Got, got, failed, IoErr, too_large}
use mygosh.Bincoder.Writing.{Honest, Ended, write_full-Ended}

read_full-append :
    (n : ℕ) (xs rest : Bytes) → length xs ≡ n → Stream.read_full n (xs ++ rest) ≡ got xs rest
unfolding Stream.read_full
read_full-append n xs rest h = rw (enough, front, back) refl
  where
    enough : ltb (length (xs ++ rest)) n ≡ false
    enough = ground (arith, h, length-append xs rest)

    front : take n (xs ++ rest) ≡ xs
    front = subst (λ k. take k (xs ++ rest) ≡ xs) h (take-append xs rest)

    back : drop n (xs ++ rest) ≡ rest
    back = subst (λ k. drop k (xs ++ rest) ≡ rest) h (drop-append xs rest)

read_u32-append :
    (n : ℕ) (rest : Bytes) → n < 4294967296 → Stream.read_u32 (put_u32 n ++ rest) ≡ got n rest
unfolding Stream.read_u32 Stream.then_read
read_u32-append n rest h =
    rw (read_full-append 4 (put_u32 n) rest (length-put_u32 n), get-put_u32 n h) refl

-- The maximum of `ReadBytes`, with 0 for none.
unfoldable pub Admits : ℕ → ℕ → Type 0
Admits max n = (max ≡ 0) ⊎ (n ≤ max)

-- What `WriteBytes` puts on the stream.
unfoldable pub framed : Bytes → Bytes
framed b = put_u32 (length b) ++ b

pub read_bytes-framed :
    (max : ℕ) (b rest : Bytes)
    → max ≤ max_uint32
    → length b ≤ max_uint32
    → Admits max (length b)
    → Stream.read_bytes max (framed b ++ rest) ≡ got b rest
unfolding Stream.read_bytes Stream.then_read Admits framed
read_bytes-framed max b rest m h a =
    rw
      (
        append_assoc (put_u32 (length b)) b rest,
        read_u32-append (length b) (b ++ rest) (omega (arith, h)),
        passes,
      )
      (read_full-append (length b) b rest refl)
  where
    passes : (not (max == 0) && ltb (max % 2 ^ 32) (length b)) ≡ false
    passes = elim a [ inl e ↦ rw e refl | inr l ↦ rw (fits l) (and_false (not (max == 0))) ]
      where
        fits : length b ≤ max → ltb (max % 2 ^ 32) (length b) ≡ false
        fits l = ground (arith, l, m)

        and_false : (x : Bool) → (x && false) ≡ false
        and_false true = refl
        and_false false = refl

take_all {ℓ} : {A : Type ℓ} (xs : List A) → take (length xs) xs ≡ xs
take_all [] = refl
take_all (x ∷ xs) = ap (◌∷◌ x) (take_all xs)

take-append_front {ℓ} :
    {A : Type ℓ} (n : ℕ) (xs ys : List A) → n ≤ length xs → take n (xs ++ ys) ≡ take n xs
take-append_front zero xs ys h = refl
take-append_front (suc n) [] ys h = ground (arith, h)
take-append_front (suc n) (x ∷ xs) ys h = ap (◌∷◌ x) (take-append_front n xs ys (below h))
  where
    below : suc n ≤ suc (length xs) → n ≤ length xs
    below k = omega arith

take-append_back {ℓ} :
    {A : Type ℓ} (n : ℕ) (xs ys : List A) → take (length xs + n) (xs ++ ys) ≡ xs ++ take n ys
take-append_back n [] ys = rw (plus n) refl
  where
    plus : (k : ℕ) → 0 + k ≡ k
    plus k = omega arith
take-append_back n (x ∷ xs) ys = rw (suc-add (length xs) n) (ap (◌∷◌ x) (take-append_back n xs ys))

sequel-Ended {ℓ} :
    {W : Type ℓ} (sent : W → Bytes) (before xs ys : Bytes) (t : Option IoErr × W)
    (k : W → Option IoErr × W)
    → Ended before xs (sent t.1) t.0
    → ((v : W) → Ended (sent v) ys (sent (k v).1) (k v).0)
    → Ended before (xs ++ ys) (sent (Stream.then_write t k).1) (Stream.then_write t k).0
unfolding Stream.then_write
sequel-Ended sent before xs ys (some e, v) k p q = record {
  count = p.count;
  bounded = omega (arith, p.bounded, length-append xs ys);
  prefix = p.prefix ∙ ap (◌++◌ before) (sym (take-append_front p.count xs ys p.bounded));
  complete = λ x. ground (arith, x);
  fuelled = p.fuelled;
}
sequel-Ended sent before xs ys (none, v) k p q = record {
  count = length xs + (q v).count;
  bounded = omega (arith, (q v).bounded, length-append xs ys);
  prefix =
      (q v).prefix
      ∙ (rw (p.prefix, p.complete refl, take_all xs) (append_assoc before xs (take (q v).count ys)))
      ∙ ap (◌++◌ before) (sym (take-append_back (q v).count xs ys));
  complete = λ x. omega (arith, (q v).complete x, length-append xs ys);
  fuelled = (q v).fuelled;
}

module _ {ℓ} {W : Type ℓ} (write : W → Bytes → Written W) (sent : W → Bytes)
    (honest : Honest W write sent) where
  -- `WriteBytes` of a payload that the length field can hold sends a prefix of the length and the
  -- payload, and all of it if it returns no error; it always returns.
  pub write_bytes-Ended :
      (b : Bytes) (w : W)
      → length b ≤ max_uint32
      → let (error, v) = Stream.write_bytes write b w in Ended (sent w) (framed b) (sent v) error
  unfolding Stream.write_bytes Stream.write_u32 framed
  write_bytes-Ended b w h =
      rw (fits, exact)
        (sequel-Ended sent (sent w) (put_u32 (length b)) b
          (Stream.write_full write (put_u32 (length b)) w) (Stream.write_full write b)
          (write_full-Ended write sent honest (put_u32 (length b)) w)
          (λ v. write_full-Ended write sent honest b v))
    where
      fits : ltb max_uint32 (length b) ≡ false
      fits = ground (arith, h)

      exact : length b % 2 ^ 32 ≡ length b
      exact = omega (arith, h)

  pub write_bytes-sends :
      (b : Bytes) (w v : W)
      → length b ≤ max_uint32
      → Stream.write_bytes write b w ≡ (none, v)
      → sent v ≡ sent w ++ framed b
  write_bytes-sends b w v h e =
      ended.prefix ∙ ap (◌++◌ (sent w)) (rw (ended.complete refl) (take_all (framed b)))
    where
      ended : Ended (sent w) (framed b) (sent v) none
      ended =
          subst (λ (r : Option IoErr × W). Ended (sent w) (framed b) (sent r.1) r.0) e
            (write_bytes-Ended b w h)
