-- ===== src/Bincoder/Writing.antt =====
-- The loop of `writeFull` in lib/bincoder/rw.go over any writer that keeps io.Writer's contract.
use mygosh.Base.{
  ℕ, zero, suc, ◌+◌, ◌≤◌, ◌<◌, ◌≡◌, ◌≢◌, refl, sym, ap, ◌∙◌, Option, none, some, inl, inr,
}
use mygosh.Base.{List, [], ◌∷◌, ◌++◌, Bool-cases, length, take, drop, ◌==◌, arith}
use mygosh.Base.{append_nil, append_assoc, length-drop}
use native.Mathlib.Nat.{suc-add}
use mygosh.Bincoder.{Bytes}
use mygosh.Bincoder.Stream
use mygosh.Bincoder.Stream.{Written, IoErr, no_fuel, device, short_write}

-- The documented contract of `Write`: the count is at most the length, and just the counted
-- bytes are sent. `sent` is all that was sent so far.
pub record Honest {ℓ} (W : Type ℓ) (write : W → Bytes → Written W) (sent : W → Bytes) : Type ℓ where
  pub bounded : (w : W) (p : Bytes) → (write w p).count ≤ length p
  pub appends : (w : W) (p : Bytes) → sent (write w p).next ≡ sent w ++ take (write w p).count p

-- How a loop over `p` from a state that had sent `before` may end.
pub record Ended (before p after : Bytes) (error : Option IoErr) : Type 0 where
  pub count : ℕ
  pub bounded : count ≤ length p
  pub prefix : after ≡ before ++ take count p
  pub complete : error ≡ none → count ≡ length p
  pub fuelled : error ≢ some no_fuel

at_end : (before : Bytes) → Ended before [] before none
at_end before = record {
  count = 0;
  bounded = omega arith;
  prefix = sym (append_nil before);
  complete = λ e. refl;
  fuelled = λ e. ground (arith, e);
}

take-take-drop {ℓ} :
    {A : Type ℓ} (m n : ℕ) (xs : List A) → take m xs ++ take n (drop m xs) ≡ take (m + n) xs
take-take-drop zero n xs = rw (plus n) refl
  where
    plus : (k : ℕ) → 0 + k ≡ k
    plus k = omega arith
take-take-drop (suc m) zero [] = rw (plus m) refl
  where
    plus : (k : ℕ) → suc k + 0 ≡ suc k
    plus k = omega arith
take-take-drop (suc m) (suc n) [] = rw (plus m n) refl
  where
    plus : (k l : ℕ) → suc k + suc l ≡ suc (k + suc l)
    plus k l = omega arith
take-take-drop (suc m) n (x ∷ xs) = rw (suc-add m n) (ap (◌∷◌ x) (take-take-drop m n xs))

-- A round that sent the front of `p`, and the loop over what is left.
one_more :
    (before middle p after : Bytes) (k : ℕ) (error : Option IoErr)
    → k ≤ length p
    → middle ≡ before ++ take k p
    → Ended middle (drop k p) after error
    → Ended before p after error
one_more before middle p after k error h e n = record {
  count = k + n.count;
  bounded = omega (arith, n.bounded, length-drop k p h);
  prefix =
      n.prefix
      ∙ (rw e (append_assoc before (take k p) (take n.count (drop k p))))
      ∙ ap (◌++◌ before) (take-take-drop k n.count p);
  complete = λ x. omega (arith, n.complete x, length-drop k p h);
  fuelled = n.fuelled;
}

-- A round that ends the loop.
stopped :
    (before p after : Bytes) (k : ℕ) (e : IoErr)
    → k ≤ length p
    → after ≡ before ++ take k p
    → e ≢ no_fuel
    → Ended before p after (some e)
stopped before p after k e h a n = record {
  count = k;
  bounded = h;
  prefix = a;
  complete = λ x. ground (arith, x);
  fuelled = λ x. n (ground (arith, x));
}

module _ {ℓ} {W : Type ℓ} (write : W → Bytes → Written W) (sent : W → Bytes)
    (honest : Honest W write sent) where
  round-Ended :
      (w : W) (p : Bytes) (error : Option ℕ) (n : ℕ) (v : W) (rest : Option IoErr × W)
      → n ≤ length p
      → sent v ≡ sent w ++ take n p
      → (0 < n → Ended (sent v) (drop n p) (sent rest.1) rest.0)
      → let (e, u) = Stream.after_write error n v rest in Ended (sent w) p (sent u) e
  unfolding Stream.after_write
  round-Ended w p (some e) n v rest h a k =
      stopped (sent w) p (sent v) n (device e) h a λ x. ground (arith, x)
  round-Ended w p none n v rest h a k = elim (Bool-cases (n == 0)) [
    | inl t ↦ rw t (stopped (sent w) p (sent v) n short_write h a λ x. ground (arith, x))
    | inr t ↦ rw t (one_more (sent w) (sent v) p (sent rest.1) n rest.0 h a (k (ground (arith, t))))
  ]

  write_loop-Ended :
      (fuel : ℕ) (p : Bytes) (w : W)
      → length p ≤ fuel
      → let (error, v) = Stream.write_loop write fuel p w in Ended (sent w) p (sent v) error
  unfolding Stream.write_loop
  write_loop-Ended fuel [] w h = at_end (sent w)
  write_loop-Ended zero (b ∷ p) w h = ground (arith, h)
  write_loop-Ended (suc fuel) (b ∷ p) w h =
      let r = write w (b ∷ p) in
      let next = write_loop-Ended fuel (drop r.count (b ∷ p)) r.next in
      round-Ended w (b ∷ p) r.error r.count r.next
        (Stream.write_loop write fuel (drop r.count (b ∷ p)) r.next) (honest.bounded w (b ∷ p))
        (honest.appends w (b ∷ p))
        λ k. next (omega (arith, k, h, length-drop r.count (b ∷ p) (honest.bounded w (b ∷ p))))

  -- Over a writer that keeps its contract, the loop of `writeFull` ends, having sent a prefix of
  -- the bytes; when it returns no error, it has sent them all.
  pub write_full-Ended :
      (p : Bytes) (w : W)
      → let (error, v) = Stream.write_full write p w in Ended (sent w) p (sent v) error
  unfolding Stream.write_full
  write_full-Ended p w = write_loop-Ended (length p) p w (omega arith)
