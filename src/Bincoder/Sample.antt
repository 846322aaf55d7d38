-- ===== src/Bincoder/Sample.antt =====
-- A writer with short writes, for the examples of lib/bincoder and of the packages over it.
use mygosh.Base.{ℕ, ◌≤◌, refl, none, ◌++◌, length, take, ltb, if◌then◌else◌, arith}
use mygosh.Bincoder.{Bytes}
use mygosh.Bincoder.Stream.{Written}
use mygosh.Bincoder.Writing.{Honest}

-- It sends at most three bytes in one call. Its state is what it sent.
abbrev pub short_count : ℕ → ℕ
short_count n = if ltb 3 n then 3 else n

abbrev pub short_writer : Bytes → Bytes → Written Bytes
short_writer w p = record {
  count = short_count (length p);
  error = none;
  next = w ++ take (short_count (length p)) p;
}

pub short_writer-Honest : Honest Bytes short_writer λ w. w
short_writer-Honest = record { bounded = λ w p. short_count-le (length p); appends = λ w p. refl }
  where
    short_count-le : (n : ℕ) → short_count n ≤ n
    short_count-le n = ground arith
