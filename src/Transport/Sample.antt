-- ===== src/Transport/Sample.antt =====
-- A toy cipher and two keyed peers, for the examples of lib/transport and lib/wire.
use mygosh.Base.{
  ℕ, suc, ◌≡◌, refl, subst, ap, true, Option, none, some, [], ◌∷◌, ◌==◌, if◌then◌else◌, arith,
}
use mygosh.Bincoder.{Bytes}
use mygosh.Transport.{Transport}
use mygosh.Transport.Frames.{Opens}

-- A cipher state that numbers its frames.
abbrev pub seal : ℕ → Bytes → Option Bytes × ℕ
seal s p = (some (s ∷ p), suc s)

abbrev pub unseal : ℕ → Bytes → Option Bytes × ℕ
unseal s [] = (none, s)
unseal s (x ∷ c) = if x == s then (some c, suc s) else (none, s)

pub seal-Opens : Opens ℕ seal unseal
unfolding Opens
seal-Opens s p c h = subst (λ x. unseal s x ≡ (some p, suc s)) (sealed h) (rw (same s) refl)
  where
    same : (k : ℕ) → (k == k) ≡ true
    same k = ground arith

    sealed : some (s ∷ p) ≡ some c → s ∷ p ≡ c
    sealed e = ap (λ o. elim o [ none ↦ [] | some x ↦ x ]) e

abbrev pub peer : Transport Bytes ℕ
peer = record { conn = []; incoming = []; tx = none; rx = none; channel_binding = 1 ∷ [] }

-- The two sides of one connection, keyed by the same two cipher states.
abbrev pub client : Transport Bytes ℕ
client = record { conn = []; incoming = []; tx = some 0; rx = some 50; channel_binding = 1 ∷ [] }

abbrev pub server : Transport Bytes ℕ
server = record { conn = []; incoming = []; tx = some 50; rx = some 0; channel_binding = 1 ∷ [] }
