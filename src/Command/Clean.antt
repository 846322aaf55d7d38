-- ===== src/Command/Clean.antt =====
-- The runs of `serve` in lib/command/server.go in which nothing fails.
use mygosh.Base.{
  ℕ, ◌-◌, ◌≡◌, refl, sym, ap, subst, ◌∙◌, Bool, true, false, none, some, List, [], ◌∷◌, ◌==◌,
  ==_iff, if◌then◌else◌, arith,
}
use mygosh.Command.Server.{ExitResult}
use mygosh.Command.Select.{
  Event, input_done, output_done, process_exited, context_ends, context_seen, drain_timeout,
}
use mygosh.Command.Select.{
  Phase, running, draining, finished, Serving, take_output, settle, run_step, drain_step, step_in,
  step, steps,
}

-- The only events are exits of the process and ends without an error of the copiers of output, of
-- which none is left at the end.
unfoldable pub is_clean : ℕ → List Event → Bool
is_clean outputs [] = outputs == 0
is_clean outputs (output_done none ∷ es) = is_clean (outputs - 1) es
is_clean outputs (process_exited r ∷ es) = is_clean outputs es
is_clean outputs (output_done (some e) ∷ es) = false
is_clean outputs (input_done e ∷ es) = false
is_clean outputs (context_ends ∷ es) = false
is_clean outputs (context_seen ∷ es) = false
is_clean outputs (drain_timeout ∷ es) = false

-- The second loop waits for output, and nothing is left after it.
unfoldable pub Left : Phase → ℕ → Type 0
Left running n = Unit
Left draining n = (n == 0) ≡ false
Left finished n = n ≡ 0

pub record Clean (n : ℕ) (s : Serving) : Type 0 where
  pub phase : Phase
  pub is_phase : s.phase ≡ phase
  pub left : Left phase n
  pub copiers : s.pending_outputs ≡ n
  pub no_failure : s.failure ≡ none

settle-Clean :
    (n : ℕ) (s : Serving)
    → s.phase ≡ draining
    → s.pending_outputs ≡ n
    → s.failure ≡ none
    → Clean n (settle s)
unfolding settle Left
settle-Clean n s p c f = go (s.pending_outputs == 0) refl
  where
    go :
        (b : Bool)
        → (s.pending_outputs == 0) ≡ b
        → Clean n (if b then record s { phase = finished } else s)
    go true e = record {
      phase = finished;
      is_phase = refl;
      left = sym c ∙ (==_iff s.pending_outputs 0).0 e;
      copiers = c;
      no_failure = f;
    }
    go false e = record {
      phase = draining;
      is_phase = p;
      left = subst (λ m. (m == 0) ≡ false) c e;
      copiers = c;
      no_failure = f;
    }

-- What the end of a copier without an error keeps.
record Fewer (n : ℕ) (s t : Serving) : Type 0 where
  same_phase : t.phase ≡ s.phase
  copiers : t.pending_outputs ≡ n - 1
  same_failure : t.failure ≡ s.failure

take_output-Fewer : (n : ℕ) (s : Serving) → s.pending_outputs ≡ n → Fewer n s (take_output none s)
unfolding take_output
take_output-Fewer n s c = go (s.pending_outputs == 0) refl
  where
    go :
        (b : Bool)
        → (s.pending_outputs == 0) ≡ b
        → Fewer n s (if b then s else record s { pending_outputs = s.pending_outputs - 1 })
    go true e = record { same_phase = refl; copiers = ground (arith, c, e); same_failure = refl }
    go false e = record { same_phase = refl; copiers = ap (λ m. m - 1) c; same_failure = refl }

step_output-Clean : (n : ℕ) (s : Serving) → Clean n s → Clean (n - 1) (step (output_done none) s)
unfolding step step_in run_step drain_step Left
step_output-Clean n s k = by_phase k.phase k.is_phase k.left
  where
    f : Fewer n s (take_output none s)
    f = take_output-Fewer n s k.copiers

    by_phase :
        (p : Phase) → s.phase ≡ p → Left p n → Clean (n - 1) (step_in s.phase (output_done none) s)
    by_phase running h a =
        subst (λ p. Clean (n - 1) (step_in p (output_done none) s)) (sym h)
          (record {
            phase = running;
            is_phase = f.same_phase ∙ h;
            left = tt;
            copiers = f.copiers;
            no_failure = f.same_failure ∙ k.no_failure;
          })
    by_phase draining h a =
        subst (λ p. Clean (n - 1) (step_in p (output_done none) s)) (sym h)
          (settle-Clean (n - 1) (take_output none s) (f.same_phase ∙ h) f.copiers
            (f.same_failure ∙ k.no_failure))
    by_phase finished h a =
        subst (λ p. Clean (n - 1) (step_in p (output_done none) s)) (sym h)
          (record {
            phase = finished;
            is_phase = h;
            left = omega (arith, a);
            copiers = k.copiers ∙ omega (arith, a);
            no_failure = k.no_failure;
          })

step_exit-Clean :
    (n : ℕ) (r : ExitResult) (s : Serving) → Clean n s → Clean n (step (process_exited r) s)
unfolding step step_in run_step drain_step
step_exit-Clean n r s k = by_phase k.phase k.is_phase
  where
    by_phase : (p : Phase) → s.phase ≡ p → Clean n (step_in s.phase (process_exited r) s)
    by_phase running h =
        subst (λ p. Clean n (step_in p (process_exited r) s)) (sym h)
          (settle-Clean n (record s { phase = draining; result = r }) refl k.copiers k.no_failure)
    by_phase draining h = subst (λ p. Clean n (step_in p (process_exited r) s)) (sym h) k
    by_phase finished h = subst (λ p. Clean n (step_in p (process_exited r) s)) (sym h) k

steps-Clean :
    (es : List Event) (n : ℕ) (s : Serving)
    → Clean n s
    → is_clean n es ≡ true
    → Clean 0 (steps es s)
unfolding is_clean steps
steps-Clean [] n s k h = subst (λ m. Clean m s) ((==_iff n 0).0 h) k
steps-Clean (output_done none ∷ es) n s k h =
    steps-Clean es (n - 1) (step (output_done none) s) (step_output-Clean n s k) h
steps-Clean (process_exited r ∷ es) n s k h =
    steps-Clean es n (step (process_exited r) s) (step_exit-Clean n r s k) h
steps-Clean (output_done (some e) ∷ es) n s k h = ground (arith, h)
steps-Clean (input_done e ∷ es) n s k h = ground (arith, h)
steps-Clean (context_ends ∷ es) n s k h = ground (arith, h)
steps-Clean (context_seen ∷ es) n s k h = ground (arith, h)
steps-Clean (drain_timeout ∷ es) n s k h = ground (arith, h)

-- The drain timer finds a clean run over, or not begun to end.
drain_timeout-none : (s : Serving) → Clean 0 s → (step drain_timeout s).failure ≡ none
unfolding step step_in run_step Left
drain_timeout-none s k = by_phase k.phase k.is_phase k.left
  where
    by_phase :
        (p : Phase) → s.phase ≡ p → Left p 0 → (step_in s.phase drain_timeout s).failure ≡ none
    by_phase running h a =
        subst (λ p. (step_in p drain_timeout s).failure ≡ none) (sym h) k.no_failure
    by_phase draining h a = absurd (ground (arith, a))
    by_phase finished h a =
        subst (λ p. (step_in p drain_timeout s).failure ≡ none) (sym h) k.no_failure

-- In a clean run no failure is recorded, also when the drain timer fires behind it.
pub drain_timeout-steps :
    (es : List Event) (n : ℕ) (s : Serving)
    → Clean n s
    → is_clean n es ≡ true
    → (step drain_timeout (steps es s)).failure ≡ none
drain_timeout-steps es n s k h = drain_timeout-none (steps es s) (steps-Clean es n s k h)
