-- ===== src/Command/Faults.antt =====
-- What makes `serve` in lib/command/server.go fail while its process runs.
use mygosh.Base.{
  ℕ, ◌+◌, ◌-◌, ◌≡◌, refl, sym, subst, Bool, true, false, not, ◌||◌, Option, none, some, List, [],
  ◌∷◌, ◌==◌, Bool-cases, inl, inr, if◌then◌else◌, arith,
}
use mygosh.Command.{CommandErr, connection_failed}
use mygosh.Command.Select.{
  Event, input_done, output_done, process_exited, context_ends, context_seen, drain_timeout,
}
use mygosh.Command.Select.{
  Phase, running, draining, finished, Serving, fail_with, take_input, take_output, settle, cut_off,
}
use mygosh.Command.Select.{run_step, drain_step, step_in, step, steps}

-- Among the events before the process exits and before the connection's context is over, the
-- reader of input ends, or one of `outputs` copiers of output ends with an error.
unfoldable pub has_fault : ℕ → List Event → Bool
has_fault outputs [] = false
has_fault outputs (input_done e ∷ es) = true
has_fault outputs (output_done none ∷ es) = has_fault (outputs - 1) es
has_fault outputs (output_done (some e) ∷ es) =
    let rest = has_fault outputs es in if outputs == 0 then rest else true
has_fault outputs (process_exited r ∷ es) = false
has_fault outputs (context_ends ∷ es) = false
has_fault outputs (context_seen ∷ es) = has_fault outputs es
has_fault outputs (drain_timeout ∷ es) = has_fault outputs es

abbrev pub HasFailed : Serving → Type 0
HasFailed s = (e : CommandErr) × (s.failure ≡ some e)

fail_with-HasFailed : (e : CommandErr) (s : Serving) → HasFailed (fail_with e s)
unfolding fail_with
fail_with-HasFailed e s = by_failure s.failure refl
  where
    result : Option CommandErr → Serving
    result o = elim o [
      | some x ↦ s
      | none ↦ record s { failure = some e; terminated = s.terminated + 1 }
    ]

    by_failure : (o : Option CommandErr) → s.failure ≡ o → HasFailed (result o)
    by_failure (some x) h = (x, h)
    by_failure none h = (e, refl)

if-HasFailed :
    (b : Bool) (s t : Serving) → HasFailed s → HasFailed t → HasFailed (if b then s else t)
if-HasFailed true s t h k = h
if-HasFailed false s t h k = k

take_output-HasFailed :
    (e : Option CommandErr) (s : Serving) → HasFailed s → HasFailed (take_output e s)
unfolding take_output
take_output-HasFailed none s h = if-HasFailed (s.pending_outputs == 0) _ _ h h
take_output-HasFailed (some x) s h =
    if-HasFailed (s.pending_outputs == 0) _ _ h
      (if-HasFailed (s.output_canceled || s.context_done) _ _ h (fail_with-HasFailed x _))

settle-HasFailed : (s : Serving) → HasFailed s → HasFailed (settle s)
unfolding settle
settle-HasFailed s h = if-HasFailed (s.pending_outputs == 0) _ _ h h

run_step-HasFailed : (e : Event) (s : Serving) → HasFailed s → HasFailed (run_step e s)
unfolding run_step take_input
run_step-HasFailed (input_done e) s h =
    if-HasFailed (not s.input_open) _ _ h
      (if-HasFailed s.context_done _ _ h (fail_with-HasFailed _ _))
run_step-HasFailed (output_done e) s h = take_output-HasFailed e s h
run_step-HasFailed (process_exited r) s h = settle-HasFailed _ h
run_step-HasFailed context_ends s h = h
run_step-HasFailed context_seen s h = if-HasFailed s.context_done _ _ (fail_with-HasFailed _ s) h
run_step-HasFailed drain_timeout s h = h

drain_step-HasFailed : (e : Event) (s : Serving) → HasFailed s → HasFailed (drain_step e s)
unfolding drain_step cut_off
drain_step-HasFailed (input_done e) s h = h
drain_step-HasFailed (output_done e) s h = settle-HasFailed _ (take_output-HasFailed e s h)
drain_step-HasFailed (process_exited r) s h = h
drain_step-HasFailed context_ends s h = h
drain_step-HasFailed context_seen s h = if-HasFailed s.context_done _ _ (fail_with-HasFailed _ s) h
drain_step-HasFailed drain_timeout s h = fail_with-HasFailed _ s

step_in-HasFailed : (p : Phase) (e : Event) (s : Serving) → HasFailed s → HasFailed (step_in p e s)
unfolding step_in
step_in-HasFailed running e s h = run_step-HasFailed e s h
step_in-HasFailed draining e s h = drain_step-HasFailed e s h
step_in-HasFailed finished e s h = h

-- A failure stays.
pub steps-HasFailed : (es : List Event) (s : Serving) → HasFailed s → HasFailed (steps es s)
unfolding steps step
steps-HasFailed [] s h = h
steps-HasFailed (e ∷ es) s h = steps-HasFailed es (step e s) (step_in-HasFailed s.phase e s h)

-- The first loop, with input open, `outputs` copiers and the context not over.
pub record Running (outputs : ℕ) (s : Serving) : Type 0 where
  pub in_loop : s.phase ≡ running
  pub open_input : s.input_open ≡ true
  pub in_context : s.context_done ≡ false
  pub reading : s.output_canceled ≡ false
  pub copiers : s.pending_outputs ≡ outputs

in_first_loop : (e : Event) (s : Serving) → s.phase ≡ running → step e s ≡ run_step e s
unfolding step step_in
in_first_loop e s h = subst (λ p. step_in p e s ≡ run_step e s) (sym h) refl

take_input-fails :
    (n : ℕ) (e : Option CommandErr) (s : Serving) → Running n s → HasFailed (take_input e s)
unfolding take_input
take_input-fails n e s r = rw (r.open_input, r.in_context) (fail_with-HasFailed _ _)

take_output-fails :
    (n : ℕ) (x : CommandErr) (s : Serving)
    → Running n s
    → (n == 0) ≡ false
    → HasFailed (take_output (some x) s)
unfolding take_output
take_output-fails n x s r h = rw (r.copiers, h, r.reading, r.in_context) (fail_with-HasFailed x _)

take_output-Running : (n : ℕ) (s : Serving) → Running n s → Running (n - 1) (take_output none s)
unfolding take_output
take_output-Running n s r = elim (Bool-cases (s.pending_outputs == 0)) [
  | inl e ↦ rw e (record {
    in_loop = r.in_loop;
    open_input = r.open_input;
    in_context = r.in_context;
    reading = r.reading;
    copiers = ground (arith, r.copiers, e);
  })
  | inr e ↦ rw e (record {
    in_loop = r.in_loop;
    open_input = r.open_input;
    in_context = r.in_context;
    reading = r.reading;
    copiers = ground (arith, r.copiers);
  })
]

-- A copier's error is not read where there is no copier.
take_output-none_left :
    (e : Option CommandErr) (s : Serving) → (s.pending_outputs == 0) ≡ true → take_output e s ≡ s
unfolding take_output
take_output-none_left e s h = rw h refl

-- A fault among the events makes the loops fail.
pub steps-fails :
    (es : List Event) (n : ℕ) (s : Serving)
    → Running n s
    → has_fault n es ≡ true
    → HasFailed (steps es s)
unfolding steps has_fault run_step
steps-fails [] n s r h = ground (arith, h)
steps-fails (input_done e ∷ es) n s r h =
    steps-HasFailed es _
      (subst HasFailed (sym (in_first_loop (input_done e) s r.in_loop)) (take_input-fails n e s r))
steps-fails (output_done none ∷ es) n s r h =
    steps-fails es (n - 1) _
      (subst (Running (n - 1)) (sym (in_first_loop (output_done none) s r.in_loop))
        (take_output-Running n s r))
      h
steps-fails (output_done (some x) ∷ es) n s r h =
    subst (λ t. HasFailed (steps es t)) (sym (in_first_loop (output_done (some x)) s r.in_loop))
      (elim (Bool-cases (n == 0)) [
        | inl e ↦
            subst (λ t. HasFailed (steps es t))
              (sym (take_output-none_left (some x) s (rw r.copiers e)))
              (steps-fails es n s r (rw e at h))
        | inr e ↦ steps-HasFailed es _ (take_output-fails n x s r e)
      ])
steps-fails (process_exited q ∷ es) n s r h = ground (arith, h)
steps-fails (context_ends ∷ es) n s r h = ground (arith, h)
steps-fails (context_seen ∷ es) n s r h =
    subst (λ t. HasFailed (steps es t)) (sym (in_first_loop context_seen s r.in_loop))
      (subst (λ b. HasFailed (steps es (if b then fail_with connection_failed s else s)))
        (sym r.in_context) (steps-fails es n s r h))
steps-fails (drain_timeout ∷ es) n s r h =
    subst (λ t. HasFailed (steps es t)) (sym (in_first_loop drain_timeout s r.in_loop))
      (steps-fails es n s r h)
