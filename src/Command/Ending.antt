-- ===== src/Command/Ending.antt =====
-- How `serve` in lib/command/server.go ends.
use mygosh.Base.{
  ℕ, ◌+◌, ◌-◌, ◌≡◌, refl, sym, ap, subst, ◌∙◌, Bool, true, false, not, ◌||◌, Option, none, some,
}
use mygosh.Base.{List, [], ◌∷◌, ◌==◌, ==_iff, if◌then◌else◌, arith}
use mygosh.Command.{CommandErr, connection_failed, deadline_exceeded}
use mygosh.Command.Server.{ExitResult}
use mygosh.Command.Select.{
  Event, input_done, output_done, process_exited, context_ends, context_seen, drain_timeout,
}
use mygosh.Command.Select.{
  Phase, running, draining, finished, Serving, fail_with, take_input, take_output, settle, cut_off,
}
use mygosh.Command.Select.{run_step, drain_step, step_in, step, steps}

-- The process is told to end once if something failed, and never otherwise.
unfoldable pub Counted : Option CommandErr → ℕ → Type 0
Counted none n = n ≡ 0
Counted (some e) n = n ≡ 1

-- `t` is `s` with perhaps other outputs and failures, which are still counted.
record Stays (s t : Serving) : Type 0 where
  same_phase : t.phase ≡ s.phase
  same_result : t.result ≡ s.result
  counted : Counted s.failure s.terminated → Counted t.failure t.terminated

itself : (s : Serving) → Stays s s
itself s = record { same_phase = refl; same_result = refl; counted = λ c. c }

if-Stays : (s t u : Serving) (b : Bool) → Stays s t → Stays s u → Stays s (if b then t else u)
if-Stays s t u true h k = h
if-Stays s t u false h k = k

trans-Stays : (s t u : Serving) → Stays s t → Stays t u → Stays s u
trans-Stays s t u h k = record {
  same_phase = k.same_phase ∙ h.same_phase;
  same_result = k.same_result ∙ h.same_result;
  counted = λ c. k.counted (h.counted c);
}

fail_with-Stays : (e : CommandErr) (s : Serving) → Stays s (fail_with e s)
unfolding fail_with Counted
fail_with-Stays e s = by_failure s.failure refl
  where
    result : Option CommandErr → Serving
    result o = elim o [
      | some x ↦ s
      | none ↦ record s { failure = some e; terminated = s.terminated + 1 }
    ]

    one_more : Counted none s.terminated → s.terminated + 1 ≡ 1
    one_more c = omega (arith, c)

    by_failure : (o : Option CommandErr) → s.failure ≡ o → Stays s (result s.failure)
    by_failure (some x) h = subst (λ o. Stays s (result o)) (sym h) (itself s)
    by_failure none h =
        subst (λ o. Stays s (result o)) (sym h)
          (record {
            same_phase = refl;
            same_result = refl;
            counted = λ c. one_more (subst (λ o. Counted o s.terminated) h c);
          })

take_input-Stays : (e : Option CommandErr) (s : Serving) → Stays s (take_input e s)
unfolding take_input
take_input-Stays e s =
    let t = record s { input_open = false } in
    let moved : Stays s t = record { same_phase = refl; same_result = refl; counted = λ c. c } in
    if-Stays s _ _ (not s.input_open) (itself s)
      (if-Stays s _ _ s.context_done moved (trans-Stays s t _ moved (fail_with-Stays _ t)))

take_output-Stays : (e : Option CommandErr) (s : Serving) → Stays s (take_output e s)
unfolding take_output
take_output-Stays e s = if-Stays s _ _ (s.pending_outputs == 0) (itself s) (by_error e)
  where
    t : Serving
    t = record s { pending_outputs = s.pending_outputs - 1 }

    moved : Stays s t
    moved = record { same_phase = refl; same_result = refl; counted = λ c. c }

    by_error :
        (e : Option CommandErr)
        → Stays s (elim e [
          | none ↦ t
          | some x ↦ if s.output_canceled || s.context_done then t else fail_with x t
        ])
    by_error none = moved
    by_error (some x) =
        if-Stays s t _ (s.output_canceled || s.context_done) moved
          (trans-Stays s t _ moved (fail_with-Stays x t))

-- What the first exit of the process was.
unfoldable pub note : Event → Option ExitResult → Option ExitResult
note (process_exited r) none = some r
note (process_exited r) (some q) = some q
note (input_done e) x = x
note (output_done e) x = x
note context_ends x = x
note context_seen x = x
note drain_timeout x = x

unfoldable pub noted : List Event → Option ExitResult → Option ExitResult
noted [] x = x
noted (e ∷ es) x = noted es (note e x)

-- The phase agrees with the exit that was seen.
unfoldable pub At : Phase → Serving → Option ExitResult → Type 0
At running s x = x ≡ none
At draining s x = x ≡ some s.result
At finished s x = (x ≡ some s.result) × (s.pending_outputs ≡ 0)

pub record Reached (s : Serving) (x : Option ExitResult) : Type 0 where
  pub phase : Phase
  pub is_phase : s.phase ≡ phase
  pub at : At phase s x
  pub counted : Counted s.failure s.terminated

settle-Reached :
    (s : Serving) (x : Option ExitResult)
    → s.phase ≡ draining
    → x ≡ some s.result
    → Counted s.failure s.terminated
    → Reached (settle s) x
unfolding settle At
settle-Reached s x p q c = by_test (s.pending_outputs == 0) refl
  where
    by_test :
        (b : Bool)
        → (s.pending_outputs == 0) ≡ b
        → Reached (if b then record s { phase = finished } else s) x
    by_test true e = record {
      phase = finished;
      is_phase = refl;
      at = (q, (==_iff s.pending_outputs 0).0 e);
      counted = c;
    }
    by_test false e = record { phase = draining; is_phase = p; at = q; counted = c }

cut_off-Reached :
    (e : CommandErr) (s : Serving) (x : Option ExitResult)
    → x ≡ some s.result
    → Counted s.failure s.terminated
    → Reached (cut_off e s) x
unfolding cut_off At
cut_off-Reached e s x q c =
    let f = fail_with-Stays e s in
    record {
      phase = finished;
      is_phase = refl;
      at = (q ∙ ap some (sym f.same_result), refl);
      counted = f.counted c;
    }

Stays-running :
    (s t : Serving) (x : Option ExitResult)
    → s.phase ≡ running
    → x ≡ none
    → Counted s.failure s.terminated
    → Stays s t
    → Reached t x
unfolding At
Stays-running s t x p q c f = record {
  phase = running;
  is_phase = f.same_phase ∙ p;
  at = q;
  counted = f.counted c;
}

run_step-Reached :
    (e : Event) (s : Serving) (x : Option ExitResult)
    → s.phase ≡ running
    → x ≡ none
    → Counted s.failure s.terminated
    → Reached (run_step e s) (note e x)
unfolding run_step note
run_step-Reached (input_done e) s x p q c = Stays-running s _ x p q c (take_input-Stays e s)
run_step-Reached (output_done e) s x p q c = Stays-running s _ x p q c (take_output-Stays e s)
run_step-Reached (process_exited r) s x p q c =
    subst
      (λ y.
        Reached (settle (record s { phase = draining; result = r })) (note (process_exited r) y))
      (sym q) (settle-Reached (record s { phase = draining; result = r }) (some r) refl refl c)
run_step-Reached context_ends s x p q c =
    Stays-running s _ x p q c (record { same_phase = refl; same_result = refl; counted = λ d. d })
run_step-Reached context_seen s x p q c =
    Stays-running s _ x p q c
      (if-Stays s _ _ s.context_done (fail_with-Stays connection_failed s) (itself s))
run_step-Reached drain_timeout s x p q c = Stays-running s s x p q c (itself s)

-- An exit that was seen stays the first.
note-seen : (e : Event) (x : Option ExitResult) (r : ExitResult) → x ≡ some r → note e x ≡ some r
unfolding note
note-seen e x r h = subst (λ y. note e y ≡ some r) (sym h) (by_event e)
  where
    by_event : (e : Event) → note e (some r) ≡ some r
    by_event (process_exited q) = refl
    by_event (input_done y) = refl
    by_event (output_done y) = refl
    by_event context_ends = refl
    by_event context_seen = refl
    by_event drain_timeout = refl

drain_step-Reached :
    (e : Event) (s : Serving) (x : Option ExitResult)
    → s.phase ≡ draining
    → x ≡ some s.result
    → Counted s.failure s.terminated
    → Reached (drain_step e s) x
unfolding drain_step At
drain_step-Reached (input_done e) s x p q c = record {
  phase = draining;
  is_phase = p;
  at = q;
  counted = c;
}
drain_step-Reached (output_done e) s x p q c =
    let f = take_output-Stays e s in
    settle-Reached (take_output e s) x (f.same_phase ∙ p) (q ∙ ap some (sym f.same_result))
      (f.counted c)
drain_step-Reached (process_exited r) s x p q c = record {
  phase = draining;
  is_phase = p;
  at = q;
  counted = c;
}
drain_step-Reached context_ends s x p q c = record {
  phase = draining;
  is_phase = p;
  at = q;
  counted = c;
}
drain_step-Reached context_seen s x p q c = by_test s.context_done
  where
    by_test : (b : Bool) → Reached (if b then cut_off connection_failed s else s) x
    by_test true = cut_off-Reached connection_failed s x q c
    by_test false = record { phase = draining; is_phase = p; at = q; counted = c }
drain_step-Reached drain_timeout s x p q c = cut_off-Reached deadline_exceeded s x q c

step-Reached :
    (e : Event) (s : Serving) (x : Option ExitResult) → Reached s x → Reached (step e s) (note e x)
unfolding step step_in At
step-Reached e s x r = by_phase r.phase r.is_phase r.at
  where
    by_phase : (p : Phase) → s.phase ≡ p → At p s x → Reached (step_in s.phase e s) (note e x)
    by_phase running h a =
        subst (λ p. Reached (step_in p e s) (note e x)) (sym h)
          (run_step-Reached e s x h a r.counted)
    by_phase draining h a =
        subst (λ p. Reached (step_in p e s) (note e x)) (sym h)
          (subst (Reached (drain_step e s)) (a ∙ sym (note-seen e x s.result a))
            (drain_step-Reached e s x h a r.counted))
    by_phase finished h a =
        subst (λ p. Reached (step_in p e s) (note e x)) (sym h)
          (record {
            phase = finished;
            is_phase = h;
            at = (note-seen e x s.result a.0, a.1);
            counted = r.counted;
          })

pub steps-Reached :
    (es : List Event) (s : Serving) (x : Option ExitResult)
    → Reached s x
    → Reached (steps es s) (noted es x)
unfolding steps noted
steps-Reached [] s x r = r
steps-Reached (e ∷ es) s x r = steps-Reached es (step e s) (note e x) (step-Reached e s x r)
