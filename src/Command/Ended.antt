-- ===== src/Command/Ended.antt =====
-- What `serve` in lib/command/server.go has done at its end.
use mygosh.Base.{
  ◌≡◌, refl, sym, ap, subst, ◌∙◌, Bool, true, false, if◌then◌else◌, Option, none, some, List, [],
  ◌∷◌, ◌++◌, append_assoc, arith,
}
use mygosh.Text.{text_of, is_empty}
use mygosh.Command.{CommandErr, runtime_failure}
use mygosh.Command.Server.{ExitResult, exit_of, reported, generic_runtime_message}
use mygosh.Command.Select.{
  Event, process_exited, drain_timeout, input_done, output_done, context_ends, context_seen,
}
use mygosh.Command.Select.{
  Phase, running, draining, finished, Serving, serving, cut_off, drain_step, step_in, step, steps,
}
use mygosh.Command.Clean.{is_clean, Left, drain_timeout-steps}
use mygosh.Command.Faults.{has_fault, HasFailed, Running, steps-HasFailed, steps-fails}
use mygosh.Command.Ending.{Counted, note, noted, At, Reached, steps-Reached}

-- `first` is the first exit of the process.
pub record Ended (first : ExitResult) (s : Serving) : Type 0 where
  pub over : s.phase ≡ finished
  pub drained : s.pending_outputs ≡ 0
  pub own_result : s.result ≡ first
  pub on_success :
      s.failure ≡ none
      → (s.terminated ≡ 0) × (exit_of (reported s.failure s.result) ≡ exit_of first)
  pub on_failure :
      (e : CommandErr)
      → s.failure ≡ some e
      → (s.terminated ≡ 1)
        × (exit_of (reported s.failure s.result) ≡ runtime_failure generic_runtime_message)

noted-some : (es : List Event) (r : ExitResult) → noted es (some r) ≡ some r
unfolding noted note
noted-some [] r = refl
noted-some (process_exited q ∷ es) r = noted-some es r
noted-some (input_done y ∷ es) r = noted-some es r
noted-some (output_done y ∷ es) r = noted-some es r
noted-some (context_ends ∷ es) r = noted-some es r
noted-some (context_seen ∷ es) r = noted-some es r
noted-some (drain_timeout ∷ es) r = noted-some es r

-- The first exit of a list that has one.
unfoldable pub first_exit : List Event → ExitResult → ExitResult
first_exit [] r = r
first_exit (process_exited q ∷ es) r = q
first_exit (input_done y ∷ es) r = first_exit es r
first_exit (output_done y ∷ es) r = first_exit es r
first_exit (context_ends ∷ es) r = first_exit es r
first_exit (context_seen ∷ es) r = first_exit es r
first_exit (drain_timeout ∷ es) r = first_exit es r

noted-first_exit :
    (es more : List Event) (r : ExitResult)
    → noted (es ++ (process_exited r ∷ more)) none ≡ some (first_exit es r)
unfolding noted note first_exit
noted-first_exit [] more r = noted-some more r
noted-first_exit (process_exited q ∷ es) more r = noted-some (es ++ (process_exited r ∷ more)) q
noted-first_exit (input_done y ∷ es) more r = noted-first_exit es more r
noted-first_exit (output_done y ∷ es) more r = noted-first_exit es more r
noted-first_exit (context_ends ∷ es) more r = noted-first_exit es more r
noted-first_exit (context_seen ∷ es) more r = noted-first_exit es more r
noted-first_exit (drain_timeout ∷ es) more r = noted-first_exit es more r

steps-append : (es fs : List Event) (s : Serving) → steps (es ++ fs) s ≡ steps fs (steps es s)
unfolding steps
steps-append [] fs s = refl
steps-append (e ∷ es) fs s = steps-append es fs (step e s)

-- Once the process has exited, the drain timer ends the loops.
drain_timeout-finished :
    (s : Serving) (r : ExitResult) → Reached s (some r) → (step drain_timeout s).phase ≡ finished
unfolding step step_in drain_step cut_off At
drain_timeout-finished s r n = by_phase n.phase n.is_phase n.at
  where
    by_phase :
        (p : Phase)
        → s.phase ≡ p
        → At p s (some r)
        → (step_in s.phase drain_timeout s).phase ≡ finished
    by_phase running h a = ground (arith, a)
    by_phase draining h a = subst (λ p. (step_in p drain_timeout s).phase ≡ finished) (sym h) refl
    by_phase finished h a = subst (λ p. (step_in p drain_timeout s).phase ≡ finished) (sym h) h

some_injective : (q r : ExitResult) → Path (Option ExitResult) (some q) (some r) → r ≡ q
some_injective q r h = ground (arith, h)

generic_exit :
    (e : CommandErr) (r : ExitResult)
    → exit_of (reported (some e) r) ≡ runtime_failure generic_runtime_message
unfolding exit_of reported generic_runtime_message text_of is_empty
generic_exit e r = refl

told :
    (s : Serving) (first : ExitResult) (o : Option CommandErr)
    → s.failure ≡ o
    → s.result ≡ first
    → Counted o s.terminated
    → (s.failure ≡ none
        → (s.terminated ≡ 0) × (exit_of (reported s.failure s.result) ≡ exit_of first))
      × ((e : CommandErr)
          → s.failure ≡ some e
          → (s.terminated ≡ 1)
            × (exit_of (reported s.failure s.result) ≡ runtime_failure generic_runtime_message))
unfolding Counted reported
told s first none h r c = (
  λ _. (c, subst (λ o. exit_of (reported o s.result) ≡ exit_of first) (sym h) (ap exit_of r)),
  λ e k. ground (arith, sym h ∙ k),
)
told s first (some x) h r c = (
  λ k. ground (arith, sym h ∙ k),
  λ e k. (
    c,
    subst (λ o. exit_of (reported o s.result) ≡ runtime_failure generic_runtime_message) (sym h)
        (generic_exit x s.result),
  ),
)

ended :
    (s : Serving) (first : ExitResult) → s.phase ≡ finished → Reached s (some first) → Ended first s
unfolding At
ended s first over n = by_phase n.phase n.is_phase n.at
  where
    by_phase : (p : Phase) → s.phase ≡ p → At p s (some first) → Ended first s
    by_phase running h a = ground (arith, a)
    by_phase draining h a = ground (arith, sym over ∙ h)
    by_phase finished h a =
        let own = some_injective first s.result a.0 in
        let (success, failure) = told s first s.failure refl own n.counted in
        record {
          over = h;
          drained = a.1;
          own_result = own;
          on_success = success;
          on_failure = failure;
        }

start-Reached : (has_stderr : Bool) → Reached (serving has_stderr) none
unfolding serving At Counted
start-Reached has_stderr = record { phase = running; is_phase = refl; at = refl; counted = refl }

-- `Terminate` was called once, and the exit that is sent hides what the process did.
abbrev pub GaveUp : Serving → Type 0
GaveUp s =
    (s.terminated ≡ 1)
    × (exit_of (reported s.failure s.result) ≡ runtime_failure generic_runtime_message)

abbrev pub GaveUpIf : Bool → Serving → Type 0
GaveUpIf true s = GaveUp s
GaveUpIf false s = Unit

gave_up :
    (b : Bool) (s : Serving) (first : ExitResult)
    → Ended first s
    → (b ≡ true → HasFailed s)
    → GaveUpIf b s
gave_up true s first n h = let (e, q) = h refl in n.on_failure e q
gave_up false s first n h = tt

-- `Terminate` was not called, and the exit that is sent is the process's own.
abbrev pub Succeeded : ExitResult → Serving → Type 0
Succeeded first s = (s.terminated ≡ 0) × (exit_of (reported s.failure s.result) ≡ exit_of first)

abbrev pub SucceededIf : Bool → ExitResult → Serving → Type 0
SucceededIf true first s = Succeeded first s
SucceededIf false first s = Unit

succeeded :
    (b : Bool) (s : Serving) (first : ExitResult)
    → Ended first s
    → (b ≡ true → s.failure ≡ none)
    → SucceededIf b first s
succeeded true s first n h = n.on_success (h refl)
succeeded false s first n h = tt

-- Whatever happens before the process exits and after it, once the drain timer has fired both loops
-- are over and no output is waited for. If no failure is recorded, `Terminate` was not called and the
-- exit that is sent is the process's first one; if one is, `Terminate` was called exactly once and
-- the exit that is sent is the generic runtime failure. That is so at least where, before the
-- process exits and before the connection's context is over, the input ends or an output fails; and
-- none is recorded where all that happens is exits of the process and that every output ends well.
pub steps-Ended :
    (has_stderr : Bool) (before after : List Event) (r : ExitResult)
    → let s =
        steps
          (before ++ (process_exited r ∷ (after ++ (drain_timeout ∷ []))))
          (serving has_stderr) in
      Ended (first_exit before r) s
      × GaveUpIf (has_fault (if has_stderr then 2 else 1) before) s
      × SucceededIf
          (is_clean (if has_stderr then 2 else 1) (before ++ (process_exited r ∷ after)))
          (first_exit before r)
          s
unfolding steps serving Left
steps-Ended has_stderr before after r =
    let start = serving has_stderr in
    let es = before ++ (process_exited r ∷ after) in
    let middle = steps es start in
    let all = before ++ (process_exited r ∷ (after ++ (drain_timeout ∷ []))) in
    let first = first_exit before r in
    let seen : Reached middle (some first) =
      subst (Reached middle) (noted-first_exit before after r)
        (steps-Reached es start none (start-Reached has_stderr)) in
    let last : steps all start ≡ step drain_timeout middle =
      ap (λ x. steps x start)
        (sym (append_assoc before (process_exited r ∷ after) (drain_timeout ∷ [])))
      ∙ steps-append es (drain_timeout ∷ []) start in
    let finally : Reached (steps all start) (some first) =
      subst (Reached (steps all start)) (noted-first_exit before (after ++ (drain_timeout ∷ [])) r)
        (steps-Reached all start none (start-Reached has_stderr)) in
    let over : Ended first (steps all start) =
      ended (steps all start) first
        (subst (λ s. s.phase ≡ finished) (sym last) (drain_timeout-finished middle first seen))
        finally in
    let outputs = if has_stderr then 2 else 1 in
    let fresh : Running outputs start = record {
      in_loop = refl;
      open_input = refl;
      in_context = refl;
      reading = refl;
      copiers = refl;
    } in
    (
      over,
      gave_up (has_fault outputs before) (steps all start) first over (λ h.
          subst HasFailed
            (sym (steps-append before (process_exited r ∷ (after ++ (drain_timeout ∷ []))) start))
            (steps-HasFailed (process_exited r ∷ (after ++ (drain_timeout ∷ []))) _
              (steps-fails before outputs start fresh h))),
      succeeded (is_clean outputs es) (steps all start) first over (λ h.
          ap (λ (x : Serving). x.failure) last
          ∙ drain_timeout-steps es outputs start
              (record {
                phase = running;
                is_phase = refl;
                left = tt;
                copiers = refl;
                no_failure = refl;
              })
              h),
    )
