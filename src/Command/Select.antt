-- ===== src/Command/Select.antt =====
-- The two `select` loops of `serve` in lib/command/server.go, one ready channel at a time.
use mygosh.Base.{
  ℕ, ◌+◌, ◌-◌, Bool, true, false, not, ◌||◌, Option, none, some, List, [], ◌∷◌, ◌==◌, if◌then◌else◌,
}
use mygosh.Base.Int.{pos}
use mygosh.Command.{CommandErr, connection_failed, unexpected_eof, deadline_exceeded}
use mygosh.Command.Server.{ExitResult}

-- What becomes ready: a result of the reader of input, of a copier of output, or of the process;
-- the end of the connection's context, and the loop's notice of it; and the drain timer.
pub data Event : Type 0 where
  input_done : Option CommandErr → Event
  output_done : Option CommandErr → Event
  process_exited : ExitResult → Event
  context_ends context_seen drain_timeout : Event

-- The first loop, the second loop, and what follows them.
pub data Phase : Type 0 where
  running draining finished : Phase

-- `terminated` counts the calls of `Terminate`; `failure` is `protocolFailure`.
pub record Serving : Type 0 where
  pub phase : Phase
  pub input_open : Bool
  pub context_done : Bool
  pub pending_outputs : ℕ
  pub output_canceled : Bool
  pub output_closed : Bool
  pub failure : Option CommandErr
  pub terminated : ℕ
  pub result : ExitResult

-- The state before the first loop.
unfoldable pub serving : Bool → Serving
serving has_stderr = record {
  phase = running;
  input_open = true;
  context_done = false;
  pending_outputs = if has_stderr then 2 else 1;
  output_canceled = false;
  output_closed = false;
  failure = none;
  terminated = 0;
  result = record { status = pos 0; signal = []; runtime_failure = [] };
}

-- `fail`: the first failure ends the process.
unfoldable pub fail_with : CommandErr → Serving → Serving
fail_with e s = elim s.failure [
  | some x ↦ s
  | none ↦ record s { failure = some e; terminated = s.terminated + 1 }
]

unfoldable pub take_input : Option CommandErr → Serving → Serving
take_input e s =
    let t = record s { input_open = false } in
    if not s.input_open
    then s
    else if s.context_done
    then t
    else fail_with (elim e [ some x ↦ x | none ↦ unexpected_eof ]) t

unfoldable pub take_output : Option CommandErr → Serving → Serving
take_output e s =
    let t = record s { pending_outputs = s.pending_outputs - 1 } in
    if s.pending_outputs == 0 then s else elim e [
      | none ↦ t
      | some x ↦ if s.output_canceled || s.context_done then t else fail_with x t
    ]

-- The second loop's condition.
unfoldable pub settle : Serving → Serving
settle s = if s.pending_outputs == 0 then record s { phase = finished } else s

-- The second loop gives up on the output.
unfoldable pub cut_off : CommandErr → Serving → Serving
cut_off e s =
    let t = fail_with e s in
    record t { phase = finished; pending_outputs = 0; output_canceled = true; output_closed = true }

unfoldable pub run_step : Event → Serving → Serving
run_step (input_done e) s = take_input e s
run_step (output_done e) s = take_output e s
run_step (process_exited r) s = settle (record s { phase = draining; result = r })
run_step context_ends s = record s { context_done = true }
run_step context_seen s = if s.context_done then fail_with connection_failed s else s
run_step drain_timeout s = s

unfoldable pub drain_step : Event → Serving → Serving
drain_step (input_done e) s = s
drain_step (output_done e) s = settle (take_output e s)
drain_step (process_exited r) s = s
drain_step context_ends s = record s { context_done = true }
drain_step context_seen s = if s.context_done then cut_off connection_failed s else s
drain_step drain_timeout s = cut_off deadline_exceeded s

unfoldable pub step_in : Phase → Event → Serving → Serving
step_in running e s = run_step e s
step_in draining e s = drain_step e s
step_in finished e s = s

unfoldable pub step : Event → Serving → Serving
step e s = step_in s.phase e s

unfoldable pub steps : List Event → Serving → Serving
steps [] s = s
steps (e ∷ es) s = steps es (step e s)
