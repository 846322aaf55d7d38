-- ===== src/Session/Requests/Answers.antt =====
-- The replies to channel requests: `handleChannelResult` of lib/session/session.go.
use mygosh.Base.{
  ℕ, ◌-◌, ◌≡◌, subst, [], ◌∷◌, ◌++◌, ap, sym, ◌∙◌, not, true, false, Option, none, some, arith,
}
use mygosh.Base.Maps.{lookup, update, member, delete, lookup-update_self}
use mygosh.Session.Message.{Bytes, ChannelResult, OperationOutcome, Reject}
use mygosh.Session.Error.{Err, protocol, unknown_request}
use mygosh.Session.Channel.{Channel, WaitResult, answered}
use mygosh.Session.State.{Session, M, ok, err, final, ◌>>◌}
use mygosh.Session.State.Invert.{
  bind-ok, find-ok, guard-ok, load_then-ok, find-passes, guard-refuses, load-passes, bind-err,
}
use mygosh.Session.Flow.Ends.{same_channel}
use mygosh.Session.Validate.{too_long, validate_response}
use mygosh.Session.Registry.{release_pending_channel_request}
use mygosh.Session.Requests.{
  take_waiter, deliver_result, deliver, handle_channel_result, violation_if,
}

-- The waiter of a request has left the channel's table.
abbrev pub without_waiter : ℕ → Channel → Channel
without_waiter request ch = record ch { pending_requests = delete request ch.pending_requests }

take_waiter-ok :
    (id request : ℕ) (s t : Session) (a : Unit {0})
    → take_waiter id request s ≡ ok a t
    → (ch : Channel) × (lookup id s.heap ≡ some ch)
      × (member request ch.pending_requests ≡ true)
      × (t ≡ record s {
        heap = update id (without_waiter request) s.heap;
        pending_channel_requests = s.pending_channel_requests - 1;
      })
unfolding take_waiter release_pending_channel_request
take_waiter-ok id request s t a h =
    let (ch, found, h) = load_then-ok id _ s t a h in
    let (waits, h) = guard-ok (not (member request ch.pending_requests)) _ _ s t a h in
    (ch, found, ground (arith, waits), sym (ap final h))

violation_if-ok :
    (o : Option Err) (e : Err) (k : M (Unit {0})) (s t : Session) (a : Unit {0})
    → (violation_if o e >> k) s ≡ ok a t
    → k s ≡ ok a t
violation_if-ok none e k s t a h = h
violation_if-ok (some x) e k s t a h = grind arith

-- What the caller of a request gets for the outcome that the peer sent.
pub data IsAnswer : OperationOutcome → WaitResult → Type 0 where
  answers_success :
      (payload : Bytes)
      → IsAnswer
          (OperationOutcome.success payload)
          (answered (record { accepted = true; payload = payload; code = []; message = [] }))
  answers_reject :
      (r : Reject)
      → IsAnswer (OperationOutcome.reject r) (
          answered
            (record { accepted = false; payload = r.payload; code = r.code; message = r.message }))

deliver_result-ok :
    (id request : ℕ) (o : OperationOutcome) (s t : Session) (a : Unit {0})
    → deliver_result id request o s ≡ ok a t
    → (result : WaitResult) × IsAnswer o result
      × (t ≡ record s { heap = update id (deliver request result) s.heap })
unfolding deliver_result
deliver_result-ok id request (OperationOutcome.success payload) s t a h =
    let (fits, h) = guard-ok (too_long payload s.config.limits.max_control_payload) _ _ s t a h in
    (_, answers_success payload, sym (ap final h))
deliver_result-ok id request (OperationOutcome.reject r) s t a h =
    let h =
      violation_if-ok (validate_response s.config.limits r.code r.message r.payload) _ _ s t a h in
    (_, answers_reject r, sym (ap final h))
deliver_result-ok id request OperationOutcome.unset s t a h = grind arith

-- A reply that is accepted belongs to a request that a caller waits for on a registered channel:
-- that caller gets the peer's outcome, an acceptance with its payload or a rejection with its code,
-- message and payload, as one more reply, and leaves the table; the table of channels stays, and
-- the session counts one waiting request less.
pub handle_channel_result-answers :
    (msg : ChannelResult) (s t : Session)
    → handle_channel_result (some msg) s ≡ ok tt t
    → (ch : Channel) × (result : WaitResult) × IsAnswer msg.result result
      × (lookup msg.recipient_channel_id s.heap ≡ some ch)
      × (member msg.recipient_channel_id s.channels ≡ true)
      × (member msg.request_id ch.pending_requests ≡ true)
      × (lookup msg.recipient_channel_id t.heap
          ≡ some (record ch {
            pending_requests = delete msg.request_id ch.pending_requests;
            replies = ch.replies ++ ((msg.request_id, result) ∷ []);
          }))
      × (t.channels ≡ s.channels)
      × (t.pending_channel_requests ≡ s.pending_channel_requests - 1)
unfolding handle_channel_result
handle_channel_result-answers msg s t h =
    let id = msg.recipient_channel_id in
    let request = msg.request_id in
    let (c, registered, here, h) = find-ok id _ s t tt h in
    let (u, s1, taken, h) = bind-ok (take_waiter id request) _ s t tt h in
    let (ch, found, waits, next) = take_waiter-ok id request s s1 u taken in
    let (result, answer, last) = deliver_result-ok id request msg.result s1 t tt h in
    let kept = lookup-update_self id (without_waiter request) ch s.heap found in
    let after = lookup-update_self id (deliver request result) _ _ kept in
    (
      ch,
      result,
      answer,
      found,
      registered,
      waits,
      ap (λ (x : Session). lookup id x.heap) last
          ∙ ap (λ (x : Session). lookup id (update id (deliver request result) x.heap)) next
          ∙ after,
      ap (λ (x : Session). x.channels) last ∙ ap (λ (x : Session). x.channels) next,
      ap (λ (x : Session). x.pending_channel_requests) last
          ∙ ap (λ (x : Session). x.pending_channel_requests) next,
    )

take_waiter-refuses :
    (id request : ℕ) (s : Session) (ch : Channel)
    → lookup id s.heap ≡ some ch
    → member request ch.pending_requests ≡ false
    → take_waiter id request s ≡ err (protocol unknown_request) s
unfolding take_waiter
take_waiter-refuses id request s ch found waits =
    load-passes id _ s ch found
    ∙ guard-refuses (not (member request ch.pending_requests)) _ _ s (ap not waits)

handle_channel_result-refuses :
    (msg : ChannelResult) (s : Session) (ch : Channel)
    → member msg.recipient_channel_id s.channels ≡ true
    → lookup msg.recipient_channel_id s.heap ≡ some ch
    → member msg.request_id ch.pending_requests ≡ false
    → handle_channel_result (some msg) s ≡ err (protocol unknown_request) s
unfolding handle_channel_result
handle_channel_result-refuses msg s ch registered found waits =
    find-passes msg.recipient_channel_id _ s ch registered found
    ∙ bind-err (take_waiter msg.recipient_channel_id msg.request_id) _ s s
        (protocol unknown_request)
        (take_waiter-refuses msg.recipient_channel_id msg.request_id s ch found waits)

-- After a reply to a request was accepted, a second reply to the same request, with whatever
-- outcome, is a protocol error of an unknown request and changes nothing, if the id of the request
-- stood once among the ids that are waited for.
pub handle_channel_result-answers_once :
    (msg : ChannelResult) (again : OperationOutcome) (s t : Session) (ch : Channel)
    → lookup msg.recipient_channel_id s.heap ≡ some ch
    → member msg.request_id (delete msg.request_id ch.pending_requests) ≡ false
    → handle_channel_result (some msg) s ≡ ok tt t
    → handle_channel_result (some (record msg { result = again })) t
      ≡ err (protocol unknown_request) t
handle_channel_result-answers_once msg again s t ch found once h =
    let (before, result, _, here, registered, _, after, table, _) =
      handle_channel_result-answers msg s t h in
    let same : before ≡ ch = same_channel before ch _ here found in
    let gone : member msg.request_id (delete msg.request_id before.pending_requests) ≡ false =
      subst
        (λ (c : Channel). member msg.request_id (delete msg.request_id c.pending_requests) ≡ false)
        (sym same) once in
    handle_channel_result-refuses (record msg { result = again }) t _
      (ap (member msg.recipient_channel_id) table ∙ registered) after gone
