-- ===== src/Session/Requests/Tests.antt =====
-- Replies at concrete inputs (lib/session/session.go).
use mygosh.Base.{◌-◌, ◌≡◌, refl, true, false, some, [], ◌∷◌, ◌++◌}
use mygosh.Base.Maps.{lookup, update, member, delete}
use mygosh.Session.Message.{ChannelResult, OperationOutcome}
use mygosh.Session.Error.{protocol, unknown_request}
use mygosh.Session.Channel.{Channel, WaitResult}
use mygosh.Session.State.{Session, ok, err, final, load, on_channel}
use mygosh.Session.Registry.{find_channel, release_pending_channel_request}
use mygosh.Session.Requests.{take_waiter, deliver_result, handle_channel_result}
use mygosh.Session.Requests.Answers.{
  IsAnswer, handle_channel_result-answers, handle_channel_result-answers_once,
}
use mygosh.Session.Sample.{sample_session, sample_channel}

abbrev waiting_channel : Channel
waiting_channel = record sample_channel { pending_requests = 5 ∷ [] }

abbrev waiting_session : Session
waiting_session = record sample_session {
  heap = (0, waiting_channel) ∷ [];
  pending_channel_requests = 1;
}

abbrev reply : ChannelResult
reply = record {
  recipient_channel_id = 0;
  request_id = 5;
  result = OperationOutcome.success (1 ∷ []);
}

abbrev answered_session : Session
answered_session = final (handle_channel_result (some reply) waiting_session)

reply-accepted : handle_channel_result (some reply) waiting_session ≡ ok tt answered_session
unfolding handle_channel_result find_channel load on_channel take_waiter deliver_result member
    delete lookup update release_pending_channel_request
reply-accepted = refl

handle_channel_result-answers_example :
    (ch : Channel) × (result : WaitResult) × IsAnswer reply.result result
    × (lookup 0 waiting_session.heap ≡ some ch)
    × (member 0 waiting_session.channels ≡ true)
    × (member 5 ch.pending_requests ≡ true)
    × (lookup 0 answered_session.heap
        ≡ some (record ch {
          pending_requests = delete 5 ch.pending_requests;
          replies = ch.replies ++ ((5, result) ∷ []);
        }))
    × (answered_session.channels ≡ waiting_session.channels)
    × (answered_session.pending_channel_requests ≡ waiting_session.pending_channel_requests - 1)
handle_channel_result-answers_example =
    handle_channel_result-answers reply waiting_session answered_session reply-accepted

waiting_channel-found : lookup 0 waiting_session.heap ≡ some waiting_channel
unfolding lookup
waiting_channel-found = refl

waits_once : member 5 (delete 5 waiting_channel.pending_requests) ≡ false
unfolding member delete
waits_once = refl

handle_channel_result-answers_once_example :
    handle_channel_result
      (some (record reply { result = OperationOutcome.success [] }))
      answered_session
    ≡ err (protocol unknown_request) answered_session
handle_channel_result-answers_once_example =
    handle_channel_result-answers_once reply (OperationOutcome.success []) waiting_session
      answered_session waiting_channel waiting_channel-found waits_once reply-accepted
