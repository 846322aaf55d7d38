-- ===== src/Session/Table/Invariant.antt =====
-- The counters of the channel table are right in every reachable state of a session.
use mygosh.Base.{◌≡◌, false, none, List, arith}
use mygosh.Session.Config.{Config, config_validate, config_with_defaults}
use mygosh.Session.Config.Valid.{LimitsValid, config_validate_iff}
use mygosh.Session.Message.{World}
use mygosh.Session.State.Keep.{Keeps}
use mygosh.Session.Budget.{release_queue_budget}
use mygosh.Session.System.{Action, run, bind}
use mygosh.Session.Table.{Counted, CountsOf}
use mygosh.Session.Table.Methods.{
  add_channel-Counted, activate_channel-Counted, remove_channel-Counted,
  fail_pending_requests-Counted, reserve_queued-Counted, release_queued-Counted,
  discard_queued-Counted,
}
use mygosh.Session.Table.Waiters.{
  store-Counted, numbers-Counted, peers-Counted, install_waiter-Counted,
  remove_pending_request-Counted, take_waiter-Counted, enqueue_write-Counted,
  enqueue_dispatch-Counted,
}
use mygosh.Session.Preserve.{Preserved}
use mygosh.Session.Preserve.Steps.{run-Keeps}

Counted-Preserved : Preserved Counted
unfolding Keeps release_queue_budget
Counted-Preserved = record {
  writes = λ id f silent. store-Counted id f (λ ch. ((silent ch).2, (silent ch).3));
  globals = λ f only s h. rw (only s) h;
  reserves = reserve_queued-Counted;
  releases = release_queued-Counted;
  discards = discard_queued-Counted;
  numbers = numbers-Counted;
  adds = add_channel-Counted;
  peers = peers-Counted;
  activates = activate_channel-Counted;
  removes = remove_channel-Counted;
  enqueues = enqueue_write-Counted;
  defers = enqueue_dispatch-Counted;
  fails = fail_pending_requests-Counted;
  waits = install_waiter-Counted;
  forgets = remove_pending_request-Counted;
  takes = take_waiter-Counted;
  detaches = λ e close s h ended. cc;
  cancels = λ c s h. h;
  finishes = λ replies s h. h;
  takes_task = λ task rest s e h. h;
  takes_control = λ msg rest s e h. h;
  takes_outbound = λ msg rest s e h. h;
  takes_shutdown = λ e rest s q h. h;
  abandons = λ n s h. h;
  starts = λ s h. h;
}

bind-Counted : (c : Config) → LimitsValid c.limits → CountsOf (bind c)
unfolding bind
bind-Counted c v = record {
  pending_counted = omega arith;
  active_counted = omega arith;
  waiting_counted = omega arith;
  pending_capped = omega arith;
  channels_capped = omega arith;
  waiting_capped = omega arith;
  shares = tt;
  channels_small = omega (arith, v);
  waiting_small = omega (arith, v);
}

-- For every configuration that `Validate` accepts and every sequence of steps, until the session
-- ends: its counters of opening channels, of active channels and of requests that wait for a reply
-- are what its channels say, no more opens are pending than `MaxPendingOpens`, no more channels
-- are open or opening than `MaxChannels`, and no more requests wait than
-- `MaxPendingChannelRequests`, nor on one channel than `MaxPendingChannelRequestsPerChannel`.
pub run-CountsOf :
    (world : World) (c : Config) (actions : List Action)
    → config_validate c ≡ none
    → (run world actions (bind (config_with_defaults c))).closing ≡ false
    → CountsOf (run world actions (bind (config_with_defaults c)))
run-CountsOf world c actions valid running =
    run-Keeps Counted-Preserved world actions _
      (λ _. bind-Counted _ ((config_validate_iff c).0 valid).limits) running
