-- ===== src/Session/Accounts/Invariant.antt =====
-- The accounting invariant holds in every reachable state of a session.
use mygosh.Base.{◌≡◌, arith, none, List}
use mygosh.Session.Config.{Config, config_validate, config_with_defaults}
use mygosh.Session.Config.Valid.{LimitsValid, config_validate_iff}
use mygosh.Session.Message.{World}
use mygosh.Session.State.Keep.{Keeps}
use mygosh.Session.System.{Action, run, bind}
use mygosh.Session.Accounts.{
  Balanced, reserve_queued-Balanced, release_queued-Balanced, discard_queued-Balanced,
}
use mygosh.Session.Accounts.Methods.{
  store-Balanced, add_channel-Balanced, activate_channel-Balanced, remove_channel-Balanced,
  fail_pending_requests-Balanced, numbers-Balanced, peers-Balanced, install_waiter-Balanced,
  remove_pending_request-Balanced, take_waiter-Balanced,
}
use mygosh.Session.Accounts.Queues.{
  enqueue_write-Balanced, enqueue_dispatch-Balanced, take_task-Balanced, take_control-Balanced,
  take_outbound-Balanced, cancel-Balanced,
}
use mygosh.Session.Preserve.{Preserved}
use mygosh.Session.Preserve.Steps.{run-Keeps}

pub Balanced-Preserved : Preserved Balanced
unfolding Keeps
Balanced-Preserved = record {
  writes = λ id f silent. store-Balanced id f (λ ch. ((silent ch).0, (silent ch).1));
  globals = λ f only s h. rw (only s) h;
  reserves = reserve_queued-Balanced;
  releases = release_queued-Balanced;
  discards = discard_queued-Balanced;
  numbers = numbers-Balanced;
  adds = add_channel-Balanced;
  peers = peers-Balanced;
  activates = activate_channel-Balanced;
  removes = remove_channel-Balanced;
  enqueues = enqueue_write-Balanced;
  defers = enqueue_dispatch-Balanced;
  fails = fail_pending_requests-Balanced;
  waits = install_waiter-Balanced;
  forgets = remove_pending_request-Balanced;
  takes = take_waiter-Balanced;
  detaches = λ e close s h. h;
  cancels = λ c s h. h;
  finishes = λ replies s h. h;
  takes_task = take_task-Balanced;
  takes_control = take_control-Balanced;
  takes_outbound = take_outbound-Balanced;
  takes_shutdown = λ e rest s q h. h;
  abandons = cancel-Balanced;
  starts = λ s h. h;
}

pub bind-Balanced : (c : Config) → LimitsValid c.limits → Balanced (bind c)
unfolding bind
bind-Balanced c v = record {
  limits = v;
  frames_counted = omega arith;
  bytes_counted = omega arith;
  frames_capped = omega arith;
  bytes_capped = omega arith;
  shares = tt;
}

-- For every configuration that `Validate` accepts and every sequence of steps, the frames and bytes
-- that the session counts as queued are exactly those that its channels count for themselves and
-- those that stand in its three queues, together; the counts stay within the total limits, and what
-- each channel counts stays within the per-channel limits.
pub run-Balanced :
    (world : World) (c : Config) (actions : List Action)
    → config_validate c ≡ none
    → Balanced (run world actions (bind (config_with_defaults c)))
run-Balanced world c actions valid =
    run-Keeps Balanced-Preserved world actions _
      (bind-Balanced _ ((config_validate_iff c).0 valid).limits)
