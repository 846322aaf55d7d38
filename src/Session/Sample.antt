-- ===== src/Session/Sample.antt =====
-- A small world, configuration and schedule for the tests of lib/session.
use mygosh.Base.{true, false, none, some, List, [], ◌∷◌}
use mygosh.Base.Int.{pos}
use mygosh.Session.Config.{Limits, Config}
use mygosh.Session.Message.{World, ChannelOpen, ChannelData, channel_open, channel_data}
use mygosh.Session.Channel.{Channel, open_}
use mygosh.Session.Opening.{pending_channel}
use mygosh.Session.State.{Session}
use mygosh.Session.System.{Action, activate, receive_frame, take_task, take_outbound}

-- An application that accepts everything; every message counts as 8 bytes.
abbrev pub sample_world : World
sample_world = record {
  on_channel_open =
      λ r. record { accepted = true; payload = []; code = []; message = []; handler = 1 };
  on_global_request = λ r. record { accepted = true; payload = []; code = []; message = [] };
  on_channel_request = λ h r. record { accepted = true; payload = []; code = []; message = [] };
  envelope_size = λ e. 8;
  open_size = λ m. 8;
  global_request_size = λ m. 8;
  channel_request_size = λ m. 8;
}

abbrev pub zero_limits : Limits
zero_limits = record {
  max_channels = 0;
  max_pending_opens = 0;
  max_pending_channel_requests = 0;
  max_pending_channel_requests_per_channel = 0;
  max_pending_global_requests = 0;
  max_queued_frames_per_channel = 0;
  max_queued_frames_total = 0;
  max_queued_bytes_per_channel = 0;
  max_queued_bytes_total = 0;
  max_control_payload = 0;
  max_type_length = 0;
  max_code_length = 0;
  max_message_length = 0;
}

-- The zero configuration, which stands for the defaults.
abbrev pub zero_config : Config
zero_config = record {
  initial_window = 0;
  max_packet_size = 0;
  window_adjust_threshold = 0;
  disconnect_timeout = pos 0;
  channel_close_timeout = pos 0;
  limits = zero_limits;
}

abbrev pub sample_open : ChannelOpen
sample_open = record {
  channel_type = 115 ∷ [];
  sender_channel_id = 7;
  initial_window = 100;
  max_packet_size = 10;
  payload = [];
}

abbrev pub sample_data : ChannelData
sample_data = record { recipient_channel_id = 0; bytes = 1 ∷ 2 ∷ 3 ∷ [] }

-- The peer opens a channel, the application accepts it, the acceptance is written, data arrives.
abbrev pub sample_actions : List Action
sample_actions =
    activate
    ∷ receive_frame (channel_open (some sample_open))
    ∷ take_task
    ∷ take_outbound none
    ∷ receive_frame (channel_data (some sample_data))
    ∷ []

-- A channel that is in use, with a window of 100 bytes on either side.
abbrev pub sample_channel : Channel
sample_channel =
    let fresh = pending_channel (115 ∷ []) 1 in
    record fresh {
      peer_id = 7;
      state = open_;
      open_wait = false;
      local_window = 100;
      remote_window = 100;
      max_local_packet = 10;
      max_remote_packet = 10;
    }

abbrev pub sample_config : Config
sample_config = record zero_config {
  initial_window = 100;
  max_packet_size = 10;
  window_adjust_threshold = 50;
  limits = record {
    max_channels = 4;
    max_pending_opens = 4;
    max_pending_channel_requests = 8;
    max_pending_channel_requests_per_channel = 4;
    max_pending_global_requests = 4;
    max_queued_frames_per_channel = 4;
    max_queued_frames_total = 16;
    max_queued_bytes_per_channel = 1000;
    max_queued_bytes_total = 4000;
    max_control_payload = 100;
    max_type_length = 10;
    max_code_length = 10;
    max_message_length = 20;
  };
}

abbrev pub sample_session : Session
sample_session = record {
  config = sample_config;
  activated = true;
  cause = none;
  heap = (0, sample_channel) ∷ [];
  next_local_channel_id = 1;
  channels = 0 ∷ [];
  peer_channel_ids = (7, 0) ∷ [];
  active_channels = 1;
  pending_opens = 0;
  next_global_request_id = 0;
  pending_global = [];
  global_replies = [];
  incoming_global_requests = [];
  pending_channel_requests = 0;
  wait_err = none;
  close_err = none;
  closing = false;
  queued_frames = 0;
  queued_bytes = 0;
  queues_closed = false;
  dispatch_queue = [];
  control_queue = [];
  outbound_queue = [];
  shutdowns = [];
}
