-- ===== src/Session/Config.antt =====
-- lib/session/config.go: the limits of one session, their defaults and their validation.
pub mod Valid
pub mod Tests
use mygosh.Base.{ℕ, zero, ◌<◌, ◌*◌, Bool, ◌||◌, Option, none, some, List, [], ◌∷◌, ltb, ◌==◌}
use mygosh.Base.{if◌then◌else◌, max_uint32}
use mygosh.Base.Int.{ℤ, pos, is_negative, is_zero}

pub record Limits : Type 0 where
  pub max_channels : ℕ  -- uint32
  pub max_pending_opens : ℕ  -- uint32
  pub max_pending_channel_requests : ℕ  -- uint32
  pub max_pending_channel_requests_per_channel : ℕ  -- uint32
  pub max_pending_global_requests : ℕ  -- uint32
  pub max_queued_frames_per_channel : ℕ  -- uint32
  pub max_queued_frames_total : ℕ  -- uint32
  pub max_queued_bytes_per_channel : ℕ  -- uint64
  pub max_queued_bytes_total : ℕ  -- uint64
  pub max_control_payload : ℕ  -- uint32
  pub max_type_length : ℕ  -- uint32
  pub max_code_length : ℕ  -- uint32
  pub max_message_length : ℕ  -- uint32

-- The compiled defaults.
unfoldable pub default_limits : Limits
default_limits = record {
  max_channels = 64;
  max_pending_opens = 32;
  max_pending_channel_requests = 1024;
  max_pending_channel_requests_per_channel = 64;
  max_pending_global_requests = 128;
  max_queued_frames_per_channel = 256;
  max_queued_frames_total = 8192;
  max_queued_bytes_per_channel = 1_048_576;
  max_queued_bytes_total = 16_777_216;
  max_control_payload = 16_384;
  max_type_length = 128;
  max_code_length = 64;
  max_message_length = 1024;
}

-- The compiled hard maxima.
unfoldable pub hard_limits : Limits
hard_limits = record {
  max_channels = 1024;
  max_pending_opens = 1024;
  max_pending_channel_requests = 16_384;
  max_pending_channel_requests_per_channel = 1024;
  max_pending_global_requests = 2048;
  max_queued_frames_per_channel = 4096;
  max_queued_frames_total = 65_536;
  max_queued_bytes_per_channel = 8_388_608;
  max_queued_bytes_total = 67_108_864;
  max_control_payload = 24_576;
  max_type_length = 256;
  max_code_length = 128;
  max_message_length = 4096;
}

-- `if value == 0 { value = fallback }`
abbrev pub or_default : ℕ → ℕ → ℕ
or_default value fallback = if value == 0 then fallback else value

unfoldable pub limits_with_defaults : Limits → Limits
unfolding default_limits
limits_with_defaults l = record {
  max_channels = or_default l.max_channels default_limits.max_channels;
  max_pending_opens = or_default l.max_pending_opens default_limits.max_pending_opens;
  max_pending_channel_requests =
      or_default l.max_pending_channel_requests default_limits.max_pending_channel_requests;
  max_pending_channel_requests_per_channel =
      or_default l.max_pending_channel_requests_per_channel
        default_limits.max_pending_channel_requests_per_channel;
  max_pending_global_requests =
      or_default l.max_pending_global_requests default_limits.max_pending_global_requests;
  max_queued_frames_per_channel =
      or_default l.max_queued_frames_per_channel default_limits.max_queued_frames_per_channel;
  max_queued_frames_total =
      or_default l.max_queued_frames_total default_limits.max_queued_frames_total;
  max_queued_bytes_per_channel =
      or_default l.max_queued_bytes_per_channel default_limits.max_queued_bytes_per_channel;
  max_queued_bytes_total =
      or_default l.max_queued_bytes_total default_limits.max_queued_bytes_total;
  max_control_payload = or_default l.max_control_payload default_limits.max_control_payload;
  max_type_length = or_default l.max_type_length default_limits.max_type_length;
  max_code_length = or_default l.max_code_length default_limits.max_code_length;
  max_message_length = or_default l.max_message_length default_limits.max_message_length;
}

-- The names that the error messages give to the checked values.
pub data LimitName : Type 0 where
  channels pending_opens pending_channel_requests : LimitName
  pending_channel_requests_per_channel pending_global_requests : LimitName
  queued_frames_per_channel queued_frames_total control_payload : LimitName
  type_length code_length message_length : LimitName
  queued_bytes_per_channel queued_bytes_total : LimitName

pub data ConfigError : Type 0 where
  limit_zero : LimitName → ConfigError
  limit_exceeds : LimitName → ConfigError
  opens_above_channels requests_above_total frames_above_total bytes_above_total : ConfigError
  window_zero packet_zero packet_above_window packet_above_protocol : ConfigError
  threshold_zero threshold_above_window window_too_large : ConfigError
  disconnect_timeout_negative close_timeout_not_positive : ConfigError
  packet_above_channel_bytes packet_above_total_bytes payload_above_total_bytes : ConfigError

-- One entry of the table: its name, the value and the maximum.
pub record Check : Type 0 where
  pub name : LimitName
  pub value : ℕ
  pub maximum : ℕ

-- `check32` and `check64`
check_limit : Check → Option ConfigError
check_limit c =
    if c.value == 0
    then some (limit_zero c.name)
    else if ltb c.maximum c.value
    then some (limit_exceeds c.name)
    else none

-- The first error of two fallible steps.
infixr 20 ◌or_else◌
abbrev pub ◌or_else◌ : Option ConfigError → Option ConfigError → Option ConfigError
some e or_else k = some e
none or_else k = k

-- `if bad { return error }`
abbrev pub refuse : Bool → ConfigError → Option ConfigError
refuse bad e = if bad then some e else none

pub check_limits : List Check → Option ConfigError
unfolding check_limit
check_limits [] = none
check_limits (c ∷ cs) = check_limit c or_else check_limits cs

abbrev pub check_of : LimitName → (Limits → ℕ) → Limits → Check
unfolding hard_limits
check_of name field l = record { name = name; value = field l; maximum = field hard_limits }

abbrev pub limit_checks : Limits → List Check
limit_checks l =
    check_of channels (λ r. r.max_channels) l
    ∷ check_of pending_opens (λ r. r.max_pending_opens) l
    ∷ check_of pending_channel_requests (λ r. r.max_pending_channel_requests) l
    ∷ check_of pending_channel_requests_per_channel
        (λ r. r.max_pending_channel_requests_per_channel) l
    ∷ check_of pending_global_requests (λ r. r.max_pending_global_requests) l
    ∷ check_of queued_frames_per_channel (λ r. r.max_queued_frames_per_channel) l
    ∷ check_of queued_frames_total (λ r. r.max_queued_frames_total) l
    ∷ check_of control_payload (λ r. r.max_control_payload) l
    ∷ check_of type_length (λ r. r.max_type_length) l
    ∷ check_of code_length (λ r. r.max_code_length) l
    ∷ check_of message_length (λ r. r.max_message_length) l
    ∷ check_of queued_bytes_per_channel (λ r. r.max_queued_bytes_per_channel) l
    ∷ check_of queued_bytes_total (λ r. r.max_queued_bytes_total) l
    ∷ []

-- The comparisons between limits, in order.
pub check_relations : Limits → Option ConfigError
check_relations l =
    refuse (ltb l.max_channels l.max_pending_opens) opens_above_channels
    or_else refuse (ltb l.max_pending_channel_requests l.max_pending_channel_requests_per_channel)
        requests_above_total
    or_else refuse (ltb l.max_queued_frames_total l.max_queued_frames_per_channel)
        frames_above_total
    or_else refuse (ltb l.max_queued_bytes_total l.max_queued_bytes_per_channel) bytes_above_total

unfoldable pub limits_validate : Limits → Option ConfigError
limits_validate given =
    let l = limits_with_defaults given in check_limits (limit_checks l) or_else check_relations l

pub record Config : Type 0 where
  pub initial_window : ℕ  -- uint32
  pub max_packet_size : ℕ  -- uint32
  pub window_adjust_threshold : ℕ  -- uint32
  pub disconnect_timeout : ℤ  -- nanoseconds
  pub channel_close_timeout : ℤ  -- nanoseconds
  pub limits : Limits

abbrev pub or_default_duration : ℤ → ℤ → ℤ
or_default_duration value fallback = if is_zero value then fallback else value

unfoldable pub config_with_defaults : Config → Config
config_with_defaults c = record {
  initial_window = or_default c.initial_window 262_144;
  max_packet_size = or_default c.max_packet_size 16_384;
  window_adjust_threshold = or_default c.window_adjust_threshold 65_536;
  disconnect_timeout = or_default_duration c.disconnect_timeout (pos 250_000_000);
  channel_close_timeout = or_default_duration c.channel_close_timeout (pos 5_000_000_000);
  limits = limits_with_defaults c.limits;
}

-- The checks before the limits.
pub check_windows : Config → Option ConfigError
unfolding hard_limits
check_windows c =
    refuse (c.initial_window == 0) window_zero
    or_else refuse (c.max_packet_size == 0) packet_zero
    or_else refuse (ltb c.initial_window c.max_packet_size) packet_above_window
    or_else refuse (ltb hard_limits.max_control_payload c.max_packet_size) packet_above_protocol
    or_else refuse (c.window_adjust_threshold == 0) threshold_zero
    or_else refuse (ltb c.initial_window c.window_adjust_threshold) threshold_above_window
    or_else refuse (c.initial_window == max_uint32) window_too_large
    or_else refuse (is_negative c.disconnect_timeout) disconnect_timeout_negative
    or_else refuse (is_negative c.channel_close_timeout || is_zero c.channel_close_timeout)
        close_timeout_not_positive

-- The checks after the limits.
pub check_budgets : Config → Option ConfigError
check_budgets c =
    refuse (ltb c.limits.max_queued_bytes_per_channel c.max_packet_size) packet_above_channel_bytes
    or_else refuse (ltb c.limits.max_queued_bytes_total c.max_packet_size) packet_above_total_bytes
    or_else refuse (ltb c.limits.max_queued_bytes_total c.limits.max_control_payload)
        payload_above_total_bytes

unfoldable pub config_validate : Config → Option ConfigError
config_validate given =
    let c = config_with_defaults given in
    check_windows c or_else limits_validate c.limits or_else check_budgets c
