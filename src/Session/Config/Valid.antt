-- ===== src/Session/Config/Valid.antt =====
-- What `Validate` of lib/session/config.go accepts.
use mygosh.Base.{ℕ, ◌<◌, ◌≤◌, ◌≡◌, refl, sym, subst, ◌↔◌, ◌≢◌, false, Option, none, some}
use mygosh.Base.{List, [], ◌∷◌, All, arith}
use mygosh.Base.Int.{is_negative, is_zero}
use mygosh.Session.Config.{Limits, Config, Check, ConfigError, hard_limits, default_limits}
use mygosh.Session.Config.{check_limits, check_relations, limit_checks, limits_with_defaults}
use mygosh.Session.Config.{limits_validate, config_with_defaults, config_validate, check_limit}
use mygosh.Session.Config.{check_windows, check_budgets, ◌or_else◌, or_default}

-- Every limit is positive, at most the hard maximum, and no per-channel limit passes the total.
pub record LimitsValid (l : Limits) : Type 0 where
  pub channels : (0 < l.max_channels) × (l.max_channels ≤ 1024)
  pub opens :
      (0 < l.max_pending_opens)
      × (l.max_pending_opens ≤ 1024)
      × (l.max_pending_opens ≤ l.max_channels)
  pub requests : (0 < l.max_pending_channel_requests) × (l.max_pending_channel_requests ≤ 16_384)
  pub requests_per_channel :
      (0 < l.max_pending_channel_requests_per_channel)
      × (l.max_pending_channel_requests_per_channel ≤ 1024)
      × (l.max_pending_channel_requests_per_channel ≤ l.max_pending_channel_requests)
  pub global : (0 < l.max_pending_global_requests) × (l.max_pending_global_requests ≤ 2048)
  pub frames : (0 < l.max_queued_frames_total) × (l.max_queued_frames_total ≤ 65_536)
  pub frames_per_channel :
      (0 < l.max_queued_frames_per_channel)
      × (l.max_queued_frames_per_channel ≤ 4096)
      × (l.max_queued_frames_per_channel ≤ l.max_queued_frames_total)
  pub bytes : (0 < l.max_queued_bytes_total) × (l.max_queued_bytes_total ≤ 67_108_864)
  pub bytes_per_channel :
      (0 < l.max_queued_bytes_per_channel)
      × (l.max_queued_bytes_per_channel ≤ 8_388_608)
      × (l.max_queued_bytes_per_channel ≤ l.max_queued_bytes_total)
  pub payload : (0 < l.max_control_payload) × (l.max_control_payload ≤ 24_576)
  pub types : (0 < l.max_type_length) × (l.max_type_length ≤ 256)
  pub codes : (0 < l.max_code_length) × (l.max_code_length ≤ 128)
  pub messages : (0 < l.max_message_length) × (l.max_message_length ≤ 4096)

abbrev IsInRange : Check → Type 0
IsInRange c = (0 < c.value) × (c.value ≤ c.maximum)

check_limit_iff : (c : Check) → (check_limit c ≡ none) ↔ IsInRange c
unfolding check_limit
check_limit_iff c = ground arith

-- Both steps succeed exactly when their sequence does.
or_else_iff : (a b : Option ConfigError) → ((a or_else b) ≡ none) ↔ ((a ≡ none) × (b ≡ none))
or_else_iff none b = ((λ h. (refl, h)), λ h. h.1)
or_else_iff (some e) b = ((λ h. cc), λ h. h.0)

check_limits_iff : (cs : List Check) → (check_limits cs ≡ none) ↔ All IsInRange cs
unfolding check_limits
check_limits_iff [] = (λ h. tt, λ h. refl)
check_limits_iff (c ∷ cs) =
    let (split, join) = or_else_iff (check_limit c) (check_limits cs) in
    let (of, to) = check_limit_iff c in
    let (of_rest, to_rest) = check_limits_iff cs in
    ((λ h. (of (split h).0, of_rest (split h).1)), λ h. join (to h.0, to_rest h.1))

LimitsValid-of_checks :
    (l : Limits) → All IsInRange (limit_checks l) → check_relations l ≡ none → LimitsValid l
unfolding check_relations hard_limits
LimitsValid-of_checks l h r = ground arith

LimitsValid-IsInRange : (l : Limits) → LimitsValid l → All IsInRange (limit_checks l)
unfolding hard_limits
LimitsValid-IsInRange l h = omega arith

LimitsValid-relations : (l : Limits) → LimitsValid l → check_relations l ≡ none
unfolding check_relations
LimitsValid-relations l h = ground arith

limits_validate_iff :
    (l : Limits) → (limits_validate l ≡ none) ↔ LimitsValid (limits_with_defaults l)
unfolding limits_validate
limits_validate_iff given =
    let l : Limits = limits_with_defaults given in
    let (split, join) = or_else_iff (check_limits (limit_checks l)) (check_relations l) in
    let (of, to) = check_limits_iff (limit_checks l) in
    (
      (λ h. LimitsValid-of_checks l (of (split h).0) (split h).1),
      λ v. join (to (LimitsValid-IsInRange l v), LimitsValid-relations l v),
    )

or_default_idem : (v d : ℕ) → or_default (or_default v d) d ≡ or_default v d
or_default_idem v d = ground arith

limits_with_defaults_idem :
    (l : Limits) → limits_with_defaults (limits_with_defaults l) ≡ limits_with_defaults l
unfolding limits_with_defaults default_limits
limits_with_defaults_idem l = λ i. record {
  max_channels = or_default_idem l.max_channels default_limits.max_channels i;
  max_pending_opens = or_default_idem l.max_pending_opens default_limits.max_pending_opens i;
  max_pending_channel_requests =
      or_default_idem l.max_pending_channel_requests default_limits.max_pending_channel_requests i;
  max_pending_channel_requests_per_channel =
      or_default_idem l.max_pending_channel_requests_per_channel
        default_limits.max_pending_channel_requests_per_channel i;
  max_pending_global_requests =
      or_default_idem l.max_pending_global_requests default_limits.max_pending_global_requests i;
  max_queued_frames_per_channel =
      or_default_idem l.max_queued_frames_per_channel default_limits.max_queued_frames_per_channel
        i;
  max_queued_frames_total =
      or_default_idem l.max_queued_frames_total default_limits.max_queued_frames_total i;
  max_queued_bytes_per_channel =
      or_default_idem l.max_queued_bytes_per_channel default_limits.max_queued_bytes_per_channel i;
  max_queued_bytes_total =
      or_default_idem l.max_queued_bytes_total default_limits.max_queued_bytes_total i;
  max_control_payload = or_default_idem l.max_control_payload default_limits.max_control_payload i;
  max_type_length = or_default_idem l.max_type_length default_limits.max_type_length i;
  max_code_length = or_default_idem l.max_code_length default_limits.max_code_length i;
  max_message_length = or_default_idem l.max_message_length default_limits.max_message_length i;
}

-- A configuration that the session can run with.
pub record ConfigValid (c : Config) : Type 0 where
  pub window : (0 < c.initial_window) × (c.initial_window ≢ 0xffff_ffff)
  pub packet :
      (0 < c.max_packet_size)
      × (c.max_packet_size ≤ c.initial_window)
      × (c.max_packet_size ≤ 24_576)
  pub threshold : (0 < c.window_adjust_threshold) × (c.window_adjust_threshold ≤ c.initial_window)
  pub disconnect : is_negative c.disconnect_timeout ≡ false
  pub close :
      (is_negative c.channel_close_timeout ≡ false) × (is_zero c.channel_close_timeout ≡ false)
  pub limits : LimitsValid c.limits
  pub packet_fits :
      (c.max_packet_size ≤ c.limits.max_queued_bytes_per_channel)
      × (c.max_packet_size ≤ c.limits.max_queued_bytes_total)
  pub payload_fits : c.limits.max_control_payload ≤ c.limits.max_queued_bytes_total

ConfigValid-of_checks :
    (c : Config)
    → check_windows c ≡ none
    → LimitsValid c.limits
    → check_budgets c ≡ none
    → ConfigValid c
unfolding check_windows check_budgets hard_limits
ConfigValid-of_checks c w l b = record {
  window = ground arith;
  packet = ground arith;
  threshold = ground arith;
  disconnect = ground arith;
  close = ground arith;
  limits = l;
  packet_fits = ground arith;
  payload_fits = ground arith;
}

ConfigValid-windows : (c : Config) → ConfigValid c → check_windows c ≡ none
unfolding check_windows hard_limits
ConfigValid-windows c v = ground arith

ConfigValid-budgets : (c : Config) → ConfigValid c → check_budgets c ≡ none
unfolding check_budgets
ConfigValid-budgets c v = ground arith

-- `Validate` returns no error exactly when the configuration, its zero fields replaced by the
-- defaults, has every window, packet size, threshold, timeout and limit in its allowed range.
pub config_validate_iff :
    (c : Config) → (config_validate c ≡ none) ↔ ConfigValid (config_with_defaults c)
unfolding config_validate config_with_defaults
config_validate_iff given =
    let c : Config = config_with_defaults given in
    let (split, join) =
      or_else_iff (check_windows c) (limits_validate c.limits or_else check_budgets c) in
    let (split_rest, join_rest) = or_else_iff (limits_validate c.limits) (check_budgets c) in
    let (of, to) = limits_validate_iff c.limits in
    let twice = limits_with_defaults_idem given.limits in
    (
      (λ h.
          ConfigValid-of_checks c (split h).0
            (subst LimitsValid twice (of (split_rest (split h).1).0)) (split_rest (split h).1).1),
      (λ v. join (
        ConfigValid-windows c v,
        join_rest (to (subst LimitsValid (sym twice) v.limits), ConfigValid-budgets c v),
      )),
    )
