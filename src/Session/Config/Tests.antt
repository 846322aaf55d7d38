-- ===== src/Session/Config/Tests.antt =====
-- The theorem on the configuration at concrete inputs (lib/session/config.go).
use mygosh.Base.{◌≡◌, refl, ◌↔◌, none, some}
use mygosh.Session.Config.{
  Config, config_validate, config_with_defaults, limits_validate, limits_with_defaults,
  default_limits, hard_limits, check_limits, check_limit, check_relations, check_windows,
  check_budgets, packet_above_window,
}
use mygosh.Session.Config.Valid.{ConfigValid, config_validate_iff}
use mygosh.Session.Sample.{zero_config}

config_validate_iff_example :
    (config_validate zero_config ≡ none) ↔ ConfigValid (config_with_defaults zero_config)
config_validate_iff_example = config_validate_iff zero_config

pub zero_config-valid : config_validate zero_config ≡ none
unfolding config_validate config_with_defaults limits_validate limits_with_defaults default_limits
    hard_limits check_limits check_limit check_relations check_windows check_budgets
zero_config-valid = refl

-- With these values a channel comes to rest, as Flow/StallTests shows.
abbrev tight_config : Config
tight_config = record zero_config {
  initial_window = 16_384;
  max_packet_size = 16_384;
  window_adjust_threshold = 16_384;
}

tight_config-valid : config_validate tight_config ≡ none
unfolding config_validate config_with_defaults limits_validate limits_with_defaults default_limits
    hard_limits check_limits check_limit check_relations check_windows check_budgets
tight_config-valid = refl

-- A packet that does not fit in the window is refused.
big_packet_refused :
    config_validate (record zero_config { initial_window = 9; max_packet_size = 10 })
    ≡ some packet_above_window
unfolding config_validate config_with_defaults check_windows
big_packet_refused = refl
