-- ===== src/Session/Accounts/Tests.antt =====
-- The accounting of a short schedule (lib/session/session.go).
use mygosh.Session.Config.{config_with_defaults}
use mygosh.Session.Config.Tests.{zero_config-valid}
use mygosh.Session.System.{run, bind}
use mygosh.Session.Accounts.{Balanced}
use mygosh.Session.Accounts.Invariant.{run-Balanced}
use mygosh.Session.Accounts.Capacity.{HasRoom, run-HasRoom}
use mygosh.Session.Sample.{zero_config, sample_world, sample_actions}

run-Balanced_example :
    Balanced (run sample_world sample_actions (bind (config_with_defaults zero_config)))
run-Balanced_example = run-Balanced sample_world zero_config sample_actions zero_config-valid

run-HasRoom_example :
    HasRoom (run sample_world sample_actions (bind (config_with_defaults zero_config)))
run-HasRoom_example = run-HasRoom sample_world zero_config sample_actions zero_config-valid
