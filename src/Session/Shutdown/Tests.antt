-- ===== src/Session/Shutdown/Tests.antt =====
-- The end of a session at a concrete input (lib/session/session.go).
use mygosh.Base.{refl, some}
use mygosh.Base.Maps.{lookup, member}
use mygosh.Session.Error.{canceled}
use mygosh.Session.Shutdown.{shutdown}
use mygosh.Session.Shutdown.Stages.{HasAt, IsEnded}
use mygosh.Session.Shutdown.Ended.{shutdown-ends}
use mygosh.Session.Sample.{sample_world, sample_session, sample_channel}

shutdown-ends_example : HasAt IsEnded 0 (shutdown sample_world (some canceled) sample_session)
unfolding lookup member
shutdown-ends_example =
    shutdown-ends sample_world (some canceled) sample_session 0 sample_channel refl refl refl
