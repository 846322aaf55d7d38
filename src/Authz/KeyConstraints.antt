-- ===== src/Authz/KeyConstraints.antt =====
-- app/server/authz/key_constraints.go: the constraints of the matched key.
use mygosh.Base.{Bool, false, not, ◌&&◌, length, ltb, if◌then◌else◌}
use mygosh.Base.Result.{Result, accept, ok, guard, ◌>>=◌}
use mygosh.Text.{Text, is_empty, same}
use mygosh.Trust.{AuthorizedKeyConstraints}
use mygosh.Authz.{AuthzErr, restricted_allows_pty, key_command_too_long, commands_conflict}
use mygosh.Authz.Permissions.{PermissionDecision}

pub record MatchedKeyConstraints : Type 0 where
  pub forced_command : Text
  pub no_pty : Bool
  pub restricted : Bool

unfoldable pub new_matched_key_constraints : AuthorizedKeyConstraints → MatchedKeyConstraints
new_matched_key_constraints c = record {
  forced_command = c.forced_command;
  no_pty = c.no_pty;
  restricted = c.restricted;
}

unfoldable pub validate : MatchedKeyConstraints → Result AuthzErr (Unit {0})
validate c =
    guard (c.restricted && not c.no_pty) restricted_allows_pty
      (guard (ltb 24576 (length c.forced_command)) key_command_too_long accept)

-- `if constraints.noPTY { decision.AllowPTY = false }`
unfoldable pub without_pty : Bool → PermissionDecision → PermissionDecision
without_pty no_pty d = if no_pty then record d { allow_pty = false } else d

unfoldable pub apply_matched_key_constraints :
    PermissionDecision → MatchedKeyConstraints → Result AuthzErr PermissionDecision
apply_matched_key_constraints d c = validate c >>= λ _.
    let e = without_pty c.no_pty d in
    if is_empty c.forced_command
    then ok e
    else guard (not (is_empty e.forced_command) && not (same e.forced_command c.forced_command))
        commands_conflict (ok (record e { forced_command = c.forced_command }))
