-- ===== src/Authz/Permissions.antt =====
-- app/server/authz/permissions.go: the permissions of a connection.
use mygosh.Base.{Bool, not, ◌&&◌, ◌||◌, List, [], ◌∷◌, ◌++◌, length, ltb, if◌then◌else◌}
use mygosh.Base.Result.{Result, accept, ok, guard, ◌>>=◌}
use mygosh.Text.{Text, trim_space, contains, is_empty, member}
use mygosh.Text.Order.{sort}
use mygosh.Authz.{
  AuthzErr, forced_command_nul, forced_command_too_long, needs_command, forced_needs_launch,
}
use mygosh.Authz.{pty_needs_launch, too_many_names, name_required, name_invalid, name_too_long}

-- `PermissionDecision`, what a policy hands out.
pub record PermissionDecision : Type 0 where
  pub allow_command : Bool
  pub allow_shell : Bool
  pub allow_exec : Bool
  pub allow_pty : Bool
  pub forced_command : Text
  pub allowed_environment : List Text

-- `ConnectionPermissions`, the snapshot that a connection keeps.
pub record ConnectionPermissions : Type 0 where
  pub allow_command : Bool
  pub allow_shell : Bool
  pub allow_exec : Bool
  pub allow_pty : Bool
  pub forced_command : Text
  pub allowed_environment : List Text

unfoldable pub validate_environment_name : Text → Result AuthzErr (Unit {0})
validate_environment_name name = guard (is_empty name) name_required (
    guard (contains 61 name || contains 0 name) name_invalid
      (guard (ltb 256 (length name)) name_too_long accept))

-- The loop over the names; `allowed` holds just the names of the map `seen`.
unfoldable pub collect_names : List Text → List Text → Result AuthzErr (List Text)
collect_names allowed [] = ok allowed
collect_names allowed (n ∷ names) =
    let name = trim_space n in
    let rest =
      collect_names (if member name allowed then allowed else allowed ++ (name ∷ [])) names in
    validate_environment_name name >>= λ _. rest

-- The checks of a decision before its environment, on the trimmed forced command.
unfoldable pub check_decision {ℓ} :
    {A : Type ℓ} → PermissionDecision → Text → Result AuthzErr A → Result AuthzErr A
check_decision d forced k = guard (contains 0 forced) forced_command_nul (
    guard (ltb 24576 (length forced)) forced_command_too_long (
      guard
        ((d.allow_shell || d.allow_exec || d.allow_pty || not (is_empty forced))
          && not d.allow_command)
        needs_command
        (guard (not (is_empty forced) && not d.allow_shell && not d.allow_exec) forced_needs_launch
          (guard (d.allow_pty && not d.allow_shell && not d.allow_exec) pty_needs_launch k))))

unfoldable pub new_connection_permissions :
    PermissionDecision → Result AuthzErr ConnectionPermissions
new_connection_permissions d =
    let forced = trim_space d.forced_command in
    check_decision d forced (
      guard (ltb 128 (length d.allowed_environment)) too_many_names (
        collect_names [] d.allowed_environment >>= λ allowed. ok (record {
          allow_command = d.allow_command;
          allow_shell = d.allow_shell;
          allow_exec = d.allow_exec;
          allow_pty = d.allow_pty;
          forced_command = forced;
          allowed_environment = sort allowed;
        })))

-- The decision that `validate` checks again.
abbrev pub decision_of : ConnectionPermissions → PermissionDecision
decision_of p = record {
  allow_command = p.allow_command;
  allow_shell = p.allow_shell;
  allow_exec = p.allow_exec;
  allow_pty = p.allow_pty;
  forced_command = p.forced_command;
  allowed_environment = p.allowed_environment;
}

-- `ConnectionPermissions.validate`
unfoldable pub validate : ConnectionPermissions → Result AuthzErr (Unit {0})
validate p = new_connection_permissions (decision_of p) >>= λ _. accept
