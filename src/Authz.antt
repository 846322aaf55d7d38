-- ===== src/Authz.antt =====
-- app/server/authz: which connections, channels and launches the server authorizes.
pub mod Permissions
pub mod Canonical
pub mod KeyConstraints
pub mod Credentials
pub mod Launch
pub mod Permitted
pub mod Match
pub mod Search
pub mod Connection
pub mod Admitted
mod Tests
use mygosh.Base.{ℕ}
use mygosh.Text.{Text}

-- The errors of the package, by the message they carry. `policy` is an error of a collaborator.
pub data AuthzErr : Type 0 where
  forced_command_nul forced_command_too_long needs_command forced_needs_launch : AuthzErr
  pty_needs_launch too_many_names name_required name_invalid name_too_long : AuthzErr
  restricted_allows_pty key_command_too_long commands_conflict : AuthzErr
  method_required username_required key_invalid fingerprint_required : AuthzErr
  account_username_required account_home_required home_not_absolute shell_not_absolute
        source_required token_required :
      AuthzErr
  no_authz canceled channel_type_unsupported commands_not_permitted foreign_channel : AuthzErr
  shell_not_permitted shell_has_command exec_not_permitted exec_needs_command : AuthzErr
  kind_unsupported pty_not_permitted pty_size_zero pty_terminal_nul : AuthzErr
  too_many_variables variable_not_permitted variable_nul variable_too_long : AuthzErr
  command_nul command_too_long proof_incomplete unresolved account_refused : AuthzErr
  no_permissions no_home no_working_directory unreadable unparsable : AuthzErr
  constraints_invalid no_keys key_not_authorized : AuthzErr
