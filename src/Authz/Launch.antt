-- ===== src/Authz/Launch.antt =====
-- app/server/authz/launch.go: the authorization of a channel and of a launch on it.
use mygosh.Base.{
  ℕ, Bool, false, not, ◌&&◌, ◌||◌, Option, none, some, List, [], ◌∷◌, ◌==◌, length, ltb,
  if◌then◌else◌,
}
use mygosh.Base.Result.{Result, accept, ok, fail, guard, ◌>>=◌}
use mygosh.Text.{Text, text_of, is_empty, trim_space, contains, same, member}
use mygosh.Text.Order.{sort}
use mygosh.Text.Pairs.{value_of, names_of}
use mygosh.Keys.{Account}
use mygosh.Authz.{
  AuthzErr, no_authz, canceled, channel_type_unsupported, commands_not_permitted, foreign_channel,
}
use mygosh.Authz.{
  shell_not_permitted, shell_has_command, exec_not_permitted, exec_needs_command, kind_unsupported,
}
use mygosh.Authz.{
  pty_not_permitted, pty_size_zero, pty_terminal_nul, too_many_variables, variable_not_permitted,
}
use mygosh.Authz.{
  variable_nul, variable_too_long, home_not_absolute, shell_not_absolute, command_nul,
  command_too_long,
}
use mygosh.Authz.Permissions.{ConnectionPermissions, validate_environment_name}
use mygosh.Authz.Credentials
use mygosh.Authz.Credentials.{ConnectionCredentials, is_abs}

-- `CommandChannelType`
unfoldable pub command_channel_type : Text
command_channel_type = text_of "command"

pub record AuthorizedChannel : Type 0 where
  pub channel_type : Text
  pub credential_identity : Option ℕ

pub data LaunchKind : Type 0 where
  launch_shell launch_exec : LaunchKind
  launch_other : Text → LaunchKind

pub record PtyRequest : Type 0 where
  pub terminal : Text
  pub rows : ℕ  -- uint32
  pub columns : ℕ  -- uint32

-- `environment` is a map: a list of pairs with distinct names.
pub record LaunchRequest : Type 0 where
  pub kind : LaunchKind
  pub command : Text
  pub pty : Option PtyRequest
  pub environment : List (Text × Text)

pub record AuthorizedLaunchSpec : Type 0 where
  pub kind : LaunchKind
  pub command : Text
  pub executable : Text
  pub working_directory : Text
  pub pty : Option PtyRequest
  pub environment : List (Text × Text)
  pub account : Account

-- The receiver may be nil, and the context may be over.
unfoldable pub enter : Bool → Bool → ConnectionCredentials → Result AuthzErr (Unit {0})
enter is_nil is_canceled c =
    guard is_nil no_authz (guard is_canceled canceled (Credentials.validate c))

unfoldable pub authorize_channel :
    Bool → Bool → ConnectionCredentials → Text → Result AuthzErr AuthorizedChannel
authorize_channel is_nil is_canceled c channel_type = enter is_nil is_canceled c >>= λ _.
    guard (not (same channel_type command_channel_type)) channel_type_unsupported (
      guard (not c.permissions.allow_command) commands_not_permitted
        (ok (record { channel_type = channel_type; credential_identity = c.identity_token })))

-- `channel.credentialIdentity != credentials.identity()` for a pointer that is not nil.
unfoldable pub is_same_token : Option ℕ → Option ℕ → Bool
is_same_token (some m) (some n) = m == n
is_same_token _ _ = false

-- The cases of the switch on the kind.
unfoldable pub check_kind : ConnectionPermissions → LaunchKind → Text → Result AuthzErr (Unit {0})
check_kind p launch_shell command =
    guard (not p.allow_shell) shell_not_permitted
      (guard (not (is_empty (trim_space command))) shell_has_command accept)
check_kind p launch_exec command =
    guard (not p.allow_exec) exec_not_permitted
      (guard (is_empty (trim_space command) && is_empty p.forced_command) exec_needs_command accept)
check_kind p (launch_other k) command = fail kind_unsupported

unfoldable pub check_pty : ConnectionPermissions → Option PtyRequest → Result AuthzErr (Unit {0})
check_pty p none = accept
check_pty p (some r) = guard (not p.allow_pty) pty_not_permitted (
    guard (r.rows == 0 || r.columns == 0) pty_size_zero
      (guard (contains 0 r.terminal) pty_terminal_nul accept))

-- The loop over the sorted names.
unfoldable pub environment_loop :
    List (Text × Text) → List Text → List Text → Result AuthzErr (List (Text × Text))
environment_loop requested allowed [] = ok []
environment_loop requested allowed (name ∷ names) =
    let value = value_of name requested in
    let rest = environment_loop requested allowed names in
    validate_environment_name name >>= λ _.
    guard (not (member name allowed)) variable_not_permitted (
      guard (contains 0 value) variable_nul
        (guard (ltb 16384 (length value)) variable_too_long (rest >>= λ m. ok ((name, value) ∷ m))))

unfoldable pub authorize_environment :
    List (Text × Text) → List Text → Result AuthzErr (List (Text × Text))
authorize_environment requested allowed =
    guard (ltb 128 (length requested)) too_many_variables
      (environment_loop requested allowed (sort (names_of requested)))

-- The end of `AuthorizeLaunch`: a forced command replaces the kind and the command.
unfoldable pub launch_spec :
    ConnectionCredentials → LaunchRequest → List (Text × Text) → AuthorizedLaunchSpec
launch_spec c r environment =
    let forced = c.permissions.forced_command in
    record {
      kind = if not (is_empty forced) then launch_exec else r.kind;
      command = if not (is_empty forced) then forced else trim_space r.command;
      executable = c.account.login_shell;
      working_directory = c.account.home_dir;
      pty = r.pty;
      environment = environment;
      account = c.account;
    }

unfoldable pub authorize_launch :
    Bool
    → Bool
    → ConnectionCredentials
    → AuthorizedChannel
    → LaunchRequest
    → Result AuthzErr AuthorizedLaunchSpec
authorize_launch is_nil is_canceled c channel r = enter is_nil is_canceled c >>= λ _.
    guard
      (not (same channel.channel_type command_channel_type)
        || not (is_same_token channel.credential_identity c.identity_token))
      foreign_channel
      (check_kind c.permissions r.kind r.command >>= λ _. check_pty c.permissions r.pty >>= λ _.
        authorize_environment r.environment c.permissions.allowed_environment >>= λ environment.
        guard (not (is_abs c.account.home_dir)) home_not_absolute (
          guard (not (is_abs c.account.login_shell)) shell_not_absolute (
            guard (contains 0 (trim_space r.command)) command_nul (
              guard (ltb 24576 (length (trim_space r.command))) command_too_long
                (ok (launch_spec c r environment))))))
