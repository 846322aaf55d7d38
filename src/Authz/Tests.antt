-- ===== src/Authz/Tests.antt =====
-- Concrete runs of app/server/authz and of lib/trust.
use mygosh.Base.{◌≡◌, refl, true, false, none, some, List, [], ◌∷◌}
use mygosh.Base.Result.{ok, accept}
use mygosh.Text.{
  is_empty, trim_space, trim_left, trim_right, is_space, contains, member, same, text_of,
}
use mygosh.Text.Pairs.{value_of, names_of}
use mygosh.Text.Order.{sort, insert, text_leb}
use mygosh.Keys.{PublicKey, Account, ed25519, is_invalid, equal}
use mygosh.Trust.{
  AuthorizedKeyOption, AuthorizedKeyConstraints, parse_constraints, option_loop, apply_option,
  command_option, find_entry,
}
use mygosh.Trust.Constraints.{IsSound, parse_constraints-IsSound}
use mygosh.Authz.Permissions
use mygosh.Authz.Permissions.{
  PermissionDecision, ConnectionPermissions, new_connection_permissions, check_decision,
  collect_names, validate_environment_name, decision_of, validate,
}
use mygosh.Authz.Canonical.{new_connection_permissions-decision_of}
use mygosh.Authz.KeyConstraints
use mygosh.Authz.KeyConstraints.{
  MatchedKeyConstraints, new_matched_key_constraints, apply_matched_key_constraints, without_pty,
}
use mygosh.Authz.Credentials
use mygosh.Authz.Credentials.{
  ConnectionRequest, ConnectionCredentials, new_connection_credentials, validate_account, is_abs,
  is_nil,
}
use mygosh.Authz.Launch.{
  AuthorizedChannel, LaunchRequest, AuthorizedLaunchSpec, launch_shell, launch_exec,
  authorize_launch, enter, is_same_token, check_kind, check_pty, environment_loop,
  authorize_environment, launch_spec, command_channel_type,
}
use mygosh.Authz.Permitted.{IsPermitted, authorize_launch-IsPermitted}
use mygosh.Authz.Match.{
  Files, entries, MatchedAuthorizedKey, match_authorized_key, match_loop, after_file, on_match,
  resolve_account_path, under_home,
}
use mygosh.Authz.Search.{Found, match_authorized_key-Found}
use mygosh.Authz.Connection.{Authz, authorize_connection}
use mygosh.Authz.Admitted.{IsAdmitted, authorize_connection-IsAdmitted, key_constraints-bind}

-- A decision with names that are untrimmed, repeated and out of order.
abbrev decision : PermissionDecision
decision = record {
  allow_command = true;
  allow_shell = true;
  allow_exec = true;
  allow_pty = true;
  forced_command = [];
  allowed_environment = (66 ∷ []) ∷ (32 ∷ 65 ∷ []) ∷ (66 ∷ 32 ∷ []) ∷ [];
}

abbrev permissions : ConnectionPermissions
permissions = record {
  allow_command = true;
  allow_shell = true;
  allow_exec = true;
  allow_pty = false;
  forced_command = 108 ∷ 115 ∷ [];
  allowed_environment = (65 ∷ []) ∷ (66 ∷ []) ∷ [];
}

abbrev constrained : PermissionDecision
constrained = record decision { allow_pty = false; forced_command = 32 ∷ 108 ∷ 115 ∷ [] }

constrained_permissions : new_connection_permissions constrained ≡ ok permissions
unfolding new_connection_permissions check_decision collect_names validate_environment_name sort
    insert text_leb trim_space trim_left trim_right is_space is_empty contains member same
constrained_permissions = refl

new_connection_permissions-decision_of_example :
    (new_connection_permissions (decision_of permissions) ≡ ok permissions)
    × (Permissions.validate permissions ≡ accept)
new_connection_permissions-decision_of_example =
    new_connection_permissions-decision_of constrained permissions constrained_permissions

abbrev key : PublicKey
key = record {
  algorithm = 101 ∷ 100 ∷ 50 ∷ 53 ∷ 53 ∷ 49 ∷ 57 ∷ [];
  bytes =
      1 ∷ 2 ∷ 3 ∷ 4 ∷ 5 ∷ 6 ∷ 7 ∷ 8 ∷ 1 ∷ 2 ∷ 3 ∷ 4 ∷ 5 ∷ 6 ∷ 7 ∷ 8 ∷ 1 ∷ 2 ∷ 3 ∷ 4 ∷ 5 ∷ 6 ∷ 7 ∷ 8
      ∷ 1 ∷ 2 ∷ 3 ∷ 4 ∷ 5 ∷ 6 ∷ 7 ∷ 8 ∷ [];
  comment = [];
}

-- command=" ls",restrict
abbrev options : List AuthorizedKeyOption
options =
    (record {
      name = 99 ∷ 111 ∷ 109 ∷ 109 ∷ 97 ∷ 110 ∷ 100 ∷ [];
      value = 32 ∷ 108 ∷ 115 ∷ [];
      has_value = true;
    })
    ∷ (record {
      name = 114 ∷ 101 ∷ 115 ∷ 116 ∷ 114 ∷ 105 ∷ 99 ∷ 116 ∷ [];
      value = [];
      has_value = false;
    })
    ∷ []

abbrev constraints : AuthorizedKeyConstraints
constraints = record { forced_command = 32 ∷ 108 ∷ 115 ∷ []; no_pty = true; restricted = true }

parsed : parse_constraints (λ t. some t) options ≡ ok constraints
unfolding parse_constraints option_loop apply_option command_option text_of same member is_empty
    contains trim_space trim_left trim_right is_space
parsed = refl

parse_constraints-IsSound_example : IsSound constraints
parse_constraints-IsSound_example =
    parse_constraints-IsSound (λ t. some t) options constraints parsed

abbrev account : Account
account = record {
  username = 117 ∷ [];
  name = [];
  id = 1000;
  primary_group = record { id = 1000; name = [] };
  supplementary_groups = [];
  home_dir = 47 ∷ 104 ∷ [];
  login_shell = 47 ∷ 115 ∷ [];
}

abbrev files : Files
files = record {
  paths = record { join = λ a b. a; dir = λ a. a; base = λ a. a; working_directory = none };
  read = λ at. entries ((record { options = options; key = key }) ∷ []);
  unquote = λ t. some t;
  canceled_at = λ p. false;
}

abbrev matched : MatchedAuthorizedKey
matched = record {
  source = 47 ∷ 107 ∷ [];
  constraints = record { forced_command = 32 ∷ 108 ∷ 115 ∷ []; no_pty = true; restricted = true };
}

matching : match_authorized_key files account key ((47 ∷ 107 ∷ []) ∷ []) ≡ ok matched
unfolding match_authorized_key match_loop after_file on_match resolve_account_path under_home is_abs
    find_entry equal same parse_constraints option_loop apply_option command_option text_of member
    is_empty contains trim_space trim_left trim_right is_space new_matched_key_constraints
matching = refl

match_authorized_key-Found_example : Found files account key ((47 ∷ 107 ∷ []) ∷ []) matched
match_authorized_key-Found_example =
    match_authorized_key-Found files account key ((47 ∷ 107 ∷ []) ∷ []) matched matching

abbrev server : Authz
server = record {
  is_nil = false;
  is_canceled = false;
  resolve = λ u. ok account;
  authorized_keys_paths = (47 ∷ 107 ∷ []) ∷ [];
  files = files;
  account_policy = λ r a s. ok tt;
  permission_policy = λ r a s. ok decision;
  fingerprint = λ k. 83 ∷ [];
  token = 4;
}

abbrev request : ConnectionRequest
request = record { requested_username = 117 ∷ []; proven_key = key; peer_address = [] }

abbrev credentials : ConnectionCredentials
credentials = record {
  authentication_method = 112 ∷ 117 ∷ 98 ∷ 108 ∷ 105 ∷ 99 ∷ 45 ∷ 107 ∷ 101 ∷ 121 ∷ [];
  key_fingerprint = 83 ∷ [];
  requested_username = 117 ∷ [];
  peer_address = [];
  proved_key = key;
  account = account;
  matched_source = 47 ∷ 107 ∷ [];
  matched_key_constraints = record {
    forced_command = 32 ∷ 108 ∷ 115 ∷ [];
    no_pty = true;
    restricted = true;
  };
  permissions = permissions;
  identity_token = some 4;
}

valid : Credentials.validate credentials ≡ accept
unfolding Credentials.validate KeyConstraints.validate Permissions.validate validate_account
    is_invalid ed25519 is_nil new_connection_permissions check_decision collect_names
    validate_environment_name sort insert text_leb is_abs same text_of member is_empty contains
    trim_space trim_left trim_right is_space
valid = refl

connecting : authorize_connection server request ≡ ok credentials
unfolding authorize_connection new_connection_credentials match_authorized_key match_loop after_file
    on_match resolve_account_path under_home find_entry equal parse_constraints option_loop
    apply_option command_option new_matched_key_constraints apply_matched_key_constraints
    without_pty Credentials.validate KeyConstraints.validate Permissions.validate validate_account
    is_invalid ed25519 is_nil new_connection_permissions check_decision collect_names
    validate_environment_name sort insert text_leb is_abs same text_of member is_empty contains
    trim_space trim_left trim_right is_space
connecting = refl

authorize_connection-IsAdmitted_example : IsAdmitted server request credentials
authorize_connection-IsAdmitted_example =
    authorize_connection-IsAdmitted server request credentials connecting

abbrev channel : AuthorizedChannel
channel = record {
  channel_type = 99 ∷ 111 ∷ 109 ∷ 109 ∷ 97 ∷ 110 ∷ 100 ∷ [];
  credential_identity = some 4;
}

-- A shell with one permitted variable.
abbrev launch : LaunchRequest
launch = record {
  kind = launch_shell;
  command = [];
  pty = none;
  environment = (65 ∷ [], 49 ∷ []) ∷ [];
}

abbrev spec : AuthorizedLaunchSpec
spec = record {
  kind = launch_exec;
  command = 108 ∷ 115 ∷ [];
  executable = 47 ∷ 115 ∷ [];
  working_directory = 47 ∷ 104 ∷ [];
  pty = none;
  environment = (65 ∷ [], 49 ∷ []) ∷ [];
  account = account;
}

launching : authorize_launch false false credentials channel launch ≡ ok spec
unfolding authorize_launch enter is_same_token check_kind check_pty value_of names_of
    environment_loop authorize_environment launch_spec command_channel_type Credentials.validate
    KeyConstraints.validate Permissions.validate validate_account is_invalid ed25519 is_nil
    new_connection_permissions check_decision collect_names validate_environment_name sort insert
    text_leb is_abs same text_of member is_empty contains trim_space trim_left trim_right is_space
launching = refl

authorize_launch-IsPermitted_example : IsPermitted credentials channel launch spec
authorize_launch-IsPermitted_example =
    authorize_launch-IsPermitted credentials channel launch false false spec launching

key_constraints-bind_example :
    (is_empty (32 ∷ 108 ∷ 115 ∷ []) ≡ false
      → (spec.kind ≡ launch_exec) × (spec.command ≡ trim_space (32 ∷ 108 ∷ 115 ∷ [])))
    × (true ≡ true → spec.pty ≡ none)
key_constraints-bind_example =
    key_constraints-bind server request credentials channel launch false false spec connecting
      launching
