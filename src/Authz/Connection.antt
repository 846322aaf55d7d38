-- ===== src/Authz/Connection.antt =====
-- `AuthorizeConnection` of app/server/authz/authz.go.
use mygosh.Base.{ℕ, Bool, ◌||◌, List}
use mygosh.Base.Result.{Result, ok, guard, ◌>>=◌}
use mygosh.Text.{Text, is_empty}
use mygosh.Keys.{PublicKey, Account, is_invalid}
use mygosh.Authz.{AuthzErr, no_authz, canceled, proof_incomplete}
use mygosh.Authz.Permissions.{PermissionDecision, new_connection_permissions}
use mygosh.Authz.KeyConstraints.{apply_matched_key_constraints}
use mygosh.Authz.Credentials
use mygosh.Authz.Credentials.{
  ConnectionRequest, ConnectionCredentials, new_connection_credentials, validate_account,
}
use mygosh.Authz.Match.{Files, match_authorized_key}

-- `Authz` and its collaborators: the account resolver, the two policies, the files that hold the
-- keys, and the hash and the allocation that go into the credentials.
pub record Authz : Type 0 where
  pub is_nil : Bool
  pub is_canceled : Bool
  pub resolve : Text → Result AuthzErr Account
  pub authorized_keys_paths : List Text
  pub files : Files
  pub account_policy : ConnectionRequest → Account → Text → Result AuthzErr (Unit {0})
  pub permission_policy : ConnectionRequest → Account → Text → Result AuthzErr PermissionDecision
  pub fingerprint : PublicKey → Text
  pub token : ℕ

unfoldable pub authorize_connection :
    Authz → ConnectionRequest → Result AuthzErr ConnectionCredentials
authorize_connection a r = guard a.is_nil no_authz (
    guard a.is_canceled canceled (
      guard (is_empty r.requested_username || is_invalid r.proven_key) proof_incomplete (
        a.resolve r.requested_username >>= λ account. validate_account account >>= λ _.
        match_authorized_key a.files account r.proven_key a.authorized_keys_paths >>= λ matched.
        a.account_policy r account matched.source >>= λ _.
        a.permission_policy r account matched.source >>= λ decision.
        apply_matched_key_constraints decision matched.constraints >>= λ constrained.
        new_connection_permissions constrained >>= λ permissions.
        let c =
          new_connection_credentials a.fingerprint a.token r account matched.source
            matched.constraints permissions in
        Credentials.validate c >>= λ _. ok c)))
