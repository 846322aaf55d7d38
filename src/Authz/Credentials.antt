-- ===== src/Authz/Credentials.antt =====
-- app/server/authz/credentials.go: the credentials of an authorized connection.
use mygosh.Base.{ℕ, Bool, true, false, not, ◌&&◌, ◌||◌, Option, none, some, [], ◌∷◌, ◌==◌}
use mygosh.Base.Result.{Result, accept, guard, ◌>>=◌}
use mygosh.Text.{Text, text_of, is_empty}
use mygosh.Keys.{PublicKey, Account, is_invalid}
use mygosh.Authz.{AuthzErr, method_required, username_required, key_invalid, fingerprint_required}
use mygosh.Authz.{
  account_username_required, account_home_required, home_not_absolute, shell_not_absolute,
  source_required, token_required,
}
use mygosh.Authz.Permissions
use mygosh.Authz.Permissions.{ConnectionPermissions}
use mygosh.Authz.KeyConstraints
use mygosh.Authz.KeyConstraints.{MatchedKeyConstraints}

-- `filepath.IsAbs` on Unix: the first byte is 47, `/`.
unfoldable pub is_abs : Text → Bool
is_abs [] = false
is_abs (c ∷ t) = c == 47

-- The proof of a client (lib/auth) and the address it came from.
pub record ConnectionRequest : Type 0 where
  pub requested_username : Text
  pub proven_key : PublicKey
  pub peer_address : Text

-- `identity_token` is a pointer: its allocation's number, or nil.
pub record ConnectionCredentials : Type 0 where
  pub authentication_method : Text
  pub key_fingerprint : Text
  pub requested_username : Text
  pub peer_address : Text
  pub proved_key : PublicKey
  pub account : Account
  pub matched_source : Text
  pub matched_key_constraints : MatchedKeyConstraints
  pub permissions : ConnectionPermissions
  pub identity_token : Option ℕ

-- `fingerprint` is the printed SHA-256 hash of a key, `token` the number of the new allocation.
unfoldable pub new_connection_credentials :
    (PublicKey → Text)
    → ℕ
    → ConnectionRequest
    → Account
    → Text
    → MatchedKeyConstraints
    → ConnectionPermissions
    → ConnectionCredentials
new_connection_credentials fingerprint token r account source constraints permissions = record {
  authentication_method = text_of "public-key";
  key_fingerprint = fingerprint r.proven_key;
  requested_username = r.requested_username;
  peer_address = r.peer_address;
  proved_key = r.proven_key;
  account = account;
  matched_source = source;
  matched_key_constraints = constraints;
  permissions = permissions;
  identity_token = some token;
}

unfoldable pub validate_account : Account → Result AuthzErr (Unit {0})
validate_account a =
    guard (is_empty a.username) account_username_required
      (guard (is_empty a.home_dir) account_home_required accept)

unfoldable pub is_nil : Option ℕ → Bool
is_nil none = true
is_nil (some n) = false

unfoldable pub validate : ConnectionCredentials → Result AuthzErr (Unit {0})
validate c = guard (is_empty c.authentication_method) method_required (
    guard (is_empty c.requested_username) username_required (
      guard (is_invalid c.proved_key) key_invalid (
        guard (is_empty c.key_fingerprint) fingerprint_required (
          validate_account c.account >>= λ _.
          guard (not (is_abs c.account.home_dir)) home_not_absolute (
            guard (is_empty c.matched_source) source_required (
              KeyConstraints.validate c.matched_key_constraints >>= λ _.
              Permissions.validate c.permissions >>= λ _.
              guard
                ((c.permissions.allow_shell || c.permissions.allow_exec)
                  && not (is_abs c.account.login_shell))
                shell_not_absolute (guard (is_nil c.identity_token) token_required accept)))))))
