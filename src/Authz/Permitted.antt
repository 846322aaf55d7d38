-- ===== src/Authz/Permitted.antt =====
-- What an authorized launch may do, for app/server/authz/launch.go.
use mygosh.Base.{
  ◌<◌, ◌≤◌, ◌≡◌, refl, ap, subst, Bool, true, false, not, ◌||◌, Option, none, some, List, [], ◌∷◌,
  map,
}
use mygosh.Base.{All, ◌==◌, length, ltb, arith}
use mygosh.Base.Result.{accept, ok, guard-ok, bind-ok, ok_injective}
use mygosh.Text.{Text, is_empty, trim_space, contains, same, member}
use mygosh.Text.Pairs.{value_of, names_of}
use mygosh.Text.Order.{sort}
use mygosh.Authz.Permissions.{ConnectionPermissions, validate_environment_name}
use mygosh.Authz.Credentials
use mygosh.Authz.Credentials.{ConnectionCredentials, is_abs}
use mygosh.Authz.Launch.{
  AuthorizedChannel, LaunchKind, launch_shell, launch_exec, launch_other, PtyRequest, LaunchRequest,
  AuthorizedLaunchSpec,
}
use mygosh.Authz.Launch.{
  enter, is_same_token, check_kind, check_pty, environment_loop, authorize_environment, launch_spec,
  authorize_launch, command_channel_type,
}

-- A variable that the permissions let through.
pub record IsAllowed (allowed : List Text) (e : Text × Text) : Type 0 where
  pub named : validate_environment_name e.0 ≡ accept
  pub permitted : member e.0 allowed ≡ true
  pub no_nul : contains 0 e.1 ≡ false
  pub short : length e.1 ≤ 16384

-- The permission that a kind needs.
unfoldable pub allows : ConnectionPermissions → LaunchKind → Bool
allows p launch_shell = p.allow_shell
allows p launch_exec = p.allow_exec
allows p (launch_other k) = false

unfoldable pub AllowsPty : ConnectionPermissions → Option PtyRequest → Type 0
AllowsPty p none = Unit
AllowsPty p (some r) = (p.allow_pty ≡ true) × (0 < r.rows) × (0 < r.columns)

-- What the permissions of `c` let the request `r` become.
pub record IsPermitted (c : ConnectionCredentials) (channel : AuthorizedChannel) (r : LaunchRequest)
    (s : AuthorizedLaunchSpec) : Type 0 where
  pub valid : Credentials.validate c ≡ accept
  pub own_channel : is_same_token channel.credential_identity c.identity_token ≡ true
  pub kind_allowed : allows c.permissions r.kind ≡ true
  pub pty_allowed : AllowsPty c.permissions s.pty
  pub same_pty : s.pty ≡ r.pty
  pub variables : All (IsAllowed c.permissions.allowed_environment) s.environment
  pub all_variables :
      s.environment ≡ map (λ n. (n, value_of n r.environment)) (sort (names_of r.environment))
  pub no_nul : contains 0 (trim_space r.command) ≡ false
  pub short : length (trim_space r.command) ≤ 24576
  pub executable : is_abs s.executable ≡ true
  pub forced :
      is_empty c.permissions.forced_command ≡ false
      → (s.kind ≡ launch_exec) × (s.command ≡ c.permissions.forced_command)
  pub requested :
      is_empty c.permissions.forced_command ≡ true
      → (s.kind ≡ r.kind) × (s.command ≡ trim_space r.command)

environment_loop-IsAllowed :
    (requested : List (Text × Text)) (allowed names : List Text) (m : List (Text × Text))
    → environment_loop requested allowed names ≡ ok m
    → All (IsAllowed allowed) m × (m ≡ map (λ n. (n, value_of n requested)) names)
unfolding environment_loop
environment_loop-IsAllowed requested allowed [] m h =
    subst (λ x. All (IsAllowed allowed) x × (x ≡ [])) (ok_injective [] m h) (tt, refl)
environment_loop-IsAllowed requested allowed (name ∷ names) m h =
    let value = value_of name requested in
    let (u, e1, h1) = bind-ok (validate_environment_name name) _ m h in
    let (e2, h2) = guard-ok (not (member name allowed)) _ _ m h1 in
    let (e3, h3) = guard-ok (contains 0 value) _ _ m h2 in
    let (e4, h4) = guard-ok (ltb 16384 (length value)) _ _ m h3 in
    let (rest, e5, h5) = bind-ok (environment_loop requested allowed names) _ m h4 in
    let (others, same_rest) = environment_loop-IsAllowed requested allowed names rest e5 in
    let wanted : List (Text × Text) = (name, value) ∷ map (λ n. (n, value_of n requested)) names in
    subst (λ x. All (IsAllowed allowed) x × (x ≡ wanted)) (ok_injective ((name, value) ∷ rest) m h5)
      (
        (
          record {
            named = e1;
            permitted = ground (arith, e2);
            no_nul = e3;
            short = ground (arith, e4);
          },
          others,
        ),
        ap (◌∷◌ (name, value)) same_rest,
      )

check_kind-allows :
    (p : ConnectionPermissions) (k : LaunchKind) (command : Text)
    → check_kind p k command ≡ accept
    → allows p k ≡ true
unfolding check_kind allows
check_kind-allows p launch_shell command h =
    let (e, k) = guard-ok (not p.allow_shell) _ _ tt h in ground (arith, e)
check_kind-allows p launch_exec command h =
    let (e, k) = guard-ok (not p.allow_exec) _ _ tt h in ground (arith, e)
check_kind-allows p (launch_other k) command h = ground (arith, h)

check_pty-AllowsPty :
    (p : ConnectionPermissions) (r : Option PtyRequest) → check_pty p r ≡ accept → AllowsPty p r
unfolding check_pty AllowsPty
check_pty-AllowsPty p none h = tt
check_pty-AllowsPty p (some r) h =
    let (e, k) = guard-ok (not p.allow_pty) _ _ tt h in
    let (f, l) = guard-ok (r.rows == 0 || r.columns == 0) _ _ tt k in
    (ground (arith, e), ground (arith, f), ground (arith, f))

-- A launch that `AuthorizeLaunch` lets through: the credentials are valid and the channel was
-- authorized for them; the requested kind is permitted; a PTY is permitted and has a size; the
-- environment is just the requested one, sorted by name, each variable with its value, and each is
-- permitted; and what runs is the
-- request's trimmed command, or the forced command, whatever was requested.
pub authorize_launch-IsPermitted :
    (c : ConnectionCredentials) (channel : AuthorizedChannel) (r : LaunchRequest)
    (is_nil is_canceled : Bool) (s : AuthorizedLaunchSpec)
    → authorize_launch is_nil is_canceled c channel r ≡ ok s
    → IsPermitted c channel r s
unfolding authorize_launch enter authorize_environment launch_spec
authorize_launch-IsPermitted c channel r is_nil is_canceled s h =
    let (u, e1, h1) = bind-ok (enter is_nil is_canceled c) _ s h in
    let (e2, h2) =
      guard-ok
        (not (same channel.channel_type command_channel_type)
          || not (is_same_token channel.credential_identity c.identity_token))
        _ _ s h1 in
    let (u3, e3, h3) = bind-ok (check_kind c.permissions r.kind r.command) _ s h2 in
    let (u4, e4, h4) = bind-ok (check_pty c.permissions r.pty) _ s h3 in
    let (m, e5, h5) =
      bind-ok (authorize_environment r.environment c.permissions.allowed_environment) _ s h4 in
    let (e6, h6) = guard-ok (not (is_abs c.account.home_dir)) _ _ s h5 in
    let (e7, h7) = guard-ok (not (is_abs c.account.login_shell)) _ _ s h6 in
    let (e8, h8) = guard-ok (contains 0 (trim_space r.command)) _ _ s h7 in
    let (e9, h9) = guard-ok (ltb 24576 (length (trim_space r.command))) _ _ s h8 in
    let (f1, g1) = guard-ok is_nil _ _ tt e1 in
    let (f2, g2) = guard-ok is_canceled _ _ tt g1 in
    let (f3, g3) = guard-ok (ltb 128 (length r.environment)) _ _ m e5 in
    let (vars, names) =
      environment_loop-IsAllowed r.environment c.permissions.allowed_environment
        (sort (names_of r.environment)) m g3 in
    subst (IsPermitted c channel r) (ok_injective (launch_spec c r m) s h9) (record {
      valid = g2;
      own_channel = ground (arith, e2);
      kind_allowed = check_kind-allows c.permissions r.kind r.command e3;
      pty_allowed = check_pty-AllowsPty c.permissions r.pty e4;
      same_pty = refl;
      variables = vars;
      all_variables = names;
      no_nul = e8;
      short = ground (arith, e9);
      executable = ground (arith, e7);
      forced = λ e. rw e (refl, refl);
      requested = λ e. rw e (refl, refl);
    })
