-- ===== src/Authz/Admitted.antt =====
-- About an authorized connection and the launches on it, in app/server/authz.
use mygosh.Base.{
  ◌≡◌, refl, sym, ap, subst, ◌∙◌, Bool, true, false, not, ◌&&◌, ◌||◌, Bool-cases, inl, inr, Option,
  none, some, List, [], arith,
}
use mygosh.Base.Result.{accept, ok, guard-ok, bind-ok, ok_injective}
use mygosh.Text.{Text, is_empty, same, trim_space}
use mygosh.Text.Order.{sort}
use mygosh.Keys.{is_invalid}
use mygosh.Trust.Constraints.{parse_constraints-IsSound}
use mygosh.Authz.Permissions.{
  PermissionDecision, ConnectionPermissions, collect_names, new_connection_permissions,
}
use mygosh.Authz.Canonical.{snapshot, new_connection_permissions-ok}
use mygosh.Authz.KeyConstraints
use mygosh.Authz.KeyConstraints.{
  MatchedKeyConstraints, new_matched_key_constraints, without_pty, apply_matched_key_constraints,
}
use mygosh.Authz.Credentials
use mygosh.Authz.Credentials.{
  ConnectionRequest, ConnectionCredentials, new_connection_credentials, validate_account,
}
use mygosh.Authz.Match.{MatchedAuthorizedKey, match_authorized_key}
use mygosh.Authz.Search.{Found, match_authorized_key-Found}
use mygosh.Authz.Connection.{Authz, authorize_connection}
use mygosh.Authz.Launch.{
  AuthorizedChannel, LaunchRequest, AuthorizedLaunchSpec, launch_exec, PtyRequest, authorize_launch,
}
use mygosh.Authz.Permitted.{AllowsPty, authorize_launch-IsPermitted}

-- The permissions `p`, with their names trimmed, checked, sorted and each once, are those of the decision `d`, narrowed by the key's constraints `k`.
pub record Narrows (d : PermissionDecision) (k : MatchedKeyConstraints) (p : ConnectionPermissions)
    : Type 0 where
  pub command_kept : p.allow_command ≡ d.allow_command
  pub shell_kept : p.allow_shell ≡ d.allow_shell
  pub exec_kept : p.allow_exec ≡ d.allow_exec
  pub pty_narrowed : p.allow_pty ≡ (d.allow_pty && not k.no_pty)
  pub environment_kept :
      (names : List Text) × (collect_names [] d.allowed_environment ≡ ok names)
      × (p.allowed_environment ≡ sort names)
  pub own_command :
      is_empty k.forced_command ≡ true → p.forced_command ≡ trim_space d.forced_command
  pub key_command :
      is_empty k.forced_command ≡ false → p.forced_command ≡ trim_space k.forced_command

without_pty-fields :
    (no_pty : Bool) (d : PermissionDecision)
    → let w = without_pty no_pty d in
      (w.allow_command ≡ d.allow_command)
      × (w.allow_shell ≡ d.allow_shell)
      × (w.allow_exec ≡ d.allow_exec)
      × (w.allow_pty ≡ (d.allow_pty && not no_pty))
      × (w.forced_command ≡ d.forced_command)
      × (w.allowed_environment ≡ d.allowed_environment)
unfolding without_pty
without_pty-fields true d = (refl, refl, refl, ground arith, refl, refl)
without_pty-fields false d = (refl, refl, refl, ground arith, refl, refl)

apply-Narrows :
    (d e : PermissionDecision) (k : MatchedKeyConstraints) (names : List Text)
    → apply_matched_key_constraints d k ≡ ok e
    → collect_names [] e.allowed_environment ≡ ok names
    → Narrows d k (snapshot e names)
unfolding apply_matched_key_constraints snapshot
apply-Narrows d e k names h collected =
    let (u, valid, h1) = bind-ok (KeyConstraints.validate k) _ e h in
    let w = without_pty k.no_pty d in
    let (command, shell, exec, pty, forced, variables) = without_pty-fields k.no_pty d in
    elim (Bool-cases (is_empty k.forced_command)) [
      | inl t ↦
          let same_e = ok_injective w e (rw t at h1) in
          let kept : collect_names [] d.allowed_environment ≡ ok names =
            ap (collect_names [])
              (sym variables ∙ ap (λ (x : PermissionDecision). x.allowed_environment) same_e)
            ∙ collected in
          subst (λ x. Narrows d k (snapshot x names)) same_e
            (record {
              command_kept = command;
              shell_kept = shell;
              exec_kept = exec;
              pty_narrowed = pty;
              environment_kept = (names, kept, refl);
              own_command = λ _. ap trim_space forced;
              key_command = λ f. ground (arith, t, f);
            })
      | inr t ↦
          let conflict =
            not (is_empty w.forced_command) && not (same w.forced_command k.forced_command) in
          let (agree, h2) = guard-ok conflict _ _ e (rw t at h1) in
          let same_e = ok_injective (record w { forced_command = k.forced_command }) e h2 in
          let kept : collect_names [] d.allowed_environment ≡ ok names =
            ap (collect_names [])
              (sym variables ∙ ap (λ (x : PermissionDecision). x.allowed_environment) same_e)
            ∙ collected in
          subst (λ x. Narrows d k (snapshot x names)) same_e
            (record {
              command_kept = command;
              shell_kept = shell;
              exec_kept = exec;
              pty_narrowed = pty;
              environment_kept = (names, kept, refl);
              own_command = λ f. ground (arith, t, f);
              key_command = λ _. refl;
            })
    ]

-- The way that credentials were made.
pub record IsAdmitted (a : Authz) (r : ConnectionRequest) (c : ConnectionCredentials) : Type 0 where
  pub account : a.resolve r.requested_username ≡ ok c.account
  pub valid_proof : is_invalid r.proven_key ≡ false
  pub matched : MatchedAuthorizedKey
  pub found : Found a.files c.account r.proven_key a.authorized_keys_paths matched
  pub source : c.matched_source ≡ matched.source
  pub constraints : c.matched_key_constraints ≡ matched.constraints
  pub decision : PermissionDecision
  pub decided : a.permission_policy r c.account c.matched_source ≡ ok decision
  pub policy : a.account_policy r c.account c.matched_source ≡ accept
  pub narrowed : Narrows decision c.matched_key_constraints c.permissions
  pub valid : Credentials.validate c ≡ accept
  pub proof_kept : (c.requested_username ≡ r.requested_username) × (c.proved_key ≡ r.proven_key)

-- A connection that `AuthorizeConnection` lets through: the account is the resolved one, the key
-- was found by the search, both policies agreed, and the permissions are those of the policy's
-- decision less what the key's constraints take away; the credentials are valid.
pub authorize_connection-IsAdmitted :
    (a : Authz) (r : ConnectionRequest) (c : ConnectionCredentials)
    → authorize_connection a r ≡ ok c
    → IsAdmitted a r c
unfolding authorize_connection new_connection_credentials
authorize_connection-IsAdmitted a r c h =
    let (e1, h1) = guard-ok a.is_nil _ _ c h in
    let (e2, h2) = guard-ok a.is_canceled _ _ c h1 in
    let (e3, h3) = guard-ok (is_empty r.requested_username || is_invalid r.proven_key) _ _ c h2 in
    let (account, e4, h4) = bind-ok (a.resolve r.requested_username) _ c h3 in
    let (u5, e5, h5) = bind-ok (validate_account account) _ c h4 in
    let (matched, e6, h6) =
      bind-ok (match_authorized_key a.files account r.proven_key a.authorized_keys_paths) _ c h5 in
    let (u7, e7, h7) = bind-ok (a.account_policy r account matched.source) _ c h6 in
    let (decision, e8, h8) = bind-ok (a.permission_policy r account matched.source) _ c h7 in
    let (constrained, e9, h9) =
      bind-ok (apply_matched_key_constraints decision matched.constraints) _ c h8 in
    let (permissions, e10, h10) = bind-ok (new_connection_permissions constrained) _ c h9 in
    let made =
      new_connection_credentials a.fingerprint a.token r account matched.source matched.constraints
        permissions in
    let (u11, e11, h11) = bind-ok (Credentials.validate made) _ c h10 in
    let (names, canonical, same_p, collected) =
      new_connection_permissions-ok constrained permissions e10 in
    subst (IsAdmitted a r) (ok_injective made c h11) (record {
      account = e4;
      valid_proof = ground (arith, e3);
      matched = matched;
      found =
          match_authorized_key-Found a.files account r.proven_key a.authorized_keys_paths matched
            e6;
      source = refl;
      constraints = refl;
      decision = decision;
      decided = e8;
      policy = e7;
      narrowed =
          subst (Narrows decision matched.constraints) same_p
            (apply-Narrows decision constrained matched.constraints names e9 collected);
      valid = e11;
      proof_kept = (refl, refl);
    })

-- The constraints that the search handed on are sound.
sound :
    (a : Authz) (r : ConnectionRequest) (c : ConnectionCredentials) (n : IsAdmitted a r c)
    → is_empty c.matched_key_constraints.forced_command ≡ false
    → is_empty (trim_space c.matched_key_constraints.forced_command) ≡ false
unfolding new_matched_key_constraints is_empty
sound a r c n h =
    let k = n.found.constraints in
    let own : k.forced_command ≡ c.matched_key_constraints.forced_command =
      ap (λ (m : MatchedAuthorizedKey). m.constraints.forced_command) n.found.result
      ∙ ap (λ (m : MatchedKeyConstraints). m.forced_command) (sym n.constraints) in
    elim (parse_constraints-IsSound a.files.unquote n.found.entry.options k
      n.found.resolved_constraints).forced [
        | inl e ↦ ground (arith, subst (λ t. is_empty t ≡ false) (sym own ∙ e) h)
        | inr e ↦ subst (λ t. is_empty (trim_space t) ≡ false) own e
      ]

narrowed_away : (d k p : Bool) → k ≡ true → p ≡ (d && not k) → p ≡ false
narrowed_away true k p e q = ground (arith, e, q)
narrowed_away false k p e q = ground (arith, e, q)

no_pty-none :
    (p : ConnectionPermissions) (o : Option PtyRequest)
    → AllowsPty p o
    → p.allow_pty ≡ false
    → o ≡ none
unfolding AllowsPty
no_pty-none p none h e = refl
no_pty-none p (some q) h e = ground (arith, h.0, e)

-- Every launch on an authorized connection is bound by the constraints of the client's key: where
-- the key has a forced command, that command runs, trimmed, whatever the client requests; and
-- where the key has no PTY, the launch has none.
pub key_constraints-bind :
    (a : Authz) (r : ConnectionRequest) (c : ConnectionCredentials) (channel : AuthorizedChannel)
    (request : LaunchRequest) (is_nil is_canceled : Bool) (s : AuthorizedLaunchSpec)
    → authorize_connection a r ≡ ok c
    → authorize_launch is_nil is_canceled c channel request ≡ ok s
    → let k = c.matched_key_constraints in
      (is_empty k.forced_command ≡ false
        → (s.kind ≡ launch_exec) × (s.command ≡ trim_space k.forced_command))
      × (k.no_pty ≡ true → s.pty ≡ none)
key_constraints-bind a r c channel request is_nil is_canceled s h l =
    let n = authorize_connection-IsAdmitted a r c h in
    let p = authorize_launch-IsPermitted c channel request is_nil is_canceled s l in
    (
      λ f.
          let forced = n.narrowed.key_command f in
          let (kind, command) =
            p.forced (subst (λ t. is_empty t ≡ false) (sym forced) (sound a r c n f)) in
          (kind, command ∙ forced),
      λ no_pty. no_pty-none c.permissions s.pty p.pty_allowed (
          narrowed_away n.decision.allow_pty c.matched_key_constraints.no_pty
            c.permissions.allow_pty no_pty n.narrowed.pty_narrowed),
    )
