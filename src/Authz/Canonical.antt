-- ===== src/Authz/Canonical.antt =====
-- About the snapshots that app/server/authz/permissions.go makes.
use mygosh.Base.{
  ℕ, suc, ◌+◌, ◌≤◌, ◌≡◌, refl, sym, ap, subst, ◌∙◌, false, not, ◌&&◌, ◌||◌, Bool-cases, inl, inr,
  List, [], ◌∷◌, ◌++◌,
}
use mygosh.Base.{All, length, length-append, ltb, if◌then◌else◌, arith, append_nil, append_assoc}
use mygosh.Base.Result.{Result, accept, ok, guard-ok, bind-ok, ok_injective}
use mygosh.Text.{
  Text, trim_space, contains, is_empty, member, Distinct, member-append, trim_space-trim_space,
}
use mygosh.Text.Order.{
  new_name, same_sym, sort, Sorted, sort-Sorted, sort_fixed, length-sort, All-sort, Distinct-sort,
}
use mygosh.Authz.{AuthzErr}
use mygosh.Authz.Permissions.{PermissionDecision, ConnectionPermissions, validate_environment_name}
use mygosh.Authz.Permissions.{
  collect_names, check_decision, new_connection_permissions, decision_of, validate,
}

-- A name that the loop over the names keeps as it is.
pub record IsName (name : Text) : Type 0 where
  pub trimmed : trim_space name ≡ name
  pub accepted : validate_environment_name name ≡ accept

-- The list after one more name.
abbrev with_name : List Text → Text → List Text
with_name allowed name = if member name allowed then allowed else allowed ++ (name ∷ [])

All-append {ℓ} :
    {A : Type ℓ} (P : A → Type 0) (xs ys : List A) → All P xs → All P ys → All P (xs ++ ys)
All-append P [] ys h k = k
All-append P (x ∷ xs) ys h k = (h.0, All-append P xs ys h.1 k)

Distinct-snoc :
    (ts : List Text) (t : Text) → member t ts ≡ false → Distinct ts → Distinct (ts ++ (t ∷ []))
unfolding Distinct member
Distinct-snoc [] t n d = (refl, tt)
Distinct-snoc (u ∷ ts) t n d = (
  rw (member-append u ts (t ∷ []), d.0, same_sym t u (ground (arith, n))) refl,
  Distinct-snoc ts t (ground (arith, n)) d.1,
)

shift : (m n : ℕ) → suc m + n ≡ m + suc n
shift m n = omega arith

-- What the loop knows of the names it has kept.
record Kept (allowed : List Text) (n : ℕ) : Type 0 where
  names : All IsName allowed
  distinct : Distinct allowed
  few : length allowed ≤ n

with_name-Kept :
    (allowed : List Text) (name : Text) (n : ℕ)
    → IsName name
    → Kept allowed n
    → Kept (with_name allowed name) (suc n)
with_name-Kept allowed name n i k = elim (Bool-cases (member name allowed)) [
  | inl e ↦ rw e (record { names = k.names; distinct = k.distinct; few = omega (arith, k.few) })
  | inr e ↦ rw e (record {
    names = All-append IsName allowed (name ∷ []) k.names (i, tt);
    distinct = Distinct-snoc allowed name e k.distinct;
    few = omega (arith, k.few, length-append allowed (name ∷ []));
  })
]

collect_names-Kept :
    (allowed names out : List Text) (n : ℕ)
    → Kept allowed n
    → collect_names allowed names ≡ ok out
    → Kept out (n + length names)
unfolding collect_names
collect_names-Kept allowed [] out n k h =
    subst (λ ts. Kept ts (n + 0)) (ok_injective allowed out h)
      (record { names = k.names; distinct = k.distinct; few = omega (arith, k.few) })
collect_names-Kept allowed (x ∷ names) out n k h =
    let (u, accepted, rest) =
      bind-ok (validate_environment_name (trim_space x))
        (λ _. collect_names (with_name allowed (trim_space x)) names) out h in
    let i : IsName (trim_space x) = record {
      trimmed = trim_space-trim_space x;
      accepted = accepted;
    } in
    subst (Kept out) (shift n (length names)) (
      collect_names-Kept (with_name allowed (trim_space x)) names out (suc n)
        (with_name-Kept allowed (trim_space x) n i k) rest)

-- Names that are trimmed, valid and distinct are kept as they are.
collect_names-names :
    (allowed names : List Text)
    → All IsName names
    → Distinct (allowed ++ names)
    → collect_names allowed names ≡ ok (allowed ++ names)
unfolding collect_names
collect_names-names allowed [] i d = ap ok (sym (append_nil allowed))
collect_names-names allowed (x ∷ names) i d =
    rw (i.0.trimmed, i.0.accepted, new_name allowed names x d)
      (collect_names-names (allowed ++ (x ∷ [])) names i.1
          (subst Distinct (sym (append_assoc allowed (x ∷ []) names)) d)
        ∙ ap ok (append_assoc allowed (x ∷ []) names))

-- What a snapshot that was made satisfies.
pub record IsCanonical (p : ConnectionPermissions) : Type 0 where
  pub names : All IsName p.allowed_environment
  pub distinct : Distinct p.allowed_environment
  pub sorted : Sorted p.allowed_environment
  pub few : length p.allowed_environment ≤ 128
  pub trimmed : trim_space p.forced_command ≡ p.forced_command
  pub checked : check_decision (decision_of p) p.forced_command accept ≡ accept

-- The checks pass the rest on.
pub check_decision-ok {ℓ} :
    {A : Type ℓ} (d : PermissionDecision) (forced : Text) (k : Result AuthzErr A) (a : A)
    → check_decision d forced k ≡ ok a
    → (check_decision d forced accept ≡ accept) × (k ≡ ok a)
unfolding check_decision
check_decision-ok d forced k a h =
    let b1 = contains 0 forced in
    let b2 = ltb 24576 (length forced) in
    let b3 =
      (d.allow_shell || d.allow_exec || d.allow_pty || not (is_empty forced))
      && not d.allow_command in
    let b4 = not (is_empty forced) && not d.allow_shell && not d.allow_exec in
    let b5 = d.allow_pty && not d.allow_shell && not d.allow_exec in
    let (e1, h1) = guard-ok b1 _ _ a h in
    let (e2, h2) = guard-ok b2 _ _ a h1 in
    let (e3, h3) = guard-ok b3 _ _ a h2 in
    let (e4, h4) = guard-ok b4 _ _ a h3 in
    let (e5, h5) = guard-ok b5 _ _ a h4 in (rw (e1, e2, e3, e4, e5) refl, h5)

check_decision-passes {ℓ} :
    {A : Type ℓ} (d : PermissionDecision) (forced : Text) (k : Result AuthzErr A)
    → check_decision d forced accept ≡ accept
    → check_decision d forced k ≡ k
unfolding check_decision
check_decision-passes d forced k h =
    let b1 = contains 0 forced in
    let b2 = ltb 24576 (length forced) in
    let b3 =
      (d.allow_shell || d.allow_exec || d.allow_pty || not (is_empty forced))
      && not d.allow_command in
    let b4 = not (is_empty forced) && not d.allow_shell && not d.allow_exec in
    let b5 = d.allow_pty && not d.allow_shell && not d.allow_exec in
    let (e1, h1) = guard-ok b1 _ _ tt h in
    let (e2, h2) = guard-ok b2 _ _ tt h1 in
    let (e3, h3) = guard-ok b3 _ _ tt h2 in
    let (e4, h4) = guard-ok b4 _ _ tt h3 in
    let (e5, h5) = guard-ok b5 _ _ tt h4 in rw (e1, e2, e3, e4, e5) refl

empty-Kept : Kept [] 0
unfolding Distinct
empty-Kept = record { names = tt; distinct = tt; few = omega arith }

unfoldable pub snapshot : PermissionDecision → List Text → ConnectionPermissions
snapshot d allowed = record {
  allow_command = d.allow_command;
  allow_shell = d.allow_shell;
  allow_exec = d.allow_exec;
  allow_pty = d.allow_pty;
  forced_command = trim_space d.forced_command;
  allowed_environment = sort allowed;
}

snapshot-IsCanonical :
    (d : PermissionDecision) (allowed : List Text)
    → check_decision d (trim_space d.forced_command) accept ≡ accept
    → Kept allowed 128
    → IsCanonical (snapshot d allowed)
unfolding snapshot check_decision
snapshot-IsCanonical d allowed checks k = record {
  names = All-sort IsName allowed k.names;
  distinct = Distinct-sort allowed k.distinct;
  sorted = sort-Sorted allowed;
  few = subst (λ n. n ≤ 128) (sym (length-sort allowed)) k.few;
  trimmed = trim_space-trim_space d.forced_command;
  checked = checks;
}

canonical-again :
    (p : ConnectionPermissions) → IsCanonical p → new_connection_permissions (decision_of p) ≡ ok p
unfolding new_connection_permissions
canonical-again p c = rw c.trimmed (
    rw
      (
        check_decision-passes (decision_of p) p.forced_command _ c.checked,
        few,
        collect_names-names [] p.allowed_environment c.names c.distinct,
      )
      (ap (λ ts. ok (record p { allowed_environment = ts }))
        (sort_fixed p.allowed_environment c.sorted)))
  where
    few : ltb 128 (length p.allowed_environment) ≡ false
    few = ground (arith, c.few)

-- A decision that is accepted gives its snapshot, with the names that the loop kept.
pub new_connection_permissions-ok :
    (d : PermissionDecision) (p : ConnectionPermissions)
    → new_connection_permissions d ≡ ok p
    → (allowed : List Text) × IsCanonical p
      × (snapshot d allowed ≡ p)
      × (collect_names [] d.allowed_environment ≡ ok allowed)
unfolding new_connection_permissions snapshot
new_connection_permissions-ok d p h =
    let (checks, h1) = check_decision-ok d (trim_space d.forced_command) _ p h in
    let (few, h2) = guard-ok (ltb 128 (length d.allowed_environment)) _ _ p h1 in
    let (allowed, kept, h3) = bind-ok (collect_names [] d.allowed_environment) _ p h2 in
    let k = collect_names-Kept [] d.allowed_environment allowed 0 empty-Kept kept in
    let small : Kept allowed 128 = record {
      names = k.names;
      distinct = k.distinct;
      few = ground (arith, k.few, few);
    } in
    let same_p : snapshot d allowed ≡ p = ok_injective (snapshot d allowed) p h3 in
    (allowed, subst IsCanonical same_p (snapshot-IsCanonical d allowed checks small), same_p, kept)

-- A snapshot that `newConnectionPermissions` made is accepted again by the same checks, and gives
-- the same snapshot: `validate` never refuses the permissions of a connection.
pub new_connection_permissions-decision_of :
    (d : PermissionDecision) (p : ConnectionPermissions)
    → new_connection_permissions d ≡ ok p
    → (new_connection_permissions (decision_of p) ≡ ok p) × (validate p ≡ accept)
unfolding validate
new_connection_permissions-decision_of d p h =
    let (allowed, c, e, _) = new_connection_permissions-ok d p h in
    let again = canonical-again p c in (again, rw again refl)
