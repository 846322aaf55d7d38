-- ===== src/Command/Started.antt =====
-- About a start that the client encodes and the server decodes, in lib/command/codec.go.
use mygosh.Base.{
  ◌≡◌, refl, sym, ap, subst, ◌∙◌, true, false, not, ◌||◌, Bool-cases, inl, inr, Option, none, some,
  List, [], ◌∷◌, ◌++◌, All,
}
use mygosh.Base.{append_assoc, append_nil, arith}
use mygosh.Base.Result.{Result, ok, fail, guard, guard-ok, ok_injective}
use mygosh.Text.{Text, trim_space, is_empty, contains, member, same, Distinct, same_sound}
use mygosh.Text.Order.{sort, All-sort, Distinct-sort, member-sort, new_name}
use mygosh.Text.Pairs.{value_of, names_of}
use mygosh.Command.{
  CommandErr, shell_with_command, exec_without_command, unsupported_kind, Start, Target, shell,
  exec, ClientFrame, start, stdin, stdin_eof, window_change, client_unset,
}
use mygosh.Command.Starting.{
  StartKind, start_shell, start_exec, start_other, StartRequest, entries_of, start_of, encode_start,
}
use mygosh.Command.Starting.{decode_environment, decode_target, decode_start}

-- An entry that the server accepts.
pub record IsSendable (environment : List (Text × Text)) (name : Text) : Type 0 where
  pub named : (contains 61 name || contains 0 name) ≡ false
  pub no_nul : contains 0 (value_of name environment) ≡ false

-- The environment as the server sees it.
unfoldable pub sorted_environment : List (Text × Text) → List Text → List (Text × Text)
sorted_environment environment [] = []
sorted_environment environment (name ∷ names) =
    (name, value_of name environment) ∷ sorted_environment environment names

names_of-append : (xs ys : List (Text × Text)) → names_of (xs ++ ys) ≡ names_of xs ++ names_of ys
unfolding names_of
names_of-append [] ys = refl
names_of-append ((n, v) ∷ xs) ys = ap (◌∷◌ n) (names_of-append xs ys)

decode_environment-entries :
    (environment before : List (Text × Text)) (names : List Text)
    → All (IsSendable environment) names
    → Distinct (names_of before ++ names)
    → decode_environment before (entries_of environment names)
      ≡ ok (before ++ sorted_environment environment names)
unfolding decode_environment entries_of sorted_environment names_of
decode_environment-entries environment before [] a d = ap ok (sym (append_nil before))
decode_environment-entries environment before (name ∷ names) a d =
    let e : Text × Text = (name, value_of name environment) in
    rw (a.0.named, a.0.no_nul, new_name (names_of before) names name d)
      (decode_environment-entries environment (before ++ (e ∷ [])) names a.1 (
          subst Distinct
            (sym (
              ap (λ b. b ++ names) (names_of-append before (e ∷ []))
              ∙ append_assoc (names_of before) (name ∷ []) names))
            d)
        ∙ ap ok (append_assoc before (e ∷ []) (sorted_environment environment names)))

-- The start of a client's frame.
unfoldable pub start_part : ClientFrame → Option Start
start_part (start s) = s
start_part (stdin b) = none
start_part stdin_eof = none
start_part (window_change size) = none
start_part client_unset = none

-- A shell has no command.
unfoldable pub command_of : StartKind → Text → Text
command_of start_shell command = []
command_of start_exec command = command
command_of (start_other n) command = []

-- What the server makes of the request.
unfoldable pub received : StartRequest → StartRequest
received r = record r {
  command = command_of r.kind r.command;
  environment = sorted_environment r.environment (sort (names_of r.environment));
}

value_of-sorted_environment :
    (environment : List (Text × Text)) (name : Text) (names : List Text)
    → member name names ≡ true
    → value_of name (sorted_environment environment names) ≡ value_of name environment
unfolding value_of sorted_environment member
value_of-sorted_environment environment name [] h = ground (arith, h)
value_of-sorted_environment environment name (n ∷ names) h = elim (Bool-cases (same name n)) [
  | inl e ↦ rw e (ap (λ t. value_of t environment) (sym (same_sound name n e)))
  | inr e ↦ rw e (value_of-sorted_environment environment name names (rw e at h))
]

value_of-sorted_missing :
    (environment : List (Text × Text)) (name : Text) (names : List Text)
    → member name names ≡ false
    → value_of name (sorted_environment environment names) ≡ []
unfolding value_of sorted_environment member
value_of-sorted_missing environment name [] h = refl
value_of-sorted_missing environment name (n ∷ names) h = elim (Bool-cases (same name n)) [
  | inl e ↦ ground (arith, h, e)
  | inr e ↦ rw e (value_of-sorted_missing environment name names (rw e at h))
]

value_of-missing :
    (environment : List (Text × Text)) (name : Text)
    → member name (names_of environment) ≡ false
    → value_of name environment ≡ []
unfolding value_of names_of member
value_of-missing [] name h = refl
value_of-missing ((n, v) ∷ environment) name h = elim (Bool-cases (same name n)) [
  | inl e ↦ ground (arith, h, e)
  | inr e ↦ rw e (value_of-missing environment name (rw e at h))
]

same_values :
    (environment : List (Text × Text)) (name : Text)
    → value_of name (sorted_environment environment (sort (names_of environment)))
      ≡ value_of name environment
same_values environment name =
    let names = names_of environment in
    elim (Bool-cases (member name names)) [
      | inl e ↦
          value_of-sorted_environment environment name (sort names) (member-sort name names ∙ e)
      | inr e ↦
          value_of-sorted_missing environment name (sort names) (member-sort name names ∙ e)
          ∙ sym (value_of-missing environment name e)
    ]

decode_start-start_of :
    (r : StartRequest) (target : Target) (k : StartKind) (command : Text)
    → decode_target (some target) ≡ ok (k, command)
    → All (IsSendable r.environment) (names_of r.environment)
    → Distinct (names_of r.environment)
    → decode_start (start_part (start_of r target))
      ≡ ok (record {
        kind = k;
        command = command;
        pty = r.pty;
        environment = sorted_environment r.environment (sort (names_of r.environment));
      })
unfolding decode_start start_part start_of names_of
decode_start-start_of r target k command t a d =
    let names = names_of r.environment in
    rw
      (
        t,
        decode_environment-entries r.environment [] (sort names)
            (All-sort (IsSendable r.environment) names a) (Distinct-sort names d),
      )
      refl

-- A start that the client encodes, with distinct names that have no `=` and no NUL and values that
-- have no NUL, is decoded by the server to the same kind, command and PTY (a shell has no command)
-- and to an environment with the same value for every name.
pub decode_start-encode_start :
    (r : StartRequest) (m : ClientFrame)
    → encode_start r ≡ ok m
    → All (IsSendable r.environment) (names_of r.environment)
    → Distinct (names_of r.environment)
    → (decode_start (start_part m) ≡ ok (received r))
      × ((name : Text) → value_of name (received r).environment ≡ value_of name r.environment)
unfolding encode_start received command_of decode_target
decode_start-encode_start r m h a d =
    (by_kind r.kind refl h, λ name. same_values r.environment name)
  where
    at_kind : StartKind → Text → StartRequest
    at_kind k command = record {
      kind = k;
      command = command;
      pty = r.pty;
      environment = sorted_environment r.environment (sort (names_of r.environment));
    }

    encoded : StartKind → Result CommandErr ClientFrame
    encoded k = elim k [
      | start_shell ↦
          guard (not (is_empty (trim_space r.command))) shell_with_command (ok (start_of r shell))
      | start_exec ↦
          guard (is_empty (trim_space r.command)) exec_without_command
            (ok (start_of r (exec r.command)))
      | start_other n ↦ fail unsupported_kind
    ]

    decoded :
        (target : Target) (k : StartKind)
        → start_of r target ≡ m
        → r.kind ≡ k
        → decode_target (some target) ≡ ok (k, command_of k r.command)
        → decode_start (start_part m) ≡ ok (at_kind r.kind (command_of r.kind r.command))
    decoded target k e f t =
        subst (λ x. decode_start (start_part x) ≡ ok (at_kind r.kind (command_of r.kind r.command)))
          e
          (subst
            (λ x.
              decode_start (start_part (start_of r target))
              ≡ ok (at_kind x (command_of x r.command)))
            (sym f) (decode_start-start_of r target k (command_of k r.command) t a d))

    by_kind :
        (k : StartKind)
        → r.kind ≡ k
        → encoded k ≡ ok m
        → decode_start (start_part m) ≡ ok (at_kind r.kind (command_of r.kind r.command))
    by_kind start_shell e x =
        decoded shell start_shell
          (ok_injective _ m (guard-ok (not (is_empty (trim_space r.command))) _ _ m x).1) e refl
    by_kind start_exec e x =
        decoded (exec r.command) start_exec
          (ok_injective _ m (guard-ok (is_empty (trim_space r.command)) _ _ m x).1) e refl
    by_kind (start_other n) e x = ground (arith, x)
