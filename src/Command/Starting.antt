-- ===== src/Command/Starting.antt =====
-- The start of a command in lib/command/codec.go: its encoding, and its decoding at the server.
use mygosh.Base.{ℕ, not, ◌||◌, Option, none, some, List, [], ◌∷◌, ◌++◌}
use mygosh.Base.Result.{Result, ok, fail, guard, ◌>>=◌}
use mygosh.Text.{Text, trim_space, is_empty, contains, member}
use mygosh.Text.Order.{sort}
use mygosh.Text.Pairs.{value_of, names_of}
use mygosh.Command.{
  CommandErr, shell_with_command, exec_without_command, unsupported_kind, no_start, no_target,
  nil_entry, name_invalid, value_nul, duplicate_name,
}
use mygosh.Command.{Start, Target, shell, exec, Pty, ClientFrame, start}

-- `StartKind`, a number of which two values have a name.
pub data StartKind : Type 0 where
  start_shell start_exec : StartKind
  start_other : ℕ → StartKind

-- `StartRequest`; `environment` is a map.
pub record StartRequest : Type 0 where
  pub kind : StartKind
  pub command : Text
  pub pty : Option Pty
  pub environment : List (Text × Text)

-- The entries of the environment, in the order of their names.
unfoldable pub entries_of : List (Text × Text) → List Text → List (Option (Text × Text))
entries_of environment [] = []
entries_of environment (name ∷ names) =
    some (name, value_of name environment) ∷ entries_of environment names

unfoldable pub start_of : StartRequest → Target → ClientFrame
start_of r target = start (
    some (record {
      protocol_version = 1;
      target = some target;
      pty = r.pty;
      environment = entries_of r.environment (sort (names_of r.environment));
    }))

unfoldable pub encode_start : StartRequest → Result CommandErr ClientFrame
encode_start r = elim r.kind [
  | start_shell ↦
      guard (not (is_empty (trim_space r.command))) shell_with_command (ok (start_of r shell))
  | start_exec ↦
      guard (is_empty (trim_space r.command)) exec_without_command
        (ok (start_of r (exec r.command)))
  | start_other k ↦ fail unsupported_kind
]

-- The loop over the entries of `decodeStart`; the map is the list of the entries so far.
unfoldable pub decode_environment :
    List (Text × Text) → List (Option (Text × Text)) → Result CommandErr (List (Text × Text))
decode_environment environment [] = ok environment
decode_environment environment (none ∷ entries) = fail nil_entry
decode_environment environment (some (name, value) ∷ entries) =
    let rest = decode_environment (environment ++ ((name, value) ∷ [])) entries in
    guard (contains 61 name || contains 0 name) name_invalid (
      guard (contains 0 value) value_nul
        (guard (member name (names_of environment)) duplicate_name rest))

unfoldable pub decode_target : Option Target → Result CommandErr (StartKind × Text)
decode_target none = fail no_target
decode_target (some shell) = ok (start_shell, [])
decode_target (some (exec command)) = ok (start_exec, command)

unfoldable pub decode_start : Option Start → Result CommandErr StartRequest
decode_start none = fail no_start
decode_start (some s) = decode_target s.target >>= λ target.
    decode_environment [] s.environment >>= λ environment.
    ok (record { kind = target.0; command = target.1; pty = s.pty; environment = environment })
