-- ===== src/Trust.antt =====
-- lib/trust/authorized_keys_ssh.go: the options of an authorized key, and the search for a key.
-- The entries themselves are read by golang.org/x/crypto/ssh, a parameter here.
pub mod Constraints
use mygosh.Base.{
  ℕ, Bool, true, false, not, ◌||◌, Option, none, some, List, [], ◌∷◌, ◌++◌, ◌==◌, length, ltb,
  if◌then◌else◌,
}
use mygosh.Base.Result.{Result, ok, fail, guard, ◌>>=◌}
use mygosh.Text.{Text, text_of, trim_space, contains, is_empty, member, same}
use mygosh.Keys.{PublicKey}

pub record AuthorizedKeyOption : Type 0 where
  pub name : Text
  pub value : Text
  pub has_value : Bool

pub record AuthorizedKeyEntry : Type 0 where
  pub options : List AuthorizedKeyOption
  pub key : PublicKey

pub record AuthorizedKeyConstraints : Type 0 where
  pub forced_command : Text
  pub no_pty : Bool
  pub restricted : Bool

pub data TrustErr : Type 0 where
  duplicate_option command_without_value command_undecodable command_empty command_nul : TrustErr
  command_too_long option_with_value option_unsupported option_empty option_nameless : TrustErr
  entry_unparsable key_unparsable : TrustErr

-- `strings.Cut` at the byte 61, `=`.
unfoldable pub cut : Text → Text × Text × Bool
cut [] = ([], [], false)
cut (c ∷ t) =
    let (before, after, found) = cut t in
    if c == 61 then ([], t, true) else (c ∷ before, after, found)

unfoldable pub parse_option : Text → Result TrustErr AuthorizedKeyOption
parse_option option =
    let (name, value, has_value) = cut option in
    guard (is_empty option) option_empty (
      guard (is_empty name) option_nameless (
        ok
          (record { name = name; value = if has_value then value else []; has_value = has_value })))

unfoldable pub parse_options : List Text → Result TrustErr (List AuthorizedKeyOption)
parse_options [] = ok []
parse_options (o ∷ os) = parse_option o >>= λ x. parse_options os >>= λ xs. ok (x ∷ xs)

-- The cases of the switch; `unquote` is `strconv.Unquote`.
unfoldable pub command_option :
    (Text → Option Text)
    → AuthorizedKeyOption
    → AuthorizedKeyConstraints
    → Result TrustErr AuthorizedKeyConstraints
command_option unquote o c = guard (not o.has_value) command_without_value (elim (unquote o.value) [
  | none ↦ fail command_undecodable
  | some command ↦ guard (is_empty (trim_space command)) command_empty (
      guard (contains 0 command) command_nul (
        guard (ltb 24576 (length command)) command_too_long
          (ok (record c { forced_command = command }))))
])

unfoldable pub apply_option :
    (Text → Option Text)
    → AuthorizedKeyOption
    → AuthorizedKeyConstraints
    → Result TrustErr AuthorizedKeyConstraints
apply_option unquote o c =
    if same o.name (text_of "command")
    then command_option unquote o c
    else if same o.name (text_of "no-pty")
    then guard o.has_value option_with_value (ok (record c { no_pty = true }))
    else if same o.name (text_of "restrict")
    then guard o.has_value option_with_value (ok (record c { restricted = true; no_pty = true }))
    else fail option_unsupported

unfoldable pub option_loop :
    (Text → Option Text)
    → List Text
    → AuthorizedKeyConstraints
    → List AuthorizedKeyOption
    → Result TrustErr AuthorizedKeyConstraints
option_loop unquote seen c [] = ok c
option_loop unquote seen c (o ∷ os) =
    guard (member o.name seen) duplicate_option
      (apply_option unquote o c >>= λ d. option_loop unquote (o.name ∷ seen) d os)

unfoldable pub parse_constraints :
    (Text → Option Text) → List AuthorizedKeyOption → Result TrustErr AuthorizedKeyConstraints
parse_constraints unquote os =
    option_loop unquote [] (record { forced_command = []; no_pty = false; restricted = false }) os

-- `Match`: the first entry that the policy accepts.
unfoldable pub find_entry :
    (AuthorizedKeyEntry → Bool) → List AuthorizedKeyEntry → Option AuthorizedKeyEntry
find_entry policy [] = none
find_entry policy (e ∷ es) = let rest = find_entry policy es in if policy e then some e else rest
