-- ===== src/Authz/Match.antt =====
-- The search for the client's key in app/server/authz/authz.go.
use mygosh.Base.{
  ◌==◌, Bool, true, false, ◌&&◌, ◌||◌, Option, none, some, List, [], ◌∷◌, ◌++◌, if◌then◌else◌,
}
use mygosh.Base.Result.{Result, ok, fail, guard}
use mygosh.Text.{Text, is_empty}
use mygosh.Keys.{PublicKey, Account, equal}
use mygosh.Trust.{AuthorizedKeyEntry, find_entry, parse_constraints}
use mygosh.Authz.{
  AuthzErr, canceled, no_home, no_working_directory, unreadable, unparsable, constraints_invalid,
  no_keys, key_not_authorized,
}
use mygosh.Authz.KeyConstraints.{MatchedKeyConstraints, new_matched_key_constraints}
use mygosh.Authz.Credentials.{is_abs}

-- `strings.CutPrefix` at `~/`.
unfoldable pub under_home : Text → Option Text
under_home (x ∷ y ∷ t) = if x == 126 && y == 47 then some t else none
under_home _ = none

-- A path to read: the printed path, the trusted directory and the path below it.
pub record Resolved : Type 0 where
  pub resolved : Text
  pub anchor : Text
  pub relative : Text

-- path/filepath and the working directory.
pub record Paths : Type 0 where
  pub join : Text → Text → Text
  pub dir : Text → Text
  pub base : Text → Text
  pub working_directory : Option Text

unfoldable pub resolve_account_path : Paths → Text → Text → Result AuthzErr Resolved
resolve_account_path paths home_dir configured = elim (under_home configured) [
  | some relative ↦ guard (is_empty home_dir) no_home (
      ok (record {
        resolved = paths.join home_dir relative;
        anchor = home_dir;
        relative = relative;
      }))
  | none ↦
      if is_abs configured
      then ok (record {
        resolved = configured;
        anchor = paths.dir configured;
        relative = paths.base configured;
      })
      else elim paths.working_directory [
        | none ↦ fail no_working_directory
        | some dir ↦
            ok
              (record { resolved = paths.join dir configured; anchor = dir; relative = configured })
      ]
]

-- What app/securefiles and lib/trust make of the file at a path.
pub data FileResult : Type 0 where
  missing unsafe corrupt : FileResult
  entries : List AuthorizedKeyEntry → FileResult

pub record MatchedAuthorizedKey : Type 0 where
  pub source : Text
  pub constraints : MatchedKeyConstraints

unfoldable pub has_entries : List AuthorizedKeyEntry → Bool
has_entries [] = false
has_entries (e ∷ es) = true

-- The collaborators of one search: the file reader, `strconv.Unquote`, and whether the context is
-- over when a path is tried.
pub record Files : Type 0 where
  pub paths : Paths
  pub read : Resolved → FileResult
  pub unquote : Text → Option Text
  pub canceled_at : Text → Bool

-- The end of the search: the joined errors, if any, come first. The first of them stands for the
-- joined error.
unfoldable pub no_match : List AuthzErr → Bool → Result AuthzErr MatchedAuthorizedKey
no_match (e ∷ errs) found = fail e
no_match [] true = fail key_not_authorized
no_match [] false = fail no_keys

-- A file that has the proved key ends the search.
unfoldable pub on_match :
    Files → List AuthzErr → Resolved → AuthorizedKeyEntry → Result AuthzErr MatchedAuthorizedKey
on_match f (e ∷ errs) at entry = fail e
on_match f [] at entry = elim (parse_constraints f.unquote entry.options) [
  | fail e ↦ fail constraints_invalid
  | ok c ↦ ok (record { source = at.resolved; constraints = new_matched_key_constraints c })
]

-- One file: the errors and the flag for the paths after it, or the end of the search.
unfoldable pub after_file :
    Files
    → PublicKey
    → List AuthzErr
    → Bool
    → Resolved
    → FileResult
    → (List AuthzErr → Bool → Result AuthzErr MatchedAuthorizedKey)
    → Result AuthzErr MatchedAuthorizedKey
after_file f key errs found at missing k = k errs found
after_file f key errs found at unsafe k = k (errs ++ (unreadable ∷ [])) found
after_file f key errs found at corrupt k = k (errs ++ (unparsable ∷ [])) found
after_file f key errs found at (entries es) k = elim (find_entry (λ e. equal e.key key) es) [
  | some entry ↦ on_match f errs at entry
  | none ↦ k errs (found || has_entries es)
]

unfoldable pub match_loop :
    Files
    → Account
    → PublicKey
    → List AuthzErr
    → Bool
    → List Text
    → Result AuthzErr MatchedAuthorizedKey
match_loop f a key errs found [] = no_match errs found
match_loop f a key errs found (path ∷ paths) =
    guard (f.canceled_at path) canceled (elim (resolve_account_path f.paths a.home_dir path) [
      | fail e ↦ match_loop f a key (errs ++ (e ∷ [])) found paths
      | ok at ↦ after_file f key errs found at (f.read at) λ es b. match_loop f a key es b paths
    ])

unfoldable pub match_authorized_key :
    Files → Account → PublicKey → List Text → Result AuthzErr MatchedAuthorizedKey
match_authorized_key f a key paths = match_loop f a key [] false paths
