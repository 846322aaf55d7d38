-- ===== src/Authz/Search.antt =====
-- Which key the search of app/server/authz/authz.go settles on.
use mygosh.Base.{
  ◌⊎◌, ◌≡◌, ◌≢◌, refl, ap, subst, Bool, true, false, ◌||◌, Bool-cases, inl, inr, none, some,
  Option-cases, List, [], ◌∷◌, ◌++◌, All, arith,
}
use mygosh.Base.Result.{Result, ok, fail, guard-ok, ok_injective, Result-cases}
use mygosh.Text.{Text}
use mygosh.Keys.{PublicKey, Account, equal}
use mygosh.Trust.{AuthorizedKeyEntry, AuthorizedKeyConstraints, find_entry, parse_constraints}
use mygosh.Authz.{AuthzErr, unreadable, unparsable}
use mygosh.Authz.KeyConstraints.{new_matched_key_constraints}
use mygosh.Authz.Match.{
  Resolved, FileResult, missing, unsafe, corrupt, entries, Files, MatchedAuthorizedKey, has_entries,
}
use mygosh.Authz.Match.{
  resolve_account_path, no_match, on_match, after_file, match_loop, match_authorized_key,
}

-- A path that lets the search go on without an error: it resolves, and its file is missing or does
-- not have the key.
unfoldable pub Passes : Files → Account → PublicKey → Text → Type 0
Passes f a key path =
    (at : Resolved) × (resolve_account_path f.paths a.home_dir path ≡ ok at)
    × ((f.read at ≡ missing)
        ⊎ ((es : List AuthorizedKeyEntry) × (f.read at ≡ entries es)
            × (find_entry (λ e. equal e.key key) es ≡ none)))

-- Where a search that succeeds stopped: every path before it passed, its file is in order and
-- has the key, and the entry's constraints are the ones that are returned.
pub record Found (f : Files) (a : Account) (key : PublicKey) (paths : List Text)
    (m : MatchedAuthorizedKey) : Type 0 where
  pub before : List Text
  pub path : Text
  pub after : List Text
  pub split : paths ≡ before ++ (path ∷ after)
  pub passed : All (Passes f a key) before
  pub at : Resolved
  pub resolved : resolve_account_path f.paths a.home_dir path ≡ ok at
  pub file : List AuthorizedKeyEntry
  pub read : f.read at ≡ entries file
  pub entry : AuthorizedKeyEntry
  pub first : find_entry (λ e. equal e.key key) file ≡ some entry
  pub own_key : equal entry.key key ≡ true
  pub constraints : AuthorizedKeyConstraints
  pub resolved_constraints : parse_constraints f.unquote entry.options ≡ ok constraints
  pub result :
      record { source = at.resolved; constraints = new_matched_key_constraints constraints } ≡ m

find_entry-accepts :
    (policy : AuthorizedKeyEntry → Bool) (es : List AuthorizedKeyEntry) (e : AuthorizedKeyEntry)
    → find_entry policy es ≡ some e
    → policy e ≡ true
unfolding find_entry
find_entry-accepts policy [] e h = ground (arith, h)
find_entry-accepts policy (x ∷ es) e h = elim (Bool-cases (policy x)) [
  | inl t ↦ subst (λ y. policy y ≡ true) (injective (rw t at h)) t
  | inr t ↦ find_entry-accepts policy es e (rw t at h)
]
  where
    injective : some x ≡ some e → x ≡ e
    injective k = ground (arith, k)

snoc-nonempty {ℓ} : {A : Type ℓ} (xs : List A) (x : A) → (xs ++ (x ∷ [])) ≢ []
snoc-nonempty [] x h = ground (arith, h)
snoc-nonempty (y ∷ xs) x h = ground (arith, h)

module _ (f : Files) (a : Account) (key : PublicKey) where
  no_match-fails :
      (errs : List AuthzErr) (found : Bool) (m : MatchedAuthorizedKey) → no_match errs found ≢ ok m
  unfolding no_match
  no_match-fails (e ∷ errs) found m h = ground (arith, h)
  no_match-fails [] true m h = ground (arith, h)
  no_match-fails [] false m h = ground (arith, h)

  unfoldable Goes : List Text → MatchedAuthorizedKey → List AuthzErr → Type 0
  Goes paths m errs = (errs ≡ []) × Found f a key paths m

  -- The paths after one that passed.
  later :
      (path : Text) (paths : List Text) (m : MatchedAuthorizedKey)
      → Passes f a key path
      → Found f a key paths m
      → Found f a key (path ∷ paths) m
  later path paths m p n = record {
    before = path ∷ n.before;
    path = n.path;
    after = n.after;
    split = ap (◌∷◌ path) n.split;
    passed = (p, n.passed);
    at = n.at;
    resolved = n.resolved;
    file = n.file;
    read = n.read;
    entry = n.entry;
    first = n.first;
    own_key = n.own_key;
    constraints = n.constraints;
    resolved_constraints = n.resolved_constraints;
    result = n.result;
  }

  on_match-Found :
      (path : Text) (paths : List Text) (m : MatchedAuthorizedKey) (errs : List AuthzErr)
      (at : Resolved) (file : List AuthorizedKeyEntry) (entry : AuthorizedKeyEntry)
      → resolve_account_path f.paths a.home_dir path ≡ ok at
      → f.read at ≡ entries file
      → find_entry (λ e. equal e.key key) file ≡ some entry
      → on_match f errs at entry ≡ ok m
      → Goes (path ∷ paths) m errs
  unfolding on_match Goes
  on_match-Found path paths m (e ∷ errs) at file entry r x y h = ground (arith, h)
  on_match-Found path paths m [] at file entry r x y h =
      elim (Result-cases (parse_constraints f.unquote entry.options)) [
        | inr (e, x) ↦ ground (arith, rw (on_match, x) at h)
        | inl (c, e) ↦ (
          refl,
          record {
            before = [];
            path = path;
            after = paths;
            split = refl;
            passed = tt;
            at = at;
            resolved = r;
            file = file;
            read = x;
            entry = entry;
            first = y;
            own_key = find_entry-accepts (λ e. equal e.key key) file entry y;
            constraints = c;
            resolved_constraints = e;
            result = ok_injective _ m (rw (on_match, e) at h);
          },
        )
      ]

  after_file-Found :
      (path : Text) (paths : List Text) (m : MatchedAuthorizedKey) (errs : List AuthzErr)
      (found : Bool) (at : Resolved) (r : FileResult)
      → resolve_account_path f.paths a.home_dir path ≡ ok at
      → f.read at ≡ r
      → ((es : List AuthzErr) (b : Bool) → match_loop f a key es b paths ≡ ok m → Goes paths m es)
      → after_file f key errs found at r (λ es b. match_loop f a key es b paths) ≡ ok m
      → Goes (path ∷ paths) m errs
  unfolding after_file Goes Passes
  after_file-Found path paths m errs found at missing e x rec h =
      let (none_yet, n) = rec errs found h in (none_yet, later path paths m (at, e, inl x) n)
  after_file-Found path paths m errs found at unsafe e x rec h =
      ground (arith, snoc-nonempty errs unreadable (rec (errs ++ (unreadable ∷ [])) found h).0)
  after_file-Found path paths m errs found at corrupt e x rec h =
      ground (arith, snoc-nonempty errs unparsable (rec (errs ++ (unparsable ∷ [])) found h).0)
  after_file-Found path paths m errs found at (entries es) e x rec h =
      elim (Option-cases (find_entry (λ y. equal y.key key) es)) [
        | inl n ↦
            let (none_yet, w) = rec errs (found || has_entries es) (rw (after_file, n) at h) in
            (none_yet, later path paths m (at, e, inr (es, x, n)) w)
        | inr (entry, n) ↦
            on_match-Found path paths m errs at es entry e x n (rw (after_file, n) at h)
      ]

  match_loop-Found :
      (paths : List Text) (m : MatchedAuthorizedKey) (errs : List AuthzErr) (found : Bool)
      → match_loop f a key errs found paths ≡ ok m
      → Goes paths m errs
  unfolding match_loop Goes
  match_loop-Found [] m errs found h = ground (arith, no_match-fails errs found m h)
  match_loop-Found (path ∷ paths) m errs found h =
      let (going, h1) = guard-ok (f.canceled_at path) _ _ m h in
      resolving (resolve_account_path f.paths a.home_dir path) refl (match_loop-Found paths m) h1
    where
      resolving :
          (r : Result AuthzErr Resolved)
          → resolve_account_path f.paths a.home_dir path ≡ r
          → ((es : List AuthzErr) (b : Bool)
              → match_loop f a key es b paths ≡ ok m
              → Goes paths m es)
          → (elim r as (λ _. Result AuthzErr MatchedAuthorizedKey) [
            | fail e ↦ match_loop f a key (errs ++ (e ∷ [])) found paths
            | ok at ↦
                after_file f key errs found at (f.read at) λ es b. match_loop f a key es b paths
          ])
            ≡ ok m
          → Goes (path ∷ paths) m errs
      resolving (fail e) x rec k =
          ground (arith, snoc-nonempty errs e (rec (errs ++ (e ∷ [])) found k).0)
      resolving (ok at) x rec k =
          after_file-Found path paths m errs found at (f.read at) x refl rec k

  -- A search that succeeds found the client's own key in a file that is in order, and every path
  -- tried before it resolved to a file that is missing or in order and without the key: an unsafe
  -- or corrupt file before the match refuses the client.
  pub match_authorized_key-Found :
      (paths : List Text) (m : MatchedAuthorizedKey)
      → match_authorized_key f a key paths ≡ ok m
      → Found f a key paths m
  unfolding match_authorized_key Goes
  match_authorized_key-Found paths m h = (match_loop-Found paths m [] false h).1
