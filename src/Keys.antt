-- ===== src/Keys.antt =====
-- lib/keys/keys.go and lib/account/user.go: public keys and accounts.
use mygosh.Base.{ℕ, Bool, ◌&&◌, not, ◌||◌, List, length, ◌==◌}
use mygosh.Text.{Text, same, text_of}

pub record PublicKey : Type 0 where
  pub algorithm : Text
  pub bytes : Text
  pub comment : Text

-- `Equal`: `Compare` is 0 just where both the algorithm and the bytes are the same.
unfoldable pub equal : PublicKey → PublicKey → Bool
equal k other = same k.algorithm other.algorithm && same k.bytes other.bytes

-- `AlgorithmEd25519`
unfoldable pub ed25519 : Text
ed25519 = text_of "ed25519"

-- Whether `Validate` returns an error.
unfoldable pub is_invalid : PublicKey → Bool
is_invalid k = not (same k.algorithm ed25519) || not (length k.bytes == 32)

pub record Group : Type 0 where
  pub id : ℕ  -- uint32
  pub name : Text

pub record Account : Type 0 where
  pub username : Text
  pub name : Text
  pub id : ℕ  -- uint32
  pub primary_group : Group
  pub supplementary_groups : List Group
  pub home_dir : Text
  pub login_shell : Text
