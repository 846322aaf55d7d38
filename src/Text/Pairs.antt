-- ===== src/Text/Pairs.antt =====
-- Go maps from texts to texts, as lists of pairs with distinct names.
use mygosh.Base.{List, [], ◌∷◌, if◌then◌else◌}
use mygosh.Text.{Text, same}

-- `m[name]`, the empty text where the name is missing.
unfoldable pub value_of : Text → List (Text × Text) → Text
value_of name [] = []
value_of name ((n, v) ∷ m) = let rest = value_of name m in if same name n then v else rest

unfoldable pub names_of : List (Text × Text) → List Text
names_of [] = []
names_of ((n, v) ∷ m) = n ∷ names_of m
