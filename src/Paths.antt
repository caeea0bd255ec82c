-- ===== src/Paths.antt =====
-- The functions of `node:path` (POSIX) that the program calls: `isAbsolute`, `resolve`, `relative`
-- and `extname`, from the language's standard library.
pub mod Segments
pub mod Laws
pub mod Within
use Segments.{split_slash, normalize, render, join_slash, relative_segments}
use basket_shared.Prelude.{
  Bool, false, Option, none, some, List, [], ◌∷◌, ◌++◌, ◌==◌, or_else, if◌then◌else◌, Text, text,
  text_eq, is_empty,
}

unfoldable pub is_absolute : Text → Bool
is_absolute [] = false
is_absolute (c ∷ s) = c == b'/'

-- The segments of a path, taken from the working directory if it is relative.
unfoldable pub segments : (cwd path : Text) → List Text
unfolding is_absolute split_slash normalize
segments cwd path =
    if is_absolute path
    then normalize (split_slash path)
    else normalize (split_slash (cwd ++ b'/' ∷ path))

unfoldable pub resolve : (cwd path : Text) → Text
unfolding segments render
resolve cwd path = render (segments cwd path)

-- `relative(from, to)` resolves both.
unfoldable pub relative : (cwd from to : Text) → Text
unfolding segments relative_segments join_slash
relative cwd from to = join_slash (relative_segments (segments cwd from) (segments cwd to))

-- The last segment that is not empty.
unfoldable pub last_segment : List Text → Text
last_segment [] = []
last_segment (s ∷ parts) = let rest = last_segment parts in if is_empty rest then s else rest

-- The part from the last dot on.
unfoldable pub from_last_dot : Text → Option Text
from_last_dot [] = none
from_last_dot (c ∷ s) = elim (from_last_dot s) [
  | some e ↦ some e
  | none ↦ if c == b'.' then some (c ∷ s) else none
]

-- A dot at the front of a name begins no extension.
unfoldable pub extension : Text → Text
unfolding from_last_dot
extension [] = []
extension (c ∷ s) = if text_eq (c ∷ s) (text "..") then [] else or_else (from_last_dot s) []

unfoldable pub extname : Text → Text
unfolding extension last_segment split_slash text_eq
extname path = extension (last_segment (split_slash path))
