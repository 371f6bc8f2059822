-- ===== src/FilePath.antt =====
-- Join of Go's package path/filepath, on a Unix system: two elements are joined by a slash and the
-- path is cleaned, `..` against the element before it.
pub mod Plain
use mathlib.Core.List.{foldl}
use chrysalis.Base.{
  ℕ, Bool, true, false, ◌||◌, List, [], ◌∷◌, ◌++◌, ◌==◌, if◌then◌else◌, Text, codes, text_eq,
}

abbrev pub slash : ℕ
slash = b'/'

extend : ℕ → List Text → List Text
extend c [] = (c ∷ []) ∷ []
extend c (e ∷ es) = (c ∷ e) ∷ es

-- What stands between the slashes.
unfoldable pub elements : Text → List Text
unfolding extend
elements [] = [] ∷ []
elements (c ∷ s) = let rest = elements s in if c == slash then [] ∷ rest else extend c rest

-- `..` takes the last element away. At the root it is dropped, and at the start of a relative path
-- it stays.
unfoldable pub up : Bool → List Text → List Text
unfolding text_eq
up rooted [] = if rooted then [] else codes ".." ∷ []
up rooted (e ∷ es) = if text_eq e (codes "..") then codes ".." ∷ e ∷ es else es

-- The elements of the cleaned path, the last one first.
unfoldable pub walk : Bool → List Text → Text → List Text
unfolding up
walk rooted stack e =
    if text_eq e [] || text_eq e (codes ".")
    then stack
    else if text_eq e (codes "..")
    then up rooted stack
    else e ∷ stack

unfoldable pub join_with_slash : Text → Text → Text
join_with_slash [] e = e
join_with_slash (c ∷ s) e = (c ∷ s) ++ slash ∷ e

unfoldable pub render : List Text → Text
unfolding join_with_slash
render [] = []
render (e ∷ es) = join_with_slash (render es) e

starts_rooted : Text → Bool
starts_rooted [] = false
starts_rooted (c ∷ s) = c == slash

or_dot : Text → Text
or_dot [] = codes "."
or_dot (c ∷ s) = c ∷ s

unfoldable pub clean : Text → Text
unfolding walk render elements starts_rooted or_dot
clean s =
    if starts_rooted s
    then slash ∷ render (foldl (walk true) [] (elements s))
    else or_dot (render (foldl (walk false) [] (elements s)))

-- Join(dir, name), for a `name` that is not empty
unfoldable pub join : Text → Text → Text
unfolding clean
join [] name = clean name
join (c ∷ dir) name = clean ((c ∷ dir) ++ slash ∷ name)
