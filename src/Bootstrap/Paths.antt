-- ===== src/Bootstrap/Paths.antt =====
-- The operations of pathlib that scripts/bootstrap.py uses, on POSIX paths.
use grepglint.Base.{
  ℕ, Bool, true, false, not, ◌&&◌, ◌||◌, List, [], ◌∷◌, ◌++◌, map, if◌then◌else◌, keep, Text,
  points, same_text, starts_with, split_on,
}

pub record FilePath : Type 0 where
  pub root : Text
  pub parts : List Text

abbrev slash : ℕ
slash = 47

abbrev dot : Text
dot = 46 ∷ []

-- Two slashes that no third follows are a root of their own.
root_of : Text → Text
unfolding starts_with
root_of s =
    if starts_with (points "///") s
    then points "/"
    else if starts_with (points "//") s
    then points "//"
    else if starts_with (points "/") s
    then points "/"
    else []

is_part : Text → Bool
unfolding same_text
is_part s = not (same_text s [] || same_text s dot)

-- `Path(s)`
unfoldable pub parse_path : Text → FilePath
unfolding split_on root_of is_part
parse_path s = record { root = root_of s; parts = keep is_part (split_on slash s) }

join_parts : List Text → Text
join_parts [] = []
join_parts (p ∷ []) = p
join_parts (p ∷ q ∷ ps) = p ++ slash ∷ join_parts (q ∷ ps)

-- `str(path)`
unfoldable pub path_text : FilePath → Text
unfolding join_parts
path_text p = elim (p.root ++ join_parts p.parts) [ [] ↦ dot | c ∷ s ↦ c ∷ s ]

-- `path / name`
abbrev pub child : FilePath → Text → FilePath
child p name = record p { parts = p.parts ++ name ∷ [] }

unfoldable pub is_absolute : FilePath → Bool
is_absolute p = elim p.root [ [] ↦ false | c ∷ s ↦ true ]

-- `path.parent.parts` and `path.name`, of a path with parts.
abbrev parent_parts : List Text → List Text
parent_parts [] = []
parent_parts (p ∷ []) = []
parent_parts (p ∷ q ∷ ps) = p ∷ parent_parts (q ∷ ps)

abbrev pub parent : FilePath → FilePath
parent p = record p { parts = parent_parts p.parts }

unfoldable pub name_of : List Text → Text
name_of [] = []
name_of (p ∷ []) = p
name_of (p ∷ q ∷ ps) = name_of (q ∷ ps)

prefixes : List Text → List Text → List (List Text)
prefixes before [] = before ∷ []
prefixes before (p ∷ ps) = before ∷ prefixes (before ++ p ∷ []) ps

-- `reversed([path] + list(path.parents))`
unfoldable pub lineage : FilePath → List FilePath
unfolding prefixes
lineage p = map (λ parts. record { root = p.root; parts = parts }) (prefixes [] p.parts)

-- The parts of the second path begin those of the first.
unfoldable pub begins : List Text → List Text → Bool
unfolding same_text
begins ps [] = true
begins [] (q ∷ qs) = false
begins (p ∷ ps) (q ∷ qs) = same_text p q && begins ps qs

unfoldable pub same_path : FilePath → FilePath → Bool
unfolding begins same_text
same_path a b = same_text a.root b.root && begins a.parts b.parts && begins b.parts a.parts

-- `a.is_relative_to(b)`
unfoldable pub is_relative_to : FilePath → FilePath → Bool
unfolding begins same_text
is_relative_to a b = same_text a.root b.root && begins a.parts b.parts
