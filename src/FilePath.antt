-- ===== src/FilePath.antt =====
-- The functions of Go's packages path and path/filepath that the program uses, on Unix.
pub mod Elements
pub mod Prefix
pub mod Parents
use mathlib.Core.List.{reverse}
use webboot.Prelude.{
  Bool, true, false, Str, lit, text_eq, is_empty, join as join_text, split, List, [], ◌∷◌, ◌++◌,
  ◌||◌, ◌==◌, if◌then◌else◌,
}

-- `..` takes an element away; at the root it does nothing.
pop : Bool → List Str → List Str
pop rooted [] = if rooted then [] else lit ".." ∷ []
pop rooted (e ∷ out) = if text_eq e (lit "..") then lit ".." ∷ e ∷ out else out

unfoldable pub push : Bool → List Str → Str → List Str
unfolding pop
push rooted out e =
    if is_empty e || text_eq e (lit ".")
    then out
    else if text_eq e (lit "..")
    then pop rooted out
    else e ∷ out

-- The elements that are left, the last one first.
unfoldable pub resolve : Bool → List Str → List Str → List Str
unfolding push
resolve rooted out [] = out
resolve rooted out (e ∷ es) = resolve rooted (push rooted out e) es

abbrev is_rooted : Str → Bool
is_rooted [] = false
is_rooted (c ∷ p) = c == b'/'

abbrev finish : Bool → List Str → Str
finish true out = b'/' ∷ join_text (lit "/") (reverse out)
finish false [] = lit "."
finish false (e ∷ out) = join_text (lit "/") (reverse (e ∷ out))

-- `path.Clean`.
unfoldable pub clean : Str → Str
unfolding resolve
clean p = finish (is_rooted p) (resolve (is_rooted p) [] (split b'/' p))

-- `path.Join(a, b)`.
unfoldable pub join : Str → Str → Str
unfolding clean
join [] [] = []
join [] b = clean b
join a [] = clean a
join a b = clean (a ++ (lit "/" ++ b))

abbrev last_of : List Str → Str
last_of [] = []
last_of (e ∷ []) = e
last_of (e ∷ f ∷ es) = last_of (f ∷ es)

abbrev strip_slashes : Str → Str
strip_slashes [] = []
strip_slashes (c ∷ s) = let rest = strip_slashes s in if c == b'/' then rest else c ∷ s

abbrev base_of : Str → Str
base_of [] = lit "/"
base_of (c ∷ e) = c ∷ e

-- `path.Base`.
unfoldable pub base : Str → Str
base [] = lit "."
base (c ∷ p) = base_of (last_of (split b'/' (reverse (strip_slashes (reverse (c ∷ p))))))

-- Up to and with the last slash.
abbrev up_to_slash : Str → Str
up_to_slash [] = []
up_to_slash (c ∷ s) = let rest = up_to_slash s in if c == b'/' then c ∷ s else rest

-- `filepath.Dir`.
unfoldable pub dir : Str → Str
unfolding clean
dir p = clean (reverse (up_to_slash (reverse p)))

-- The part from the last dot on, of the reversed last element.
abbrev ext_from : Str → Str → Str
ext_from acc [] = []
ext_from acc (c ∷ s) =
    let rest = ext_from (c ∷ acc) s in if c == b'/' then [] else if c == b'.' then c ∷ acc else rest

-- `filepath.Ext`.
unfoldable pub ext : Str → Str
ext p = ext_from [] (reverse p)
