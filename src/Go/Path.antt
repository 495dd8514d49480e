-- ===== src/Go/Path.antt =====
-- filepath.Clean, filepath.Base and filepath.Ext on Unix.
pub mod Laws
use mathlib.Core.List.{reverse}
use zip_extraction.Common.{
  Bool, true, false, ◌||◌, ◌&&◌, List, [], ◌∷◌, ◌++◌, ◌==◌, if◌then◌else◌, is_empty,
}
use zip_extraction.Go.Strings.{Text, split, str_eq, after_last}

abbrev pub dot : Text
dot = b'.' ∷ []

abbrev pub dot_dot : Text
dot_dot = b'.' ∷ b'.' ∷ []

-- `..` takes the last element off, unless there is none or it is a `..` itself.
back : Bool → List Text → List Text
back rooted [] = if rooted then [] else dot_dot ∷ []
back rooted (top ∷ stack) = if str_eq top dot_dot then dot_dot ∷ top ∷ stack else stack

-- one element of the path; the stack has its top at the head
push_element : Bool → List Text → Text → List Text
push_element rooted stack e =
    if is_empty e || str_eq e dot
    then stack
    else if str_eq e dot_dot
    then back rooted stack
    else e ∷ stack

elements : Bool → List Text → List Text → List Text
elements rooted stack [] = stack
elements rooted stack (e ∷ es) = elements rooted (push_element rooted stack e) es

-- the elements with a `/` between two of them
unfoldable pub join : List Text → Text
join [] = []
join (e ∷ []) = e
join (e ∷ f ∷ es) = e ++ (b'/' ∷ join (f ∷ es))

-- the path that begins with `/`
is_rooted : Text → Bool
is_rooted [] = false
is_rooted (c ∷ s) = c == b'/'

or_dot : Text → Text
or_dot s = if is_empty s then dot else s

unfoldable pub clean : Text → Text
unfolding elements push_element back join is_rooted or_dot
clean path =
    if is_rooted path
    then b'/' ∷ join (reverse (elements true [] (split path b'/')))
    else or_dot (join (reverse (elements false [] (split path b'/'))))

-- the path without the slashes at its end
trim_slashes : Text → Text
trim_slashes [] = []
trim_slashes (c ∷ s) =
    let rest = trim_slashes s in if is_empty rest && c == b'/' then [] else c ∷ rest

-- filepath.Base
unfoldable pub base : Text → Text
unfolding trim_slashes
base [] = dot
base (c ∷ s) = let b = after_last (trim_slashes (c ∷ s)) b'/' in if is_empty b then b'/' ∷ [] else b

-- `.` and what follows it, for the last `.` of the last element
ext_from : Text → Text → Text
ext_from [] found = found
ext_from (c ∷ s) found = ext_from s (if c == b'/' then [] else if c == b'.' then c ∷ s else found)

-- filepath.Ext
unfoldable pub ext : Text → Text
unfolding ext_from
ext path = ext_from path []
