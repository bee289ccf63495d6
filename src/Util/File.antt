-- ===== src/Util/File.antt =====
-- src/Util/File.cpp: parentDir and absolutePath, on texts as lists of bytes. The directory of the program, `exe`, is an
-- argument. A call of `back` or `pop_back` on an empty text is undefined.
use zltool_kit.Kit.{
  ℕ, zero, suc, ◌+◌, Bool, true, false, not, ◌&&◌, ◌||◌, List, [], ◌∷◌, ◌++◌, Option, none, some,
  leb, ◌==◌, if◌then◌else◌, length, take,
}
use zltool_kit.Util.Text.{Text, is_empty, is_same, rfind_from, split}
mod Parent
pub mod Resolve
mod Walk
mod Fields
pub mod Absolute
mod Tests

abbrev pub slash : ℕ
slash = b'/'

abbrev pub back : Text → Option ℕ
back [] = none
back (x ∷ []) = some x
back (x ∷ y ∷ ys) = back (y ∷ ys)

abbrev pub pop_back : Text → Text
pop_back [] = []
pop_back (x ∷ []) = []
pop_back (x ∷ y ∷ ys) = x ∷ pop_back (y ∷ ys)

abbrev pub up_to : Text → Option ℕ → Text
up_to s none = s
up_to s (some pos) = take (pos + 1) s

abbrev pub parent_of : Text → Text
parent_of s = up_to s (rfind_from (slash ∷ []) s 0)

abbrev pub parent_from : Text → Option ℕ → Option Text
parent_from path none = none
parent_from path (some c) = some (parent_of (if c == slash then pop_back path else path))

unfoldable pub parent_dir : Text → Option Text
parent_dir path = parent_from path (back path)

abbrev pub is_this : Text → Bool
is_this dir = is_empty dir || is_same dir (b'.' ∷ [])

abbrev pub is_parent : Text → Bool
is_parent dir = is_same dir (b'.' ∷ b'.' ∷ [])

-- How the loop over the names ends.
pub data Walked : Type 0 where
  returned : (path : Text) → Walked
  reached : (path : Text) → Walked
  undefined : Walked

abbrev pub on_parent : Option Text → (Text → Walked) → Walked
on_parent none go = undefined
on_parent (some parent) go = go parent

unfoldable pub walk : (can_access_parent : Bool) → (root : Text) → List Text → Text → Walked
walk can root [] path = reached path
walk can root (dir ∷ dirs) path =
    let same = walk can root dirs path in
    let above = on_parent (parent_dir path) (walk can root dirs) in
    let below = walk can root dirs (path ++ (dir ++ (slash ∷ []))) in
    if is_this dir
    then same
    else if is_parent dir
    then if not can && leb (length path) (length root) then returned root else above
    else below

abbrev pub is_slash : Option ℕ → Bool
is_slash none = false
is_slash (some c) = c == slash

abbrev pub as_file : (current : Text) → Option ℕ → Option Text
as_file current none = none
as_file current (some c) = some (if c == slash then pop_back current else current)

-- A path that is not a directory's loses the final slash.
abbrev pub finish : (path : Text) → Walked → Option Text
finish path (returned root) = some root
finish path (reached current) =
    if is_slash (back path) then some current else as_file current (back current)
finish path undefined = none

abbrev pub walk_from : (can : Bool) → (path root : Text) → Option (List Text) → Option Text
walk_from can path root none = none
walk_from can path root (some dirs) = finish path (walk can root dirs root)

abbrev pub with_slash : Text → Option ℕ → Option Text
with_slash current none = none
with_slash current (some c) = some (if c == slash then current else current ++ (slash ∷ []))

abbrev pub from_root : (can : Bool) → (path : Text) → Option Text → Option Text
from_root can path none = none
from_root can path (some root) =
    walk_from can path root (split (suc (length path)) path (slash ∷ []))

abbrev pub from_dir : (can : Bool) → (path : Text) → Option Text → Option Text
from_dir can path none = none
from_dir can path (some current) =
    if is_empty path then some current else from_root can path (with_slash current (back current))

abbrev pub is_relative : Text → Bool
is_relative [] = false
is_relative (c ∷ cs) = c == b'.'

-- Each round is a call of absolutePath by itself, for a current directory that is relative.
unfoldable pub absolute_path :
    (fuel : ℕ) → (exe path current : Text) → (can_access_parent : Bool) → Option Text
absolute_path zero exe path current can = none
absolute_path (suc n) exe path current can =
    let resolved = absolute_path n exe current exe true in
    from_dir can path (
      if is_empty current then some exe else if is_relative current then resolved else some current)
