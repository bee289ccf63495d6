-- ===== src/Util/File/Resolve.antt =====
-- A path as names below a directory: what absolutePath is compared with.
use zltool_kit.Kit.{◌≡◌, ◌≢◌, false, List, [], ◌∷◌, ◌++◌, Option, none, some, if◌then◌else◌, All}
use zltool_kit.Util.Text.{Text}
use zltool_kit.Util.File.{slash, is_this, is_parent, is_slash, back, pop_back}

-- What the loop comes to, written as the code writes it.
-- The names are those below the directory, the deepest first.
abbrev pub up : List Text → (List Text → Option (List Text)) → Option (List Text)
up [] go = none
up (name ∷ names) go = go names

-- Where a list of names leads, or nothing if it leads above the directory.
abbrev pub resolve : List Text → List Text → Option (List Text)
resolve [] names = some names
resolve (dir ∷ dirs) names =
    let same = resolve dirs names in
    let above = up names (resolve dirs) in
    let below = resolve dirs (dir ∷ names) in
    if is_this dir then same else if is_parent dir then above else below

abbrev pub below : (root : Text) → List Text → Text
below root [] = root
below root (name ∷ names) = below root names ++ (name ++ (slash ∷ []))

abbrev pub shorten : (path current : Text) → Text
shorten path current = if is_slash (back path) then current else pop_back current

abbrev pub render : (path root : Text) → Option (List Text) → Text
render path root none = root
render path root (some names) = shorten path (below root names)

-- The directory, without its final slash, and then a slash and the name for each name.
abbrev pub spelled : (bare : Text) → List Text → Text
spelled bare [] = bare
spelled bare (name ∷ names) = spelled bare names ++ (slash ∷ name)

-- The path to which the names of `path` lead, with a final slash if `path` has one; the directory if they lead above it.
abbrev pub target : (path bare : Text) → Option (List Text) → Text
target path bare none = bare ++ (slash ∷ [])
target path bare (some names) =
    spelled bare names ++ (if is_slash (back path) then slash ∷ [] else [])

-- A name proper: without a slash, not empty, and neither `.` nor `..`.
abbrev pub IsName : Text → Type 0
IsName name = (is_this name ≡ false) × (is_parent name ≡ false) × All (λ x. x ≢ slash) name

abbrev pub AreNames : Option (List Text) → Type 0
AreNames none = Unit
AreNames (some names) = All IsName names
