-- ===== src/Util/File/Tests.antt =====
-- Paths below /r/.
use zltool_kit.Kit.{◌≡◌, refl, true, false, [], ◌∷◌, ◌++◌, none, some}
use zltool_kit.Util.Text.{Text, split_loop, split}
use zltool_kit.Util.Text.Split.{fields}
use zltool_kit.Util.File.{slash, parent_dir, walk, absolute_path}
use zltool_kit.Util.File.Resolve.{resolve, target, AreNames}
use zltool_kit.Util.File.Parent.{end_slash}
use zltool_kit.Util.File.Absolute.{directory, absolute_path_lem}

-- "/r"
abbrev root : Text
root = slash ∷ b'r' ∷ []

-- "a/./../b"
abbrev inside : Text
inside = b'a' ∷ slash ∷ b'.' ∷ slash ∷ b'.' ∷ b'.' ∷ slash ∷ b'b' ∷ []

-- "a/../../b"
abbrev outside : Text
outside = b'a' ∷ slash ∷ b'.' ∷ b'.' ∷ slash ∷ b'.' ∷ b'.' ∷ slash ∷ b'b' ∷ []

inside-absolute : absolute_path 1 [] inside root false ≡ some (slash ∷ b'r' ∷ slash ∷ b'b' ∷ [])
unfolding absolute_path walk parent_dir split split_loop
inside-absolute = refl

outside-absolute : absolute_path 1 [] outside root false ≡ some (slash ∷ b'r' ∷ slash ∷ [])
unfolding absolute_path walk parent_dir split split_loop
outside-absolute = refl

-- "/r/" and "../../..", with access above: `back` is called on the empty text.
above_undefined :
    absolute_path 1 [] (b'.' ∷ b'.' ∷ slash ∷ b'.' ∷ b'.' ∷ slash ∷ b'.' ∷ b'.' ∷ []) root true
    ≡ none
unfolding absolute_path walk parent_dir split split_loop
above_undefined = refl

-- "a/.." in "/".
root_emptied : absolute_path 1 [] (b'a' ∷ slash ∷ b'.' ∷ b'.' ∷ []) (slash ∷ []) false ≡ some []
unfolding absolute_path walk parent_dir split split_loop
root_emptied = refl

absolute_path_lem_example :
    (bare : Text) × (directory root ≡ bare ++ end_slash)
    × (absolute_path 1 [] outside root false
        ≡ some (target outside bare (resolve (fields end_slash outside) [])))
    × AreNames (resolve (fields end_slash outside) [])
absolute_path_lem_example = absolute_path_lem 0 [] outside root refl refl refl
