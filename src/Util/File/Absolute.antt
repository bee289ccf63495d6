-- ===== src/Util/File/Absolute.antt =====
-- absolutePath without access above the current directory.
use zltool_kit.Kit.{
  ℕ, suc, ◌≡◌, ◌≢◌, refl, sym, ap, ◌∙◌, false, List, [], ◌∷◌, ◌++◌, Option, none, some,
  if◌then◌else◌, length, inl, inr, Bool-cases, arith, append_assoc, append-nil, pick_true,
  pick_false,
}
use mathlib.Core.Path.{subst}
use zltool_kit.Util.Text.{Text, is_empty, split}
use zltool_kit.Util.Text.Split.{fields, split_lem}
use zltool_kit.Util.File.{
  slash, back, is_slash, as_file, pop_back, finish, walk_from, with_slash, from_root, from_dir,
  is_relative, absolute_path,
}
use zltool_kit.Util.File.Resolve.{resolve, shorten, below, spelled, render, target, AreNames}
use zltool_kit.Util.File.Parent.{end_slash, pop_back-append, back-append, back_slash, below_slash}
use zltool_kit.Util.File.Walk.{as_walked, walk-resolve, resolve-AreNames}
use zltool_kit.Util.File.Fields.{fields-NoSlash}

-- A directory with its final slash.
abbrev pub directory : Text → Text
directory current = if is_slash (back current) then current else current ++ end_slash

directory_slash : (current : Text) → (r : Text) × (directory current ≡ r ++ end_slash)
directory_slash current = elim (Bool-cases (is_slash (back current))) [
  | inl yet ↦ let (r, e) = back_slash current yet in (r, pick_true _ _ yet ∙ e)
  | inr bare ↦ (current, pick_false _ _ bare)
]

with_slash_lem :
    (current : Text)
    → is_empty current ≡ false
    → with_slash current (back current) ≡ some (directory current)
with_slash_lem current h = go current (back current) refl (back_some current h)
  where
    back_some : (s : Text) → is_empty s ≡ false → back s ≢ none
    back_some [] h e = absurd (ground (arith, h))
    back_some (x ∷ []) h e = absurd (ground (arith, e))
    back_some (x ∷ y ∷ ys) h e = back_some (y ∷ ys) refl e

    go :
        (s : Text) (o : Option ℕ)
        → back s ≡ o
        → o ≢ none
        → with_slash s o ≡ some (if is_slash o then s else s ++ end_slash)
    go s none e h = absurd (h refl)
    go s (some c) e h = refl

finish_reached :
    (path b : Text)
    → (if is_slash (back path)
        then some (b ++ end_slash)
        else as_file (b ++ end_slash) (back (b ++ end_slash)))
      ≡ some (shorten path (b ++ end_slash))
finish_reached path b = elim (Bool-cases (is_slash (back path))) [
  | inl yet ↦ pick_true _ _ yet ∙ ap some (sym (pick_true _ _ yet))
  | inr bare ↦
      pick_false _ _ bare
      ∙ ap (as_file (b ++ end_slash)) (back-append b slash)
      ∙ ap some (sym (pick_false _ _ bare))
]

finish_walked :
    (path r : Text) (o : Option (List Text))
    → finish path (as_walked (r ++ end_slash) o) ≡ some (render path (r ++ end_slash) o)
finish_walked path r none = refl
finish_walked path r (some names) =
    let (b, e) = below_slash r names in
    subst
      (λ z. (if is_slash (back path) then some z else as_file z (back z)) ≡ some (shorten path z))
      (sym e) (finish_reached path b)

walk_from_lem :
    (path r : Text)
    → walk_from false path (r ++ end_slash) (some (fields end_slash path))
      ≡ some (render path (r ++ end_slash) (resolve (fields end_slash path) []))
walk_from_lem path r =
    ap (finish path) (walk-resolve r (fields end_slash path) [] (fields-NoSlash path) tt)
    ∙ finish_walked path r (resolve (fields end_slash path) [])

below-spelled :
    (bare : Text) (names : List Text)
    → below (bare ++ end_slash) names ≡ spelled bare names ++ end_slash
below-spelled bare [] = refl
below-spelled bare (name ∷ names) =
    ap (λ z. z ++ (name ++ end_slash)) (below-spelled bare names)
    ∙ append_assoc (spelled bare names) end_slash (name ++ end_slash)
    ∙ sym (append_assoc (spelled bare names) (slash ∷ name) end_slash)

render-target :
    (path bare : Text) (names : Option (List Text))
    → render path (bare ++ end_slash) names ≡ target path bare names
render-target path bare none = refl
render-target path bare (some names) =
    let all = spelled bare names in
    elim (Bool-cases (is_slash (back path))) [
      | inl yet ↦
          pick_true _ _ yet ∙ below-spelled bare names ∙ ap (all ++◌) (sym (pick_true _ _ yet))
      | inr bare_file ↦
          pick_false _ _ bare_file
          ∙ ap pop_back (below-spelled bare names)
          ∙ pop_back-append all slash
          ∙ sym (append-nil all)
          ∙ ap (all ++◌) (sym (pick_false _ _ bare_file))
    ]

-- With a current directory that is neither empty nor relative, a path that is not empty, and no access above the
-- directory, absolutePath returns the directory with its final slash where the names of the path lead above it, and
-- otherwise the directory without it followed by a slash and a name for each name to which they lead, and by a final
-- slash if the path given has one; each name is proper. So in the directory "/", a path without a final slash that leads
-- back to the directory gives the empty text.
pub absolute_path_lem :
    (n : ℕ) (exe path current : Text)
    → is_empty path ≡ false
    → is_empty current ≡ false
    → is_relative current ≡ false
    → (bare : Text) × (directory current ≡ bare ++ end_slash)
      × (absolute_path (suc n) exe path current false
          ≡ some (target path bare (resolve (fields end_slash path) [])))
      × AreNames (resolve (fields end_slash path) [])
unfolding absolute_path
absolute_path_lem n exe path current p c a =
    let (r, e) = directory_slash current in
    let split_done : split (suc (length path)) path end_slash ≡ some (fields end_slash path) =
      split_lem (suc (length path)) path slash [] (omega arith) in
    (
      r,
      e,
      ap (from_dir false path) (pick_false _ _ c ∙ pick_false _ _ a)
          ∙ pick_false _ _ p
          ∙ ap (from_root false path) (with_slash_lem current c)
          ∙ ap (walk_from false path (directory current)) split_done
          ∙ subst
              (λ z.
                walk_from false path z (some (fields end_slash path))
                ≡ some (render path z (resolve (fields end_slash path) [])))
              (sym e) (walk_from_lem path r)
          ∙ ap some (
              ap (λ z. render path z (resolve (fields end_slash path) [])) e
              ∙ render-target path r (resolve (fields end_slash path) [])),
      resolve-AreNames (fields end_slash path) [] (fields-NoSlash path) tt,
    )
