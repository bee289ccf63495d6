-- ===== src/Util/File/Walk.antt =====
-- The loop of absolutePath over the names of a path.
use zltool_kit.Kit.{
  ◌<◌, ◌≡◌, refl, sym, ap, ◌∙◌, false, not, ◌&&◌, List, [], ◌∷◌, ◌++◌, Option, none, some, leb,
  if◌then◌else◌, length, All, inl, inr, Bool-cases, arith, pick_true, pick_false, length-append,
  le→leb, lt→not_leb,
}
use zltool_kit.Util.Text.{Text}
use zltool_kit.Util.File.{
  is_this, is_parent, parent_dir, Walked, returned, reached, on_parent, walk,
}
use zltool_kit.Util.File.Resolve.{up, resolve, below, IsName, AreNames}
use zltool_kit.Util.File.Parent.{end_slash, NoSlash, parent-below}

length-below :
    (root name : Text) (names : List Text) → length root < length (below root (name ∷ names))
length-below root name [] =
    omega (arith, length-append root (name ++ end_slash), length-append name end_slash)
length-below root name (n ∷ names) = omega (
  arith,
  length-below root n names,
  length-append (below root (n ∷ names)) (name ++ end_slash),
  length-append name end_slash,
)

abbrev pub as_walked : Text → Option (List Text) → Walked
as_walked root none = returned root
as_walked root (some names) = reached (below root names)

walk-up :
    (r : Text) (dirs names : List Text)
    → All NoSlash names
    → ((ns : List Text)
        → All NoSlash ns
        → walk false (r ++ end_slash) dirs (below (r ++ end_slash) ns)
          ≡ as_walked (r ++ end_slash) (resolve dirs ns))
    → (if not false && leb (length (below (r ++ end_slash) names)) (length (r ++ end_slash))
        then returned (r ++ end_slash)
        else on_parent
            (parent_dir (below (r ++ end_slash) names))
            (walk false (r ++ end_slash) dirs))
      ≡ as_walked (r ++ end_slash) (up names (resolve dirs))
walk-up r dirs [] free go =
    pick_true _ _ (le→leb (length (r ++ end_slash)) (length (r ++ end_slash)) (omega arith))
walk-up r dirs (name ∷ names) free go =
    pick_false _ _ (
      lt→not_leb (length (below (r ++ end_slash) (name ∷ names))) (length (r ++ end_slash))
        (length-below (r ++ end_slash) name names))
    ∙ ap (λ o. on_parent o (walk false (r ++ end_slash) dirs)) (parent-below r name names free.0)
    ∙ go names free.1

-- The loop stays below its root, and leads where the names lead.
pub walk-resolve :
    (r : Text) (dirs names : List Text)
    → All NoSlash dirs
    → All NoSlash names
    → walk false (r ++ end_slash) dirs (below (r ++ end_slash) names)
      ≡ as_walked (r ++ end_slash) (resolve dirs names)
unfolding walk
walk-resolve r [] names h free = refl
walk-resolve r (dir ∷ dirs) names h free = elim (Bool-cases (is_this dir)) [
  | inl this ↦
      pick_true _ _ this
      ∙ walk-resolve r dirs names h.1 free
      ∙ ap (as_walked (r ++ end_slash)) (sym (pick_true _ _ this))
  | inr other ↦
      pick_false _ _ other
      ∙ elim (Bool-cases (is_parent dir)) [
        | inl parent ↦
            pick_true _ _ parent
            ∙ walk-up r dirs names free (λ ns f. walk-resolve r dirs ns h.1 f)
            ∙ ap (as_walked (r ++ end_slash)) (sym (pick_true _ _ parent))
        | inr name ↦
            pick_false _ _ name
            ∙ walk-resolve r dirs (dir ∷ names) h.1 (h.0, free)
            ∙ ap (as_walked (r ++ end_slash)) (sym (pick_false _ _ name))
      ]
      ∙ ap (as_walked (r ++ end_slash)) (sym (pick_false _ _ other))
]

up-AreNames :
    (go : List Text → Option (List Text)) (names : List Text)
    → ((ns : List Text) → All IsName ns → AreNames (go ns))
    → All IsName names
    → AreNames (up names go)
up-AreNames go [] f v = tt
up-AreNames go (n ∷ ns) f v = f ns v.1

pub resolve-AreNames :
    (dirs names : List Text) → All NoSlash dirs → All IsName names → AreNames (resolve dirs names)
resolve-AreNames [] names h v = v
resolve-AreNames (dir ∷ dirs) names h v = elim (Bool-cases (is_this dir)) [
  | inl this ↦ rw this (resolve-AreNames dirs names h.1 v)
  | inr other ↦ rw other (elim (Bool-cases (is_parent dir)) [
    | inl parent ↦
        rw parent (up-AreNames (resolve dirs) names (λ ns f. resolve-AreNames dirs ns h.1 f) v)
    | inr name ↦ rw name (resolve-AreNames dirs (dir ∷ names) h.1 ((other, name, h.0), v))
  ])
]
