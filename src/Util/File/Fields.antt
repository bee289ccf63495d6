-- ===== src/Util/File/Fields.antt =====
-- The fields of a path hold no slash.
use zltool_kit.Kit.{
  ◌-◌, ◌≡◌, ◌≢◌, sym, ap, ◌∙◌, true, false, ◌&&◌, List, [], ◌∷◌, ◌++◌, ◌==◌, length, All,
  All-append, inl, inr, Bool-cases, arith, pick_true, pick_false,
}
use mathlib.Core.Path.{subst}
use zltool_kit.Util.Text.{Text, is_prefix}
use zltool_kit.Util.Text.Pieces.{pieces_from, pieces, non_empty}
use zltool_kit.Util.Text.Split.{fields}
use zltool_kit.Util.File.{slash}
use zltool_kit.Util.File.Parent.{end_slash, NoSlash}

pieces-NoSlash : (xs cur : Text) → NoSlash cur → All NoSlash (pieces_from end_slash 0 cur xs)
pieces-NoSlash [] cur h = (h, tt)
pieces-NoSlash (x ∷ xs) cur h = elim (Bool-cases (slash == x)) [
  | inl hit ↦
      let found : is_prefix end_slash (x ∷ xs) ≡ true = ap (λ z. z && true) hit in
      let n : length end_slash - 1 ≡ 0 = omega arith in
      subst (All NoSlash)
        (ap (λ k. cur ∷ pieces_from end_slash k [] xs) (sym n) ∙ sym (pick_true _ _ found))
        (h, pieces-NoSlash xs [] tt)
  | inr miss ↦
      let missed : is_prefix end_slash (x ∷ xs) ≡ false = ap (λ z. z && true) miss in
      let other : x ≢ slash = ground (arith, miss) in
      subst (All NoSlash) (sym (pick_false _ _ missed)) (
        pieces-NoSlash xs (cur ++ (x ∷ []))
          (All-append (λ c. c ≢ slash) cur (x ∷ []) h (other, tt)))
]

kept-NoSlash : (ts : List Text) → All NoSlash ts → All NoSlash (non_empty ts)
kept-NoSlash [] h = tt
kept-NoSlash ([] ∷ ts) h = kept-NoSlash ts h.1
kept-NoSlash ((x ∷ t) ∷ ts) h = (h.0, kept-NoSlash ts h.1)

pub fields-NoSlash : (path : Text) → All NoSlash (fields end_slash path)
fields-NoSlash [] = (tt, tt)
fields-NoSlash (x ∷ xs) = kept-NoSlash (pieces end_slash (x ∷ xs)) (pieces-NoSlash (x ∷ xs) [] tt)
