-- ===== src/Util/Text/Pieces.antt =====
-- A text cut at a separator, in one pass over it: what `split` and `replace` are compared with.
use zltool_kit.Kit.{
  ℕ, zero, suc, ◌-◌, ◌≡◌, refl, sym, ap, ◌∙◌, true, ◌&&◌, List, [], ◌∷◌, ◌++◌, ◌==◌, if◌then◌else◌,
  length, inl, inr, Bool-cases, ==_self, arith,
}
use zltool_kit.Util.Text.{Text, is_prefix}

-- `skip` bytes of a separator are still to be passed over, and `cur` is the piece so far.
abbrev pub pieces_from : (pat : Text) → (skip : ℕ) → (cur : Text) → Text → List Text
pieces_from pat skip cur [] = cur ∷ []
pieces_from pat zero cur (x ∷ xs) =
    let rest = pieces_from pat (length pat - 1) [] xs in
    let more = pieces_from pat zero (cur ++ (x ∷ [])) xs in
    if is_prefix pat (x ∷ xs) then cur ∷ rest else more
pieces_from pat (suc n) cur (x ∷ xs) = pieces_from pat n cur xs

abbrev pub pieces : (pat : Text) → Text → List Text
pieces pat s = pieces_from pat 0 [] s

abbrev pub join : (sep : Text) → List Text → Text
join sep [] = []
join sep (t ∷ []) = t
join sep (t ∷ u ∷ ts) = t ++ (sep ++ join sep (u ∷ ts))

abbrev pub keep : Text → List Text → List Text
keep [] ts = ts
keep (x ∷ xs) ts = (x ∷ xs) ∷ ts

abbrev pub non_empty : List Text → List Text
non_empty [] = []
non_empty (t ∷ ts) = keep t (non_empty ts)

pub is_prefix-drop : (pat xs : Text) → is_prefix pat xs ≡ true → (b : Text) × (xs ≡ pat ++ b)
is_prefix-drop [] xs h = (xs, refl)
is_prefix-drop (p ∷ ps) [] h = absurd (ground (arith, h))
is_prefix-drop (p ∷ ps) (x ∷ xs) h = elim (Bool-cases (p == x)) [
  | inl same ↦
      let known : p ≡ x = ground arith in
      let (b, e) = is_prefix-drop ps xs (sym (ap (λ z. z && is_prefix ps xs) same) ∙ h) in
      (b, cc (known, e))
  | inr other ↦ absurd (ground (arith, sym (ap (λ z. z && is_prefix ps xs) other) ∙ h))
]

pub is_prefix_self : (pat b : Text) → is_prefix pat (pat ++ b) ≡ true
is_prefix_self [] b = refl
is_prefix_self (p ∷ ps) b = ap (λ z. z && is_prefix ps (ps ++ b)) (==_self p) ∙ is_prefix_self ps b

pub pieces_skip :
    (pat ps cur b : Text) → pieces_from pat (length ps) cur (ps ++ b) ≡ pieces_from pat 0 cur b
pieces_skip pat [] cur b = refl
pieces_skip pat (p ∷ ps) cur b = pieces_skip pat ps cur b
