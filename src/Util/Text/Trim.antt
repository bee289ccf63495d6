-- ===== src/Util/Text/Trim.antt =====
-- The macro TRIM.
use zltool_kit.Kit.{
  ℕ, ◌<◌, ◌≡◌, refl, ap, ◌∙◌, true, false, [], ◌∷◌, ◌++◌, append_assoc, Option, none, some, All,
  inl, inr, Bool-cases, arith, pick_true, pick_false, lt→ltb,
}
use mathlib.Core.Path.{subst}
use zltool_kit.Util.Text.{
  Text, contains, at, trim_first, trim_front, trim_behind, trim_back, then_trim_front, trim,
}

abbrev pub IsTrimmed : Text → Text → Type 0
IsTrimmed chars xs = All (λ x. contains x chars ≡ true) xs

-- Below the table's last entry but one.
abbrev pub IsSmall : Text → Type 0
IsSmall xs = All (λ x. x < 255) xs

abbrev pub StartsKept : Text → Text → Type 0
StartsKept chars [] = Unit
StartsKept chars (x ∷ xs) = contains x chars ≡ false

abbrev pub EndsKept : Text → Text → Type 0
EndsKept chars [] = Unit
EndsKept chars (x ∷ []) = contains x chars ≡ false
EndsKept chars (x ∷ y ∷ ys) = EndsKept chars (y ∷ ys)

at_small : (chars : Text) (x : ℕ) → x < 255 → at chars x ≡ some (contains x chars)
at_small chars x h = pick_true _ _ (lt→ltb x 255 h)

abbrev IsFront : Text → Text → Text → Type 0
IsFront chars s t = (a : Text) × ((s ≡ a ++ t) × IsTrimmed chars a × StartsKept chars t)

IsFront-trimmed :
    (chars s : Text) → IsSmall s → (t : Text) × ((trim_front chars s ≡ some t) × IsFront chars s t)
IsFront-trimmed chars [] h = ([], (refl, ([], (refl, tt, tt))))
IsFront-trimmed chars (x ∷ xs) h = elim (Bool-cases (contains x chars)) [
  | inl hit ↦
      let (t, (done, (a, (e, gone, kept)))) = IsFront-trimmed chars xs h.1 in
      (
        t,
        (
          ap (λ o. trim_first o (some (x ∷ xs)) (trim_front chars xs))
                (at_small chars x h.0 ∙ ap some hit)
              ∙ done,
          (x ∷ a, (ap (◌∷◌ x) e, (hit, gone), kept)),
        ),
      )
  | inr miss ↦ (
    x ∷ xs,
    (
      ap (λ o. trim_first o (some (x ∷ xs)) (trim_front chars xs))
          (at_small chars x h.0 ∙ ap some miss),
      ([], (refl, tt, miss)),
    ),
  )
]

abbrev IsBack : Text → Text → Text → Type 0
IsBack chars s t = (b : Text) × ((s ≡ t ++ b) × IsTrimmed chars b × EndsKept chars t)

IsBack-step :
    (chars : Text) (x : ℕ) (xs t : Text)
    → x < 255
    → trim_back chars xs ≡ some t
    → IsBack chars xs t
    → (u : Text) × ((trim_back chars (x ∷ xs) ≡ some u) × IsBack chars (x ∷ xs) u)
IsBack-step chars x xs [] h done (b, (e, gone, kept)) = elim (Bool-cases (contains x chars)) [
  | inl hit ↦ (
    [],
    (
      ap (trim_behind chars x) done
          ∙ ap (λ o. trim_first o (some (x ∷ [])) (some [])) (at_small chars x h ∙ ap some hit),
      (x ∷ b, (ap (◌∷◌ x) e, (hit, gone), tt)),
    ),
  )
  | inr miss ↦ (
    x ∷ [],
    (
      ap (trim_behind chars x) done
          ∙ ap (λ o. trim_first o (some (x ∷ [])) (some [])) (at_small chars x h ∙ ap some miss),
      (b, (ap (◌∷◌ x) e, gone, miss)),
    ),
  )
]
IsBack-step chars x xs (y ∷ ys) h done (b, (e, gone, kept)) =
    (x ∷ y ∷ ys, (ap (trim_behind chars x) done, (b, (ap (◌∷◌ x) e, gone, kept))))

IsBack-trimmed :
    (chars s : Text) → IsSmall s → (t : Text) × ((trim_back chars s ≡ some t) × IsBack chars s t)
IsBack-trimmed chars [] h = ([], (refl, ([], (refl, tt, tt))))
IsBack-trimmed chars (x ∷ xs) h =
    let (t, (done, v)) = IsBack-trimmed chars xs h.1 in IsBack-step chars x xs t h.0 done v

IsSmall-front : (a b s : Text) → s ≡ a ++ b → IsSmall s → IsSmall a
IsSmall-front [] b s e h = tt
IsSmall-front (x ∷ a) b [] e h = absurd (ground (arith, e))
IsSmall-front (x ∷ a) b (y ∷ s) e h =
    let (same, rest) = cons-inj y x s (a ++ b) e in
    (omega (arith, h.0, same), IsSmall-front a b s rest h.1)
  where
    cons-inj : (y x : ℕ) (s t : Text) → y ∷ s ≡ x ∷ t → (y ≡ x) × (s ≡ t)
    cons-inj y x s t e = (ap (head y) e, ap (rest_of) e)
      where
        head : ℕ → Text → ℕ
        head d [] = d
        head d (z ∷ zs) = z

        rest_of : Text → Text
        rest_of [] = []
        rest_of (z ∷ zs) = zs

ends_behind : (chars a t : Text) → EndsKept chars (a ++ t) → EndsKept chars t
ends_behind chars [] t h = h
ends_behind chars (x ∷ []) [] h = tt
ends_behind chars (x ∷ []) (y ∷ t) h = h
ends_behind chars (x ∷ y ∷ a) t h = ends_behind chars (y ∷ a) t h

-- What is left of a text, if there is one.
abbrev pub IsStripped : Text → Text → Option Text → Type 0
IsStripped chars s o =
    (t : Text) × ((a : Text) × ((b : Text) × ((o ≡ some t)
          × (s ≡ a ++ (t ++ b))
          × IsTrimmed chars a
          × IsTrimmed chars b
          × StartsKept chars t
          × EndsKept chars t)))

-- If neither the text nor the set of bytes to trim holds the byte 255, trim returns the text without a front and a
-- back that consist of such bytes, and what is left neither starts nor ends with one.
pub trim_lem :
    (chars s : Text) → contains 255 chars ≡ false → IsSmall s → IsStripped chars s (trim chars s)
unfolding trim
trim_lem chars s free h =
    let (u, (first, (b, (e, back_gone, end_kept)))) = IsBack-trimmed chars s h in
    let (t, (second, (a, (f, front_gone, start_kept)))) =
      IsFront-trimmed chars u (IsSmall-front u b s e h) in
    (
      t,
      (
        a,
        (
          b,
          (
            pick_false _ _ free ∙ ap (then_trim_front chars) first ∙ second,
            e ∙ ap (λ z. z ++ b) f ∙ append_assoc a t b,
            front_gone,
            back_gone,
            start_kept,
            ends_behind chars a t (subst (EndsKept chars) f end_kept),
          ),
        ),
      ),
    )

back_throws : (chars xs : Text) → trim_back chars (xs ++ (255 ∷ [])) ≡ none
back_throws chars [] = refl
back_throws chars (x ∷ xs) = ap (trim_behind chars x) (back_throws chars xs)

-- A text that ends with the byte 255 makes trim throw, whatever is to be trimmed.
pub trim_throws :
    (chars xs : Text) → contains 255 chars ≡ false → trim chars (xs ++ (255 ∷ [])) ≡ none
unfolding trim
trim_throws chars xs free = pick_false _ _ free ∙ ap (then_trim_front chars) (back_throws chars xs)
