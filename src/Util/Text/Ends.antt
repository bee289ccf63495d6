-- ===== src/Util/Text/Ends.antt =====
-- The functions start_with and end_with.
use zltool_kit.Kit.{
  ℕ, suc, ◌+◌, ◌-◌, ◌≤◌, ◌<◌, ◌≡◌, ◌↔◌, refl, sym, ap, ◌∙◌, true, false, [], ◌∷◌, ◌++◌, append-nil,
  Option, none, some, if◌then◌else◌, length, inl, inr, Bool-cases, Option-cases, ==_self, arith,
  pick_true, pick_false, length-append,
}
use zltool_kit.Util.Text.{
  Text, is_prefix, find_from, or_else, rfind_from, is_zero, start_with, is_at, end_with,
}
use zltool_kit.Util.Text.Pieces.{is_prefix-drop, is_prefix_self}
use zltool_kit.Util.Text.Search.{find-append}

abbrev pub StartsWith : Text → Text → Type 0
StartsWith s sub = (b : Text) × (s ≡ sub ++ b)

abbrev pub EndsWith : Text → Text → Type 0
EndsWith s sub = (a : Text) × (s ≡ a ++ sub)

later_not_zero : (sub xs : Text) (i : ℕ) → is_zero (find_from sub xs (suc i)) ≡ false
later_not_zero [] [] i = ground arith
later_not_zero (p ∷ ps) [] i = refl
later_not_zero sub (x ∷ xs) i = elim (Bool-cases (is_prefix sub (x ∷ xs))) [
  | inl h ↦ ap is_zero (pick_true _ _ h) ∙ ground arith
  | inr h ↦ ap is_zero (pick_false _ _ h) ∙ later_not_zero sub xs (suc i)
]

zero_prefix : (sub xs : Text) → is_zero (find_from sub xs 0) ≡ is_prefix sub xs
zero_prefix [] [] = refl
zero_prefix (p ∷ ps) [] = refl
zero_prefix sub (x ∷ xs) = elim (Bool-cases (is_prefix sub (x ∷ xs))) [
  | inl h ↦ ap is_zero (pick_true _ _ h) ∙ sym h
  | inr h ↦ ap is_zero (pick_false _ _ h) ∙ later_not_zero sub xs 0 ∙ sym h
]

some-inj : (a b : ℕ) → some a ≡ some b → a ≡ b
some-inj a b h = ap (λ o. elim o [ none ↦ a | some x ↦ x ]) h

-- A place that rfind gives.
abbrev IsPlace : Text → Text → ℕ → ℕ → Type 0
IsPlace sub xs i j = (a : Text) × ((b : Text) × ((xs ≡ a ++ (sub ++ b)) × (j ≡ i + length a)))

IsPlace-here :
    (sub xs : Text) (i j : ℕ) → is_prefix sub xs ≡ true → some i ≡ some j → IsPlace sub xs i j
IsPlace-here sub xs i j h e =
    let (b, f) = is_prefix-drop sub xs h in
    let same = some-inj i j e in ([], (b, (f, omega (arith, same))))

rfind-IsPlace : (sub xs : Text) (i j : ℕ) → rfind_from sub xs i ≡ some j → IsPlace sub xs i j
rfind-IsPlace [] [] i j h = IsPlace-here [] [] i j refl h
rfind-IsPlace (p ∷ ps) [] i j h = absurd (ground (arith, h))
rfind-IsPlace sub (x ∷ xs) i j h = elim (Option-cases (rfind_from sub xs (suc i))) [
  | inl none_later ↦
      let e =
        sym (ap (λ o. or_else o (if is_prefix sub (x ∷ xs) then some i else none)) none_later)
        ∙ h in
      elim (Bool-cases (is_prefix sub (x ∷ xs))) [
        | inl hit ↦ IsPlace-here sub (x ∷ xs) i j hit (sym (pick_true _ _ hit) ∙ e)
        | inr miss ↦ absurd (ground (arith, sym (pick_false _ _ miss) ∙ e))
      ]
  | inr (k, later) ↦
      let same =
        some-inj k j
          (sym (ap (λ o. or_else o (if is_prefix sub (x ∷ xs) then some i else none)) later) ∙ h) in
      let (a, (b, (e, at))) = rfind-IsPlace sub xs (suc i) k later in
      (x ∷ a, (b, (ap (◌∷◌ x) e, omega (arith, at, same))))
]

prefix_length : (sub xs : Text) → is_prefix sub xs ≡ true → length sub ≤ length xs
prefix_length sub xs h =
    let (b, e) = is_prefix-drop sub xs h in omega (arith, ap length e, length-append sub b)

rfind_short : (sub xs : Text) (i : ℕ) → length xs < length sub → rfind_from sub xs i ≡ none
rfind_short [] xs i h = absurd (omega (arith, h))
rfind_short (p ∷ ps) [] i h = refl
rfind_short (p ∷ ps) (x ∷ xs) i h = elim (Bool-cases (is_prefix (p ∷ ps) (x ∷ xs))) [
  | inl hit ↦ absurd (omega (arith, h, prefix_length (p ∷ ps) (x ∷ xs) hit))
  | inr miss ↦
      ap (λ o. or_else o (if is_prefix (p ∷ ps) (x ∷ xs) then some i else none))
        (rfind_short (p ∷ ps) xs (suc i) (omega (arith, h)))
      ∙ pick_false _ _ miss
]

rfind_itself : (sub : Text) (i : ℕ) → rfind_from sub sub i ≡ some i
rfind_itself [] i = refl
rfind_itself (p ∷ ps) i =
    let hit : is_prefix (p ∷ ps) (p ∷ ps) ≡ true =
      ap (is_prefix (p ∷ ps)) (sym (append-nil (p ∷ ps))) ∙ is_prefix_self (p ∷ ps) [] in
    ap (λ o. or_else o (if is_prefix (p ∷ ps) (p ∷ ps) then some i else none))
      (rfind_short (p ∷ ps) ps (suc i) (omega arith))
    ∙ pick_true _ _ hit

rfind-append : (a sub : Text) (i : ℕ) → rfind_from sub (a ++ sub) i ≡ some (i + length a)
rfind-append [] sub i = rfind_itself sub i ∙ ap some (omega arith)
rfind-append (x ∷ a) sub i =
    ap (λ o. or_else o (if is_prefix sub (x ∷ (a ++ sub)) then some i else none))
      (rfind-append a sub (suc i))
    ∙ ap some (omega arith)

empty_length : (b : Text) → length b ≡ 0 → b ≡ []
empty_length [] h = refl
empty_length (x ∷ b) h = absurd (omega (arith, h))

ends_from :
    (s sub : Text) (o : Option ℕ)
    → rfind_from sub s 0 ≡ o
    → is_at (length s - length sub) o ≡ true
    → EndsWith s sub
ends_from s sub none e h = absurd (ground (arith, h))
ends_from s sub (some i) e h =
    let (a, (b, (f, at))) = rfind-IsPlace sub s 0 i e in
    let where_ : i ≡ length s - length sub = ground (arith, h) in
    let none_left =
      empty_length b
        (omega (arith, at, where_, ap length f, length-append a (sub ++ b), length-append sub b)) in
    (a, f ∙ ap (λ z. a ++ (sub ++ z)) none_left ∙ ap (◌++◌ a) (append-nil sub))

-- The function start_with tells whether the text is the other text with something behind it, and end_with whether it is the
-- other text with something in front, the empty text and a longer one included.
pub ends_lem :
    (s sub : Text)
    → ((start_with s sub ≡ true) ↔ StartsWith s sub) × ((end_with s sub ≡ true) ↔ EndsWith s sub)
unfolding start_with end_with
ends_lem s sub =
    let prefix : start_with s sub ≡ is_prefix sub s =
      ap is_zero (find-append [] s sub 0 refl) ∙ zero_prefix sub s in
    (
      (
        λ h. is_prefix-drop sub s (sym prefix ∙ h),
        λ x. prefix ∙ ap (is_prefix sub) x.1 ∙ is_prefix_self sub x.0,
      ),
      (
        λ h. ends_from s sub (rfind_from sub s 0) refl h,
        λ x.
            let n : length s - length sub ≡ 0 + length x.0 =
              omega (arith, ap length x.1, length-append x.0 sub) in
            ap (is_at (length s - length sub))
              (ap (λ z. rfind_from sub z 0) x.1 ∙ rfind-append x.0 sub 0)
            ∙ ap (λ k. is_at k (some (0 + length x.0))) n
            ∙ ==_self (0 + length x.0),
      ),
    )
