-- ===== src/Util/File/Parent.antt =====
-- Texts that end in a slash, and parentDir of them.
use zltool_kit.Kit.{
  ℕ, suc, ◌+◌, ◌≡◌, ◌≢◌, refl, sym, ap, ◌∙◌, true, false, ◌&&◌, List, [], ◌∷◌, ◌++◌, append_assoc,
  none, some, if◌then◌else◌, length, take, All, ne→not_==, arith, pick_false, take-append_add,
}
use zltool_kit.Util.Text.{Text, is_prefix, or_else, rfind_from}
use zltool_kit.Util.File.{
  slash, back, pop_back, up_to, parent_of, parent_from, parent_dir, is_slash,
}
use zltool_kit.Util.File.Resolve.{below}

abbrev pub end_slash : Text
end_slash = slash ∷ []

abbrev pub NoSlash : Text → Type 0
NoSlash name = All (λ x. x ≢ slash) name

pub back-append : (xs : Text) (c : ℕ) → back (xs ++ (c ∷ [])) ≡ some c
back-append [] c = refl
back-append (x ∷ []) c = refl
back-append (x ∷ y ∷ ys) c = back-append (y ∷ ys) c

pub pop_back-append : (xs : Text) (c : ℕ) → pop_back (xs ++ (c ∷ [])) ≡ xs
pop_back-append [] c = refl
pop_back-append (x ∷ []) c = refl
pop_back-append (x ∷ y ∷ ys) c = ap (◌∷◌ x) (pop_back-append (y ∷ ys) c)

pub back_slash : (s : Text) → is_slash (back s) ≡ true → (r : Text) × (s ≡ r ++ end_slash)
back_slash [] h = absurd (ground (arith, h))
back_slash (x ∷ []) h = let e : x ≡ slash = ground (arith, h) in ([], ap (λ z. z ∷ []) e)
back_slash (x ∷ y ∷ ys) h = let (r, e) = back_slash (y ∷ ys) h in (x ∷ r, ap (◌∷◌ x) e)

rfind_nothing : (n : Text) (i : ℕ) → NoSlash n → rfind_from end_slash n i ≡ none
rfind_nothing [] i h = refl
rfind_nothing (x ∷ n) i h =
    let miss : is_prefix end_slash (x ∷ n) ≡ false =
      ap (λ z. z && true) (ne→not_== slash x (λ e. h.0 (sym e))) in
    ap (λ o. or_else o (if is_prefix end_slash (x ∷ n) then some i else none))
      (rfind_nothing n (suc i) h.1)
    ∙ pick_false _ _ miss

rfind_last :
    (b n : Text) (i : ℕ)
    → NoSlash n
    → rfind_from end_slash (b ++ (slash ∷ n)) i ≡ some (i + length b)
rfind_last [] n i h =
    ap (λ o. or_else o (if is_prefix end_slash (slash ∷ n) then some i else none))
      (rfind_nothing n (suc i) h)
    ∙ ap some (omega arith)
rfind_last (x ∷ b) n i h =
    ap (λ o. or_else o (if is_prefix end_slash (x ∷ (b ++ (slash ∷ n))) then some i else none))
      (rfind_last b n (suc i) h)
    ∙ ap some (omega arith)

-- Past the last name of a path.
pub parent-append :
    (b n : Text) → NoSlash n → parent_dir (b ++ (slash ∷ (n ++ end_slash))) ≡ some (b ++ end_slash)
unfolding parent_dir
parent-append b n h =
    let whole : b ++ (slash ∷ (n ++ end_slash)) ≡ (b ++ (slash ∷ n)) ++ end_slash =
      sym (append_assoc b (slash ∷ n) end_slash) in
    ap (λ z. parent_from z (back z)) whole
    ∙ ap (parent_from ((b ++ (slash ∷ n)) ++ end_slash)) (back-append (b ++ (slash ∷ n)) slash)
    ∙ ap (λ z. some (parent_of z)) (pop_back-append (b ++ (slash ∷ n)) slash)
    ∙ ap (λ o. some (up_to (b ++ (slash ∷ n)) o)) (rfind_last b n 0 h)
    ∙ ap some (cut b)
  where
    cut : (b : Text) → take (0 + length b + 1) (b ++ (slash ∷ n)) ≡ b ++ end_slash
    cut b =
        let e : 0 + length b + 1 ≡ length b + 1 = omega arith in
        ap (λ k. take k (b ++ (slash ∷ n))) e ∙ take-append_add b (slash ∷ n) 1

-- A directory below one that ends in a slash ends in a slash.
pub below_slash :
    (r : Text) (names : List Text) → (b : Text) × (below (r ++ end_slash) names ≡ b ++ end_slash)
below_slash r [] = (r, refl)
below_slash r (name ∷ names) = (
  below (r ++ end_slash) names ++ name,
  sym (append_assoc (below (r ++ end_slash) names) name end_slash),
)

pub parent-below :
    (r : Text) (name : Text) (names : List Text)
    → NoSlash name
    → parent_dir (below (r ++ end_slash) (name ∷ names)) ≡ some (below (r ++ end_slash) names)
parent-below r name names h =
    let (b, e) = below_slash r names in
    ap (λ z. parent_dir (z ++ (name ++ end_slash))) e
    ∙ ap parent_dir (append_assoc b end_slash (name ++ end_slash))
    ∙ parent-append b name h
    ∙ ap some (sym e)
