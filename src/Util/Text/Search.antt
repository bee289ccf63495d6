-- ===== src/Util/Text/Search.antt =====
-- What `find` has to do with the pieces.
use zltool_kit.Kit.{
  ℕ, suc, ◌+◌, ◌≡◌, refl, sym, ap, ◌∙◌, true, false, [], ◌∷◌, ◌++◌, ◌⊎◌, append-nil, append_assoc,
  none, some, length, drop, inl, inr, Bool-cases, arith, pick_true, pick_false, length-append,
  drop-append_length, le→not_ltb,
}
use zltool_kit.Util.Text.{Text, is_prefix, find_from, find}
use zltool_kit.Util.Text.Pieces.{pieces_from, pieces, is_prefix-drop, pieces_skip}

module _ (p : ℕ) (ps : Text) where
  abbrev pat : Text
  pat = p ∷ ps

  -- The first place of the separator in the rest of a text, from position `i` on.
  abbrev pub IsAbsent : Text → ℕ → Type 0
  IsAbsent xs i =
      (find_from pat xs i ≡ none) × ((cur : Text) → pieces_from pat 0 cur xs ≡ (cur ++ xs) ∷ [])

  abbrev pub IsFound : Text → ℕ → Text → Text → Type 0
  IsFound xs i a b =
      (xs ≡ a ++ (pat ++ b))
      × (find_from pat xs i ≡ some (i + length a))
      × ((cur : Text) → pieces_from pat 0 cur xs ≡ (cur ++ a) ∷ pieces pat b)

  abbrev pub Search : Text → ℕ → Type 0
  Search xs i = IsAbsent xs i ⊎ ((a : Text) × ((b : Text) × IsFound xs i a b))

  here :
      (x : ℕ) (xs : Text) (i : ℕ) (b : Text)
      → is_prefix pat (x ∷ xs) ≡ true
      → x ∷ xs ≡ pat ++ b
      → IsFound (x ∷ xs) i [] b
  here x xs i b h e =
      let tail : xs ≡ ps ++ b = ap (drop 1) e in
      (
        e,
        pick_true _ _ h ∙ ap some (omega arith),
        λ cur.
            pick_true _ _ h
            ∙ ap (λ n. cur ∷ pieces_from pat n [] xs) (omega arith)
            ∙ ap (λ z. cur ∷ pieces_from pat (length ps) [] z) tail
            ∙ ap (◌∷◌ cur) (pieces_skip pat ps [] b)
            ∙ ap (λ z. z ∷ pieces pat b) (sym (append-nil cur)),
      )

  pass_by :
      (x : ℕ) (xs : Text) (i : ℕ)
      → is_prefix pat (x ∷ xs) ≡ false
      → Search xs (suc i)
      → Search (x ∷ xs) i
  pass_by x xs i h (inl (none_there, cut)) = inl (
    pick_false _ _ h ∙ none_there,
    λ cur.
        pick_false _ _ h ∙ cut (cur ++ (x ∷ [])) ∙ ap (λ z. z ∷ []) (append_assoc cur (x ∷ []) xs),
  )
  pass_by x xs i h (inr (a, (b, (e, found, cut)))) = inr (
    x ∷ a,
    (
      b,
      (
        ap (◌∷◌ x) e,
        pick_false _ _ h ∙ found ∙ ap some (omega arith),
        λ cur.
            pick_false _ _ h
            ∙ cut (cur ++ (x ∷ []))
            ∙ ap (λ z. z ∷ pieces pat b) (append_assoc cur (x ∷ []) a),
      ),
    ),
  )

  pub Search-from : (xs : Text) (i : ℕ) → Search xs i
  Search-from [] i = inl (refl, λ cur. ap (λ z. z ∷ []) (sym (append-nil cur)))
  Search-from (x ∷ xs) i = elim (Bool-cases (is_prefix pat (x ∷ xs))) [
    | inl h ↦ let (b, e) = is_prefix-drop pat (x ∷ xs) h in inr ([], (b, here x xs i b h e))
    | inr h ↦ pass_by x xs i h (Search-from xs (suc i))
  ]

pub find-append :
    (pre xs pat : Text) (i : ℕ) → length pre ≡ i → find (pre ++ xs) pat i ≡ find_from pat xs i
find-append pre xs pat i h =
    pick_false _ _ (le→not_ltb (length (pre ++ xs)) i (omega (arith, h, length-append pre xs)))
    ∙ ap (λ n. find_from pat (drop n (pre ++ xs)) i) (sym h)
    ∙ ap (λ z. find_from pat z i) (drop-append_length pre xs)
