-- ===== src/Util/Text/Split.antt =====
-- The function split: its loop over positions and the pieces of the text.
use zltool_kit.Kit.{
  ℕ, zero, suc, ◌+◌, ◌-◌, ◌≤◌, ◌<◌, ◌≡◌, refl, sym, ap, ◌∙◌, true, false, List, [], ◌∷◌, ◌++◌,
  append-nil, append_assoc, Option, none, some, ltb, if◌then◌else◌, length, take, drop, inl, inr,
  Bool-cases, arith, pick_true, pick_false, length-append, drop-append_length, take-append_length,
  le→not_ltb, lt→ltb,
}
use mathlib.Core.Path.{subst}
use zltool_kit.Util.Text.{
  Text, find_from, find, push_piece, with_piece, split_loop, push_rest, split,
}
use zltool_kit.Util.Text.Pieces.{pieces, keep, non_empty}
use zltool_kit.Util.Text.Search.{Search-from, find-append}

-- What `split` pushes behind its loop.
abbrev tail : Text → ℕ → List Text
tail s last = if ltb 0 (length s - last) then drop last s ∷ [] else []

tail-keep : (pre xs : Text) → tail (pre ++ xs) (length pre) ≡ keep xs []
tail-keep pre [] =
    let e : ltb 0 (length (pre ++ []) - length pre) ≡ false =
      le→not_ltb 0 (length (pre ++ []) - length pre) (omega (arith, length-append pre [])) in
    pick_false _ _ e
tail-keep pre (x ∷ xs) =
    let e : ltb 0 (length (pre ++ (x ∷ xs)) - length pre) ≡ true =
      lt→ltb 0 (length (pre ++ (x ∷ xs)) - length pre)
        (omega (arith, length-append pre (x ∷ xs))) in
    pick_true _ _ e ∙ ap (λ z. z ∷ []) (drop-append_length pre (x ∷ xs))

push_keep :
    (pre a c : Text) (rest : List Text)
    → push_piece (pre ++ (a ++ c)) (length pre) (length pre + length a) rest ≡ keep a rest
push_keep pre [] c rest = pick_false _ _ (le→not_ltb 0 (length pre + 0 - length pre) (omega arith))
push_keep pre (x ∷ a) c rest =
    let n : length pre + length (x ∷ a) - length pre ≡ length (x ∷ a) = omega arith in
    let e = lt→ltb 0 (length pre + length (x ∷ a) - length pre) (omega arith) in
    pick_true _ _ e
    ∙ ap (λ k. take k (drop (length pre) (pre ++ ((x ∷ a) ++ c))) ∷ rest) n
    ∙ ap (λ z. take (length (x ∷ a)) z ∷ rest) (drop-append_length pre ((x ∷ a) ++ c))
    ∙ ap (λ z. z ∷ rest) (take-append_length (x ∷ a) c)

abbrev IsSplit : Text → Option (List Text × ℕ) → List Text → Type 0
IsSplit s o ts =
    (ret : List Text) × ((last : ℕ) × ((o ≡ some (ret, last)) × (ret ++ tail s last ≡ ts)))

keep-append : (a : Text) (xs ys : List Text) → keep a xs ++ ys ≡ keep a (xs ++ ys)
keep-append [] xs ys = refl
keep-append (x ∷ a) xs ys = refl

module _ (p : ℕ) (ps : Text) where
  abbrev pat : Text
  pat = p ∷ ps

  IsSplit-found :
      (n : ℕ) (pre a b : Text) (s : Text)
      → s ≡ pre ++ (a ++ (pat ++ b))
      → IsSplit s
          (split_loop n s pat
            (length pre + length a + length pat)
            (find s pat (length pre + length a + length pat)))
          (non_empty (pieces pat b))
      → IsSplit s
          (split_loop (suc n) s pat (length pre) (some (length pre + length a)))
          (keep a (non_empty (pieces pat b)))
  unfolding split_loop
  IsSplit-found n pre a b s e (ret, (last, (done, shown))) = (
    push_piece s (length pre) (length pre + length a) ret,
    (
      last,
      (
        ap (with_piece s (length pre) (length pre + length a)) done,
        ap (λ z. push_piece z (length pre) (length pre + length a) ret ++ tail s last) e
            ∙ ap (λ z. z ++ tail s last) (push_keep pre a (pat ++ b) ret)
            ∙ keep-append a ret (tail s last)
            ∙ ap (keep a) shown,
      ),
    ),
  )

  -- The rounds from a position on cut the rest of the text.
  IsSplit-rounds :
      (fuel : ℕ) (pre xs s : Text)
      → s ≡ pre ++ xs
      → length xs < fuel
      → IsSplit s
          (split_loop fuel s pat (length pre) (find_from pat xs (length pre)))
          (non_empty (pieces pat xs))
  unfolding split_loop
  IsSplit-rounds zero pre xs s e h = absurd (omega (arith, h))
  IsSplit-rounds (suc n) pre xs s e h = elim (Search-from p ps xs (length pre)) [
    | inl (none_there, cut) ↦
        subst (λ o. IsSplit s (split_loop (suc n) s pat (length pre) o) (non_empty (pieces pat xs)))
          (sym none_there)
          (
            [],
            (
              length pre,
              (
                refl,
                ap (λ z. tail z (length pre)) e ∙ tail-keep pre xs ∙ ap non_empty (sym (cut [])),
              ),
            ),
          )
    | inr (a, (b, (where_, found, cut))) ↦
        let whole : s ≡ pre ++ (a ++ (pat ++ b)) = e ∙ ap (◌++◌ pre) where_ in
        let next = pre ++ (a ++ pat) in
        let again : s ≡ next ++ b =
          whole
          ∙ ap (◌++◌ pre) (sym (append_assoc a pat b))
          ∙ sym (append_assoc pre (a ++ pat) b) in
        let size : length next ≡ length pre + length a + length pat =
          omega (arith, length-append pre (a ++ pat), length-append a pat) in
        let less : length b < n =
          omega (arith, h, ap length where_, length-append a (pat ++ b), length-append pat b) in
        let ih = IsSplit-rounds n next b s again less in
        let at_next : find s pat (length next) ≡ find_from pat b (length next) =
          ap (λ z. find z pat (length next)) again ∙ find-append next b pat (length next) refl in
        let there =
          subst (λ k. IsSplit s (split_loop n s pat k (find s pat k)) (non_empty (pieces pat b)))
            size
            (subst (λ o. IsSplit s (split_loop n s pat (length next) o) (non_empty (pieces pat b)))
              (sym at_next) ih) in
        subst (λ o. IsSplit s (split_loop (suc n) s pat (length pre) o) (non_empty (pieces pat xs)))
          (sym found)
          (subst (IsSplit s (split_loop (suc n) s pat (length pre) (some (length pre + length a))))
            (ap non_empty (sym (cut []))) (IsSplit-found n pre a b s whole there))
  ]

-- The pieces that are not empty; of the empty text, the empty piece.
abbrev pub fields : (sep s : Text) → List Text
fields sep [] = [] ∷ []
fields sep (x ∷ xs) = non_empty (pieces sep (x ∷ xs))

push_tail :
    (x : ℕ) (xs : Text) (ret : List Text) (last : ℕ)
    → push_rest (x ∷ xs) (some (ret, last)) ≡ some (ret ++ tail (x ∷ xs) last)
push_tail x xs ret last = elim (Bool-cases (ltb 0 (length (x ∷ xs) - last))) [
  | inl more ↦ ap some (pick_true _ _ more ∙ ap (ret ++◌) (sym (pick_true _ _ more)))
  | inr done ↦
      ap some
        (pick_false _ _ done ∙ sym (append-nil ret) ∙ ap (ret ++◌) (sym (pick_false _ _ done)))
]

-- With a separator that is not empty, split returns, within as many rounds as the text has bytes and one more, the
-- non-empty pieces between the separators, taken from the left, in order; of the empty text
-- it returns one empty piece.
pub split_lem :
    (fuel : ℕ) (s : Text) (p : ℕ) (ps : Text)
    → length s < fuel
    → split fuel s (p ∷ ps) ≡ some (fields (p ∷ ps) s)
unfolding split split_loop
split_lem zero s p ps h = absurd (omega (arith, h))
split_lem (suc n) [] p ps h = refl
split_lem (suc n) (x ∷ xs) p ps h =
    let (ret, (last, (done, shown))) = IsSplit-rounds p ps (suc n) [] (x ∷ xs) (x ∷ xs) refl h in
    ap (push_rest (x ∷ xs)) (ap (split_loop (suc n) (x ∷ xs) (p ∷ ps) 0) at_start ∙ done)
    ∙ push_tail x xs ret last
    ∙ ap some shown
  where
    at_start : find (x ∷ xs) (p ∷ ps) 0 ≡ find_from (p ∷ ps) (x ∷ xs) 0
    at_start = find-append [] (x ∷ xs) (p ∷ ps) 0 refl

find_nothing : (s : Text) (i : ℕ) → i ≤ length s → find s [] i ≡ some i
find_nothing s i h = pick_false _ _ (le→not_ltb (length s) i h) ∙ at_once (drop i s) i
  where
    at_once : (xs : Text) (i : ℕ) → find_from [] xs i ≡ some i
    at_once [] i = refl
    at_once (x ∷ xs) i = refl

split_same : (fuel : ℕ) (s : Text) (i : ℕ) → i ≤ length s → split_loop fuel s [] i (some i) ≡ none
unfolding split_loop
split_same zero s i h = refl
split_same (suc n) s i h =
    let same : i + 0 ≡ i = omega arith in
    ap (with_piece s i i) (
      ap (λ k. split_loop n s [] k (find s [] k)) same
      ∙ ap (split_loop n s [] i) (find_nothing s i h)
      ∙ split_same n s i h)

-- With an empty separator the loop of split never ends, on any text.
pub split_stuck : (fuel : ℕ) (s : Text) → split fuel s [] ≡ none
unfolding split
split_stuck fuel s = ap (push_rest s) (
    ap (split_loop fuel s [] 0) (find_nothing s 0 (omega arith))
    ∙ split_same fuel s 0 (omega arith))
