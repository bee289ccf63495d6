-- ===== src/Util/Text/Replace.antt =====
-- The function replace: each match is searched behind the text put in for the one before.
use zltool_kit.Kit.{
  ℕ, zero, suc, ◌+◌, ◌<◌, ◌≡◌, refl, sym, ap, ◌∙◌, false, [], ◌∷◌, ◌++◌, append_assoc, some, length,
  take, drop, inl, inr, arith, pick_false, length-append, drop-append_length, take-append_length,
}
use zltool_kit.Util.Text.{Text, is_same, find_from, find, replace_loop, replace}
use zltool_kit.Util.Text.Pieces.{pieces, join}
use zltool_kit.Util.Text.Search.{Search-from, find-append}
use zltool_kit.Util.Text.Join.{join_next}

-- What one replacement makes of the text.
replaced :
    (pre a old b new : Text) (s : Text)
    → s ≡ pre ++ (a ++ (old ++ b))
    → take (length pre + length a) s ++ (new ++ drop (length pre + length a + length old) s)
      ≡ ((pre ++ a) ++ new) ++ b
replaced pre a old b new s e =
    let front : s ≡ (pre ++ a) ++ (old ++ b) = e ∙ sym (append_assoc pre a (old ++ b)) in
    let whole : s ≡ ((pre ++ a) ++ old) ++ b = front ∙ sym (append_assoc (pre ++ a) old b) in
    let n : length pre + length a ≡ length (pre ++ a) = omega (arith, length-append pre a) in
    let m : length pre + length a + length old ≡ length ((pre ++ a) ++ old) =
      omega (arith, length-append pre a, length-append (pre ++ a) old) in
    let taken : take (length pre + length a) s ≡ pre ++ a =
      ap (λ k. take k s) n
      ∙ ap (take (length (pre ++ a))) front
      ∙ take-append_length (pre ++ a) (old ++ b) in
    let dropped : drop (length pre + length a + length old) s ≡ b =
      ap (λ k. drop k s) m
      ∙ ap (drop (length ((pre ++ a) ++ old))) whole
      ∙ drop-append_length ((pre ++ a) ++ old) b in
    ap (λ z. z ++ (new ++ drop (length pre + length a + length old) s)) taken
    ∙ ap (λ z. (pre ++ a) ++ (new ++ z)) dropped
    ∙ sym (append_assoc (pre ++ a) new b)

module _ (p : ℕ) (ps new : Text) where
  abbrev old : Text
  old = p ∷ ps

  replace_rounds :
      (fuel : ℕ) (pre xs s : Text)
      → s ≡ pre ++ xs
      → length xs < fuel
      → replace_loop fuel old new s (find_from old xs (length pre))
        ≡ some (pre ++ join new (pieces old xs))
  unfolding replace_loop
  replace_rounds zero pre xs s e h = absurd (omega (arith, h))
  replace_rounds (suc n) pre xs s e h = elim (Search-from p ps xs (length pre)) [
    | inl (none_there, cut) ↦
        ap (replace_loop (suc n) old new s) none_there
        ∙ ap some (e ∙ ap (λ z. pre ++ join new z) (sym (cut [])))
    | inr (a, (b, (found_at, found, cut))) ↦
        let done = replaced pre a old b new s (e ∙ ap (◌++◌ pre) found_at) in
        let front = (pre ++ a) ++ new in
        let size : length pre + length a + length new ≡ length front =
          omega (arith, length-append pre a, length-append (pre ++ a) new) in
        let less : length b < n =
          omega (arith, h, ap length found_at, length-append a (old ++ b), length-append old b) in
        ap (replace_loop (suc n) old new s) found
        ∙ ap (λ z. replace_loop n old new z (find z old (length pre + length a + length new))) done
        ∙ ap (λ k. replace_loop n old new (front ++ b) (find (front ++ b) old k)) size
        ∙ ap (replace_loop n old new (front ++ b)) (find-append front b old (length front) refl)
        ∙ replace_rounds n front b (front ++ b) refl less
        ∙ ap some (
            append_assoc (pre ++ a) new (join new (pieces old b))
            ∙ append_assoc pre a (new ++ join new (pieces old b))
            ∙ ap (◌++◌ pre) (sym (join_next p ps new a b))
            ∙ ap (λ z. pre ++ join new z) (sym (cut [])))
  ]

-- With an old text that is not empty and not the new one, replace returns, within as many rounds as bytes
-- follow the start and one more, with every match found from the left behind the start replaced by the new text,
-- the texts put in not searched again, and what stands before the start unchanged.
pub replace_lem :
    (fuel : ℕ) (pre xs : Text) (p : ℕ) (ps new : Text)
    → is_same (p ∷ ps) new ≡ false
    → length xs < fuel
    → replace fuel (pre ++ xs) (p ∷ ps) new (length pre)
      ≡ some (pre ++ join new (pieces (p ∷ ps) xs))
unfolding replace
replace_lem fuel pre xs p ps new other h =
    pick_false _ _ other
    ∙ ap (replace_loop fuel (p ∷ ps) new (pre ++ xs))
        (find-append pre xs (p ∷ ps) (length pre) refl)
    ∙ replace_rounds p ps new fuel pre xs (pre ++ xs) refl h
