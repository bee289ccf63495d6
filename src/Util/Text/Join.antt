-- ===== src/Util/Text/Join.antt =====
-- Joining texts by a separator and cutting them again.
use zltool_kit.Kit.{
  ℕ, zero, suc, ◌-◌, ◌<◌, ◌≡◌, ◌≢◌, refl, sym, ap, ◌∙◌, true, false, ◌&&◌, List, [], ◌∷◌, ◌++◌,
  append-nil, append_assoc, some, length, All, inl, inr, ==_self, ne→not_==, arith, pick_true,
  pick_false, length-append,
}
use zltool_kit.Util.Text.{Text, is_prefix, split}
use zltool_kit.Util.Text.Pieces.{pieces_from, pieces, join, non_empty}
use zltool_kit.Util.Text.Search.{Search-from}
use zltool_kit.Util.Text.Split.{fields, split_lem}

module _ (p : ℕ) (ps : Text) where
  abbrev pat : Text
  pat = p ∷ ps

  pub join_next :
      (by t xs : Text) → join by (t ∷ pieces pat xs) ≡ t ++ (by ++ join by (pieces pat xs))
  join_next by t xs = elim (Search-from p ps xs 0) [
    | inl (none_there, cut) ↦
        ap (λ z. join by (t ∷ z)) (cut []) ∙ ap (λ z. t ++ (by ++ join by z)) (sym (cut []))
    | inr (a, (b, (e, found, cut))) ↦
        ap (λ z. join by (t ∷ z)) (cut []) ∙ ap (λ z. t ++ (by ++ join by z)) (sym (cut []))
  ]

  join_rounds : (n : ℕ) (xs : Text) → length xs < n → join pat (pieces pat xs) ≡ xs
  join_rounds zero xs h = absurd (omega (arith, h))
  join_rounds (suc n) xs h = elim (Search-from p ps xs 0) [
    | inl (none_there, cut) ↦ ap (join pat) (cut [])
    | inr (a, (b, (e, found, cut))) ↦
        let less : length b < n =
          omega (arith, h, ap length e, length-append a (pat ++ b), length-append pat b) in
        ap (join pat) (cut [])
        ∙ join_next pat a b
        ∙ ap (λ z. a ++ (pat ++ z)) (join_rounds n b less)
        ∙ sym e
  ]

  pub join-pieces : (xs : Text) → join pat (pieces pat xs) ≡ xs
  join-pieces xs = join_rounds (suc (length xs)) xs (omega arith)

-- A field: not empty, and without the separator.
abbrev pub IsField : ℕ → Text → Type 0
IsField d t = (t ≢ []) × All (λ x. x ≢ d) t

module _ (d : ℕ) where
  abbrev sep : Text
  sep = d ∷ []

  -- Past the bytes that are not the separator.
  pieces_pass :
      (t rest cur : Text)
      → All (λ x. x ≢ d) t
      → pieces_from sep 0 cur (t ++ rest) ≡ pieces_from sep 0 (cur ++ t) rest
  pieces_pass [] rest cur h = ap (λ z. pieces_from sep 0 z rest) (sym (append-nil cur))
  pieces_pass (x ∷ t) rest cur h =
      let e : is_prefix sep (x ∷ (t ++ rest)) ≡ false =
        ap (λ z. z && true) (ne→not_== d x (λ k. h.0 (sym k))) in
      pick_false _ _ e
      ∙ pieces_pass t rest (cur ++ (x ∷ [])) h.1
      ∙ ap (λ z. pieces_from sep 0 z rest) (append_assoc cur (x ∷ []) t)

  pieces-sep : (cur rest : Text) → pieces_from sep 0 cur (d ∷ rest) ≡ cur ∷ pieces sep rest
  pieces-sep cur rest =
      let e : is_prefix sep (d ∷ rest) ≡ true = ap (λ z. z && true) (==_self d) in
      let n : length sep - 1 ≡ 0 = omega arith in
      pick_true _ _ e ∙ ap (λ k. cur ∷ pieces_from sep k [] rest) n

  pieces-join :
      (t : Text) (ts : List Text)
      → All (IsField d) (t ∷ ts)
      → pieces sep (join sep (t ∷ ts)) ≡ t ∷ ts
  pieces-join t [] h = ap (pieces sep) (sym (append-nil t)) ∙ pieces_pass t [] [] h.0.1
  pieces-join t (u ∷ ts) h =
      pieces_pass t (d ∷ join sep (u ∷ ts)) [] h.0.1
      ∙ pieces-sep t (join sep (u ∷ ts))
      ∙ ap (◌∷◌ t) (pieces-join u ts h.1)

  fields_kept : (ts : List Text) → All (IsField d) ts → non_empty ts ≡ ts
  fields_kept [] h = refl
  fields_kept ([] ∷ ts) h = absurd (h.0.0 refl)
  fields_kept ((x ∷ t) ∷ ts) h = ap ((x ∷ t) ∷◌) (fields_kept ts h.1)

  fields-pieces : (xs : Text) → xs ≢ [] → fields sep xs ≡ non_empty (pieces sep xs)
  fields-pieces [] h = absurd (h refl)
  fields-pieces (x ∷ xs) h = refl

  joined_some : (t : Text) (ts : List Text) → t ≢ [] → join sep (t ∷ ts) ≢ []
  joined_some [] ts h = absurd (h refl)
  joined_some (x ∷ t) [] h = λ e. ground (arith, e)
  joined_some (x ∷ t) (u ∷ ts) h = λ e. ground (arith, e)

-- Fields that are not empty and do not hold the separator byte, joined by it, are split into the same
-- fields again.
pub split-join :
    (fuel d : ℕ) (t : Text) (ts : List Text)
    → All (IsField d) (t ∷ ts)
    → length (join (d ∷ []) (t ∷ ts)) < fuel
    → split fuel (join (d ∷ []) (t ∷ ts)) (d ∷ []) ≡ some (t ∷ ts)
split-join fuel d t ts h enough =
    split_lem fuel (join (d ∷ []) (t ∷ ts)) d [] enough
    ∙ ap some (
        fields-pieces d (join (d ∷ []) (t ∷ ts)) (joined_some d t ts h.0.0)
        ∙ ap non_empty (pieces-join d t ts h)
        ∙ fields_kept d (t ∷ ts) h)
