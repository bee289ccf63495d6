-- ===== src/Buffer/Like/History.antt =====
-- Whole histories of calls of a `BufferLikeString`, its readers, and `resize`.
use zltool_kit.Kit.{
  ℕ, zero, suc, ◌+◌, ◌-◌, ◌≤◌, ◌<◌, ◌^◌, ◌≡◌, inl, inr, refl, sym, ap, ◌∙◌, true, false, List, [],
  ◌∷◌, ◌++◌, Option, none, some, ltb, leb, ◌==◌, if◌then◌else◌, length, take, drop, replicate,
  get_elem?, arith, append-nil, length-append, length-take, length-drop, length-replicate,
  take-append-drop, take-append_le, take-append_add, take-append_length, drop-append_length,
  take_all, append_assoc, drop-append_add, Bool-cases,
}
use native.Mathlib.Nat.{zero-add, suc-add}
use zltool_kit.Kit.Words.{u64, sub64}
use zltool_kit.Buffer.Laws.{drop-append_le}
use zltool_kit.Buffer.Like.{
  LikeString, npos, from_string, size, contents, at, substr, fill, filled, string_resize, grow,
  shrink, resize,
}
use zltool_kit.Buffer.Like.View.{of_parts, IsSmall, parts_eq, size-of_parts, contents-of_parts}
use zltool_kit.Buffer.Like.Refine.{Call, run, expected, brings, Fits, Refines, run-Refines}

-- An exception ends the history.
abbrev pub run_all : List Call → LikeString → Option LikeString
run_all [] b = some b
run_all (c ∷ cs) b = elim (run c b) [ none ↦ none | some b' ↦ run_all cs b' ]

abbrev pub expected_all : List Call → List ℕ → Option (List ℕ)
expected_all [] m = some m
expected_all (c ∷ cs) m = elim (expected c m) [ none ↦ none | some m' ↦ expected_all cs m' ]

abbrev pub brings_all : List Call → ℕ
brings_all [] = 0
brings_all (c ∷ cs) = brings c + brings_all cs

abbrev pub OnSome : (List ℕ → Type 0) → Option (List ℕ) → Type 0
OnSome P none = Unit
OnSome P (some m) = P m

-- Every call that is reached fits.
abbrev pub AllFit : List Call → List ℕ → Type 0
AllFit [] m = Unit
AllFit (c ∷ cs) m = Fits c m × OnSome (AllFit cs) (expected c m)

abbrev pub shown : Option LikeString → Option (List ℕ)
shown none = none
shown (some b) = some (contents b)

abbrev run_on : List Call → Option LikeString → Option LikeString
run_on cs r = elim r [ none ↦ none | some b ↦ run_all cs b ]

abbrev expected_on : List Call → Option (List ℕ) → Option (List ℕ)
expected_on cs x = elim x [ none ↦ none | some m ↦ expected_all cs m ]

run_all_lem :
    (cs : List Call) (f m k : List ℕ)
    → length f + length m + length k + brings_all cs + 1 < 2 ^ 64
    → AllFit cs m
    → shown (run_all cs (of_parts f m k)) ≡ expected_all cs m
run_all_lem [] f m k h w = ap some (contents-of_parts f m k (omega arith))
run_all_lem (c ∷ cs) f m k h w =
    after (length f + length m + length k + brings c) (run c (of_parts f m k)) (expected c m)
      (omega arith) (run-Refines c f m k (omega arith) w.0) w.1 (run_all_lem cs)
  where
    after :
        (total : ℕ) (r : Option LikeString) (x : Option (List ℕ))
        → total + brings_all cs + 1 < 2 ^ 64
        → Refines total r x
        → OnSome (AllFit cs) x
        → ((f m k : List ℕ)
            → length f + length m + length k + brings_all cs + 1 < 2 ^ 64
            → AllFit cs m
            → shown (run_all cs (of_parts f m k)) ≡ expected_all cs m)
        → shown (run_on cs r) ≡ expected_on cs x
    after total r none b e w ih = rw e refl
    after total r (some m') b (f', k', e, l) w ih = rw e (ih f' m' k' (omega arith) w)

-- Any history of calls of `erase`, `append`, `push_back`, `insert`, `assign` and `clear`, so without `resize`, on a
-- buffer that was made from a string shows, at its end, the bytes that the same calls give on the string
-- itself, or fails where they do. The bytes fit in memory; no sum of the arguments of `erase` wraps, and `insert`
-- stays within the bytes shown.
pub run_all-from_string :
    (cs : List Call) (s : List ℕ)
    → length s + brings_all cs + 1 < 2 ^ 64
    → AllFit cs s
    → shown (run_all cs (from_string s)) ≡ expected_all cs s
unfolding from_string
run_all-from_string cs s h w =
    ap (λ b. shown (run_all cs b)) {y = of_parts [] s []} (parts_eq (sym (append-nil s)) refl refl)
    ∙ run_all_lem cs [] s [] (omega arith) w

get_elem?-append_add {ℓ} :
    {A : Type ℓ} (xs ys : List A) (i : ℕ) → get_elem? (xs ++ ys) (length xs + i) ≡ get_elem? ys i
get_elem?-append_add [] ys i = rw zero-add refl
get_elem?-append_add (x ∷ xs) ys i = rw suc-add (get_elem?-append_add xs ys i)

get_elem?-append_le {ℓ} :
    {A : Type ℓ} (xs ys : List A) (i : ℕ) → i < length xs → get_elem? (xs ++ ys) i ≡ get_elem? xs i
get_elem?-append_le [] ys i h = absurd (omega arith)
get_elem?-append_le (x ∷ xs) ys zero h = refl
get_elem?-append_le (x ∷ xs) ys (suc i) h = get_elem?-append_le xs ys i (omega arith)

get_elem?-beyond {ℓ} : {A : Type ℓ} (xs : List A) (i : ℕ) → length xs ≤ i → get_elem? xs i ≡ none
get_elem?-beyond [] i h = refl
get_elem?-beyond (x ∷ xs) zero h = absurd (omega arith)
get_elem?-beyond (x ∷ xs) (suc i) h = get_elem?-beyond xs i (omega arith)

piece_of_view :
    (pos n : ℕ) (f m k : List ℕ)
    → pos + n ≤ length m
    → take n (drop (length f + pos) (f ++ (m ++ k))) ≡ take n (drop pos m)
piece_of_view pos n f m k h =
    rw (drop-append_add f (m ++ k) pos, drop-append_le pos m k (omega arith))
      (take-append_le n (drop pos m) k (omega (arith, length-drop pos m)))

-- The readers see the visible bytes only: an index past them, and a piece that is not within them,
-- is refused, and what is read is what a string of those bytes gives.
pub read_lem :
    (pos n : ℕ) (f m k : List ℕ)
    → IsSmall f m k
    → pos + n < 2 ^ 64 - 1
    → (at pos (of_parts f m k) ≡ get_elem? m pos)
      × (substr pos n (of_parts f m k)
          ≡ (if leb (pos + n) (length m) then some (take n (drop pos m)) else none))
      × (substr pos npos (of_parts f m k)
          ≡ (if ltb pos (length m) then some (drop pos m) else none))
unfolding at substr
read_lem pos n f m k h w =
    let sized = size-of_parts f m k h in
    let bounded : (n == npos) ≡ false = ground arith in
    let sum : u64 (pos + n) ≡ pos + n = omega arith in
    (
      elim (Bool-cases (leb (length m) pos)) [
        | inl out ↦ rw (sized, out, get_elem?-beyond m pos (ground arith)) refl
        | inr within ↦
            rw (sized, within)
              (get_elem?-append_add f (m ++ k) pos ∙ get_elem?-append_le m k pos (ground arith))
      ],
      elim (Bool-cases (leb (pos + n) (length m))) [
        | inl within ↦
            let out : ltb (length m) (pos + n) ≡ false = ground arith in
            rw (bounded, sized, sum, out, within)
              (ap some (piece_of_view pos n f m k (ground arith)))
        | inr beyond ↦
            let out : ltb (length m) (pos + n) ≡ true = ground arith in
            rw (bounded, sized, sum, out, beyond) refl
      ],
      elim (Bool-cases (ltb pos (length m))) [
        | inl within ↦
            let out : leb (length m) pos ≡ false = ground arith in
            let left : sub64 (length m) pos ≡ length m - pos = ground arith in
            rw (sized, out, within, left)
              (ap some (
                piece_of_view pos (length m - pos) f m k (ground arith)
                ∙ take_all (length m - pos) (drop pos m) (omega (arith, length-drop pos m))))
        | inr beyond ↦
            let out : leb (length m) pos ≡ true = ground arith in rw (sized, out, beyond) refl
      ],
    )

fill_view :
    (n c : ℕ) (f a b k : List ℕ)
    → length b ≡ n
    → fill (length f + length a) c n (f ++ (a ++ (b ++ k)))
      ≡ some (f ++ (a ++ (replicate n c ++ k)))
fill_view zero c f a [] k e = refl
fill_view zero c f a (x ∷ b) k e = absurd (omega arith)
fill_view (suc n) c f a b k e =
    let written : (suc n == 0) ≡ false = ground arith in
    let inside : ltb (length (f ++ (a ++ (b ++ k)))) (length f + length a + suc n) ≡ false =
      ground
        (arith, length-append f (a ++ (b ++ k)), length-append a (b ++ k), length-append b k) in
    let before : take (length f + length a) (f ++ (a ++ (b ++ k))) ≡ f ++ a =
      take-append_add f (a ++ (b ++ k)) (length a) ∙ ap (◌++◌ f) (take-append_length a (b ++ k)) in
    let behind : drop (length f + length a + suc n) (f ++ (a ++ (b ++ k))) ≡ k =
      ap (λ i. drop i (f ++ (a ++ (b ++ k)))) {y = length f + (length a + length b)}
        (omega (arith, e))
      ∙ drop-append_add f (a ++ (b ++ k)) (length a + length b)
      ∙ drop-append_add a (b ++ k) (length b)
      ∙ drop-append_length b k in
    rw (written, inside, before, behind) (simp append_assoc)

shown-of_parts :
    (s : List ℕ) (h t : ℕ) (f m k : List ℕ)
    → s ≡ f ++ (m ++ k)
    → h ≡ length f
    → t ≡ length k
    → IsSmall f m k
    → shown (filled (record { str = []; erase_head = h; erase_tail = t }) (some s)) ≡ some m
shown-of_parts s h t f m k e p q w =
    ap (λ b. some (contents b)) (parts_eq e p q) ∙ ap some (contents-of_parts f m k w)

grow_within :
    (a c : ℕ) (f m k : List ℕ)
    → IsSmall f m k
    → a ≤ length k
    → shown (grow a c (of_parts f m k)) ≡ some (m ++ replicate a c)
unfolding grow
grow_within a c f m k h w =
    let room : ltb (length k) a ≡ false = ground arith in
    let wide : length (take a k) ≡ a = omega (arith, length-take a k) in
    let filling : fill (length f + length m) c a (f ++ (m ++ k))
        ≡ some (f ++ (m ++ (replicate a c ++ drop a k))) =
      ap (λ x. fill (length f + length m) c a (f ++ (m ++ x))) (sym (take-append-drop a k))
      ∙ fill_view a c f m (take a k) (drop a k) wide in
    rw (room, size-of_parts f m k h, filling)
      (shown-of_parts (f ++ (m ++ (replicate a c ++ drop a k))) (length f) (length k - a) f
        (m ++ replicate a c) (drop a k) (simp append_assoc) refl (omega (arith, length-drop a k))
        (omega (arith, h, length-append m (replicate a c), length-replicate a c, length-drop a k)))

shrink_within :
    (n c : ℕ) (f m k : List ℕ)
    → IsSmall f m k
    → n < length m
    → shown (shrink n c (of_parts f m k)) ≡ some (take n m)
unfolding shrink
shrink_within n c f m k h w =
    let a = take n m in
    let b = drop n m in
    let sized : length a ≡ n = omega (arith, length-take n m) in
    let left : sub64 (length m) n ≡ length b = omega (arith, length-drop n m) in
    let filling : fill (length f + n) c (length b) (f ++ (m ++ k))
        ≡ some (f ++ (a ++ (replicate (length b) c ++ k))) =
      ap (λ x. fill (length f + n) c (length b) (f ++ x)) {y = a ++ (b ++ k)}
        (ap (λ x. x ++ k) (sym (take-append-drop n m)) ∙ append_assoc a b k)
      ∙ ap (λ i. fill (length f + i) c (length b) (f ++ (a ++ (b ++ k)))) (sym sized)
      ∙ fill_view (length b) c f a b k refl in
    rw (size-of_parts f m k h, left, filling)
      (shown-of_parts (f ++ (a ++ (replicate (length b) c ++ k))) (length f)
        (u64 (length k + length b)) f a (replicate (length b) c ++ k) refl refl
        (omega (
          arith,
          h,
          length-append (replicate (length b) c) k,
          length-replicate (length b) c,
          length-drop n m,
        ))
        (omega (
          arith,
          h,
          length-append (replicate (length b) c) k,
          length-replicate (length b) c,
          length-drop n m,
          length-take n m,
        )))

-- `resize` to no more than the visible bytes and those hidden behind them: it cuts the bytes, or adds
-- `c` as often as needed.
pub resize-of_parts :
    (n c : ℕ) (f m k : List ℕ)
    → IsSmall f m k
    → n ≤ length m + length k
    → shown (resize n c (of_parts f m k)) ≡ some (take n m ++ replicate (n - length m) c)
unfolding resize
resize-of_parts n c f m k h w = elim (Bool-cases (n == length m)) [
  | inl same ↦
      let e : n ≡ length m = ground arith in
      let nothing : n - length m ≡ 0 = omega arith in
      rw (size-of_parts f m k h, same, nothing, take_all n m (omega (arith, e)), append-nil m)
        (ap some (contents-of_parts f m k h))
  | inr other ↦ elim (Bool-cases (ltb (length m) n)) [
    | inl more ↦
        let above : length m < n = ground arith in
        let added : sub64 n (length m) ≡ n - length m = omega (arith, h) in
        rw (size-of_parts f m k h, other, more, added, take_all n m (omega arith))
          (grow_within (n - length m) c f m k h (omega (arith, w)))
    | inr less ↦
        let below : n < length m = ground arith in
        let nothing : n - length m ≡ 0 = omega arith in
        rw (size-of_parts f m k h, other, less, nothing, append-nil (take n m))
          (shrink_within n c f m k h below)
  ]
]

-- With no byte hidden it does not grow to `n`: the string is resized to the difference alone, so what
-- is shown then are that many bytes, and the string's own bytes past them are lost.
pub resize-from_string :
    (n c : ℕ) (s : List ℕ)
    → length s < n
    → n + 1 < 2 ^ 64
    → shown (resize n c (from_string s)) ≡ some (string_resize (n - length s) c s)
unfolding resize grow from_string
resize-from_string n c s h w =
    let whole : size (from_string s) ≡ length s = omega arith in
    let other : (n == length s) ≡ false = ground arith in
    let more : ltb (length s) n ≡ true = ground arith in
    let added : sub64 n (length s) ≡ n - length s = omega arith in
    let beyond : ltb 0 (n - length s) ≡ true = ground arith in
    let t = string_resize (n - length s) c s in
    let rest : n - length s - 0 ≡ n - length s = omega arith in
    rw (whole, other, more, added, beyond, rest)
      (shown-of_parts t 0 0 [] t [] (sym (append-nil t)) refl refl (
        omega (
          arith,
          length-append (take (n - length s) s) (replicate (n - length s - length s) c),
          length-take (n - length s) s,
          length-replicate (n - length s - length s) c,
        )))
