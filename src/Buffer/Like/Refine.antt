-- ===== src/Buffer/Like/Refine.antt =====
-- `BufferLikeString` against plain strings: the operations on its visible bytes.
use zltool_kit.Kit.{
  ℕ, zero, suc, ◌+◌, ◌/◌, ◌≤◌, ◌<◌, ◌^◌, ◌≡◌, ◌≢◌, ◌⊎◌, inl, inr, refl, sym, ap, ◌∙◌, Bool, true,
  false, ◌||◌, List, [], ◌∷◌, ◌++◌, Option, none, some, ltb, leb, ◌==◌, if◌then◌else◌, length, take,
  drop, arith, append-nil, length-append, length-take, length-drop, take-append-drop, drop-drop,
  Bool-cases,
}
use native.Mathlib.Nat.{zero-add, add-zero}
use zltool_kit.Kit.Words.{u64}
use zltool_kit.Buffer.Laws.{drop_all}
use zltool_kit.Buffer.Like.{
  LikeString, npos, from_string, size, erase, erase_front, erase_back, erase_middle, append,
  push_back, insert, outside, assign, clear,
}
use zltool_kit.Buffer.Like.View.{
  of_parts, IsSmall, mark, parts_eq, size-of_parts, erase_front-of_parts, erase_front_too_much,
  erase_front_all, erase_back-of_parts, erase_back_outside, erase_middle-of_parts,
  move_data-of_parts, append_behind, push_back-of_parts, insert-of_parts,
}

-- The calls that change a buffer.
pub data Call : Type 0 where
  erase_call : ℕ → ℕ → Call
  append_call : ℕ → List ℕ → Call
  push_call : ℕ → Call
  insert_call : ℕ → List ℕ → Call
  assign_call : List ℕ → Call
  clear_call : Call

abbrev pub run : Call → LikeString → Option LikeString
run (erase_call pos n) b = erase pos n b
run (append_call capacity d) b = some (append capacity d b)
run (push_call c) b = some (push_back c b)
run (insert_call pos d) b = insert pos d b
run (assign_call d) b = assign (outside d) b
run clear_call b = some (clear b)

-- Whether `erase` accepts its arguments on a string of `size` bytes.
abbrev pub accepts_erase : ℕ → ℕ → ℕ → Bool
accepts_erase pos n size = if pos == 0 then (n == npos) || leb n size else ltb pos size

-- The same calls on the visible bytes.
abbrev pub expected : Call → List ℕ → Option (List ℕ)
expected (erase_call pos n) m =
    if accepts_erase pos n (length m) then some (take pos m ++ drop (pos + n) m) else none
expected (append_call capacity d) m = some (m ++ d)
expected (push_call c) m = some (m ++ c ∷ [])
expected (insert_call pos d) m = some (take pos m ++ (d ++ drop pos m))
expected (assign_call d) m = if length d == 0 then some m else some d
expected clear_call m = some []

-- The bytes that a call brings.
abbrev pub brings : Call → ℕ
brings (append_call capacity d) = length d
brings (push_call c) = 1
brings (insert_call pos d) = length d
brings (assign_call d) = length d
brings c = 0

-- The sum of `erase`'s arguments does not wrap, and `insert` is at a visible position.
abbrev pub Fits : Call → List ℕ → Type 0
Fits (erase_call pos n) m = (n ≡ npos) ⊎ (pos + n < 2 ^ 64)
Fits (insert_call pos d) m = pos ≤ length m
Fits c m = Unit

-- The buffer fails where the string does, and else shows the string's bytes, within the memory.
abbrev pub Refines : ℕ → Option LikeString → Option (List ℕ) → Type 0
Refines total r none = r ≡ none
Refines total r (some m) =
    (f : List ℕ) × (k : List ℕ) × (r ≡ some (of_parts f m k))
    × (length f + length m + length k ≤ total)

append-Refines :
    (capacity : ℕ) (d f m k : List ℕ)
    → IsSmall f m k
    → (f' : List ℕ) × (append capacity d (of_parts f m k) ≡ of_parts f' (m ++ d) k)
      × (length f' ≤ length f)
unfolding append
append-Refines capacity [] f m k h = (f, parts_eq (simp append-nil) refl refl, omega arith)
append-Refines capacity (x ∷ d) f m k h =
    let some_bytes : (length (x ∷ d) == 0) ≡ false = ground arith in
    elim (Bool-cases (ltb (capacity / 2) (length f))) [
      | inl far ↦ (
        [],
        rw (some_bytes, far, move_data-of_parts f m k) (append_behind [] m (x ∷ d) k (omega arith)),
        omega arith,
      )
      | inr near ↦ (f, rw (some_bytes, near) (append_behind f m (x ∷ d) k h), omega arith)
    ]

cut_length : (n : ℕ) (m : List ℕ) → n ≤ length m → length (take n m) ≡ n
cut_length n m h = omega (arith, length-take n m)

erase_front_part :
    (n : ℕ) (f m k : List ℕ)
    → IsSmall f m k
    → n ≤ length m
    → erase_front n (of_parts f m k) ≡ some (of_parts (f ++ take n m) (drop n m) (mark 0 k))
erase_front_part n f m k h w =
    let whole = take-append-drop n m in
    ap (λ i. erase_front i (of_parts f m k)) (sym (cut_length n m w))
    ∙ ap (λ x. erase_front (length (take n m)) (of_parts f x k)) (sym whole)
    ∙ erase_front-of_parts f (take n m) (drop n m) k (omega (arith, h, ap length whole))

length-mark : (c : ℕ) (k : List ℕ) → length (mark c k) ≡ length k
length-mark c [] = refl
length-mark c (x ∷ k) = refl

erase_front-Refines :
    (n : ℕ) (f m k : List ℕ)
    → IsSmall f m k
    → Refines
        (length f + length m + length k)
        (erase_front n (of_parts f m k))
        (if (n == npos) || leb n (length m) then some (drop n m) else none)
erase_front-Refines n f m k h = elim (Bool-cases (n == npos)) [
  | inl all ↦
      let e : n ≡ npos = ground arith in
      rw (all, e, drop_all npos m (omega (arith, h)))
        (
          [],
          mark 0 (f ++ (m ++ k)),
          erase_front_all f m k h,
          omega (arith, length-mark 0 (f ++ (m ++ k)), length-append f (m ++ k), length-append m k),
        )
  | inr part ↦ elim (Bool-cases (leb n (length m))) [
    | inl within ↦
        rw (part, within)
          (
            f ++ take n m,
            mark 0 k,
            erase_front_part n f m k h (ground arith),
            omega (
              arith,
              length-mark 0 k,
              length-append f (take n m),
              length-take n m,
              length-drop n m,
            ),
          )
    | inr beyond ↦
        let far : length m < n = ground arith in
        let limited : n ≢ npos = ground arith in
        rw (part, beyond) (erase_front_too_much n f m k h far limited)
  ]
]

erase_back_part :
    (pos : ℕ) (f m k : List ℕ)
    → IsSmall f m k
    → pos < length m
    → erase_back pos (of_parts f m k) ≡ some (of_parts f (take pos m) (mark 0 (drop pos m ++ k)))
erase_back_part pos f m k h w =
    let whole = take-append-drop pos m in
    ap (λ i. erase_back i (of_parts f m k)) (sym (cut_length pos m (omega arith)))
    ∙ ap (λ x. erase_back (length (take pos m)) (of_parts f x k)) (sym whole)
    ∙ erase_back-of_parts f (take pos m) (drop pos m) k (omega (arith, h, ap length whole))
        (omega (arith, length-drop pos m))

erase_middle_part :
    (pos n : ℕ) (f m k : List ℕ)
    → IsSmall f m k
    → pos + n < length m
    → erase_middle pos n (of_parts f m k) ≡ some (of_parts f (take pos m ++ drop (pos + n) m) k)
erase_middle_part pos n f m k h w =
    let rest = drop pos m in
    let sized : length (take n rest) ≡ n = omega (arith, length-take n rest, length-drop pos m) in
    let whole : take pos m ++ (take n rest ++ drop n rest) ≡ m =
      ap (◌++◌ (take pos m)) (take-append-drop n rest) ∙ take-append-drop pos m in
    ap (λ i. erase_middle i n (of_parts f m k)) (sym (cut_length pos m (omega arith)))
    ∙ ap (λ i. erase_middle (length (take pos m)) i (of_parts f m k)) (sym sized)
    ∙ ap (λ x. erase_middle (length (take pos m)) (length (take n rest)) (of_parts f x k))
        (sym whole)
    ∙ erase_middle-of_parts f (take pos m) (take n rest) (drop n rest) k
        (omega (arith, h, ap length whole))
    ∙ ap (λ x. some (of_parts f (take pos m ++ x) k)) (drop-drop pos n m)

-- Behind the first byte.
erase_later-Refines :
    (pos n : ℕ) (f m k : List ℕ)
    → IsSmall f m k
    → (n ≡ npos) ⊎ (pos + n < 2 ^ 64)
    → Refines
        (length f + length m + length k)
        (if (n == npos) || leb (size (of_parts f m k)) (u64 (pos + n))
          then erase_back pos (of_parts f m k)
          else erase_middle pos n (of_parts f m k))
        (if ltb pos (length m) then some (take pos m ++ drop (pos + n) m) else none)
erase_later-Refines pos n f m k h w = elim (Bool-cases (ltb pos (length m))) [
  | inl within ↦ elim (Bool-cases ((n == npos) || leb (length m) (u64 (pos + n)))) [
    | inl back ↦
        let inside : pos < length m = ground arith in
        let rest : length m ≤ pos + n = ground arith in
        rw (size-of_parts f m k h, within, back, drop_all (pos + n) m rest, append-nil (take pos m))
          (
            f,
            mark 0 (drop pos m ++ k),
            erase_back_part pos f m k h inside,
            omega (
              arith,
              length-mark 0 (drop pos m ++ k),
              length-append (drop pos m) k,
              length-take pos m,
              length-drop pos m,
            ),
          )
    | inr middle ↦
        let inside : pos + n < length m = ground arith in
        rw (size-of_parts f m k h, within, middle)
          (
            f,
            k,
            erase_middle_part pos n f m k h inside,
            omega (
              arith,
              length-append (take pos m) (drop (pos + n) m),
              length-take pos m,
              length-drop (pos + n) m,
            ),
          )
  ]
  | inr beyond ↦
      let far : length m ≤ pos = ground arith in
      let back : ((n == npos) || leb (length m) (u64 (pos + n))) ≡ true = ground arith in
      rw (size-of_parts f m k h, beyond, back) (erase_back_outside pos f m k h far)
]

erase-Refines :
    (pos n : ℕ) (f m k : List ℕ)
    → IsSmall f m k
    → (n ≡ npos) ⊎ (pos + n < 2 ^ 64)
    → Refines
        (length f + length m + length k)
        (erase pos n (of_parts f m k))
        (expected (erase_call pos n) m)
unfolding erase
erase-Refines zero n f m k h w = rw zero-add (erase_front-Refines n f m k h)
erase-Refines (suc pos) n f m k h w =
    let later : (suc pos == 0) ≡ false = ground arith in
    rw later (erase_later-Refines (suc pos) n f m k h w)

insert-Refines :
    (pos : ℕ) (d f m k : List ℕ)
    → pos ≤ length m
    → insert pos d (of_parts f m k) ≡ some (of_parts f (take pos m ++ (d ++ drop pos m)) k)
insert-Refines pos d f m k w =
    ap (λ i. insert i d (of_parts f m k)) (sym (cut_length pos m w))
    ∙ ap (λ x. insert (length (take pos m)) d (of_parts f x k)) (sym (take-append-drop pos m))
    ∙ insert-of_parts f (take pos m) (drop pos m) d k

-- One call on a buffer that shows `m`.
pub run-Refines :
    (c : Call) (f m k : List ℕ)
    → IsSmall f m k
    → Fits c m
    → Refines (length f + length m + length k + brings c) (run c (of_parts f m k)) (expected c m)
unfolding clear assign from_string
run-Refines (erase_call pos n) f m k h w = rw add-zero (erase-Refines pos n f m k h w)
run-Refines (append_call capacity d) f m k h w =
    let (f', e, shorter) = append-Refines capacity d f m k h in
    (f', k, ap some e, omega (arith, length-append m d, shorter))
run-Refines (push_call c) f m k h w =
    let (k', e, shorter) = push_back-of_parts c f m k h in
    (f, k', ap some e, omega (arith, length-append m (c ∷ []), shorter))
run-Refines (insert_call pos d) f m k h w = (
  f,
  k,
  insert-Refines pos d f m k w,
  omega (
    arith,
    length-append (take pos m) (d ++ drop pos m),
    length-append d (drop pos m),
    length-take pos m,
    length-drop pos m,
  ),
)
run-Refines (assign_call []) f m k h w = (f, k, refl, omega arith)
run-Refines (assign_call (x ∷ d)) f m k h w =
    let bytes : (length (x ∷ d) == 0) ≡ false = ground arith in
    rw bytes ([], [], ap some (parts_eq (sym (append-nil (x ∷ d))) refl refl), omega arith)
run-Refines clear_call f m k h w = ([], [], refl, omega arith)
