-- ===== src/Buffer/Laws.antt =====
-- What BufferRaw keeps and what it loses.
use zltool_kit.Kit.{
  ℕ, zero, suc, ◌+◌, ◌≤◌, ◌≡◌, refl, sym, ap, ◌∙◌, List, [], ◌∷◌, ◌++◌, arith, length, take, drop,
  append-nil, length-append, length-take, length-drop, take-append_length, drop-append_length,
  append_assoc,
}
use native.Mathlib.Nat.{suc-add}
use zltool_kit.Buffer.{memcpy_at}

pub drop_all {ℓ} : {A : Type ℓ} (n : ℕ) (xs : List A) → length xs ≤ n → drop n xs ≡ []
drop_all zero [] h = refl
drop_all zero (x ∷ xs) h = absurd (omega arith)
drop_all (suc n) [] h = refl
drop_all (suc n) (x ∷ xs) h = drop_all n xs (omega arith)

pub drop-append_eq {ℓ} :
    {A : Type ℓ} (n : ℕ) (xs ys : List A) → length xs ≡ n → drop n (xs ++ ys) ≡ ys
drop-append_eq n xs ys h = ap (λ k. drop k (xs ++ ys)) (sym h) ∙ drop-append_length xs ys

pub take-append_eq {ℓ} :
    {A : Type ℓ} (n : ℕ) (xs ys : List A) → length xs ≡ n → take n (xs ++ ys) ≡ xs
take-append_eq n xs ys h = ap (λ k. take k (xs ++ ys)) (sym h) ∙ take-append_length xs ys

pub drop-append_le {ℓ} :
    {A : Type ℓ} (n : ℕ) (xs ys : List A) → n ≤ length xs → drop n (xs ++ ys) ≡ drop n xs ++ ys
drop-append_le zero xs ys h = refl
drop-append_le (suc n) [] ys h = absurd (omega arith)
drop-append_le (suc n) (x ∷ xs) ys h = drop-append_le n xs ys (omega arith)

-- A copy of the block's own length replaces the block.
pub memcpy_at_whole : (src mem : List ℕ) → length src ≡ length mem → memcpy_at 0 src mem ≡ src
memcpy_at_whole src mem h = rw (drop_all (0 + length src) mem (omega arith), append-nil)

pub length-memcpy_at :
    (off : ℕ) (src mem : List ℕ)
    → off + length src ≤ length mem
    → length (memcpy_at off src mem) ≡ length mem
length-memcpy_at off src mem h = omega (
  arith,
  length-append (take off mem) (src ++ drop (off + length src) mem),
  length-append src (drop (off + length src) mem),
  length-take off mem,
  length-drop (off + length src) mem,
)

-- What was copied in is read back at its offset.
pub take-drop-memcpy_at :
    (off : ℕ) (src mem : List ℕ)
    → off ≤ length mem
    → take (length src) (drop off (memcpy_at off src mem)) ≡ src
take-drop-memcpy_at off src mem h =
    rw
      (drop-append_eq off (take off mem) (src ++ drop (off + length src) mem)
        (omega (arith, length-take off mem)))
      (take-append_length src (drop (off + length src) mem))

pub drop-take {ℓ} :
    {A : Type ℓ} (a b : ℕ) (xs : List A) → drop a (take (a + b) xs) ≡ take b (drop a xs)
drop-take zero b xs = ap (λ n. take n xs) (omega arith)
drop-take (suc a) zero [] = rw suc-add
drop-take (suc a) (suc b) [] = rw suc-add
drop-take (suc a) b (x ∷ xs) = rw suc-add (drop-take a b xs)

-- What a copy to offset `a + b` leaves of the `b` bytes from `a` on, and what it puts behind them.
pub take-drop-memcpy_at_behind :
    (a b n : ℕ) (src mem : List ℕ)
    → n ≡ b + length src
    → a + b ≤ length mem
    → take n (drop a (memcpy_at (a + b) src mem)) ≡ take b (drop a mem) ++ src
take-drop-memcpy_at_behind a b n src mem e h =
    rw
      (
        drop-append_le a (take (a + b) mem) (src ++ drop (a + b + length src) mem)
            (omega (arith, length-take (a + b) mem)),
        drop-take a b mem,
        ← append_assoc (take b (drop a mem)) src (drop (a + b + length src) mem),
      )
      (take-append_eq n (take b (drop a mem) ++ src) (drop (a + b + length src) mem) (
        omega (
          arith,
          length-append (take b (drop a mem)) src,
          length-take b (drop a mem),
          length-drop a mem,
        )))

-- A copy to the end of the first `b` bytes extends them.
pub take-memcpy_at_end :
    (b n : ℕ) (src mem : List ℕ)
    → length src ≡ n
    → b ≤ length mem
    → take (b + n) (memcpy_at b src mem) ≡ take b mem ++ src
take-memcpy_at_end b n src mem e h =
    ap (λ k. take (b + n) (memcpy_at k src mem)) {y = 0 + b} (omega arith)
    ∙ take-drop-memcpy_at_behind 0 b (b + n) src mem (omega (arith, e)) (omega arith)
