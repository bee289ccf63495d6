-- ===== src/Bytes/RoundTrip.antt =====
-- The setters of Byte.hpp with the getters of their names.
use zltool_kit.Kit.{
  ℕ, zero, suc, ◌+◌, ◌*◌, ◌/◌, ◌%◌, ◌^◌, ◌≤◌, ◌≡◌, refl, ap, ◌∙◌, List, [], ◌∷◌, ◌++◌, length, set,
  drop, arith, get_or, length-drop,
}
use native.Mathlib.Nat.{add-zero, add_assoc}
use zltool_kit.Bytes.{
  byte_at, get2, get3, get4, get8, set2, set3, set4, set8, get2_le, get3_le, get4_le, get8_le,
  set2_le, set3_le, set4_le, set8_le,
}

-- The first `n` bytes, read one by one, so that a numeral `n` shows `n` entries.
abbrev pub front : ℕ → List ℕ → List ℕ
front zero xs = []
front (suc n) xs = get_or xs 0 0 ∷ front n (drop 1 xs)

pub front-append-drop : (n : ℕ) (xs : List ℕ) → n ≤ length xs → xs ≡ front n xs ++ drop n xs
front-append-drop zero xs h = refl
front-append-drop (suc n) [] h = absurd (omega arith)
front-append-drop (suc n) (x ∷ xs) h = ap (◌∷◌ x) (front-append-drop n xs (omega arith))

byte_at-drop : (i k : ℕ) (xs : List ℕ) → byte_at (drop i xs) k ≡ byte_at xs (i + k)
byte_at-drop zero k xs = ap (byte_at xs) (omega arith)
byte_at-drop (suc i) k [] = refl
byte_at-drop (suc i) k (x ∷ xs) =
    byte_at-drop i k xs ∙ ap (byte_at (x ∷ xs)) {x = suc (i + k)} (omega arith)

drop-set : (i k v : ℕ) (xs : List ℕ) → drop i (set xs (i + k) v) ≡ set (drop i xs) k v
drop-set zero k v xs = ap (λ n. set xs n v) (omega arith)
drop-set (suc i) k v [] = refl
drop-set (suc i) k v (x ∷ xs) =
    ap (λ n. drop (suc i) (set (x ∷ xs) n v)) {y = suc (i + k)} (omega arith) ∙ drop-set i k v xs

drop-set_zero : (i v : ℕ) (xs : List ℕ) → drop i (set xs i v) ≡ set (drop i xs) 0 v
drop-set_zero i v xs = ap (λ n. drop i (set xs n v)) (omega arith) ∙ drop-set i 0 v xs

-- Every accessor at offset `i` is the accessor at 0 of the buffer from `i` on.
ruleset at_zero = (byte_at-drop, drop-set, drop-set_zero, add-zero, add_assoc)

get2-drop : (xs : List ℕ) (i : ℕ) → get2 xs i ≡ get2 (drop i xs) 0
unfolding get2
get2-drop xs i = simp at_zero

drop-set2 : (xs : List ℕ) (i v : ℕ) → drop i (set2 xs i v) ≡ set2 (drop i xs) 0 v
unfolding set2
drop-set2 xs i v = simp at_zero

get2-set2_cons : (a b v : ℕ) (r : List ℕ) → get2 (set2 (a ∷ b ∷ r) 0 v) 0 ≡ v % 2 ^ 16
unfolding get2 set2
get2-set2_cons a b v r = omega arith

pub get2-set2 : (xs : List ℕ) (i v : ℕ) → i + 2 ≤ length xs → get2 (set2 xs i v) i ≡ v % 2 ^ 16
get2-set2 xs i v h =
    rw (get2-drop, drop-set2, front-append-drop 2 (drop i xs) (omega (arith, length-drop i xs)))
      (get2-set2_cons _ _ v _)

get3-drop : (xs : List ℕ) (i : ℕ) → get3 xs i ≡ get3 (drop i xs) 0
unfolding get3
get3-drop xs i = simp at_zero

drop-set3 : (xs : List ℕ) (i v : ℕ) → drop i (set3 xs i v) ≡ set3 (drop i xs) 0 v
unfolding set3
drop-set3 xs i v = simp at_zero

get3-set3_cons : (a b c v : ℕ) (r : List ℕ) → get3 (set3 (a ∷ b ∷ c ∷ r) 0 v) 0 ≡ v % 2 ^ 24
unfolding get3 set3
get3-set3_cons a b c v r = omega arith

pub get3-set3 : (xs : List ℕ) (i v : ℕ) → i + 3 ≤ length xs → get3 (set3 xs i v) i ≡ v % 2 ^ 24
get3-set3 xs i v h =
    rw (get3-drop, drop-set3, front-append-drop 3 (drop i xs) (omega (arith, length-drop i xs)))
      (get3-set3_cons _ _ _ v _)

get4-drop : (xs : List ℕ) (i : ℕ) → get4 xs i ≡ get4 (drop i xs) 0
unfolding get4
get4-drop xs i = simp at_zero

drop-set4 : (xs : List ℕ) (i v : ℕ) → drop i (set4 xs i v) ≡ set4 (drop i xs) 0 v
unfolding set4
drop-set4 xs i v = simp at_zero

get4-set4_cons : (a b c d v : ℕ) (r : List ℕ) → get4 (set4 (a ∷ b ∷ c ∷ d ∷ r) 0 v) 0 ≡ v % 2 ^ 32
unfolding get4 set4
get4-set4_cons a b c d v r = omega arith

pub get4-set4 : (xs : List ℕ) (i v : ℕ) → i + 4 ≤ length xs → get4 (set4 xs i v) i ≡ v % 2 ^ 32
get4-set4 xs i v h =
    rw (get4-drop, drop-set4, front-append-drop 4 (drop i xs) (omega (arith, length-drop i xs)))
      (get4-set4_cons _ _ _ _ v _)

get8-drop : (xs : List ℕ) (i : ℕ) → get8 xs i ≡ get8 (drop i xs) 0
unfolding get8 get4
get8-drop xs i = simp at_zero

drop-set8 : (xs : List ℕ) (i v : ℕ) → drop i (set8 xs i v) ≡ set8 (drop i xs) 0 v
unfolding set8
drop-set8 xs i v = simp at_zero

get8-set8_cons :
    (a b c d e f g h v : ℕ) (r : List ℕ)
    → get8 (set8 (a ∷ b ∷ c ∷ d ∷ e ∷ f ∷ g ∷ h ∷ r) 0 v) 0 ≡ v % 2 ^ 64
unfolding get8 get4 set8
get8-set8_cons a b c d e f g h v r = omega arith

pub get8-set8 : (xs : List ℕ) (i v : ℕ) → i + 8 ≤ length xs → get8 (set8 xs i v) i ≡ v % 2 ^ 64
get8-set8 xs i v h =
    rw (get8-drop, drop-set8, front-append-drop 8 (drop i xs) (omega (arith, length-drop i xs)))
      (get8-set8_cons _ _ _ _ _ _ _ _ v _)

get2_le-drop : (xs : List ℕ) (i : ℕ) → get2_le xs i ≡ get2_le (drop i xs) 0
unfolding get2_le
get2_le-drop xs i = simp at_zero

drop-set2_le : (xs : List ℕ) (i v : ℕ) → drop i (set2_le xs i v) ≡ set2_le (drop i xs) 0 v
unfolding set2_le
drop-set2_le xs i v = simp at_zero

get2_le-set2_le_cons : (a b v : ℕ) (r : List ℕ) → get2_le (set2_le (a ∷ b ∷ r) 0 v) 0 ≡ v % 2 ^ 16
unfolding get2_le set2_le
get2_le-set2_le_cons a b v r = omega arith

pub get2_le-set2_le :
    (xs : List ℕ) (i v : ℕ) → i + 2 ≤ length xs → get2_le (set2_le xs i v) i ≡ v % 2 ^ 16
get2_le-set2_le xs i v h =
    rw
      (
        get2_le-drop,
        drop-set2_le,
        front-append-drop 2 (drop i xs) (omega (arith, length-drop i xs)),
      )
      (get2_le-set2_le_cons _ _ v _)

get3_le-drop : (xs : List ℕ) (i : ℕ) → get3_le xs i ≡ get3_le (drop i xs) 0
unfolding get3_le
get3_le-drop xs i = simp at_zero

drop-set3_le : (xs : List ℕ) (i v : ℕ) → drop i (set3_le xs i v) ≡ set3_le (drop i xs) 0 v
unfolding set3_le
drop-set3_le xs i v = simp at_zero

get3_le-set3_le_cons :
    (a b c v : ℕ) (r : List ℕ) → get3_le (set3_le (a ∷ b ∷ c ∷ r) 0 v) 0 ≡ v % 2 ^ 24
unfolding get3_le set3_le
get3_le-set3_le_cons a b c v r = omega arith

pub get3_le-set3_le :
    (xs : List ℕ) (i v : ℕ) → i + 3 ≤ length xs → get3_le (set3_le xs i v) i ≡ v % 2 ^ 24
get3_le-set3_le xs i v h =
    rw
      (
        get3_le-drop,
        drop-set3_le,
        front-append-drop 3 (drop i xs) (omega (arith, length-drop i xs)),
      )
      (get3_le-set3_le_cons _ _ _ v _)

get4_le-drop : (xs : List ℕ) (i : ℕ) → get4_le xs i ≡ get4_le (drop i xs) 0
unfolding get4_le
get4_le-drop xs i = simp at_zero

drop-set4_le : (xs : List ℕ) (i v : ℕ) → drop i (set4_le xs i v) ≡ set4_le (drop i xs) 0 v
unfolding set4_le
drop-set4_le xs i v = simp at_zero

get4_le-set4_le_cons :
    (a b c d v : ℕ) (r : List ℕ) → get4_le (set4_le (a ∷ b ∷ c ∷ d ∷ r) 0 v) 0 ≡ v % 2 ^ 32
unfolding get4_le set4_le
get4_le-set4_le_cons a b c d v r = omega arith

pub get4_le-set4_le :
    (xs : List ℕ) (i v : ℕ) → i + 4 ≤ length xs → get4_le (set4_le xs i v) i ≡ v % 2 ^ 32
get4_le-set4_le xs i v h =
    rw
      (
        get4_le-drop,
        drop-set4_le,
        front-append-drop 4 (drop i xs) (omega (arith, length-drop i xs)),
      )
      (get4_le-set4_le_cons _ _ _ _ v _)

get8_le-drop : (xs : List ℕ) (i : ℕ) → get8_le xs i ≡ get8_le (drop i xs) 0
unfolding get8_le get4
get8_le-drop xs i = simp at_zero

drop-set8_le : (xs : List ℕ) (i v : ℕ) → drop i (set8_le xs i v) ≡ set8_le (drop i xs) 0 v
unfolding set8_le
drop-set8_le xs i v = simp at_zero

-- The two halves come back byte by byte reversed, since `Get8BytesLE` reads them big-endian.
abbrev pub byte_swap4 : ℕ → ℕ
byte_swap4 v =
    v % 2 ^ 8 * 2 ^ 24
    + v / 2 ^ 8 % 2 ^ 8 * 2 ^ 16
    + v / 2 ^ 16 % 2 ^ 8 * 2 ^ 8
    + v / 2 ^ 24 % 2 ^ 8

get8_le-set8_le_cons :
    (a b c d e f g h v : ℕ) (r : List ℕ)
    → get8_le (set8_le (a ∷ b ∷ c ∷ d ∷ e ∷ f ∷ g ∷ h ∷ r) 0 v) 0
      ≡ byte_swap4 (v / 2 ^ 32) * 2 ^ 32 + byte_swap4 (v % 2 ^ 32)
unfolding get8_le set8_le
get8_le-set8_le_cons a b c d e f g h v r = omega arith

-- `Get8BytesLE` does not read back what `Set8BytesLE` wrote: it returns the value with the four
-- bytes of each half reversed.
pub get8_le-set8_le :
    (xs : List ℕ) (i v : ℕ)
    → i + 8 ≤ length xs
    → get8_le (set8_le xs i v) i ≡ byte_swap4 (v / 2 ^ 32) * 2 ^ 32 + byte_swap4 (v % 2 ^ 32)
get8_le-set8_le xs i v h =
    rw
      (
        get8_le-drop,
        drop-set8_le,
        front-append-drop 8 (drop i xs) (omega (arith, length-drop i xs)),
      )
      (get8_le-set8_le_cons _ _ _ _ _ _ _ _ v _)

-- Each big-endian setter writes what the getter of its name reads back, cut to its width.
pub big_endian_round_trip :
    (xs : List ℕ) (i v : ℕ)
    → i + 8 ≤ length xs
    → (get2 (set2 xs i v) i ≡ v % 2 ^ 16)
      × (get3 (set3 xs i v) i ≡ v % 2 ^ 24)
      × (get4 (set4 xs i v) i ≡ v % 2 ^ 32)
      × (get8 (set8 xs i v) i ≡ v % 2 ^ 64)
big_endian_round_trip xs i v h = (
  get2-set2 xs i v (omega arith),
  get3-set3 xs i v (omega arith),
  get4-set4 xs i v (omega arith),
  get8-set8 xs i v h,
)

-- So do the little-endian setters of two, three and four bytes.
pub little_endian_round_trip :
    (xs : List ℕ) (i v : ℕ)
    → i + 4 ≤ length xs
    → (get2_le (set2_le xs i v) i ≡ v % 2 ^ 16)
      × (get3_le (set3_le xs i v) i ≡ v % 2 ^ 24)
      × (get4_le (set4_le xs i v) i ≡ v % 2 ^ 32)
little_endian_round_trip xs i v h = (
  get2_le-set2_le xs i v (omega arith),
  get3_le-set3_le xs i v (omega arith),
  get4_le-set4_le xs i v h,
)
