-- ===== src/Kit/Counts.antt =====
-- How often a number is in a list.
use Prim.Native.Nat.{ℕ, ◌+◌, ◌≤◌}
use mathlib.Core.Path.{◌≡◌, ap}
use mathlib.Core.Logic.{inl, inr}
use mathlib.Core.List.{List, [], ◌∷◌, ◌++◌}
use native.Mathlib.Omega.{arith}
use zltool_kit.Kit.Tests.{◌==◌, if◌then◌else◌, Bool-cases}

abbrev pub is_it : ℕ → ℕ → ℕ
is_it i x = if i == x then 1 else 0

abbrev pub count : ℕ → List ℕ → ℕ
count i [] = 0
count i (x ∷ xs) = is_it i x + count i xs

-- Without the first entry that is `x`.
abbrev pub erase_one : ℕ → List ℕ → List ℕ
erase_one x [] = []
erase_one x (y ∷ ys) = let rest = erase_one x ys in if x == y then ys else y ∷ rest

pub count-append : (i : ℕ) (xs ys : List ℕ) → count i (xs ++ ys) ≡ count i xs + count i ys
count-append i [] ys = omega arith
count-append i (x ∷ xs) ys = omega (arith, count-append i xs ys)

pub count-erase_one :
    (i x : ℕ) (xs : List ℕ) → 1 ≤ count x xs → is_it i x + count i (erase_one x xs) ≡ count i xs
count-erase_one i x [] h = absurd (omega (arith, h))
count-erase_one i x (y ∷ ys) h = elim (Bool-cases (x == y)) [
  | inl same ↦ let e : x ≡ y = ground arith in rw same (ap (λ z. is_it i z + count i ys) e)
  | inr other ↦
      let more : 1 ≤ count x ys = ground (arith, h) in
      rw other (omega (arith, count-erase_one i x ys more))
]
