-- ===== src/Kit/Maps.antt =====
-- A hash map as the list of its entries: a key occurs once, so that the first entry with it is the one
-- found. The entries keep an order of the map's own: `place` is where an emplaced entry goes.
use Prim.Native.Nat.{ℕ, zero, suc}
use mathlib.Core.Path.{◌≡◌, refl, sym, ap, ◌∙◌, subst}
use mathlib.Core.Logic.{◌≢◌, inl, inr}
use mathlib.Core.Bool.{false}
use mathlib.Core.List.{List, [], ◌∷◌}
use mathlib.Core.Option.{Option, none, some}
use native.Mathlib.Omega.{arith}
use zltool_kit.Kit.Lists.{length, All}
use zltool_kit.Kit.Tests.{◌==◌, if◌then◌else◌, Bool-cases, ==_self, pick_true, pick_false}

abbrev pub Entries : Type 0
Entries = List (ℕ × ℕ)

abbrev pub emplace {ℓ} : {A : Type ℓ} → (place : ℕ) → A → List A → List A
emplace zero x xs = x ∷ xs
emplace (suc n) x [] = x ∷ []
emplace (suc n) x (y ∷ ys) = y ∷ emplace n x ys

abbrev pub find : ℕ → List (ℕ × ℕ) → Option ℕ
find key [] = none
find key ((k, d) ∷ m) = let rest = find key m in if k == key then some d else rest

abbrev pub erase : ℕ → List (ℕ × ℕ) → List (ℕ × ℕ)
erase key [] = []
erase key ((k, d) ∷ m) = let rest = erase key m in if k == key then m else (k, d) ∷ rest

abbrev pub IsNew : ℕ → Entries → Type 0
IsNew key m = All (λ p. p.0 ≢ key) m

-- Each key is there once.
abbrev pub IsUnique : Entries → Type 0
IsUnique [] = Unit
IsUnique ((k, d) ∷ m) = IsNew k m × IsUnique m

pub some-inj : (a b : ℕ) → some a ≡ some b → a ≡ b
some-inj a b h = ap (λ o. elim o [ none ↦ a | some x ↦ x ]) h

pub find-none : (m : Entries) (key : ℕ) → find key m ≡ none → IsNew key m
find-none [] key h = tt
find-none ((k, d) ∷ m) key h = elim (Bool-cases (k == key)) [
  | inl same ↦ absurd (ground (arith, sym (pick_true (some d) (find key m) same) ∙ h))
  | inr other ↦
      (ground (arith, other), find-none m key (sym (pick_false (some d) (find key m) other) ∙ h))
]

pub emplace_nil : {A : Type 0} (place : ℕ) (x : A) → emplace place x [] ≡ x ∷ []
emplace_nil zero x = refl
emplace_nil (suc n) x = refl

pub length-emplace :
    {A : Type 0} (place : ℕ) (x : A) (xs : List A) → length (emplace place x xs) ≡ suc (length xs)
length-emplace zero x xs = refl
length-emplace (suc n) x [] = refl
length-emplace (suc n) x (y ∷ ys) = ap suc (length-emplace n x ys)

pub All-emplace :
    {A : Type 0} (P : A → Type 0) (place : ℕ) (x : A) (xs : List A)
    → P x
    → All P xs
    → All P (emplace place x xs)
All-emplace P zero x xs p q = (p, q)
All-emplace P (suc n) x [] p q = (p, tt)
All-emplace P (suc n) x (y ∷ ys) p q = (q.0, All-emplace P n x ys p q.1)

pub All-erase : (P : ℕ × ℕ → Type 0) (key : ℕ) (m : Entries) → All P m → All P (erase key m)
All-erase P key [] x = tt
All-erase P key ((k, f) ∷ m) x = elim (Bool-cases (k == key)) [
  | inl same ↦ subst (All P) (sym (pick_true _ _ same)) x.1
  | inr different ↦ subst (All P) (sym (pick_false _ _ different)) (x.0, All-erase P key m x.1)
]

pub find_new : (m : Entries) (key : ℕ) → IsNew key m → find key m ≡ none
find_new [] key n = refl
find_new ((k, d) ∷ m) key n =
    let e : (k == key) ≡ false = ground (arith, n.0) in pick_false _ _ e ∙ find_new m key n.1

pub find-erase : (m : Entries) (key : ℕ) → IsUnique m → find key (erase key m) ≡ none
find-erase [] key u = refl
find-erase ((k, d) ∷ m) key u = elim (Bool-cases (k == key)) [
  | inl same ↦
      let known : k ≡ key = ground arith in
      ap (find key) (pick_true _ _ same) ∙ find_new m key (subst (λ k. IsNew k m) known u.0)
  | inr different ↦
      ap (find key) (pick_false _ _ different) ∙ pick_false _ _ different ∙ find-erase m key u.1
]

pub IsUnique-emplace :
    (place key d : ℕ) (m : Entries) → IsNew key m → IsUnique m → IsUnique (emplace place (key, d) m)
IsUnique-emplace zero key d m n u = (n, u)
IsUnique-emplace (suc place) key d [] n u = (tt, tt)
IsUnique-emplace (suc place) key d ((k, e) ∷ m) n u =
    let apart : key ≢ k = ground (arith, n.0) in
    (All-emplace (λ p. p.0 ≢ k) place (key, d) m apart u.0, IsUnique-emplace place key d m n.1 u.1)

pub find-emplace :
    (place key d : ℕ) (m : Entries) → IsNew key m → find key (emplace place (key, d) m) ≡ some d
find-emplace zero key d m n = pick_true _ _ (==_self key)
find-emplace (suc place) key d [] n = pick_true _ _ (==_self key)
find-emplace (suc place) key d ((k, e) ∷ m) n =
    let other : (k == key) ≡ false = ground (arith, n.0) in
    pick_false _ _ other ∙ find-emplace place key d m n.1

pub IsUnique-erase : (key : ℕ) (m : Entries) → IsUnique m → IsUnique (erase key m)
IsUnique-erase key [] u = tt
IsUnique-erase key ((k, d) ∷ m) u = elim (Bool-cases (k == key)) [
  | inl same ↦ subst IsUnique (sym (pick_true _ _ same)) u.1
  | inr different ↦
      subst IsUnique (sym (pick_false _ _ different))
        (All-erase (λ p. p.0 ≢ k) key m u.0, IsUnique-erase key m u.1)
]
