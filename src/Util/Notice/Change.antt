-- ===== src/Util/Notice/Change.antt =====
-- A dispatcher that is made, changed or taken off the map.
use zltool_kit.Kit.{
  ℕ, ◌≤◌, ◌<◌, ◌≡◌, ◌≢◌, sym, ap, ◌∙◌, List, [], ◌∷◌, some, ◌==◌, if◌then◌else◌, length, get_or,
  set, inl, inr, Bool-cases, arith, pick_true, pick_false, length-set,
}
use zltool_kit.Kit.Maps.{find, erase, some-inj, All-erase, Entries}
use mathlib.Core.Path.{subst}
use zltool_kit.Util.Notice.{Listener}
use zltool_kit.Util.Notice.Walk.{
  Heap, IsOther, IsMap, shown, get_or-set_other, get_or-set_same, IsMap-set, shown-set, shown_new,
}

-- An event's list is `v` and the others' are as they were.
abbrev pub IsChanged :
    ℕ → List Listener → (Entries → ℕ → List Listener) → Entries → Heap → Entries → Type 0
IsChanged event v before m h n =
    (name : ℕ) → shown h n name ≡ (if event == name then v else before m name)

pub find_other : (m : Entries) (event d e : ℕ) → find event m ≡ some d → IsOther e m → d ≢ e
find_other [] event d e h o = ground (arith, h)
find_other ((name, f) ∷ m) event d e h o = elim (Bool-cases (name == event)) [
  | inl same ↦ λ x. o.0 (some-inj f d (sym (pick_true (some f) (find event m) same) ∙ h) ∙ x)
  | inr other ↦ find_other m event d e (sym (pick_false (some f) (find event m) other) ∙ h) o.1
]

pub find-get_or :
    (h : Heap) (m : Entries) (event d : ℕ) → find event m ≡ some d → shown h m event ≡ get_or h d []
find-get_or h [] event d x = absurd (ground (arith, x))
find-get_or h ((name, f) ∷ m) event d x = elim (Bool-cases (name == event)) [
  | inl same ↦
      pick_true _ _ same
      ∙ ap (λ k. get_or h k []) (some-inj f d (sym (pick_true (some f) (find event m) same) ∙ x))
  | inr other ↦
      pick_false _ _ other
      ∙ find-get_or h m event d (sym (pick_false (some f) (find event m) other) ∙ x)
]

pub find_bound :
    (h : Heap) (m : Entries) (event d : ℕ) → find event m ≡ some d → IsMap h m → d < length h
find_bound h [] event d x v = absurd (ground (arith, x))
find_bound h ((name, f) ∷ m) event d x v = elim (Bool-cases (name == event)) [
  | inl same ↦
      let e = some-inj f d (sym (pick_true (some f) (find event m) same) ∙ x) in
      omega (arith, v.2, e)
  | inr other ↦ find_bound h m event d (sym (pick_false (some f) (find event m) other) ∙ x) v.4
]

pub found-IsChanged :
    (h : Heap) (m : Entries) (event d : ℕ) (v : List Listener)
    → find event m ≡ some d
    → IsMap h m
    → IsChanged event v (shown h) m (set h d v) m
found-IsChanged h [] event d v x w n = absurd (ground (arith, x))
found-IsChanged h ((name, f) ∷ m) event d v x (new, other, bound, full, w) n =
    elim (Bool-cases (name == event)) [
      | inl same ↦
          let e : f ≡ d = some-inj f d (sym (pick_true (some f) (find event m) same) ∙ x) in
          let known : name ≡ event = ground arith in
          let here : get_or (set h d v) f [] ≡ v =
            ap (λ k. get_or (set h d v) k []) e
            ∙ get_or-set_same h d v [] (omega (arith, e, bound)) in
          let rest = shown-set h d v m n (subst (λ k. IsOther k m) e other) in
          ground (arith, known, here, rest)
      | inr different ↦
          let y = sym (pick_false (some f) (find event m) different) ∙ x in
          let apart = find_other m event d f y other in
          let here = get_or-set_other h d f v [] (λ k. apart (sym k)) in
          let rest = found-IsChanged h m event d v y w n in ground (arith, different, here, rest)
    ]

-- A dispatcher of the map gets other listeners, and keeps some.
pub found-IsMap :
    (h : Heap) (m : Entries) (event d : ℕ) (v : List Listener)
    → find event m ≡ some d
    → 1 ≤ length v
    → IsMap h m
    → IsMap (set h d v) m
found-IsMap h [] event d v x some_left w = tt
found-IsMap h ((name, f) ∷ m) event d v x some_left (new, other, bound, full, w) =
    elim (Bool-cases (name == event)) [
      | inl same ↦
          let e : f ≡ d = some-inj f d (sym (pick_true (some f) (find event m) same) ∙ x) in
          let here : get_or (set h d v) f [] ≡ v =
            ap (λ k. get_or (set h d v) k []) e
            ∙ get_or-set_same h d v [] (omega (arith, e, bound)) in
          (
            new,
            other,
            omega (arith, bound, length-set h d v),
            subst (λ l. 1 ≤ length l) (sym here) some_left,
            IsMap-set h d v m (subst (λ k. IsOther k m) e other) w,
          )
      | inr different ↦
          let y = sym (pick_false (some f) (find event m) different) ∙ x in
          let apart = find_other m event d f y other in
          let here = get_or-set_other h d f v [] (λ k. apart (sym k)) in
          (
            new,
            other,
            omega (arith, bound, length-set h d v),
            subst (λ l. 1 ≤ length l) (sym here) full,
            found-IsMap h m event d v y some_left w,
          )
    ]

-- A dispatcher that got empty is taken off the map.
pub erased-IsMap :
    (h : Heap) (m : Entries) (event d : ℕ) (v : List Listener)
    → find event m ≡ some d
    → IsMap h m
    → IsMap (set h d v) (erase event m)
erased-IsMap h [] event d v x w = tt
erased-IsMap h ((name, f) ∷ m) event d v x (new, other, bound, full, w) =
    elim (Bool-cases (name == event)) [
      | inl same ↦
          let e : f ≡ d = some-inj f d (sym (pick_true (some f) (find event m) same) ∙ x) in
          subst (IsMap (set h d v)) (sym (pick_true _ _ same))
            (IsMap-set h d v m (subst (λ k. IsOther k m) e other) w)
      | inr different ↦
          let y = sym (pick_false (some f) (find event m) different) ∙ x in
          let apart = find_other m event d f y other in
          let here = get_or-set_other h d f v [] (λ k. apart (sym k)) in
          subst (IsMap (set h d v)) (sym (pick_false _ _ different)) (
            All-erase (λ p. p.0 ≢ name) event m new,
            All-erase (λ p. p.1 ≢ f) event m other,
            omega (arith, bound, length-set h d v),
            subst (λ l. 1 ≤ length l) (sym here) full,
            erased-IsMap h m event d v y w,
          )
    ]

pub erased-IsChanged :
    (h : Heap) (m : Entries) (event d : ℕ) (v : List Listener)
    → find event m ≡ some d
    → IsMap h m
    → IsChanged event [] (shown h) m (set h d v) (erase event m)
erased-IsChanged h [] event d v x w n = absurd (ground (arith, x))
erased-IsChanged h ((name, f) ∷ m) event d v x (new, other, bound, full, w) n =
    elim (Bool-cases (name == event)) [
      | inl same ↦
          let e : f ≡ d = some-inj f d (sym (pick_true (some f) (find event m) same) ∙ x) in
          let known : name ≡ event = ground arith in
          let rest = shown-set h d v m n (subst (λ k. IsOther k m) e other) in
          let gone = shown_new h m name new in
          ap (λ z. shown (set h d v) z n) (pick_true _ _ same) ∙ rest ∙ ground (arith, known, gone)
      | inr different ↦
          let y = sym (pick_false (some f) (find event m) different) ∙ x in
          let apart = find_other m event d f y other in
          let here = get_or-set_other h d f v [] (λ k. apart (sym k)) in
          let rest = erased-IsChanged h m event d v y w n in
          ap (λ z. shown (set h d v) z n) (pick_false _ _ different)
          ∙ ground (arith, different, here, rest)
    ]
