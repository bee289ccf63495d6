-- ===== src/Util/Notice/Create.antt =====
-- A dispatcher made for an event that has none, with its first listener.
use zltool_kit.Kit.{
  ℕ, zero, suc, ◌≤◌, ◌<◌, ◌≡◌, ◌≢◌, refl, sym, ap, ◌∙◌, List, [], ◌∷◌, ◌++◌, ◌==◌, if◌then◌else◌,
  length, get_or, set, arith, length-append,
}
use zltool_kit.Kit.Maps.{emplace, IsNew, emplace_nil, All-emplace, Entries}
use mathlib.Core.Path.{subst}
use zltool_kit.Util.Notice.{Listener}
use zltool_kit.Util.Notice.Walk.{Heap, IsOther, IsMap, shown}

set-append_length :
    {A : Type 0} (xs : List A) (a v : A) → set (xs ++ (a ∷ [])) (length xs) v ≡ xs ++ (v ∷ [])
set-append_length [] a v = refl
set-append_length (x ∷ xs) a v = ap (◌∷◌ x) (set-append_length xs a v)

pub get_or-append_length :
    {A : Type 0} (xs : List A) (a w : A) → get_or (xs ++ (a ∷ [])) (length xs) w ≡ a
get_or-append_length [] a w = refl
get_or-append_length (x ∷ xs) a w = get_or-append_length xs a w

get_or-append :
    {A : Type 0} (xs ys : List A) (d : ℕ) (w : A)
    → d < length xs
    → get_or (xs ++ ys) d w ≡ get_or xs d w
get_or-append [] ys d w h = absurd (omega (arith, h))
get_or-append (x ∷ xs) ys zero w h = refl
get_or-append (x ∷ xs) ys (suc d) w h = get_or-append xs ys d w (omega (arith, h))

IsMap-append : (h g : Heap) (m : Entries) → IsMap h m → IsMap (h ++ g) m
IsMap-append h g [] v = tt
IsMap-append h g ((name, d) ∷ m) (new, other, bound, full, v) = (
  new,
  other,
  omega (arith, bound, length-append h g),
  subst (λ l. 1 ≤ length l) (sym (get_or-append h g d [] bound)) full,
  IsMap-append h g m v,
)

shown-append :
    (h g : Heap) (m : Entries) (event : ℕ) → IsMap h m → shown (h ++ g) m event ≡ shown h m event
shown-append h g [] event v = refl
shown-append h g ((name, d) ∷ m) event (new, other, bound, full, v) =
    cc (get_or-append h g d [] bound, shown-append h g m event v)

IsOther-length : (h : Heap) (m : Entries) → IsMap h m → IsOther (length h) m
IsOther-length h [] v = tt
IsOther-length h ((name, d) ∷ m) (new, other, bound, full, v) =
    (ground (arith, bound), IsOther-length h m v)

emplace-IsMap :
    (h : Heap) (place event d : ℕ) (m : Entries)
    → IsNew event m
    → IsOther d m
    → d < length h
    → 1 ≤ length (get_or h d [])
    → IsMap h m
    → IsMap h (emplace place (event, d) m)
emplace-IsMap h zero event d m n o b f v = (n, o, b, f, v)
emplace-IsMap h (suc place) event d [] n o b f v = (tt, tt, b, f, tt)
emplace-IsMap h (suc place) event d ((name, e) ∷ m) n o b f (new, other, bound, full, v) =
    let name_apart : event ≢ name = ground (arith, n.0) in
    let apart : d ≢ e = ground (arith, o.0) in
    (
      All-emplace (λ p. p.0 ≢ name) place (event, d) m name_apart new,
      All-emplace (λ p. p.1 ≢ e) place (event, d) m apart other,
      bound,
      full,
      emplace-IsMap h place event d m n.1 o.1 b f v,
    )

shown-emplace :
    (h : Heap) (place event d : ℕ) (m : Entries) (name : ℕ)
    → IsNew event m
    → shown h (emplace place (event, d) m) name
      ≡ (if event == name then get_or h d [] else shown h m name)
shown-emplace h zero event d m name n = refl
shown-emplace h (suc place) event d [] name n = refl
shown-emplace h (suc place) event d ((other, e) ∷ m) name n =
    let rest = shown-emplace h place event d m name n.1 in
    let apart = n.0 in ground (arith, rest, apart)

-- The heap after the listener is put into the object that was just made.
pub first_listener :
    (h : Heap) (place : ℕ) (x : Listener)
    → set (h ++ ([] ∷ [])) (length h) (emplace place x (get_or (h ++ ([] ∷ [])) (length h) []))
      ≡ h ++ ((x ∷ []) ∷ [])
first_listener h place x =
    ap (λ l. set (h ++ ([] ∷ [])) (length h) (emplace place x l)) (get_or-append_length h [] [])
    ∙ set-append_length h [] (emplace place x [])
    ∙ ap (λ l. h ++ (l ∷ [])) (emplace_nil place x)

pub created-IsMap :
    (h : Heap) (place event : ℕ) (m : Entries) (x : Listener)
    → IsNew event m
    → IsMap h m
    → IsMap (h ++ ((x ∷ []) ∷ [])) (emplace place (event, length h) m)
created-IsMap h place event m x n v =
    emplace-IsMap (h ++ ((x ∷ []) ∷ [])) place event (length h) m n (IsOther-length h m v)
      (omega (arith, length-append h ((x ∷ []) ∷ [])))
      (subst (λ l. 1 ≤ length l) (sym (get_or-append_length h (x ∷ []) [])) (omega arith))
      (IsMap-append h ((x ∷ []) ∷ []) m v)

pub created_shown :
    (h : Heap) (place event : ℕ) (m : Entries) (x : Listener) (name : ℕ)
    → IsNew event m
    → IsMap h m
    → shown (h ++ ((x ∷ []) ∷ [])) (emplace place (event, length h) m) name
      ≡ (if event == name then x ∷ [] else shown h m name)
created_shown h place event m x name n v =
    let a = shown-emplace (h ++ ((x ∷ []) ∷ [])) place event (length h) m name n in
    let b = shown-append h ((x ∷ []) ∷ []) m name v in
    let c = get_or-append_length h (x ∷ []) [] in a ∙ cc (b, c)
