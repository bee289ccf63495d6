-- ===== src/Util/Notice/Walk.antt =====
-- The heap of dispatchers and the map: what a change of one dispatcher leaves as it was.
use zltool_kit.Kit.{
  ℕ, zero, suc, ◌≤◌, ◌<◌, ◌≡◌, ◌≢◌, refl, sym, ap, false, List, [], ◌∷◌, ◌==◌, if◌then◌else◌,
  length, get_or, set, All, inl, inr, Bool-cases, arith, length-set,
}
use zltool_kit.Kit.Maps.{find, IsNew, Entries}
use mathlib.Core.Path.{subst}
use zltool_kit.Util.Notice.{Listener}
use zltool_kit.Util.Notice.Emit.{listeners_found}

abbrev pub Heap : Type 0
Heap = List (List Listener)

abbrev pub IsOther : ℕ → Entries → Type 0
IsOther d m = All (λ p. p.1 ≢ d) m

-- Names and dispatchers occur once, each dispatcher exists, and none is empty.
abbrev pub IsMap : Heap → Entries → Type 0
IsMap h [] = Unit
IsMap h ((name, d) ∷ m) =
    IsNew name m × IsOther d m × (d < length h) × (1 ≤ length (get_or h d [])) × IsMap h m

-- What is found for an event.
abbrev pub shown : Heap → Entries → ℕ → List Listener
shown h [] event = []
shown h ((name, d) ∷ m) event = if name == event then get_or h d [] else shown h m event

pub get_or-set_other {ℓ} :
    {A : Type ℓ} (h : List A) (d e : ℕ) (v w : A) → e ≢ d → get_or (set h d v) e w ≡ get_or h e w
get_or-set_other [] d e v w h = refl
get_or-set_other (x ∷ xs) zero zero v w h = absurd (h refl)
get_or-set_other (x ∷ xs) zero (suc e) v w h = refl
get_or-set_other (x ∷ xs) (suc d) zero v w h = refl
get_or-set_other (x ∷ xs) (suc d) (suc e) v w h =
    get_or-set_other xs d e v w (λ same. h (ap suc same))

pub get_or-set_same {ℓ} :
    {A : Type ℓ} (h : List A) (d : ℕ) (v w : A) → d < length h → get_or (set h d v) d w ≡ v
get_or-set_same [] d v w h = absurd (omega (arith, h))
get_or-set_same (x ∷ xs) zero v w h = refl
get_or-set_same (x ∷ xs) (suc d) v w h = get_or-set_same xs d v w (omega (arith, h))

-- A change of a dispatcher that the map does not name.
pub IsMap-set :
    (h : Heap) (d : ℕ) (v : List Listener) (m : Entries)
    → IsOther d m
    → IsMap h m
    → IsMap (set h d v) m
IsMap-set h d v [] o x = tt
IsMap-set h d v ((name, e) ∷ m) o (new, other, bound, some_left, x) = (
  new,
  other,
  omega (arith, bound, length-set h d v),
  subst (λ l. 1 ≤ length l) (sym (get_or-set_other h d e v [] o.0)) some_left,
  IsMap-set h d v m o.1 x,
)

pub shown-set :
    (h : Heap) (d : ℕ) (v : List Listener) (m : Entries) (event : ℕ)
    → IsOther d m
    → shown (set h d v) m event ≡ shown h m event
shown-set h d v [] event o = refl
shown-set h d v ((name, e) ∷ m) event o =
    cc (get_or-set_other h d e v [] o.0, shown-set h d v m event o.1)

pub shown_new : (h : Heap) (m : Entries) (event : ℕ) → IsNew event m → shown h m event ≡ []
shown_new h [] event n = refl
shown_new h ((name, d) ∷ m) event n =
    let e : (name == event) ≡ false = ground (arith, n.0) in rw e (shown_new h m event n.1)

pub find-shown :
    (h : Heap) (m : Entries) (event : ℕ)
    → listeners_found (record { heap = h; dispatchers = m }) (find event m) ≡ shown h m event
unfolding listeners_found
find-shown h [] event = refl
find-shown h ((name, d) ∷ m) event = elim (Bool-cases (name == event)) [
  | inl same ↦ rw same refl
  | inr other ↦ rw other (find-shown h m event)
]
