-- ===== src/Util/Notice/Sweep.antt =====
-- delListener(tag): the loop over all events.
use zltool_kit.Kit.{
  ℕ, ◌≤◌, ◌≡◌, ◌≢◌, refl, sym, ap, ◌∙◌, true, false, List, [], ◌∷◌, ◌==◌, if◌then◌else◌, length,
  get_or, set, All, inl, inr, Bool-cases, arith, pick_true, pick_false, length-set,
}
use zltool_kit.Kit.Maps.{IsNew, Entries}
use mathlib.Core.Path.{subst}
use zltool_kit.Util.Notice.{Listener, Center, erase_tag, is_empty, del_walk}
use zltool_kit.Util.Notice.Walk.{
  Heap, IsOther, IsMap, shown, get_or-set_other, get_or-set_same, IsMap-set, shown-set, shown_new,
}

pub full_length : (xs : List Listener) → is_empty xs ≡ false → 1 ≤ length xs
full_length [] h = absurd (ground (arith, h))
full_length (x ∷ xs) h = omega arith

pub empty_nil : (xs : List Listener) → is_empty xs ≡ true → xs ≡ []
empty_nil [] h = refl
empty_nil (x ∷ xs) h = absurd (ground (arith, h))

-- What the loop leaves of its first entry.
abbrev first_left : ℕ → ℕ → Heap → List Listener
first_left tag d h = erase_tag tag (get_or h d [])

module _ (tag name d : ℕ) (m : Entries) (h : Heap) where
  abbrev rest_of : Center
  rest_of = del_walk tag m (set h d (first_left tag d h))

  del_walk_empty : is_empty (first_left tag d h) ≡ true → del_walk tag ((name, d) ∷ m) h ≡ rest_of
  unfolding del_walk
  del_walk_empty e = pick_true _ _ e

  del_walk_full :
      is_empty (first_left tag d h) ≡ false
      → del_walk tag ((name, d) ∷ m) h
        ≡ record rest_of { dispatchers = (name, d) ∷ rest_of.dispatchers }
  unfolding del_walk
  del_walk_full e = pick_false _ _ e

  del_walk_heap : (del_walk tag ((name, d) ∷ m) h).heap ≡ rest_of.heap
  del_walk_heap = elim (Bool-cases (is_empty (first_left tag d h))) [
    | inl e ↦ ap (λ c. c.heap) (del_walk_empty e)
    | inr e ↦ ap (λ c. c.heap) (del_walk_full e)
  ]

  -- What holds of every entry kept, if it holds of this one.
  del_walk_keeps :
      (P : ℕ × ℕ → Type 0)
      → P (name, d)
      → All P rest_of.dispatchers
      → All P (del_walk tag ((name, d) ∷ m) h).dispatchers
  del_walk_keeps P p q = elim (Bool-cases (is_empty (first_left tag d h))) [
    | inl e ↦ subst (λ c. All P c.dispatchers) (sym (del_walk_empty e)) q
    | inr e ↦ subst (λ c. All P c.dispatchers) (sym (del_walk_full e)) (p, q)
  ]

walk-All :
    (P : ℕ × ℕ → Type 0) (tag : ℕ) (m : Entries) (h : Heap)
    → All P m
    → All P (del_walk tag m h).dispatchers
unfolding del_walk
walk-All P tag [] h x = tt
walk-All P tag ((name, d) ∷ m) h x =
    del_walk_keeps tag name d m h P x.0 (walk-All P tag m (set h d (first_left tag d h)) x.1)

walk_other :
    (tag e : ℕ) (m : Entries) (h : Heap)
    → IsOther e m
    → get_or (del_walk tag m h).heap e [] ≡ get_or h e []
unfolding del_walk
walk_other tag e [] h o = refl
walk_other tag e ((name, d) ∷ m) h o =
    ap (λ g. get_or g e []) (del_walk_heap tag name d m h)
    ∙ walk_other tag e m (set h d (first_left tag d h)) o.1
    ∙ get_or-set_other h d e (first_left tag d h) [] (λ k. o.0 (sym k))

length-walk : (tag : ℕ) (m : Entries) (h : Heap) → length (del_walk tag m h).heap ≡ length h
unfolding del_walk
length-walk tag [] h = refl
length-walk tag ((name, d) ∷ m) h =
    ap length (del_walk_heap tag name d m h)
    ∙ length-walk tag m (set h d (first_left tag d h))
    ∙ length-set h d (first_left tag d h)

pub walk-IsMap :
    (tag : ℕ) (m : Entries) (h : Heap)
    → IsMap h m
    → IsMap (del_walk tag m h).heap (del_walk tag m h).dispatchers
unfolding del_walk
walk-IsMap tag [] h v = tt
walk-IsMap tag ((name, d) ∷ m) h (new, other, bound, full, v) =
    let left = first_left tag d h in
    let rest = walk-IsMap tag m (set h d left) (IsMap-set h d left m other v) in
    elim (Bool-cases (is_empty left)) [
      | inl e ↦ subst (λ c. IsMap c.heap c.dispatchers) (sym (del_walk_empty tag name d m h e)) rest
      | inr e ↦
          let here = walk_other tag d m (set h d left) other ∙ get_or-set_same h d left [] bound in
          subst (λ c. IsMap c.heap c.dispatchers) (sym (del_walk_full tag name d m h e))
            (
              walk-All (λ p. p.0 ≢ name) tag m (set h d left) new,
              walk-All (λ p. p.1 ≢ d) tag m (set h d left) other,
              omega (arith, bound, length-walk tag m (set h d left), length-set h d left),
              subst (λ l. 1 ≤ length l) (sym here) (full_length left e),
              rest,
            )
    ]

-- The first entry's part of what is shown.
shown_empty :
    (tag name d : ℕ) (m : Entries) (h : Heap) (event : ℕ)
    → IsNew name m
    → first_left tag d h ≡ []
    → erase_tag tag (shown h m event) ≡ erase_tag tag (shown h ((name, d) ∷ m) event)
shown_empty tag name d m h event new e = elim (Bool-cases (name == event)) [
  | inl same ↦
      let known : name ≡ event = ground arith in
      ap (erase_tag tag) (subst (λ k. shown h m k ≡ []) known (shown_new h m name new))
      ∙ sym e
      ∙ ap (erase_tag tag) (sym (pick_true _ _ same))
  | inr different ↦ ap (erase_tag tag) (sym (pick_false _ _ different))
]

shown_full :
    (tag name d : ℕ) (m : Entries) (h : Heap) (event : ℕ) (a b : List Listener)
    → a ≡ first_left tag d h
    → b ≡ erase_tag tag (shown h m event)
    → (if name == event then a else b) ≡ erase_tag tag (shown h ((name, d) ∷ m) event)
shown_full tag name d m h event a b p q = elim (Bool-cases (name == event)) [
  | inl same ↦ pick_true _ _ same ∙ p ∙ ap (erase_tag tag) (sym (pick_true _ _ same))
  | inr different ↦
      pick_false _ _ different ∙ q ∙ ap (erase_tag tag) (sym (pick_false _ _ different))
]

-- Each event shows what it showed without the tag.
pub walk_shown :
    (tag : ℕ) (m : Entries) (h : Heap) (event : ℕ)
    → IsMap h m
    → shown (del_walk tag m h).heap (del_walk tag m h).dispatchers event
      ≡ erase_tag tag (shown h m event)
unfolding del_walk
walk_shown tag [] h event v = refl
walk_shown tag ((name, d) ∷ m) h event (new, other, bound, full, v) =
    let left = first_left tag d h in
    let rest =
      walk_shown tag m (set h d left) event (IsMap-set h d left m other v)
      ∙ ap (erase_tag tag) (shown-set h d left m event other) in
    elim (Bool-cases (is_empty left)) [
      | inl e ↦
          ap (λ c. shown c.heap c.dispatchers event) (del_walk_empty tag name d m h e)
          ∙ rest
          ∙ shown_empty tag name d m h event new (empty_nil left e)
      | inr e ↦
          let here = walk_other tag d m (set h d left) other ∙ get_or-set_same h d left [] bound in
          ap (λ c. shown c.heap c.dispatchers event) (del_walk_full tag name d m h e)
          ∙ shown_full tag name d m h event _ _ here rest
    ]
