-- ===== src/Network/SendMsg/Cut.antt =====
-- What is left of a list of buffers when bytes are taken off its front.
use zltool_kit.Kit.{
  ℕ, ◌+◌, ◌-◌, ◌≤◌, ◌<◌, ◌≡◌, refl, sym, ap, ◌∙◌, inl, inr, List, [], ◌∷◌, ◌++◌, All, leb,
  if◌then◌else◌, length, drop, min, arith, length-append, length-drop, drop-drop, Bool-cases,
  pick_true, pick_false, true, false,
}
use mathlib.Core.Path.{subst}
use zltool_kit.Network.Kernel.{Chunk}
use zltool_kit.Network.SendMsg.{bytes_of}

abbrev pub HasBytes : Chunk → Type 0
HasBytes c = 0 < length c.rest

-- A buffer whose last byte is taken is gone; the next one may lose its front.
abbrev pub cut : ℕ → List Chunk → List Chunk
cut n [] = []
cut n (c ∷ cs) =
    let more = cut (n - length c.rest) cs in
    if leb (length c.rest) n then more else record c { rest = drop n c.rest } ∷ cs

-- `ds` is what is left of `cs`.
abbrev pub IsLeft : List Chunk → List Chunk → Type 0
IsLeft cs ds = (n : ℕ) × (ds ≡ cut n cs)

pub cut-zero : (cs : List Chunk) → All HasBytes cs → cut 0 cs ≡ cs
cut-zero [] h = refl
cut-zero (c ∷ cs) h =
    let more : leb (length c.rest) 0 ≡ false = ground (arith, h.0) in pick_false _ _ more

pub cut_all : (n : ℕ) (cs : List Chunk) → length (bytes_of cs) ≤ n → cut n cs ≡ []
cut_all n [] h = refl
cut_all n (c ∷ cs) h =
    let sized = length-append c.rest (bytes_of cs) in
    let gone : leb (length c.rest) n ≡ true = ground (arith, sized, h) in
    pick_true _ _ gone ∙ cut_all (n - length c.rest) cs (omega (arith, sized, h))

cut-HasBytes : (n : ℕ) (cs : List Chunk) → All HasBytes cs → All HasBytes (cut n cs)
cut-HasBytes n [] h = tt
cut-HasBytes n (c ∷ cs) h = elim (Bool-cases (leb (length c.rest) n)) [
  | inl gone ↦ rw gone (cut-HasBytes (n - length c.rest) cs h.1)
  | inr part ↦
      let below : n < length c.rest = ground (arith, part) in
      rw part (omega (arith, below, length-drop n c.rest), h.1)
]

cut-cut : (m n : ℕ) (cs : List Chunk) → cut m (cut n cs) ≡ cut (n + m) cs
cut-cut m n [] = refl
cut-cut m n (c ∷ cs) = elim (Bool-cases (leb (length c.rest) n)) [
  | inl gone ↦
      let further : leb (length c.rest) (n + m) ≡ true = ground (arith, gone) in
      let less : (n - length c.rest) + m ≡ (n + m) - length c.rest = ground (arith, gone) in
      ap (cut m) (pick_true _ _ gone)
      ∙ cut-cut m (n - length c.rest) cs
      ∙ ap (λ k. cut k cs) less
      ∙ sym (pick_true _ _ further)
  | inr part ↦
      let sized = length-drop n c.rest in
      ap (cut m) (pick_false _ _ part) ∙ elim (Bool-cases (leb (length c.rest) (n + m))) [
        | inl gone ↦
            let all : leb (length (drop n c.rest)) m ≡ true = ground (arith, gone, part, sized) in
            let less : m - length (drop n c.rest) ≡ (n + m) - length c.rest =
              ground (arith, gone, part, sized) in
            pick_true _ _ all ∙ ap (λ k. cut k cs) less ∙ sym (pick_true _ _ gone)
        | inr still ↦
            let some_left : leb (length (drop n c.rest)) m ≡ false =
              ground (arith, still, part, sized) in
            pick_false _ _ some_left
            ∙ ap (λ (b : List ℕ). record c { rest = b } ∷ cs) (drop-drop n m c.rest)
            ∙ sym (pick_false _ _ still)
      ]
]

cut-append :
    (n : ℕ) (cs ds : List Chunk)
    → All HasBytes ds
    → cut (min n (length (bytes_of cs))) (cs ++ ds) ≡ cut n cs ++ ds
cut-append n [] ds h = ap (λ k. cut k ds) (omega arith) ∙ cut-zero ds h
cut-append n (c ∷ cs) ds h =
    let sized = length-append c.rest (bytes_of cs) in
    elim (Bool-cases (leb (length c.rest) n)) [
      | inl gone ↦
          let out : leb (length c.rest) (min n (length (bytes_of (c ∷ cs)))) ≡ true =
            ground (arith, gone, sized) in
          let less : min n (length (bytes_of (c ∷ cs))) - length c.rest
              ≡ min (n - length c.rest) (length (bytes_of cs)) =
            ground (arith, gone, sized) in
          pick_true _ _ out
          ∙ ap (λ k. cut k (cs ++ ds)) less
          ∙ cut-append (n - length c.rest) cs ds h
          ∙ ap (λ z. z ++ ds) (sym (pick_true _ _ gone))
      | inr part ↦
          let same : min n (length (bytes_of (c ∷ cs))) ≡ n = ground (arith, part, sized) in
          ap (λ k. cut k ((c ∷ cs) ++ ds)) same
          ∙ pick_false _ _ part
          ∙ ap (λ z. z ++ ds) (sym (pick_false _ _ part))
    ]

pub IsLeft-refl : (cs : List Chunk) → All HasBytes cs → IsLeft cs cs
IsLeft-refl cs h = (0, sym (cut-zero cs h))

pub IsLeft-trans : (cs ds es : List Chunk) → IsLeft cs ds → IsLeft ds es → IsLeft cs es
IsLeft-trans cs ds es (n, e) (m, f) = (n + m, f ∙ ap (cut m) e ∙ cut-cut m n cs)

pub IsLeft-HasBytes : (cs ds : List Chunk) → All HasBytes cs → IsLeft cs ds → All HasBytes ds
IsLeft-HasBytes cs ds h (n, e) = subst (All HasBytes) (sym e) (cut-HasBytes n cs h)

pub IsLeft-append :
    (cs ds es : List Chunk) → All HasBytes es → IsLeft cs ds → IsLeft (cs ++ es) (ds ++ es)
IsLeft-append cs ds es h (n, e) =
    (min n (length (bytes_of cs)), ap (λ z. z ++ es) e ∙ sym (cut-append n cs es h))

-- The front of a list may be gone as a whole.
pub IsLeft-behind : (cs ds : List Chunk) → All HasBytes ds → IsLeft (cs ++ ds) ds
IsLeft-behind cs ds h =
    IsLeft-append cs [] ds h
      (length (bytes_of cs), sym (cut_all (length (bytes_of cs)) cs (omega arith)))
