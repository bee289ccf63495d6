-- ===== src/Buffer/Like/View.antt =====
-- A `BufferLikeString` as three parts of its string: the hidden front, the visible bytes, the hidden
-- back. Each operation in these terms.
use zltool_kit.Kit.{
  ℕ, ◌+◌, ◌≤◌, ◌<◌, ◌^◌, ◌≡◌, ◌≢◌, refl, sym, ap, ◌∙◌, List, [], ◌∷◌, ◌++◌, none, some, length,
  take, drop, set, arith, append_assoc, append-nil, length-append, take-append_add, drop-append_add,
  set-append_add, take-append_length, drop-append_length, true, false, ltb, leb, ◌==◌,
  if◌then◌else◌,
}
use zltool_kit.Kit.Words.{u64, sub64}
use zltool_kit.Buffer.Like.{
  LikeString, npos, size, contents, put, terminate, string_insert, erase_front, erase_back,
  erase_middle, move_data, push_back, insert,
}

abbrev pub of_parts : List ℕ → List ℕ → List ℕ → LikeString
of_parts f m k = record { str = f ++ (m ++ k); erase_head = length f; erase_tail = length k }

-- The parts fit in memory.
abbrev pub IsSmall : List ℕ → List ℕ → List ℕ → Type 0
IsSmall f m k = length f + length m + length k + 1 < 2 ^ 64

pub parts_eq :
    {s t : List ℕ} {a b c d : ℕ}
    → s ≡ t
    → a ≡ b
    → c ≡ d
    → ◌≡◌ {A = LikeString}
        (record { str = s; erase_head = a; erase_tail = c })
        (record { str = t; erase_head = b; erase_tail = d })
parts_eq e g h = cc

length_parts : (f m k : List ℕ) → length (f ++ (m ++ k)) ≡ length f + length m + length k
length_parts f m k = omega (arith, length-append f (m ++ k), length-append m k)

pub size-of_parts : (f m k : List ℕ) → IsSmall f m k → size (of_parts f m k) ≡ length m
size-of_parts f m k h = omega (arith, length_parts f m k)

pub contents-of_parts : (f m k : List ℕ) → IsSmall f m k → contents (of_parts f m k) ≡ m
contents-of_parts f m k h =
    rw (size-of_parts f m k h, drop-append_length f (m ++ k)) (take-append_length m k)

-- A byte written behind the visible ones.
abbrev pub mark : ℕ → List ℕ → List ℕ
mark c k = set k 0 c

put-of_parts :
    (c : ℕ) (f m k : List ℕ) → set (f ++ (m ++ k)) (length f + length m) c ≡ f ++ (m ++ mark c k)
put-of_parts c f m k =
    set-append_add f (m ++ k) (length m) c
    ∙ ap (◌++◌ f) (
        ap (λ n. set (m ++ k) n c) {x = length m} {y = length m + 0} (omega arith)
        ∙ set-append_add m k 0 c)

length-mark : (c : ℕ) (k : List ℕ) → length (mark c k) ≡ length k
length-mark c [] = refl
length-mark c (x ∷ k) = refl

pub terminate-of_parts :
    (f m k : List ℕ) → IsSmall f m k → terminate (of_parts f m k) ≡ of_parts f m (mark 0 k)
unfolding terminate put
terminate-of_parts f m k h =
    rw (size-of_parts f m k h) (parts_eq (put-of_parts 0 f m k) refl (sym (length-mark 0 k)))

regroup : (f a b k : List ℕ) → f ++ ((a ++ b) ++ k) ≡ (f ++ a) ++ (b ++ k)
regroup f a b k = simp append_assoc

terminate_shifted :
    (f a b k : List ℕ) (h : ℕ)
    → IsSmall f (a ++ b) k
    → h ≡ length f + length a
    → terminate (record { str = f ++ ((a ++ b) ++ k); erase_head = h; erase_tail = length k })
      ≡ of_parts (f ++ a) b (mark 0 k)
terminate_shifted f a b k h w e =
    ap terminate (parts_eq (regroup f a b k) (omega (arith, e, length-append f a)) refl)
    ∙ terminate-of_parts (f ++ a) b k (omega (arith, w, length-append f a, length-append a b))

pub erase_front-of_parts :
    (f a b k : List ℕ)
    → IsSmall f (a ++ b) k
    → erase_front (length a) (of_parts f (a ++ b) k) ≡ some (of_parts (f ++ a) b (mark 0 k))
unfolding erase_front
erase_front-of_parts f a b k h =
    let sized = size-of_parts f (a ++ b) k h in
    let not_all : (length a == npos) ≡ false = ground (arith, length-append a b) in
    let inside : ltb (length (a ++ b)) (length a) ≡ false = ground (arith, length-append a b) in
    rw (not_all, sized, inside)
      (ap some (
        terminate_shifted f a b k (u64 (length f + length a)) h (omega (arith, length-append a b))))

pub erase_front_too_much :
    (n : ℕ) (f m k : List ℕ)
    → IsSmall f m k
    → length m < n
    → n ≢ npos
    → erase_front n (of_parts f m k) ≡ none
unfolding erase_front
erase_front_too_much n f m k h w e =
    let not_all : (n == npos) ≡ false = ground arith in
    let outside : ltb (length m) n ≡ true = ground arith in
    rw (not_all, size-of_parts f m k h, outside) refl

pub erase_front_all :
    (f m k : List ℕ)
    → IsSmall f m k
    → erase_front npos (of_parts f m k) ≡ some (of_parts [] [] (mark 0 (f ++ (m ++ k))))
unfolding erase_front put
erase_front_all f m k h = ap some (parts_eq refl refl (sym (length-mark 0 (f ++ (m ++ k)))))

pub erase_back-of_parts :
    (f a b k : List ℕ)
    → IsSmall f (a ++ b) k
    → 0 < length b
    → erase_back (length a) (of_parts f (a ++ b) k) ≡ some (of_parts f a (mark 0 (b ++ k)))
unfolding erase_back
erase_back-of_parts f a b k h w =
    let sized = size-of_parts f (a ++ b) k h in
    let inside : leb (length (a ++ b)) (length a) ≡ false = ground (arith, length-append a b) in
    rw (sized, inside)
      (ap some (
        ap terminate (
          parts_eq {t = f ++ (a ++ (b ++ k))} (simp append_assoc) refl
            (omega (arith, length-append a b, length-append b k)))
        ∙ terminate-of_parts f a (b ++ k) (omega (arith, h, length-append a b, length-append b k))))

pub erase_back_outside :
    (pos : ℕ) (f m k : List ℕ)
    → IsSmall f m k
    → length m ≤ pos
    → erase_back pos (of_parts f m k) ≡ none
unfolding erase_back
erase_back_outside pos f m k h w =
    let outside : leb (length m) pos ≡ true = ground arith in
    rw (size-of_parts f m k h, outside) refl

pub erase_middle-of_parts :
    (f a b c k : List ℕ)
    → IsSmall f (a ++ (b ++ c)) k
    → erase_middle (length a) (length b) (of_parts f (a ++ (b ++ c)) k)
      ≡ some (of_parts f (a ++ c) k)
unfolding erase_middle
erase_middle-of_parts f a b c k h =
    let sized = size-of_parts f (a ++ (b ++ c)) k h in
    let inside : ltb (length (a ++ (b ++ c))) (u64 (length a + length b)) ≡ false =
      ground (arith, length-append a (b ++ c), length-append b c) in
    let before : take (length f + length a) (f ++ ((a ++ (b ++ c)) ++ k)) ≡ f ++ a =
      take-append_add f ((a ++ (b ++ c)) ++ k) (length a)
      ∙ ap (◌++◌ f) (rw (append_assoc a (b ++ c) k) (take-append_length a ((b ++ c) ++ k))) in
    let after : drop (length f + length a + length b) (f ++ ((a ++ (b ++ c)) ++ k)) ≡ c ++ k =
      ap (λ n. drop n (f ++ ((a ++ (b ++ c)) ++ k))) {y = length f + (length a + length b)}
        (omega arith)
      ∙ drop-append_add f ((a ++ (b ++ c)) ++ k) (length a + length b)
      ∙ ap (drop (length a + length b)) {y = a ++ (b ++ (c ++ k))} (simp append_assoc)
      ∙ drop-append_add a (b ++ (c ++ k)) (length b)
      ∙ drop-append_length b (c ++ k) in
    rw (sized, inside) (ap some (parts_eq (rw (before, after) (simp append_assoc)) refl refl))

pub move_data-of_parts : (f m k : List ℕ) → move_data (of_parts f m k) ≡ of_parts [] m k
unfolding move_data
move_data-of_parts [] m k = refl
move_data-of_parts (x ∷ f) m k =
    let hidden : (length (x ∷ f) == 0) ≡ false = ground arith in
    rw hidden (parts_eq (drop-append_length f (m ++ k)) refl refl)

insert_end :
    (f m d k : List ℕ)
    → string_insert (length f + length m) d (f ++ (m ++ k)) ≡ f ++ ((m ++ d) ++ k)
insert_end f m d k =
    rw
      (
        take-append_add f (m ++ k) (length m),
        take-append_length m k,
        drop-append_add f (m ++ k) (length m),
        drop-append_length m k,
      )
      (simp append_assoc)

-- Behind the visible bytes, whether or not bytes are hidden there.
pub append_behind :
    (f m d k : List ℕ)
    → IsSmall f m k
    → (if (of_parts f m k).erase_tail == 0
        then record (of_parts f m k) { str = (of_parts f m k).str ++ d }
        else record (of_parts f m k) {
          str = string_insert (length f + size (of_parts f m k)) d (f ++ (m ++ k));
        })
      ≡ of_parts f (m ++ d) k
append_behind f m d [] h = parts_eq (simp (append-nil, append_assoc)) refl refl
append_behind f m d (x ∷ k) h =
    let hidden : (length (x ∷ k) == 0) ≡ false = ground arith in
    rw (hidden, size-of_parts f m (x ∷ k) h) (parts_eq (insert_end f m d (x ∷ k)) refl refl)

pub push_back-of_parts :
    (c : ℕ) (f m k : List ℕ)
    → IsSmall f m k
    → (k' : List ℕ) × (push_back c (of_parts f m k) ≡ of_parts f (m ++ c ∷ []) k')
      × (length k' ≤ length k)
unfolding push_back
push_back-of_parts c f m [] h =
    ([], parts_eq (simp (append-nil, append_assoc)) refl refl, omega arith)
push_back-of_parts c f m (x ∷ k) h =
    let hidden : (length (x ∷ k) == 0) ≡ false = ground arith in
    let written : LikeString = record (put (size (of_parts f m (x ∷ k))) c (of_parts f m (x ∷ k))) {
      erase_tail = sub64 (length (x ∷ k)) 1;
    } in
    let same : written ≡ of_parts f (m ++ c ∷ []) k =
      unfold put in
      rw (size-of_parts f m (x ∷ k) h)
        (parts_eq (put-of_parts c f m (x ∷ k) ∙ simp append_assoc) refl (omega arith)) in
    (
      mark 0 k,
      rw hidden (
          ap terminate same
          ∙ terminate-of_parts f (m ++ c ∷ []) k (omega (arith, h, length-append m (c ∷ [])))),
      omega (arith, length-mark 0 k),
    )

pub insert-of_parts :
    (f a b d k : List ℕ)
    → insert (length a) d (of_parts f (a ++ b) k) ≡ some (of_parts f (a ++ (d ++ b)) k)
unfolding insert
insert-of_parts f a b d k =
    let inside : ltb (length (f ++ ((a ++ b) ++ k))) (length f + length a) ≡ false =
      ground (arith, length_parts f (a ++ b) k, length-append a b) in
    rw inside (
      ap some (
        parts_eq
          (ap (string_insert (length f + length a) d) {y = f ++ (a ++ (b ++ k))} (simp append_assoc)
            ∙ insert_end f a d (b ++ k)
            ∙ simp append_assoc)
          refl refl))
