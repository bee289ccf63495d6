-- ===== src/Ring/Storage/Laws.antt =====
-- The limits of the cache, and the frames it holds.
use zltool_kit.Kit.{
  ℕ, suc, ◌+◌, ◌-◌, ◌≤◌, ◌<◌, ◌^◌, ◌≡◌, ◌⊎◌, inl, inr, refl, sym, ap, ◌∙◌, Bool, true, false, not,
  ◌&&◌, ◌||◌, List, [], ◌∷◌, ◌++◌, arith, length, concat, max, ltb, if◌then◌else◌, Bool-cases,
  append_assoc, append-nil, length-append,
}
use zltool_kit.Kit.Words.{sub64, u64}
use zltool_kit.Ring.Storage.{
  Storage, Gop, clear_cache, new_storage, pop_front_gop, pop_gop, front_size, back_is_empty,
  push_back, open_gop, drop_old, trim, append_frame, write,
}

module _ {T : Type 0} where
  -- The frames in the cache.
  abbrev pub total : List (Gop T) → ℕ
  total [] = 0
  total (g ∷ gs) = length g + total gs

  pub total-concat : (gs : List (Gop T)) → length (concat gs) ≡ total gs
  total-concat [] = refl
  total-concat (g ∷ gs) = omega (arith, length-append g (concat gs), total-concat gs)

  -- The size is the number of frames, within the limit, and the numbers of groups too.
  pub record IsValid (s : Storage T) : Type 0 where
    pub inhabited : 0 < length s.cache
    pub counted : s.size ≡ total s.cache
    pub bounded : s.size ≤ s.max_size
    pub grouped : length s.cache ≤ max 1 s.max_gop_size
    pub sane : s.max_size + 1 < 2 ^ 64

  pub new_storage-IsValid :
      (max_size max_gop_size : ℕ)
      → max_size + 1 < 2 ^ 64
      → IsValid (new_storage {T = T} max_size max_gop_size)
  unfolding new_storage
  new_storage-IsValid m g h = ground arith

  total-append_fresh : (gs : List (Gop T)) → total (gs ++ [] ∷ []) ≡ total gs
  total-append_fresh [] = refl
  total-append_fresh (g ∷ gs) = omega (arith, total-append_fresh gs)

  total-push_back :
      (x : Bool × T) (gs : List (Gop T)) → 0 < length gs → total (push_back x gs) ≡ total gs + 1
  total-push_back x [] h = absurd (omega arith)
  total-push_back x (g ∷ []) h = omega (arith, length-append g (x ∷ []))
  total-push_back x (g ∷ h' ∷ gs) h = omega (arith, total-push_back x (h' ∷ gs))

  length-push_back : (x : Bool × T) (gs : List (Gop T)) → length (push_back x gs) ≡ length gs
  length-push_back x [] = refl
  length-push_back x (g ∷ []) = refl
  length-push_back x (g ∷ h' ∷ gs) = ap suc (length-push_back x (h' ∷ gs))

  total-pop_gop : (gs : List (Gop T)) → total (pop_gop gs) + front_size gs ≡ total gs
  total-pop_gop [] = refl
  total-pop_gop (g ∷ []) = omega arith
  total-pop_gop (g ∷ h ∷ gs) = omega arith

  length-pop_gop : (gs : List (Gop T)) → 0 < length gs → length (pop_gop gs) ≡ max 1 (length gs - 1)
  length-pop_gop [] h = absurd (omega arith)
  length-pop_gop (g ∷ []) h = omega arith
  length-pop_gop (g ∷ h' ∷ gs) h = omega arith

  open_gop-IsValid : (s : Storage T) → IsValid s → IsValid (open_gop s)
  unfolding open_gop pop_front_gop
  open_gop-IsValid s v = elim (Bool-cases (back_is_empty s.cache)) [
    | inl e ↦ rw e (ground (arith, total-pop_gop s.cache, length-pop_gop s.cache))
    | inr e ↦ rw e (
        ground (
          arith,
          total-append_fresh s.cache,
          length-append s.cache ([] ∷ []),
          total-pop_gop (s.cache ++ [] ∷ []),
          length-pop_gop (s.cache ++ [] ∷ []),
        ))
  ]

  -- What the loop over the old groups leaves: it stops within the limit, or at the last group.
  pub record Drops (max_size size : ℕ) (gs : List (Gop T)) (r : ℕ × List (Gop T)) : Type 0 where
    pub dropped : List (Gop T)
    pub split : gs ≡ dropped ++ r.1
    pub counted : r.0 ≡ total r.1
    pub smaller : r.0 ≤ size
    pub inhabited : 0 < length r.1
    pub stops : (r.0 ≤ max_size) ⊎ (length r.1 ≡ 1)

  drop_old-Drops :
      (max_size size : ℕ) (gs : List (Gop T))
      → 0 < length gs
      → size ≡ total gs
      → size < 2 ^ 64
      → Drops max_size size gs (drop_old max_size size gs)
  unfolding drop_old
  drop_old-Drops m size [] h e w = absurd (omega arith)
  drop_old-Drops m size (g ∷ []) h e w = record {
    dropped = [];
    split = refl;
    counted = e;
    smaller = omega arith;
    inhabited = omega arith;
    stops = inr refl;
  }
  drop_old-Drops m size (g ∷ h' ∷ gs) h e w = elim (Bool-cases (ltb m size)) [
    | inl over ↦
        let left : sub64 size (length g) ≡ total (h' ∷ gs) = omega arith in
        let d =
          drop_old-Drops m (sub64 size (length g)) (h' ∷ gs) (omega arith) left (omega arith) in
        rw over (record {
          dropped = g ∷ d.dropped;
          split = ap (◌∷◌ g) d.split;
          counted = d.counted;
          smaller = omega (arith, d.smaller);
          inhabited = d.inhabited;
          stops = d.stops;
        })
    | inr within ↦ rw within (record {
      dropped = [];
      split = refl;
      counted = e;
      smaller = omega arith;
      inhabited = omega arith;
      stops = inl (ground arith);
    })
  ]

  trim-IsValid :
      (s : Storage T)
      → 0 < length s.cache
      → s.size ≡ total s.cache
      → s.size < 2 ^ 64
      → length s.cache ≤ max 1 s.max_gop_size
      → s.max_size + 1 < 2 ^ 64
      → IsValid (trim s)
  unfolding trim clear_cache
  trim-IsValid s i c w g b =
      let d = drop_old-Drops s.max_size s.size s.cache i c w in
      let shorter : length (drop_old s.max_size s.size s.cache).1 ≤ length s.cache = omega (
        arith,
        ap length d.split,
        length-append d.dropped (drop_old s.max_size s.size s.cache).1,
      ) in
      ground (arith, d.counted, d.inhabited, shorter)

  append_frame-IsValid : (x : Bool × T) (s : Storage T) → IsValid s → IsValid (append_frame x s)
  unfolding append_frame
  append_frame-IsValid x s v =
      let grown : Storage T = record s { size = u64 (s.size + 1); cache = push_back x s.cache } in
      let more = total-push_back x s.cache v.inhabited in
      let trimmed : IsValid (trim grown) =
        trim-IsValid grown (omega (arith, length-push_back x s.cache, v.inhabited))
          (omega (arith, more, v.counted, v.bounded, v.sane)) (omega arith)
          (omega (arith, length-push_back x s.cache, v.grouped)) v.sane in
      elim (Bool-cases (ltb s.max_size (u64 (s.size + 1)))) [
        | inl over ↦ rw over trimmed
        | inr within ↦ rw within (record {
          inhabited = omega (arith, length-push_back x s.cache, v.inhabited);
          counted = omega (arith, more, v.counted, v.bounded, v.sane);
          bounded = ground arith;
          grouped = omega (arith, length-push_back x s.cache, v.grouped);
          sane = v.sane;
        })
      ]

  -- Every write keeps the size equal to the number of frames held, within the limit on frames, and the
  -- number of groups within its limit; the cache always has a group to write to.
  pub write-IsValid :
      (x : T) (is_key : Bool) (s : Storage T) → IsValid s → IsValid (write x is_key s)
  unfolding write
  write-IsValid x true s v =
      let o = open_gop-IsValid s v in
      ground (arith, o, append_frame-IsValid (true, x) (open_gop s) o)
  write-IsValid x false s v = ground (arith, append_frame-IsValid (false, x) s v)

  -- `ys` is what is left of `xs` when some frames are taken off the front.
  abbrev pub IsLatest : Gop T → Gop T → Type 0
  IsLatest ys xs = (old : Gop T) × (xs ≡ old ++ ys)

  IsLatest-trans : (xs ys zs : Gop T) → IsLatest zs ys → IsLatest ys xs → IsLatest zs xs
  IsLatest-trans xs ys zs (a, e) (b, f) = (b ++ a, f ∙ ap (◌++◌ b) e ∙ sym (append_assoc b a zs))

  concat-append_fresh : (gs : List (Gop T)) → concat (gs ++ [] ∷ []) ≡ concat gs
  concat-append_fresh [] = refl
  concat-append_fresh (g ∷ gs) = ap (◌++◌ g) (concat-append_fresh gs)

  concat-push_back :
      (x : Bool × T) (gs : List (Gop T))
      → 0 < length gs
      → concat (push_back x gs) ≡ concat gs ++ x ∷ []
  concat-push_back x [] h = absurd (omega arith)
  concat-push_back x (g ∷ []) h = simp (append-nil)
  concat-push_back x (g ∷ h' ∷ gs) h =
      ap (◌++◌ g) (concat-push_back x (h' ∷ gs) (omega arith))
      ∙ sym (append_assoc g (concat (h' ∷ gs)) (x ∷ []))

  pop_gop-IsLatest : (gs : List (Gop T)) → IsLatest (concat (pop_gop gs)) (concat gs)
  pop_gop-IsLatest [] = ([], refl)
  pop_gop-IsLatest (g ∷ []) = (g, refl)
  pop_gop-IsLatest (g ∷ h ∷ gs) = (g, refl)

  open_gop-IsLatest : (s : Storage T) → IsLatest (concat (open_gop s).cache) (concat s.cache)
  unfolding open_gop pop_front_gop
  open_gop-IsLatest s =
      let opened : List (Gop T) = if back_is_empty s.cache then s.cache else s.cache ++ [] ∷ [] in
      let same : concat s.cache ≡ concat opened = ground (arith, concat-append_fresh s.cache) in
      elim (Bool-cases (ltb s.max_gop_size (length opened))) [
        | inl over ↦ rw over ((pop_gop-IsLatest opened).0, same ∙ (pop_gop-IsLatest opened).1)
        | inr within ↦ rw within ([], same)
      ]

  concat-append : (gs hs : List (Gop T)) → concat (gs ++ hs) ≡ concat gs ++ concat hs
  concat-append [] hs = refl
  concat-append (g ∷ gs) hs =
      ap (◌++◌ g) (concat-append gs hs) ∙ sym (append_assoc g (concat gs) (concat hs))

  trim-IsLatest :
      (s : Storage T)
      → 0 < length s.cache
      → s.size ≡ total s.cache
      → s.size < 2 ^ 64
      → IsLatest (concat (trim s).cache) (concat s.cache)
  unfolding trim clear_cache
  trim-IsLatest s i c w =
      let d = drop_old-Drops s.max_size s.size s.cache i c w in
      let rest = (drop_old s.max_size s.size s.cache).1 in
      elim (Bool-cases (ltb s.max_size (drop_old s.max_size s.size s.cache).0)) [
        | inl over ↦ rw over (concat s.cache, sym (append-nil (concat s.cache)))
        | inr within ↦
            rw within (concat d.dropped, ap concat d.split ∙ concat-append d.dropped rest)
      ]

  append_frame-IsLatest :
      (x : Bool × T) (s : Storage T)
      → IsValid s
      → IsLatest (concat (append_frame x s).cache) (concat s.cache ++ x ∷ [])
  unfolding append_frame
  append_frame-IsLatest x s v =
      let grown : Storage T = record s { size = u64 (s.size + 1); cache = push_back x s.cache } in
      let more = total-push_back x s.cache v.inhabited in
      let (old, e) =
        trim-IsLatest grown (omega (arith, length-push_back x s.cache, v.inhabited))
          (omega (arith, more, v.counted, v.bounded, v.sane)) (omega arith) in
      let same = sym (concat-push_back x s.cache v.inhabited) in
      elim (Bool-cases (ltb s.max_size (u64 (s.size + 1)))) [
        | inl over ↦ rw over (old, same ∙ e)
        | inr within ↦ rw within ([], same)
      ]

  -- Whether a write is kept: a key frame always, another one unless the cache was reset after the
  -- first key frame and none has come since.
  abbrev pub keeps : Bool → Storage T → Bool
  keeps is_key s = is_key || (s.have_idr || not s.started)

  -- After a write that is kept, the cache holds the latest frames: those it held and the new one,
  -- but for some of the oldest.
  pub write-IsLatest :
      (x : T) (is_key : Bool) (s : Storage T)
      → IsValid s
      → keeps is_key s ≡ true
      → IsLatest (concat (write x is_key s).cache) (concat s.cache ++ (is_key, x) ∷ [])
  unfolding write
  write-IsLatest x true s v k =
      let o = open_gop-IsValid s v in
      let (a, e) = open_gop-IsLatest s in
      let (b, f) = append_frame-IsLatest (true, x) (open_gop s) o in
      let kept : (not (open_gop s).have_idr && (open_gop s).started) ≡ false =
        unfold open_gop pop_front_gop in ground arith in
      rw kept (
        a ++ b,
        ap (λ c. c ++ (true, x) ∷ []) e
            ∙ append_assoc a (concat (open_gop s).cache) ((true, x) ∷ [])
            ∙ ap (◌++◌ a) f
            ∙ sym (append_assoc a b (concat (append_frame (true, x) (open_gop s)).cache)),
      )
  write-IsLatest x false s v k =
      let kept : (not s.have_idr && s.started) ≡ false = ground arith in
      rw kept (append_frame-IsLatest (false, x) s v)
