-- ===== src/Ring/Dispatcher/Sweep.antt =====
-- The readers that a write calls, and the count of the readers.
use zltool_kit.Kit.{
  ℕ, ◌+◌, ◌-◌, ◌≤◌, ◌<◌, ◌^◌, ◌≡◌, inl, inr, refl, ap, ◌∙◌, Bool, List, [], ◌∷◌, ◌++◌, arith,
  length, map, Bool-cases, if◌then◌else◌,
}
use zltool_kit.Kit.Words.{sub32}
use zltool_kit.Ring.Storage.{write}
use zltool_kit.Ring.Dispatcher.{
  Note, on_read, on_message, on_detach, size_changed, Dispatcher, sweep, dispatch_write,
}

-- The readers that are still there.
abbrev pub living : (ℕ → Bool) → List ℕ → List ℕ
living alive [] = []
living alive (r ∷ rs) = if alive r then r ∷ living alive rs else living alive rs

length-living : (alive : ℕ → Bool) (rs : List ℕ) → length (living alive rs) ≤ length rs
length-living alive [] = omega arith
length-living alive (r ∷ rs) = ground (arith, length-living alive rs)

module _ {T M : Type 0} where
  -- The calls of readers among the notes.
  abbrev pub calls : List (Note T M) → List (Note T M)
  calls [] = []
  calls (size_changed n add ∷ ns) = calls ns
  calls (n ∷ ns) = n ∷ calls ns

  -- The count is the number of entries of the map.
  pub record IsCounted (d : Dispatcher T M) : Type 0 where
    pub counted : d.reader_size ≡ length d.readers
    pub few : length d.readers < 2 ^ 31

  sweep_kept :
      (alive : ℕ → Bool) (call : ℕ → Note T M) (size : ℕ) (rs : List ℕ)
      → (sweep alive call size rs).kept ≡ living alive rs
  unfolding sweep
  sweep_kept alive call size [] = refl
  sweep_kept alive call size (r ∷ rs) = elim (Bool-cases (alive r)) [
    | inl e ↦ rw e (ap (◌∷◌ r) (sweep_kept alive call size rs))
    | inr e ↦ rw e (sweep_kept alive call (sub32 size 1) rs)
  ]

  sweep_size :
      (alive : ℕ → Bool) (call : ℕ → Note T M) (size : ℕ) (rs : List ℕ)
      → length rs ≤ size
      → size < 2 ^ 31
      → (sweep alive call size rs).size + length rs ≡ size + length (living alive rs)
  unfolding sweep
  sweep_size alive call size [] h w = omega arith
  sweep_size alive call size (r ∷ rs) h w = elim (Bool-cases (alive r)) [
    | inl e ↦ rw e (omega (arith, sweep_size alive call size rs (omega arith) w))
    | inr e ↦
        let less : sub32 size 1 ≡ size - 1 = omega arith in
        rw e
          (omega (arith, less, sweep_size alive call (sub32 size 1) rs (omega arith) (omega arith)))
  ]

  calls-sweep :
      (alive : ℕ → Bool) (x : T) (is_key : Bool) (size : ℕ) (rs : List ℕ)
      → calls (sweep alive (λ r. on_read r x is_key) size rs).made
        ≡ map (λ r. on_read r x is_key) (living alive rs)
  unfolding sweep
  calls-sweep alive x is_key size [] = refl
  calls-sweep alive x is_key size (r ∷ rs) = elim (Bool-cases (alive r)) [
    | inl e ↦ rw e (ap (◌∷◌ (on_read r x is_key)) (calls-sweep alive x is_key size rs))
    | inr e ↦ rw e (calls-sweep alive x is_key (sub32 size 1) rs)
  ]

  calls-append : (ms ns : List (Note T M)) → calls (ms ++ ns) ≡ calls ms ++ calls ns
  calls-append [] ns = refl
  calls-append (size_changed n add ∷ ms) ns = calls-append ms ns
  calls-append (on_read r x k ∷ ms) ns = ap (◌∷◌ (on_read r x k)) (calls-append ms ns)
  calls-append (on_message r m ∷ ms) ns = ap (◌∷◌ (on_message r m)) (calls-append ms ns)
  calls-append (on_detach r ∷ ms) ns = ap (◌∷◌ (on_detach r)) (calls-append ms ns)

  -- What a write does.
  pub record Delivers (alive : ℕ → Bool) (x : T) (is_key : Bool) (d e : Dispatcher T M)
      : Type 0 where
    pub remaining : e.readers ≡ living alive d.readers
    pub called :
        calls e.notes ≡ calls d.notes ++ map (λ r. on_read r x is_key) (living alive d.readers)
    pub cached : e.storage ≡ write x is_key d.storage
    pub right : IsCounted e

  -- A write hands the frame to every reader that is still there, once each, in the order of the map and
  -- after all earlier calls; it erases the others, puts the frame in the cache, and the count stays the
  -- number of the readers in the map.
  pub dispatch_write_lem :
      (alive : ℕ → Bool) (x : T) (is_key : Bool) (d : Dispatcher T M)
      → IsCounted d
      → Delivers alive x is_key d (dispatch_write alive x is_key d)
  unfolding dispatch_write
  dispatch_write_lem alive x is_key d c =
      let call : ℕ → Note T M = λ r. on_read r x is_key in
      let kept = sweep_kept alive call d.reader_size d.readers in
      let size =
        sweep_size alive call d.reader_size d.readers (omega (arith, c.counted))
          (omega (arith, c.counted, c.few)) in
      record {
        remaining = kept;
        called =
            calls-append d.notes (sweep alive call d.reader_size d.readers).made
            ∙ ap (◌++◌ (calls d.notes)) (calls-sweep alive x is_key d.reader_size d.readers);
        cached = refl;
        right = record {
          counted = omega (arith, size, ap length kept, c.counted);
          few = omega (arith, ap length kept, length-living alive d.readers, c.few);
        };
      }
