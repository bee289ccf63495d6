-- ===== src/Poller/Delay/Due.antt =====
-- Which tasks `flushDelayTask` calls, what it leaves, and the delay it reports.
use zltool_kit.Kit.{
  ℕ, zero, suc, ◌+◌, ◌≤◌, ◌<◌, ◌^◌, ◌≡◌, inl, inr, refl, ap, List, [], ◌∷◌, Option, none, some, ltb,
  leb, if◌then◌else◌, All, Bool-cases, arith,
}
use zltool_kit.Kit.Words.{u64}
use zltool_kit.Poller.Delay.{
  Call, emplace, insert_range, put_back, run_expired, delay_from, flush_delay_task,
}
use zltool_kit.Poller.Delay.Weight.{not_due, asked, weight, weight-insert_range, weight-run_expired}

-- The deadline after a delay does not overflow.
abbrev pub Fits : ℕ → Option ℕ → Type 0
Fits now none = Unit
Fits now (some d) = d + now < 2 ^ 64

module _ {A : Type 0} where
  -- The deadlines do not fall along the map.
  abbrev pub IsSorted : ℕ → List (ℕ × A) → Type 0
  IsSorted lo [] = Unit
  IsSorted lo (e ∷ es) = (lo ≤ e.0) × IsSorted e.0 es

  -- The tasks that are due.
  abbrev pub due : ℕ → List (ℕ × A) → List A
  due now [] = []
  due now (e ∷ es) = if leb e.0 now then e.1 ∷ due now es else due now es

  abbrev pub IsLater : ℕ → ℕ × A → Type 0
  IsLater now e = now < e.0

  -- A call asks for nothing at or before the present, and no deadline overflows.
  pub record IsPatient (now : ℕ) (c : Call A) : Type 0 where
    pub later : All (IsLater now) c.added
    pub fits : Fits now c.next_delay

  emplace-IsSorted :
      (lo : ℕ) (e : ℕ × A) (es : List (ℕ × A))
      → lo ≤ e.0
      → IsSorted lo es
      → IsSorted lo (emplace e es)
  unfolding emplace
  emplace-IsSorted lo e [] h s = (h, tt)
  emplace-IsSorted lo e (f ∷ fs) h s = elim (Bool-cases (ltb e.0 f.0)) [
    | inl b ↦ rw b (h, (ground arith, s.1))
    | inr b ↦ rw b (s.0, emplace-IsSorted f.0 e fs (ground arith) s.1)
  ]

  insert_range-IsSorted : (es fs : List (ℕ × A)) → IsSorted 0 fs → IsSorted 0 (insert_range es fs)
  unfolding insert_range
  insert_range-IsSorted [] fs s = s
  insert_range-IsSorted (e ∷ es) fs s =
      insert_range-IsSorted es (emplace e fs) (emplace-IsSorted 0 e fs (omega arith) s)

  emplace-All :
      (now : ℕ) (e : ℕ × A) (es : List (ℕ × A))
      → now < e.0
      → All (IsLater now) es
      → All (IsLater now) (emplace e es)
  unfolding emplace
  emplace-All now e [] h a = (h, tt)
  emplace-All now e (f ∷ fs) h a = elim (Bool-cases (ltb e.0 f.0)) [
    | inl b ↦ rw b (h, a)
    | inr b ↦ rw b (a.0, emplace-All now e fs h a.1)
  ]

  insert_range-All :
      (now : ℕ) (es fs : List (ℕ × A))
      → All (IsLater now) es
      → All (IsLater now) fs
      → All (IsLater now) (insert_range es fs)
  unfolding insert_range
  insert_range-All now [] fs a b = b
  insert_range-All now (e ∷ es) fs a b =
      insert_range-All now es (emplace e fs) a.1 (emplace-All now e fs a.0 b)

  put_back-All :
      (now : ℕ) (a : A) (c : Call A) (fresh : List (ℕ × A))
      → IsPatient now c
      → All (IsLater now) fresh
      → All (IsLater now) (put_back now a c.next_delay (insert_range c.added fresh))
  put_back-All now a c fresh p f =
      go c.next_delay p.fits (insert_range c.added fresh)
        (insert_range-All now c.added fresh p.later f)
    where
      go :
          (next : Option ℕ)
          → Fits now next
          → (fs : List (ℕ × A)) → All (IsLater now) fs
          → All (IsLater now) (put_back now a next fs)
      go none w fs h = h
      go (some zero) w fs h = h
      go (some (suc d)) w fs h = emplace-All now (u64 (suc d + now), a) fs (omega arith) h

  due_later : (now lo : ℕ) (es : List (ℕ × A)) → now < lo → IsSorted lo es → due now es ≡ []
  due_later now lo [] h s = refl
  due_later now lo (e ∷ es) h s = ground (arith, due_later now e.0 es)

  IsSorted-All : (now lo : ℕ) (es : List (ℕ × A)) → now < lo → IsSorted lo es → All (IsLater now) es
  IsSorted-All now lo [] h s = tt
  IsSorted-All now lo (e ∷ es) h s = (omega arith, IsSorted-All now e.0 es (omega arith) s.1)

  -- What the loop does.
  record Expires (now : ℕ) (es : List (ℕ × A)) (r : List (ℕ × A) × (List (ℕ × A) × List A))
      : Type 0 where
    pub called : r.1.1 ≡ due now es
    pub rest_later : All (IsLater now) r.0
    pub made_later : All (IsLater now) r.1.0
    pub rest_sorted : IsSorted 0 r.0

  IsSorted-weaken : (lo : ℕ) (es : List (ℕ × A)) → IsSorted lo es → IsSorted 0 es
  IsSorted-weaken lo [] s = tt
  IsSorted-weaken lo (e ∷ es) s = (omega arith, s.1)

  run_expired-Expires :
      (run : A → Call A) (now lo : ℕ) (es fresh : List (ℕ × A))
      → ((a : A) → IsPatient now (run a))
      → IsSorted lo es
      → All (IsLater now) fresh
      → Expires now es (run_expired run now es fresh)
  unfolding run_expired
  run_expired-Expires run now lo [] fresh p s f = record {
    called = refl;
    rest_later = tt;
    made_later = f;
    rest_sorted = tt;
  }
  run_expired-Expires run now lo (e ∷ es) fresh p s f =
      let c = run e.1 in
      let x =
        run_expired-Expires run now e.0 es
          (put_back now e.1 c.next_delay (insert_range c.added fresh)) p s.1
          (put_back-All now e.1 c fresh (p e.1) f) in
      elim (Bool-cases (leb e.0 now)) [
        | inl b ↦ rw b (record {
          called = rw b (ap (◌∷◌ e.1) x.called);
          rest_later = x.rest_later;
          made_later = x.made_later;
          rest_sorted = x.rest_sorted;
        })
        | inr b ↦
            let after : now < e.0 = ground arith in
            rw b (record {
              called = rw (b, due_later now e.0 es after s.1) refl;
              rest_later = (after, IsSorted-All now e.0 es after s.1);
              made_later = f;
              rest_sorted = (omega arith, s.1);
            })
      ]

  -- What `flushDelayTask` does.
  pub record Flushes (run : A → Call A) (now : ℕ) (es : List (ℕ × A))
      (r : ℕ × (List (ℕ × A) × List A)) : Type 0 where
    pub called : r.1.1 ≡ due now es
    pub entries :
        (m : ℕ × A → ℕ) → weight m r.1.0 ≡ weight m (not_due now es) + weight m (asked run now es)
    pub later : All (IsLater now) r.1.0
    pub sorted : IsSorted 0 r.1.0
    pub delay : r.0 ≡ delay_from now r.1.0

  -- If no task asks to be called again at or before the present, `flushDelayTask` calls exactly the
  -- tasks that are due, once each and in the order of their deadlines; the map then has exactly the entries that were
  -- not due and those that the called tasks asked for; it stays in order, all that is left in it is due
  -- later, and the delay returned is that of its first entry, or -1 if it is empty.
  pub flush_delay_task_lem :
      (run : A → Call A) (now : ℕ) (es : List (ℕ × A))
      → ((a : A) → IsPatient now (run a))
      → IsSorted 0 es
      → Flushes run now es (flush_delay_task run now es)
  unfolding flush_delay_task
  flush_delay_task_lem run now es p s =
      let x = run_expired-Expires run now 0 es [] p s tt in
      let r = run_expired run now es [] in
      record {
        called = x.called;
        entries =
            λ m. omega (arith, weight-insert_range m r.1.0 r.0, weight-run_expired m run now es []);
        later = insert_range-All now r.1.0 r.0 x.made_later x.rest_later;
        sorted = insert_range-IsSorted r.1.0 r.0 x.rest_sorted;
        delay = refl;
      }
