-- ===== src/Poller/Timer/Repeats.antt =====
-- When a timer is called again.
use zltool_kit.Kit.{
  ℕ, zero, suc, ◌+◌, ◌≡◌, ◌≢◌, refl, ap, ◌∙◌, false, ◌&&◌, List, [], ◌∷◌, ◌++◌, some, ltb, leb,
  ◌==◌, if◌then◌else◌, inl, inr, Bool-cases, arith, pick_true, pick_false,
}
use mathlib.Core.Path.{subst}
use zltool_kit.Kit.Words.{u64}
use zltool_kit.Poller.Delay.{emplace, insert_range, put_back, run_expired, flush_delay_task}
use zltool_kit.Poller.Timer.{
  Answer, again, enough, throws, Timer, Timers, timer_of, timer_task, call_task, run_timer,
  flush_timers,
}

abbrev pub is_entry : ℕ → ℕ → ℕ × ℕ → ℕ
is_entry at t e = if (e.0 == at) && (e.1 == t) then 1 else 0

-- How often a timer stands in a map with a deadline.
abbrev pub times : ℕ → ℕ → List (ℕ × ℕ) → ℕ
times at t [] = 0
times at t (e ∷ es) = is_entry at t e + times at t es

-- The entries that are not due yet, and the new entries of those that are.
abbrev pub not_due : ℕ → List (ℕ × ℕ) → List (ℕ × ℕ)
not_due now [] = []
not_due now (e ∷ es) = let rest = not_due now es in if leb e.0 now then rest else e ∷ es

abbrev pub renewed : ℕ → ℕ → ℕ → List (ℕ × ℕ)
renewed now t zero = []
renewed now t (suc d) = (u64 (suc d + now), t) ∷ []

-- After how long a timer is called again: never once it is deleted or has had enough.
abbrev pub asked : Timer → Answer → ℕ
asked timer again = if timer.strong then timer.interval else 0
asked timer enough = 0
asked timer throws = if timer.strong then timer.interval else 0

call_task-asked : (timer : Timer) (answer : Answer) → call_task timer answer ≡ asked timer answer
unfolding call_task timer_task
call_task-asked timer again = refl
call_task-asked timer enough = elim (Bool-cases timer.strong) [
  | inl b ↦ pick_true 0 0 b
  | inr b ↦ pick_false 0 0 b
]
call_task-asked timer throws = refl

abbrev pub renewals : Timers → (ℕ → Answer) → ℕ → List (ℕ × ℕ) → List (ℕ × ℕ)
renewals s answers now [] = []
renewals s answers now (e ∷ es) =
    let rest = renewals s answers now es in
    if leb e.0 now then renewed now e.1 (asked (timer_of e.1 s) (answers e.1)) ++ rest else []

module _ (at t : ℕ) where
  times-append : (xs ys : List (ℕ × ℕ)) → times at t (xs ++ ys) ≡ times at t xs + times at t ys
  times-append [] ys = omega arith
  times-append (x ∷ xs) ys = omega (arith, times-append xs ys)

  times-emplace :
      (e : ℕ × ℕ) (es : List (ℕ × ℕ)) → times at t (emplace e es) ≡ is_entry at t e + times at t es
  unfolding emplace
  times-emplace e [] = refl
  times-emplace e (f ∷ fs) = elim (Bool-cases (ltb e.0 f.0)) [
    | inl b ↦ ap (times at t) (pick_true _ _ b)
    | inr b ↦ ap (times at t) (pick_false _ _ b) ∙ omega (arith, times-emplace e fs)
  ]

  times-insert_range :
      (es fs : List (ℕ × ℕ)) → times at t (insert_range es fs) ≡ times at t es + times at t fs
  unfolding insert_range
  times-insert_range [] fs = omega arith
  times-insert_range (e ∷ es) fs =
      omega (arith, times-insert_range es (emplace e fs), times-emplace e fs)

  times-put_back :
      (now a d : ℕ) (fresh : List (ℕ × ℕ))
      → times at t (put_back now a (some d) fresh) ≡ times at t (renewed now a d) + times at t fresh
  times-put_back now a zero fresh = omega arith
  times-put_back now a (suc d) fresh = times-emplace (u64 (suc d + now), a) fresh ∙ omega arith

  -- The loop over the map, from a map of new entries on.
  times-run_expired :
      (s : Timers) (answers : ℕ → Answer) (now : ℕ) (es fresh : List (ℕ × ℕ))
      → let r = run_expired (run_timer s answers) now es fresh in
        times at t r.1.0 + times at t r.0
        ≡ times at t fresh + (times at t (not_due now es) + times at t (renewals s answers now es))
  unfolding run_expired run_timer insert_range
  times-run_expired s answers now [] fresh = omega arith
  times-run_expired s answers now (e ∷ es) fresh = elim (Bool-cases (leb e.0 now)) [
    | inl b ↦
        let d = call_task (timer_of e.1 s) (answers e.1) in
        let ih = times-run_expired s answers now es (put_back now e.1 (some d) fresh) in
        let more = renewals s answers now es in
        let a = asked (timer_of e.1 s) (answers e.1) in
        let same = call_task-asked (timer_of e.1 s) (answers e.1) in
        rw b (
          omega (
            arith,
            ih,
            times-put_back now e.1 d fresh,
            ap (λ k. times at t (renewed now e.1 k)) same,
            times-append (renewed now e.1 a) more,
          ))
    | inr b ↦ rw b (omega arith)
  ]

-- A round of the delayed tasks walks the map up to the first entry that is not due, keeps the entries from there on, and,
-- for each entry before it whose timer is still there, has an interval that is not zero, and has a callback that asked
-- to be called again or threw, makes an entry of that timer one interval after the present, modulo 2 ^ 64; a timer
-- that was deleted, or whose callback had enough, gets none.
pub flush_timers_lem :
    (now : ℕ) (answers : ℕ → Answer) (s : Timers) (at t : ℕ)
    → times at t (flush_timers now answers s).tasks
      ≡ times at t (not_due now s.tasks) + times at t (renewals s answers now s.tasks)
unfolding flush_timers flush_delay_task
flush_timers_lem now answers s at t =
    let r = run_expired (run_timer s answers) now s.tasks [] in
    omega
      (arith, times-insert_range at t r.1.0 r.0, times-run_expired at t s answers now s.tasks [])

renewed_other : (now at t a d : ℕ) → a ≢ t → times at t (renewed now a d) ≡ 0
renewed_other now at t a zero apart = refl
renewed_other now at t a (suc d) apart = ground (arith, apart)

asked_deleted : (timer : Timer) (answer : Answer) → timer.strong ≡ false → asked timer answer ≡ 0
asked_deleted timer again h = pick_false timer.interval 0 h
asked_deleted timer enough h = refl
asked_deleted timer throws h = pick_false timer.interval 0 h

unrenewed :
    (now : ℕ) (answers : ℕ → Answer) (s : Timers) (at t a : ℕ)
    → (timer_of t s).strong ≡ false
    → times at t (renewed now a (asked (timer_of a s) (answers a))) ≡ 0
unrenewed now answers s at t a h = elim (Bool-cases (a == t)) [
  | inl same ↦
      let key : t ≡ a = ground (arith, same) in
      let off : (timer_of a s).strong ≡ false = subst (λ k. (timer_of k s).strong ≡ false) key h in
      ap (λ d. times at t (renewed now a d)) (asked_deleted (timer_of a s) (answers a) off)
  | inr other ↦
      let apart : a ≢ t = ground (arith, other) in
      renewed_other now at t a (asked (timer_of a s) (answers a)) apart
]

no_renewal :
    (now : ℕ) (answers : ℕ → Answer) (s : Timers) (at t : ℕ) (es : List (ℕ × ℕ))
    → (timer_of t s).strong ≡ false
    → times at t (renewals s answers now es) ≡ 0
no_renewal now answers s at t [] h = refl
no_renewal now answers s at t (e ∷ es) h = elim (Bool-cases (leb e.0 now)) [
  | inl b ↦
      let d = asked (timer_of e.1 s) (answers e.1) in
      rw b (
        omega (
          arith,
          times-append at t (renewed now e.1 d) (renewals s answers now es),
          unrenewed now answers s at t e.1 h,
          no_renewal now answers s at t es h,
        ))
  | inr b ↦ rw b refl
]

-- Once a timer is deleted, a round of the delayed tasks leaves of it only the entries that were not due: its callback does not
-- run, and no entry is made for it.
pub deleted_lem :
    (now : ℕ) (answers : ℕ → Answer) (s : Timers) (at t : ℕ)
    → (timer_of t s).strong ≡ false
    → times at t (flush_timers now answers s).tasks ≡ times at t (not_due now s.tasks)
deleted_lem now answers s at t h =
    omega (arith, flush_timers_lem now answers s at t, no_renewal now answers s at t s.tasks h)
