-- ===== src/Thread/Load/Bounds.antt =====
-- The range of the load.
use zltool_kit.Kit.{
  ℕ, zero, suc, ◌+◌, ◌*◌, ◌^◌, ◌≤◌, ◌<◌, ◌≡◌, inl, inr, ◌||◌, List, [], ◌∷◌, ltb, if◌then◌else◌,
  length, arith, Bool-cases,
}
use zltool_kit.Kit.Words.{u64, sub64}
use zltool_kit.Thread.Load.{
  TimeRecord, LoadCounter, Totals, add_time, take_time, sum_times, add_current, drop_times, percent,
  load,
}

-- The run and the sleep times of a list of records.
abbrev pub run_time : List TimeRecord → ℕ
run_time [] = 0
run_time (r ∷ rs) = (if r.sleep then 0 else r.time) + run_time rs

abbrev pub sleep_time : List TimeRecord → ℕ
sleep_time [] = 0
sleep_time (r ∷ rs) = (if r.sleep then r.time else 0) + sleep_time rs

sum_times_lem :
    (rs : List TimeRecord) (t : Totals)
    → t.slept + sleep_time rs < 2 ^ 64
    → t.ran + run_time rs < 2 ^ 64
    → ((sum_times rs t).slept ≡ t.slept + sleep_time rs)
      × ((sum_times rs t).ran ≡ t.ran + run_time rs)
unfolding sum_times
sum_times_lem [] t hs hr = (omega arith, omega arith)
sum_times_lem (r ∷ rs) t hs hr =
    let fits_slept : (add_time r t).slept + sleep_time rs < 2 ^ 64 = ground arith in
    let fits_ran : (add_time r t).ran + run_time rs < 2 ^ 64 = ground arith in
    ground (arith, sum_times_lem rs (add_time r t) fits_slept fits_ran)

-- The totals are those of the records and of the current run or sleep, and add up.
record Adds (total : ℕ) (t : Totals) (rs : List TimeRecord) : Type 0 where
  pub slept : sleep_time rs ≤ t.slept
  pub ran : run_time rs ≤ t.ran
  pub adds : total ≡ t.slept + t.ran

drop_times-Adds :
    (max_size max_usec : ℕ) (rs : List TimeRecord) (total : ℕ) (t : Totals)
    → Adds total t rs
    → total < 2 ^ 64
    → let d = drop_times max_size max_usec rs total t in
      Adds d.total d.totals d.records × (d.total ≤ total)
unfolding drop_times
drop_times-Adds m u [] total t a w = (a, omega arith)
drop_times-Adds m u (r ∷ rs) total t a w =
    let left : Adds (sub64 total r.time) (take_time r t) rs = ground (arith, a) in
    let (d, le) = drop_times-Adds m u rs (sub64 total r.time) (take_time r t) left (omega arith) in
    let smaller : sub64 total r.time ≤ total = ground (arith, a) in
    elim (Bool-cases (ltb u total || ltb m (length (r ∷ rs)))) [
      | inl e ↦ rw e (d, omega (arith, le, smaller))
      | inr e ↦ rw e (a, omega arith)
    ]

percent_le : (ran total : ℕ) → ran ≤ total → total * 100 < 2 ^ 64 → percent ran total ≤ 100
percent_le ran zero h w = omega arith
percent_le ran (suc total) h w = grind arith

-- The load is a percentage: at most 100, if the recorded times and the time since the last record add
-- up to less than 2^64 / 100 microseconds, and the clock has not gone back since the last record.
pub load_le_hundred :
    (now : ℕ) (c : LoadCounter)
    → (run_time c.time_list + sleep_time c.time_list + now) * 100 < 2 ^ 64
    → c.last_sleep_time ≤ now
    → c.last_wake_time ≤ now
    → (load now c).0 ≤ 100
unfolding load add_current
load_le_hundred now c w hs hw =
    let start : Totals = record { slept = 0; ran = 0 } in
    let summed = sum_times_lem c.time_list start (omega arith) (omega arith) in
    let t = add_current now c (sum_times c.time_list start) in
    let a : Adds (u64 (t.ran + t.slept)) t c.time_list = ground (arith, summed) in
    let small : u64 (t.ran + t.slept) * 100 < 2 ^ 64 = ground (arith, summed) in
    let (d, le) =
      drop_times-Adds c.max_size c.max_usec c.time_list (u64 (t.ran + t.slept)) t a (omega arith) in
    let r = drop_times c.max_size c.max_usec c.time_list (u64 (t.ran + t.slept)) t in
    percent_le r.totals.ran r.total (omega (arith, d.adds)) (omega (arith, le, small))
