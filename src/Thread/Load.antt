-- ===== src/Thread/Load.antt =====
-- `ThreadLoadCounter`: the latest run and sleep times of a thread, and its load in percent.
-- Times are of `uint64_t`, in microseconds; `getCurrentMicrosecond()` is the argument `now`. A list is
-- the time list, its front first.
pub mod Bounds
mod Tests
use zltool_kit.Kit.{
  ℕ, zero, suc, ◌+◌, ◌*◌, ◌/◌, ◌%◌, ◌^◌, Bool, true, false, ◌||◌, List, [], ◌∷◌, ◌++◌, ltb,
  if◌then◌else◌, length,
}
use zltool_kit.Kit.Words.{u64, sub64}

-- `TimeRecord`.
pub record TimeRecord : Type 0 where
  pub time : ℕ
  pub sleep : Bool

-- The counter.
pub record LoadCounter : Type 0 where
  pub sleeping : Bool
  pub last_sleep_time : ℕ
  pub last_wake_time : ℕ
  pub max_size : ℕ
  pub max_usec : ℕ
  pub time_list : List TimeRecord

unfoldable pub new_counter : ℕ → ℕ → ℕ → LoadCounter
new_counter now max_size max_usec = record {
  sleeping = true;
  last_sleep_time = now;
  last_wake_time = now;
  max_size = max_size;
  max_usec = max_usec;
  time_list = [];
}

abbrev pub pop_front : List TimeRecord → List TimeRecord
pop_front [] = []
pop_front (r ∷ rs) = rs

-- `emplace_back`, and `pop_front` of a list that is then too long.
abbrev pub push_time : ℕ → TimeRecord → List TimeRecord → List TimeRecord
push_time max_size r rs =
    if ltb max_size (length (rs ++ r ∷ [])) then pop_front (rs ++ r ∷ []) else rs ++ r ∷ []

unfoldable pub start_sleep : ℕ → LoadCounter → LoadCounter
start_sleep now c = record c {
  sleeping = true;
  last_sleep_time = now;
  time_list =
      push_time c.max_size (record { time = sub64 now c.last_wake_time; sleep = false })
        c.time_list;
}

unfoldable pub sleep_wake_up : ℕ → LoadCounter → LoadCounter
sleep_wake_up now c = record c {
  sleeping = false;
  last_wake_time = now;
  time_list =
      push_time c.max_size (record { time = sub64 now c.last_sleep_time; sleep = true })
        c.time_list;
}

-- `totalSleepTime` and `totalRunTime`.
pub record Totals : Type 0 where
  pub slept : ℕ
  pub ran : ℕ

abbrev pub add_time : TimeRecord → Totals → Totals
add_time r t =
    if r.sleep
    then record t { slept = u64 (t.slept + r.time) }
    else record t { ran = u64 (t.ran + r.time) }

abbrev pub take_time : TimeRecord → Totals → Totals
take_time r t =
    if r.sleep
    then record t { slept = sub64 t.slept r.time }
    else record t { ran = sub64 t.ran r.time }

-- The `for_each` over the records.
unfoldable pub sum_times : List TimeRecord → Totals → Totals
sum_times [] t = t
sum_times (r ∷ rs) t = sum_times rs (add_time r t)

-- The time since the last record.
unfoldable pub add_current : ℕ → LoadCounter → Totals → Totals
add_current now c t =
    if c.sleeping
    then record t { slept = u64 (t.slept + sub64 now c.last_sleep_time) }
    else record t { ran = u64 (t.ran + sub64 now c.last_wake_time) }

-- What the loop over the oldest records leaves.
pub record Dropped : Type 0 where
  pub totals : Totals
  pub total : ℕ
  pub records : List TimeRecord

unfoldable pub drop_times : ℕ → ℕ → List TimeRecord → ℕ → Totals → Dropped
drop_times max_size max_usec [] total t = record { totals = t; total = total; records = [] }
drop_times max_size max_usec (r ∷ rs) total t =
    let rest = drop_times max_size max_usec rs (sub64 total r.time) (take_time r t) in
    if ltb max_usec total || ltb max_size (length (r ∷ rs))
    then rest
    else record { totals = t; total = total; records = r ∷ rs }

-- `(int) (totalRunTime * 100 / totalTime)`, the cast written as the low 32 bits.
abbrev pub percent : ℕ → ℕ → ℕ
percent ran zero = 0
percent ran (suc total) = u64 (ran * 100) / suc total % 2 ^ 32

unfoldable pub load : ℕ → LoadCounter → ℕ × LoadCounter
load now c =
    let t = add_current now c (sum_times c.time_list (record { slept = 0; ran = 0 })) in
    let d = drop_times c.max_size c.max_usec c.time_list (u64 (t.ran + t.slept)) t in
    (percent d.totals.ran d.total, record c { time_list = d.records })
