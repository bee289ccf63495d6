-- ===== src/Poller/Timer.antt =====
-- src/Poller/Timer.cpp: timers over the delayed tasks of a poller, and the part of TaskCancelableImp of
-- src/Thread/TaskExecutor.h that their end uses. A timer is a number; what its callback answers is an argument.
use zltool_kit.Kit.{
  ℕ, ◌*◌, Bool, true, false, List, [], ◌∷◌, ◌++◌, Option, none, some, if◌then◌else◌, length, get_or,
  set,
}
use zltool_kit.Poller.Delay.{Call, do_delay_task, flush_delay_task}
pub mod Repeats
mod Tests

-- How a callback ends.
pub data Answer : Type 0 where
  again : Answer
  enough : Answer
  throws : Answer

-- A timer's delay in milliseconds, and whether its task holds the function (`_strongTask`).
pub record Timer : Type 0 where
  interval : ℕ
  strong : Bool

abbrev pub no_timer : Timer
no_timer = record { interval = 0; strong = false }

-- The timers made, and the map of delayed tasks.
pub record Timers : Type 0 where
  made : List Timer
  tasks : List (ℕ × ℕ)

abbrev pub timer_of : ℕ → Timers → Timer
timer_of t s = get_or s.made t no_timer

-- The function that the constructor gives to doDelayTask.
unfoldable pub timer_task : (interval : ℕ) → Answer → ℕ
timer_task interval again = interval
timer_task interval enough = 0
timer_task interval throws = interval

-- A call of the task: a cancelled one returns 0.
unfoldable pub call_task : (Timer) → Answer → ℕ
call_task timer answer = if timer.strong then timer_task timer.interval answer else 0

unfoldable pub run_timer : Timers → (answers : ℕ → Answer) → ℕ → Call ℕ
run_timer s answers t = record {
  next_delay = some (call_task (timer_of t s) (answers t));
  added = [];
}

unfoldable pub new_timer : (now interval : ℕ) → Timers → Timers
new_timer now interval s = record s {
  made = s.made ++ (record { interval = interval; strong = true } ∷ []);
  tasks = do_delay_task now interval (length s.made) s.tasks;
}

-- The destructor: the task stays in the map, without its function.
unfoldable pub delete_timer : ℕ → Timers → Timers
delete_timer t s = record s { made = set s.made t (record (timer_of t s) { strong = false }) }

unfoldable pub flush_timers : (now : ℕ) → (answers : ℕ → Answer) → Timers → Timers
flush_timers now answers s = record s {
  tasks = (flush_delay_task (run_timer s answers) now s.tasks).1.0;
}
