-- ===== src/Poller/Async.antt =====
-- The tasks that other threads give to an `EventPoller` (src/Poller/EventPoller.cpp): `async_l`, which puts
-- a task into `_list_task` under its lock and then writes a byte to the pipe, and `onPipeEvent`, which empties
-- the pipe and then takes the list under the lock. Tasks are numbers, and `ran` those that were run. What
-- a task gives to the poller while it runs comes after the list was taken, as from another thread.
mod Wakeup
mod Tests
use zltool_kit.Kit.{ℕ, zero, suc, ◌+◌, Bool, true, false, ◌||◌, List, [], ◌∷◌, ◌++◌, if◌then◌else◌}

pub record Async : Type 0 where
  pub list_task : List ℕ
  pub pipe : ℕ
  pub exit_flag : Bool
  pub ran : List ℕ

-- `async_l` under the lock.
unfoldable pub push : Bool → ℕ → Async → Async
push first t s = record s { list_task = if first then t ∷ s.list_task else s.list_task ++ (t ∷ []) }

-- `_pipe.write("", 1)`: a full pipe takes no byte.
unfoldable pub write_pipe : Bool → Async → Async
write_pipe is_full s = if is_full then s else record s { pipe = suc s.pipe }

-- The loop of `onPipeEvent` that reads the pipe until it is empty.
unfoldable pub read_pipe : Async → Async
read_pipe s = record s { pipe = 0 }

-- Whether one of the tasks throws `ExitException`.
abbrev pub any_exits : (ℕ → Bool) → List ℕ → Bool
any_exits exits [] = false
any_exits exits (t ∷ ts) = exits t || any_exits exits ts

-- `onPipeEvent` from the lock on: the tasks are taken and run.
unfoldable pub run_tasks : (ℕ → Bool) → Async → Async
run_tasks exits s = record s {
  list_task = [];
  ran = s.ran ++ s.list_task;
  exit_flag = s.exit_flag || any_exits exits s.list_task;
}

-- `async_l` on the poller's thread with `may_sync`, or with no other thread in between.
unfoldable pub async_l : Bool → Bool → Bool → ℕ → Async → Async
unfolding push write_pipe
async_l sync first is_full t s =
    if sync then record s { ran = s.ran ++ (t ∷ []) } else write_pipe is_full (push first t s)
