-- ===== src/Thread/TaskQueue.antt =====
-- `TaskQueue` of src/Thread/TaskQueue.h over the counter of src/Thread/semaphore.h. A call that holds the
-- lock is one step; a thread that waits at the semaphore takes its step when the counter is positive.
mod Exits
mod Tests
use zltool_kit.Kit.{ℕ, zero, suc, ◌+◌, Bool, true, false, List, [], ◌∷◌, ◌++◌, Option, none, some}

pub record TaskQueue : Type 0 where
  pub queue : List ℕ
  pub sem : ℕ

-- `semaphore::post`.
unfoldable pub post : ℕ → ℕ → ℕ
post n c = c + n

-- `semaphore::wait`: `none` waits.
abbrev pub wait : ℕ → Option ℕ
wait zero = none
wait (suc c) = some c

unfoldable pub push_task : ℕ → TaskQueue → TaskQueue
unfolding post
push_task t s = record s { queue = s.queue ++ (t ∷ []); sem = post 1 s.sem }

unfoldable pub push_task_first : ℕ → TaskQueue → TaskQueue
unfolding post
push_task_first t s = record s { queue = t ∷ s.queue; sem = post 1 s.sem }

unfoldable pub push_exit : ℕ → TaskQueue → TaskQueue
unfolding post
push_exit n s = record s { sem = post n s.sem }

-- `get_task` after the wait: `none` is the result `false`.
abbrev pub take_front : List ℕ → TaskQueue → TaskQueue × Option ℕ
take_front [] s = (s, none)
take_front (t ∷ ts) s = (record s { queue = ts }, some t)

abbrev pub awake : TaskQueue → Option ℕ → Option (TaskQueue × Option ℕ)
awake s none = none
awake s (some c) = some (take_front s.queue (record s { sem = c }))

unfoldable pub get_task : TaskQueue → Option (TaskQueue × Option ℕ)
get_task s = awake s (wait s.sem)
