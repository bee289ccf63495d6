-- ===== src/Thread/TaskQueue/Tests.antt =====
-- A queue with two tasks and an exit.
use zltool_kit.Kit.{◌≡◌, refl, [], ◌∷◌, some}
use zltool_kit.Thread.TaskQueue.{TaskQueue, post, push_task, push_task_first, push_exit, get_task}
use zltool_kit.Thread.TaskQueue.Exits.{
  Ledger, pushes, pushes_first, posts, runs, Steps, fresh, then_step,
}

abbrev empty_queue : TaskQueue
empty_queue = record { queue = []; sem = 0 }

abbrev no_history : Ledger
no_history = record { pushed = []; got = []; posted = 0; exited = 0 }

abbrev two_tasks : TaskQueue
two_tasks = push_exit 1 (push_task_first 7 (push_task 8 empty_queue))

abbrev pushed_two : Steps two_tasks (record no_history { pushed = 7 ∷ 8 ∷ []; posted = 1 })
pushed_two = then_step (then_step (then_step fresh (pushes 8)) (pushes_first 7)) (posts 1)

abbrev one_left : TaskQueue
one_left = record { queue = 8 ∷ []; sem = 2 }

one_left-get_task : get_task two_tasks ≡ some (one_left, some 7)
unfolding get_task push_task push_task_first push_exit post
one_left-get_task = refl

abbrev after_one : Ledger
after_one = record { pushed = 7 ∷ 8 ∷ []; got = 7 ∷ []; posted = 1; exited = 0 }

abbrev history : Steps one_left after_one
history = then_step pushed_two (runs one_left 7 one_left-get_task)
