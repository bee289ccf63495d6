-- ===== src/Poller/Timer/Tests.antt =====
-- Two timers, of 10 and of 25 milliseconds, from 100 on.
use zltool_kit.Kit.{ℕ, ◌+◌, ◌≡◌, refl, [], ◌∷◌}
use zltool_kit.Poller.Delay.{emplace, insert_range, run_expired, flush_delay_task, do_delay_task}
use zltool_kit.Poller.Timer.{
  Answer, again, Timers, timer_task, call_task, run_timer, new_timer, delete_timer, flush_timers,
}
use zltool_kit.Poller.Timer.Repeats.{times, not_due, renewals, flush_timers_lem}

abbrev no_timers : Timers
no_timers = record { made = []; tasks = [] }

abbrev two_timers : Timers
two_timers = new_timer 100 25 (new_timer 100 10 no_timers)

abbrev always : ℕ → Answer
always t = again

two_timers-tasks : two_timers.tasks ≡ (110, 0) ∷ (125, 1) ∷ []
unfolding new_timer do_delay_task emplace
two_timers-tasks = refl

first-again : (flush_timers 111 always two_timers).tasks ≡ (121, 0) ∷ (125, 1) ∷ []
unfolding flush_timers flush_delay_task run_expired insert_range emplace run_timer call_task
    timer_task new_timer do_delay_task
first-again = refl

first_deleted : (flush_timers 111 always (delete_timer 0 two_timers)).tasks ≡ (125, 1) ∷ []
unfolding flush_timers flush_delay_task run_expired insert_range emplace run_timer call_task
    timer_task new_timer delete_timer do_delay_task
first_deleted = refl

flush_timers_lem_example :
    times 121 0 (flush_timers 111 always two_timers).tasks
    ≡ times 121 0 (not_due 111 two_timers.tasks)
      + times 121 0 (renewals two_timers always 111 two_timers.tasks)
flush_timers_lem_example = flush_timers_lem 111 always two_timers 121 0
