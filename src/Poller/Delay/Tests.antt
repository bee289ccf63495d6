-- ===== src/Poller/Delay/Tests.antt =====
-- The delayed tasks at a concrete input.
use zltool_kit.Kit.{ℕ, List, [], ◌∷◌, some, arith}
use zltool_kit.Poller.Delay.{Call, flush_delay_task}
use zltool_kit.Poller.Delay.Due.{Flushes, flush_delay_task_lem}

-- Every task asks to be called again after 10 milliseconds.
abbrev again : ℕ → Call ℕ
again a = record { next_delay = some 10; added = [] }

abbrev waiting : List (ℕ × ℕ)
waiting = (5, 1) ∷ (20, 2) ∷ (90, 3) ∷ []

flush_delay_task_lem_example : Flushes again 30 waiting (flush_delay_task again 30 waiting)
flush_delay_task_lem_example =
    flush_delay_task_lem again 30 waiting (λ a. record { later = tt; fits = omega arith })
      (omega arith)
