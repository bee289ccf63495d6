-- ===== src/Thread/TaskQueue/Exits.antt =====
-- Tasks and the calls of `get_task` that return `false`.
use zltool_kit.Kit.{ℕ, zero, suc, ◌+◌, ◌≡◌, List, [], ◌∷◌, ◌++◌, Option, none, some, length}
use zltool_kit.Thread.TaskQueue.{TaskQueue, push_task, push_task_first, push_exit, get_task}

-- What happens to a queue: a task is pushed at its end or at its front, exits are posted, and a thread that is awake gets a
-- task or `false`. The history keeps the tasks pushed, in the order in which they are due: a task pushed at the front
-- is due behind the tasks already got, before all others. It also keeps the tasks got, the exits posted and those taken.
pub record Ledger : Type 0 where
  pub pushed : List ℕ
  pub got : List ℕ
  pub posted : ℕ
  pub exited : ℕ

abbrev pub insert_at : ℕ → ℕ → List ℕ → List ℕ
insert_at zero t ts = t ∷ ts
insert_at (suc n) t [] = t ∷ []
insert_at (suc n) t (x ∷ ts) = x ∷ insert_at n t ts

pub data Step (s : TaskQueue) (l : Ledger) : TaskQueue → Ledger → Type 0 where
  pushes : (t : ℕ) → Step s l (push_task t s) (record l { pushed = l.pushed ++ (t ∷ []) })
  pushes_first :
      (t : ℕ)
      → Step s l (push_task_first t s) (record l { pushed = insert_at (length l.got) t l.pushed })
  posts : (n : ℕ) → Step s l (push_exit n s) (record l { posted = l.posted + n })
  runs :
      (u : TaskQueue) (t : ℕ)
      → get_task s ≡ some (u, some t)
      → Step s l u (record l { got = l.got ++ (t ∷ []) })
  exits :
      (u : TaskQueue)
      → get_task s ≡ some (u, none)
      → Step s l u (record l { exited = suc l.exited })

pub data Steps : TaskQueue → Ledger → Type 0 where
  fresh :
      Steps
        (record { queue = []; sem = 0 })
        (record { pushed = []; got = []; posted = 0; exited = 0 })
  then_step : {s t : TaskQueue} {l m : Ledger} → Steps s l → Step s l t m → Steps t m

record IsBalanced (s : TaskQueue) (l : Ledger) : Type 0 where
  tokens : s.sem + l.exited ≡ length s.queue + l.posted
  order : l.got ++ s.queue ≡ l.pushed

-- The two ways in which a thread that is awake takes its step.
data Taken (s : TaskQueue) : TaskQueue → Option ℕ → Type 0 where
  took :
      (t : ℕ) (ts : List ℕ) (c : ℕ)
      → s.sem ≡ suc c
      → s.queue ≡ t ∷ ts
      → Taken s (record s { queue = ts; sem = c }) (some t)
  left : (c : ℕ) → s.sem ≡ suc c → s.queue ≡ [] → Taken s (record s { sem = c }) none
