-- ===== src/Poller/Async/Wakeup.antt =====
-- No task waits without the poller being woken for it.
use zltool_kit.Kit.{ℕ, suc, ◌<◌, ◌≡◌, ◌⊎◌, Bool, true, false, List, [], ◌∷◌, ◌++◌}
use zltool_kit.Poller.Async.{Async, push, write_pipe, read_pipe, run_tasks}

-- The poller with the threads around it: `writers` are between the lock and the write of `async_l`, and the
-- poller is between reading the pipe and taking the list, or it waits for the pipe.
pub record Around : Type 0 where
  pub poller : Async
  pub writers : ℕ
  pub has_read : Bool
  pub pushed : List ℕ

-- One step of a thread. A task that is put at the front is left out of `pushed`, so that is for tasks put
-- at the end.
pub data Step (s : Around) : Around → Type 0 where
  pushes :
      (t : ℕ)
      → Step s (record s {
        poller = push false t s.poller;
        writers = suc s.writers;
        pushed = s.pushed ++ (t ∷ []);
      })
  writes :
      (is_full : Bool) (n : ℕ)
      → s.writers ≡ suc n
      → (is_full ≡ true → 0 < s.poller.pipe)
      → Step s (record s { poller = write_pipe is_full s.poller; writers = n })
  reads :
      0 < s.poller.pipe
      → s.has_read ≡ false
      → Step s (record s { poller = read_pipe s.poller; has_read = true })
  runs :
      (exits : ℕ → Bool)
      → s.has_read ≡ true
      → Step s (record s { poller = run_tasks exits s.poller; has_read = false })

pub data Steps (s : Around) : Around → Type 0 where
  start : Steps s s
  then_step : (t u : Around) → Steps s t → Step t u → Steps s u

abbrev pub idle : Around
idle = record {
  poller = record { list_task = []; pipe = 0; exit_flag = false; ran = [] };
  writers = 0;
  has_read = false;
  pushed = [];
}

-- A byte is in the pipe, or will be, or the poller is about to take the list.
abbrev pub IsWoken : Around → Type 0
IsWoken s = (0 < s.poller.pipe) ⊎ ((0 < s.writers) ⊎ (s.has_read ≡ true))

record IsGood (s : Around) : Type 0 where
  woken : (s.poller.list_task ≡ []) ⊎ IsWoken s
  order : s.poller.ran ++ s.poller.list_task ≡ s.pushed
