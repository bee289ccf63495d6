-- ===== src/Poller/Delay.antt =====
-- The delayed tasks of `EventPoller`: a multimap from deadlines to tasks, as the list of its entries in
-- the order of the map. What a task does when it is called is a parameter of the model.
mod Weight
pub mod Due
mod Tests
use zltool_kit.Kit.{
  ℕ, zero, suc, ◌+◌, ◌-◌, ◌^◌, Bool, true, false, List, [], ◌∷◌, ◌++◌, Option, none, some, ltb, leb,
  if◌then◌else◌,
}
use zltool_kit.Kit.Words.{u64, sub64}

-- A call of a task: its result, `none` for an exception, and the entries that `doDelayTask` adds to the
-- map while it runs.
pub record Call (A : Type 0) : Type 0 where
  pub next_delay : Option ℕ
  pub added : List (ℕ × A)

module _ {A : Type 0} where
  -- `emplace` of a multimap: behind the entries of the same deadline.
  unfoldable pub emplace : ℕ × A → List (ℕ × A) → List (ℕ × A)
  emplace e [] = e ∷ []
  emplace e (f ∷ fs) = let further = f ∷ emplace e fs in if ltb e.0 f.0 then e ∷ f ∷ fs else further

  -- `insert` of a range.
  unfoldable pub insert_range : List (ℕ × A) → List (ℕ × A) → List (ℕ × A)
  insert_range [] fs = fs
  insert_range (e ∷ es) fs = insert_range es (emplace e fs)

  -- `_delay_task_map` after a task has been called: a task that returns a delay is put back.
  abbrev pub put_back : ℕ → A → Option ℕ → List (ℕ × A) → List (ℕ × A)
  put_back now a none fresh = fresh
  put_back now a (some zero) fresh = fresh
  put_back now a (some (suc d)) fresh = emplace (u64 (suc d + now), a) fresh

  -- The loop: what is left of the old map, the new one, and the tasks called, in order.
  unfoldable pub run_expired :
      (A → Call A) → ℕ → List (ℕ × A) → List (ℕ × A) → List (ℕ × A) × (List (ℕ × A) × List A)
  run_expired run now [] fresh = ([], (fresh, []))
  run_expired run now (e ∷ es) fresh =
      let c = run e.1 in
      let (rest, (made, called)) =
        run_expired run now es (put_back now e.1 c.next_delay (insert_range c.added fresh)) in
      if leb e.0 now then (rest, (made, e.1 ∷ called)) else (e ∷ es, (fresh, []))

  -- The delay that is returned, an `int64_t`: -1 if there is no task.
  abbrev pub delay_from : ℕ → List (ℕ × A) → ℕ
  delay_from now [] = 2 ^ 64 - 1
  delay_from now (e ∷ es) = sub64 e.0 now

  -- `flushDelayTask`: the delay, the map, and the tasks called.
  unfoldable pub flush_delay_task : (A → Call A) → ℕ → List (ℕ × A) → ℕ × (List (ℕ × A) × List A)
  flush_delay_task run now tasks =
      let (rest, (made, called)) = run_expired run now tasks [] in
      let merged = insert_range made rest in (delay_from now merged, (merged, called))

  unfoldable pub get_min_delay : (A → Call A) → ℕ → List (ℕ × A) → ℕ × (List (ℕ × A) × List A)
  get_min_delay run now [] = (2 ^ 64 - 1, ([], []))
  get_min_delay run now (e ∷ es) =
      let flushed = flush_delay_task run now (e ∷ es) in
      if ltb now e.0 then (sub64 e.0 now, (e ∷ es, [])) else flushed

  -- `doDelayTask`, once its task runs in the poller's thread.
  unfoldable pub do_delay_task : ℕ → ℕ → A → List (ℕ × A) → List (ℕ × A)
  do_delay_task now delay_ms a tasks = emplace (u64 (now + delay_ms), a) tasks
