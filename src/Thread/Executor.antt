-- ===== src/Thread/Executor.antt =====
-- `TaskExecutorGetterImp::getExecutor`: from the position after the last choice, once around the
-- executors, the one of the least load. An executor is its index; `load i` is what `load()` of the
-- executor `i` returns during the call.
pub mod Least
mod Tests
use zltool_kit.Kit.{ℕ, zero, suc, ◌+◌, Bool, true, false, ltb, leb, if◌then◌else◌}

-- `++thread_pos`, and back to the start past the end.
abbrev pub next_pos : ℕ → ℕ → ℕ
next_pos n pos = if leb n (pos + 1) then 0 else pos + 1

abbrev pub less_loaded : (ℕ → ℕ) → ℕ → ℕ → ℕ
less_loaded load pos best = if ltb (load pos) (load best) then pos else best

-- The loop, with the steps that are left; the position it ends at and the executor it chose.
unfoldable pub scan_executors : (ℕ → ℕ) → ℕ → ℕ → ℕ → ℕ → ℕ × ℕ
scan_executors load n zero pos best = (pos, best)
scan_executors load n (suc left) pos best =
    let next = next_pos n pos in
    let chosen = less_loaded load next best in
    let rest = scan_executors load n left next chosen in
    if leb (load chosen) 0 then (next, chosen) else rest

-- Of `n` executors, with `_thread_pos`: the new `_thread_pos` and the executor. `_threads[thread_pos]`
-- needs an executor, so `n` is positive where this is called.
unfoldable pub get_executor : (ℕ → ℕ) → ℕ → ℕ → ℕ × ℕ
get_executor load n thread_pos =
    let start = if leb n thread_pos then 0 else thread_pos in scan_executors load n n start start
