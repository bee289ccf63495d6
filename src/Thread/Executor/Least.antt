-- ===== src/Thread/Executor/Least.antt =====
-- The load of the executor that `getExecutor` chooses.
use zltool_kit.Kit.{
  ℕ, zero, suc, ◌+◌, ◌≤◌, ◌<◌, ◌≡◌, ◌⊎◌, inl, inr, leb, ◌==◌, if◌then◌else◌, arith, Bool-cases,
}
use zltool_kit.Thread.Executor.{next_pos, less_loaded, scan_executors, get_executor}

-- `j` is no less loaded than the choice, or is still to be visited in `left` steps from `pos`.
abbrev Covered : (ℕ → ℕ) → ℕ → ℕ → ℕ → ℕ → ℕ → Type 0
Covered load n left pos best j =
    (load best ≤ load j) ⊎ (((pos < j) × (j ≤ pos + left)) ⊎ (j + n ≤ pos + left))

next_pos_lt : (n pos : ℕ) → pos < n → next_pos n pos < n
next_pos_lt n pos h = ground arith

less_loaded_le :
    (load : ℕ → ℕ) (pos best : ℕ)
    → (load (less_loaded load pos best) ≤ load best) × (load (less_loaded load pos best) ≤ load pos)
less_loaded_le load pos best = ground arith

Covered-next :
    (load : ℕ → ℕ) (n left pos best j : ℕ)
    → pos < n
    → j < n
    → suc left ≤ n
    → Covered load n (suc left) pos best j
    → Covered load n left (next_pos n pos) (less_loaded load (next_pos n pos) best) j
Covered-next load n left pos best j hp hj hl c =
    let next = next_pos n pos in
    let (best_le, next_le) = less_loaded_le load next best in
    elim (Bool-cases (j == next)) [
      | inl e ↦ let here : j ≡ next = ground arith in inl (rw here next_le)
      | inr e ↦ elim c [
        | inl le ↦ inl (omega (arith, le, best_le))
        | inr ahead ↦ inr (ground arith)
      ]
    ]

scan_executors_least :
    (load : ℕ → ℕ) (n left pos best j : ℕ)
    → pos < n
    → j < n
    → left ≤ n
    → Covered load n left pos best j
    → load (scan_executors load n left pos best).1 ≤ load j
unfolding scan_executors
scan_executors_least load n zero pos best j hp hj hl c = ground arith
scan_executors_least load n (suc left) pos best j hp hj hl c =
    let next = next_pos n pos in
    let rest =
      scan_executors_least load n left next (less_loaded load next best) j (next_pos_lt n pos hp) hj
        (omega arith) (Covered-next load n left pos best j hp hj hl c) in
    elim (Bool-cases (leb (load (less_loaded load next best)) 0)) [
      | inl e ↦ rw e (ground arith)
      | inr e ↦ rw e rest
    ]

-- Whatever the last choice was, the chosen executor is the least loaded one of all: no executor has a
-- smaller load, though the loop leaves early at a load of zero and starts in the middle.
pub get_executor_least :
    (load : ℕ → ℕ) (n thread_pos j : ℕ) → j < n → load (get_executor load n thread_pos).1 ≤ load j
unfolding get_executor
get_executor_least load n thread_pos j hj =
    let start = if leb n thread_pos then 0 else thread_pos in
    let inside : start < n = ground arith in
    scan_executors_least load n n start start j inside hj (omega arith) (inr (ground arith))
