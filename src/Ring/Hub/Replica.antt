-- ===== src/Ring/Hub/Replica.antt =====
-- The caches of the pollers beside the buffer's cache.
use zltool_kit.Kit.{
  ℕ, ◌≡◌, inl, inr, refl, ap, ◌∙◌, Bool, true, false, List, [], ◌∷◌, ◌++◌, map, All, All-append,
  Bool-cases, ◌==◌, arith,
}
use zltool_kit.Ring.Storage.{Storage, write}
use zltool_kit.Ring.Dispatcher.{
  Note, on_read, on_message, on_detach, size_changed, new_dispatcher, dispatch_write,
  dispatch_message, attach,
}
use zltool_kit.Ring.Hub.{
  Task, write_task, message_task, clear_task, Outlet, Hub, post, hub_write, hub_message, attach_to,
  hub_attach, run_task, run_first, drop_outlet, hub_size_changed, report_sizes, notes_of,
  run_outlets, hub_run, Step, write_step, message_step, attach_step, run_step, step, steps,
}

module _ {T M : Type 0} where
  -- The cache after the frames that wait, and that no reset waits.
  abbrev pub replay : List (Task T M) → Storage T → Storage T
  replay [] s = s
  replay (write_task x is_key ∷ ts) s = replay ts (write x is_key s)
  replay (message_task m ∷ ts) s = replay ts s
  replay (clear_task ∷ ts) s = replay ts s

  abbrev pub is_kept : Task T M → Bool
  is_kept (write_task x is_key) = true
  is_kept (message_task m) = true
  is_kept clear_task = false

  -- With the frames that wait for it, a poller's cache is the buffer's.
  pub record IsReplica (s : Storage T) (o : Outlet T M) : Type 0 where
    pub kept : All (λ t. is_kept t ≡ true) o.pending
    pub same : replay o.pending o.dispatcher.storage ≡ s

  abbrev pub IsReplicated : Hub T M → Type 0
  IsReplicated h = All (IsReplica h.storage) h.outlets

  replay-append :
      (ts us : List (Task T M)) (s : Storage T) → replay (ts ++ us) s ≡ replay us (replay ts s)
  replay-append [] us s = refl
  replay-append (write_task x k ∷ ts) us s = replay-append ts us (write x k s)
  replay-append (message_task m ∷ ts) us s = replay-append ts us s
  replay-append (clear_task ∷ ts) us s = replay-append ts us s

  -- A posted task that is kept moves the replicas as it moves the cache.
  map-post-All :
      (t : Task T M) (s : Storage T) (os : List (Outlet T M))
      → is_kept t ≡ true
      → All (IsReplica s) os
      → All (IsReplica (replay (t ∷ []) s)) (map (post t) os)
  map-post-All t s [] k a = tt
  map-post-All t s (o ∷ os) k a = (
    record {
      kept = All-append (λ t. is_kept t ≡ true) o.pending (t ∷ []) a.0.kept (k, tt);
      same = replay-append o.pending (t ∷ []) o.dispatcher.storage ∙ ap (replay (t ∷ [])) a.0.same;
    },
    map-post-All t s os k a.1,
  )

  attach_to-All :
      (poller r : ℕ) (s : Storage T) (os : List (Outlet T M))
      → All (IsReplica s) os
      → All (IsReplica s) (attach_to poller r s os)
  unfolding attach_to attach new_dispatcher
  attach_to-All poller r s [] a = (record { kept = tt; same = refl }, tt)
  attach_to-All poller r s (o ∷ os) a = elim (Bool-cases (o.poller == poller)) [
    | inl e ↦ rw e (record { kept = a.0.kept; same = a.0.same }, a.1)
    | inr e ↦ rw e (a.0, attach_to-All poller r s os a.1)
  ]

  run_first-IsReplica :
      (alive : ℕ → Bool) (s : Storage T) (o : Outlet T M) (ts : List (Task T M))
      → All (λ t. is_kept t ≡ true) ts
      → replay ts o.dispatcher.storage ≡ s
      → IsReplica s o
      → IsReplica s (run_first alive o ts)
  unfolding run_task dispatch_write dispatch_message
  run_first-IsReplica alive s o [] k e a = a
  run_first-IsReplica alive s o (write_task x is_key ∷ ts) k e a = record { kept = k.1; same = e }
  run_first-IsReplica alive s o (message_task m ∷ ts) k e a = record { kept = k.1; same = e }
  run_first-IsReplica alive s o (clear_task ∷ ts) k e a = absurd (ground (arith, k.0))

  run_outlets-All :
      (alive : ℕ → Bool) (poller : ℕ) (s : Storage T) (os : List (Outlet T M))
      → All (IsReplica s) os
      → All (IsReplica s) (run_outlets alive poller os)
  run_outlets-All alive poller s [] a = tt
  run_outlets-All alive poller s (o ∷ os) a =
      let ran = run_first-IsReplica alive s o o.pending a.0.kept a.0.same a.0 in
      elim (Bool-cases (o.poller == poller)) [
        | inl e ↦ rw e (ran, run_outlets-All alive poller s os a.1)
        | inr e ↦ rw e (a.0, run_outlets-All alive poller s os a.1)
      ]

  drop_outlet-All :
      (poller : ℕ) (s : Storage T) (os : List (Outlet T M))
      → All (IsReplica s) os
      → All (IsReplica s) (drop_outlet poller os)
  drop_outlet-All poller s [] a = tt
  drop_outlet-All poller s (o ∷ os) a = elim (Bool-cases (o.poller == poller)) [
    | inl e ↦ rw e a.1
    | inr e ↦ rw e (a.0, drop_outlet-All poller s os a.1)
  ]

  hub_size_changed-IsReplicated :
      (poller size : ℕ) (add : Bool) (h : Hub T M)
      → IsReplicated h
      → IsReplicated (hub_size_changed poller size add h)
  unfolding hub_size_changed
  hub_size_changed-IsReplicated poller size add h a = elim (Bool-cases (size == 0)) [
    | inl e ↦ rw e (drop_outlet-All poller h.storage h.outlets a)
    | inr e ↦ rw e a
  ]

  report_sizes-IsReplicated :
      (poller : ℕ) (ns : List (Note T M)) (h : Hub T M)
      → IsReplicated h
      → IsReplicated (report_sizes poller ns h)
  unfolding report_sizes
  report_sizes-IsReplicated poller [] h a = a
  report_sizes-IsReplicated poller (size_changed size add ∷ ns) h a =
      report_sizes-IsReplicated poller ns (hub_size_changed poller size add h)
        (hub_size_changed-IsReplicated poller size add h a)
  report_sizes-IsReplicated poller (on_read r x k ∷ ns) h a =
      report_sizes-IsReplicated poller ns h a
  report_sizes-IsReplicated poller (on_message r m ∷ ns) h a =
      report_sizes-IsReplicated poller ns h a
  report_sizes-IsReplicated poller (on_detach r ∷ ns) h a = report_sizes-IsReplicated poller ns h a

  step-IsReplicated : (s : Step T M) (h : Hub T M) → IsReplicated h → IsReplicated (step s h)
  unfolding hub_write hub_message hub_attach hub_run
  step-IsReplicated (write_step x k) h a = map-post-All (write_task x k) h.storage h.outlets refl a
  step-IsReplicated (message_step m) h a = map-post-All (message_task m) h.storage h.outlets refl a
  step-IsReplicated (attach_step poller r) h a = attach_to-All poller r h.storage h.outlets a
  step-IsReplicated (run_step alive poller) h a =
      report_sizes-IsReplicated poller (notes_of alive poller h.outlets)
        (record h { outlets = run_outlets alive poller h.outlets })
        (run_outlets-All alive poller h.storage h.outlets a)

  -- Whatever happens in whatever order (frames and messages written, readers attached and gone, pollers
  -- running their tasks sooner or later), the cache of every poller is the buffer's cache once the
  -- frames that wait for it are written; a reset of the caches is not among the steps.
  pub steps-IsReplicated :
      (ss : List (Step T M)) (h : Hub T M) → IsReplicated h → IsReplicated (steps ss h)
  steps-IsReplicated [] h a = a
  steps-IsReplicated (s ∷ ss) h a = steps-IsReplicated ss (step s h) (step-IsReplicated s h a)
