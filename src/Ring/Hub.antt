-- ===== src/Ring/Hub.antt =====
-- `RingBuffer`: one cache, and a dispatcher for each poller with readers. A poller is a number. What
-- `async(task, false)` posts to a poller waits in its queue, oldest first, until the poller runs it;
-- a lock is held for a whole call, so a call is one step.
pub mod Replica
mod Tests
use zltool_kit.Kit.{
  ℕ, zero, suc, ◌+◌, Bool, true, false, List, [], ◌∷◌, ◌++◌, map, length, drop, ◌==◌, if◌then◌else◌,
}
use zltool_kit.Kit.Words.{add32, sub32}
use zltool_kit.Ring.Storage.{Storage, Gop, new_storage, write, clear_cache}
use zltool_kit.Ring.Dispatcher.{
  Note, size_changed, Dispatcher, new_dispatcher, dispatch_write, dispatch_message, dispatch_clear,
  attach,
}

-- A task that the buffer posts.
pub data Task (T M : Type 0) : Type 0 where
  write_task : T → Bool → Task T M
  message_task : M → Task T M
  clear_task : Task T M

-- An entry of `_dispatcher_map`, with the tasks that wait for it.
pub record Outlet (T M : Type 0) : Type 0 where
  pub poller : ℕ
  pub dispatcher : Dispatcher T M
  pub pending : List (Task T M)

pub record Hub (T M : Type 0) : Type 0 where
  pub storage : Storage T
  pub outlets : List (Outlet T M)
  pub total_count : ℕ

module _ {T M : Type 0} where
  unfoldable pub new_hub : ℕ → ℕ → Hub T M
  new_hub max_size max_gop_size = record {
    storage = new_storage max_size max_gop_size;
    outlets = [];
    total_count = 0;
  }

  abbrev pub post : Task T M → Outlet T M → Outlet T M
  post t o = record o { pending = o.pending ++ t ∷ [] }

  -- `write` without a delegate.
  unfoldable pub hub_write : T → Bool → Hub T M → Hub T M
  hub_write x is_key h = record h {
    outlets = map (post (write_task x is_key)) h.outlets;
    storage = write x is_key h.storage;
  }

  unfoldable pub hub_message : M → Hub T M → Hub T M
  hub_message message h = record h { outlets = map (post (message_task message)) h.outlets }

  unfoldable pub hub_clear : Hub T M → Hub T M
  hub_clear h = record h {
    storage = clear_cache h.storage;
    outlets = map (post clear_task) h.outlets;
  }

  -- `attach` on the poller's own thread: its dispatcher, made from a copy of the cache if there is
  -- none, gets the reader.
  unfoldable pub attach_to : ℕ → ℕ → Storage T → List (Outlet T M) → List (Outlet T M)
  attach_to poller r s [] =
      record { poller = poller; dispatcher = attach r (new_dispatcher s); pending = [] } ∷ []
  attach_to poller r s (o ∷ os) =
      let further = o ∷ attach_to poller r s os in
      if o.poller == poller then record o { dispatcher = attach r o.dispatcher } ∷ os else further

  unfoldable pub hub_attach : ℕ → ℕ → Hub T M → Hub T M
  hub_attach poller r h = record h {
    outlets = attach_to poller r h.storage h.outlets;
    total_count = add32 h.total_count 1;
  }

  -- A poller runs its oldest task; `alive` says which readers there are at that time.
  unfoldable pub run_task : (ℕ → Bool) → Task T M → Dispatcher T M → Dispatcher T M
  run_task alive (write_task x is_key) d = dispatch_write alive x is_key d
  run_task alive (message_task message) d = dispatch_message alive message d
  run_task alive clear_task d = dispatch_clear d

  abbrev pub run_first : (ℕ → Bool) → Outlet T M → List (Task T M) → Outlet T M
  run_first alive o [] = o
  run_first alive o (t ∷ ts) = record o { dispatcher = run_task alive t o.dispatcher; pending = ts }

  abbrev pub run_outlet : (ℕ → Bool) → Outlet T M → Outlet T M
  run_outlet alive o = run_first alive o o.pending

  abbrev pub drop_outlet : ℕ → List (Outlet T M) → List (Outlet T M)
  drop_outlet poller [] = []
  drop_outlet poller (o ∷ os) = if o.poller == poller then os else o ∷ drop_outlet poller os

  -- `onSizeChanged` of the buffer.
  unfoldable pub hub_size_changed : ℕ → ℕ → Bool → Hub T M → Hub T M
  hub_size_changed poller size add h = record h {
    outlets = if size == 0 then drop_outlet poller h.outlets else h.outlets;
    total_count = if add then add32 h.total_count 1 else sub32 h.total_count 1;
  }

  -- The notes that running the oldest task adds.
  abbrev pub notes_of : (ℕ → Bool) → ℕ → List (Outlet T M) → List (Note T M)
  notes_of alive poller [] = []
  notes_of alive poller (o ∷ os) =
      if o.poller == poller
      then drop (length o.dispatcher.notes) (run_outlet alive o).dispatcher.notes
      else notes_of alive poller os

  -- The changes of the size among them reach the buffer.
  unfoldable pub report_sizes : ℕ → List (Note T M) → Hub T M → Hub T M
  report_sizes poller [] h = h
  report_sizes poller (size_changed size add ∷ ns) h =
      report_sizes poller ns (hub_size_changed poller size add h)
  report_sizes poller (n ∷ ns) h = report_sizes poller ns h

  abbrev pub run_outlets : (ℕ → Bool) → ℕ → List (Outlet T M) → List (Outlet T M)
  run_outlets alive poller [] = []
  run_outlets alive poller (o ∷ os) =
      (if o.poller == poller then run_outlet alive o else o) ∷ run_outlets alive poller os

  unfoldable pub hub_run : (ℕ → Bool) → ℕ → Hub T M → Hub T M
  hub_run alive poller h =
      report_sizes poller (notes_of alive poller h.outlets)
        (record h { outlets = run_outlets alive poller h.outlets })

-- What can happen to a buffer without a delegate, apart from `clearCache`, in any order.
pub data Step (T M : Type 0) : Type 0 where
  write_step : T → Bool → Step T M
  message_step : M → Step T M
  attach_step : ℕ → ℕ → Step T M
  run_step : (ℕ → Bool) → ℕ → Step T M

module _ {T M : Type 0} where
  abbrev pub step : Step T M → Hub T M → Hub T M
  step (write_step x is_key) h = hub_write x is_key h
  step (message_step message) h = hub_message message h
  step (attach_step poller r) h = hub_attach poller r h
  step (run_step alive poller) h = hub_run alive poller h

  abbrev pub steps : List (Step T M) → Hub T M → Hub T M
  steps [] h = h
  steps (s ∷ ss) h = steps ss (step s h)
