-- ===== src/Ring/Dispatcher/Tests.antt =====
-- The readers of one poller at a concrete input.
use zltool_kit.Kit.{ℕ, ◌==◌, refl, true, arith}
use zltool_kit.Ring.Storage.{new_storage}
use zltool_kit.Ring.Dispatcher.{Dispatcher, new_dispatcher, attach, dispatch_write}
use zltool_kit.Ring.Dispatcher.Sweep.{IsCounted, Delivers, dispatch_write_lem}

-- Two readers, of which one is gone.
abbrev two_readers : Dispatcher ℕ ℕ
two_readers = attach 8 (attach 7 (new_dispatcher (new_storage 40 3)))

two_readers-IsCounted : IsCounted two_readers
unfolding attach new_dispatcher
two_readers-IsCounted = record { counted = refl; few = omega arith }

dispatch_write_lem_example :
    Delivers (λ r. r == 7) 5 true two_readers (dispatch_write (λ r. r == 7) 5 true two_readers)
dispatch_write_lem_example =
    dispatch_write_lem (λ r. r == 7) 5 true two_readers two_readers-IsCounted
