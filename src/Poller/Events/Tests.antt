-- ===== src/Poller/Events/Tests.antt =====
-- A callback that closes another descriptor and opens it again.
use zltool_kit.Kit.{ℕ, ◌≡◌, refl, true, false, List, [], ◌∷◌, ◌++◌, ◌==◌, if◌then◌else◌}
use zltool_kit.Poller.Events.{
  Events, Act, add_act, del_act, add_event, del_event, act, act_all, handle_event, handle_all,
  run_batch,
}
use zltool_kit.Poller.Events.Expired.{called_for, del_event_lem}

abbrev two_fds : Events
two_fds = record {
  event_map = (5, 50) ∷ (6, 60) ∷ [];
  event_cache_expired = [];
  fd_count = 2;
  calls = [];
}

abbrev reopens : ℕ → List Act
reopens cb = if cb == 50 then del_act 6 ∷ add_act true 6 61 ∷ [] else []

-- The old event of descriptor 6 does not reach the new callback.
reopened : run_batch reopens (5 ∷ 6 ∷ []) two_fds ≡ record {
  event_map = (6, 61) ∷ (5, 50) ∷ [];
  event_cache_expired = 6 ∷ [];
  fd_count = 2;
  calls = (5, 50) ∷ [];
}
unfolding run_batch handle_event act add_event del_event
reopened = refl

del_event_lem_example :
    (new : List (ℕ × ℕ)) × ((handle_all reopens
        (6 ∷ 5 ∷ [])
        (act_all (add_act true 6 61 ∷ []) (del_event 6 two_fds))).calls
      ≡ [] ++ new)
    × (called_for 6 new ≡ false)
del_event_lem_example =
    del_event_lem reopens (add_act true 6 61 ∷ []) (6 ∷ 5 ∷ []) 6 60 two_fds refl
