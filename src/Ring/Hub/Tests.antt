-- ===== src/Ring/Hub/Tests.antt =====
-- The buffer at a concrete history.
use zltool_kit.Kit.{ℕ, true, false, List, [], ◌∷◌}
use zltool_kit.Ring.Hub.{Step, new_hub, steps, write_step, message_step, attach_step, run_step}
use zltool_kit.Ring.Hub.Replica.{IsReplicated, steps-IsReplicated}

abbrev history : List (Step ℕ ℕ)
history =
    write_step 1 true
    ∷ attach_step 0 7
    ∷ write_step 2 false
    ∷ message_step 9
    ∷ run_step (λ r. true) 0
    ∷ attach_step 1 8
    ∷ write_step 3 true
    ∷ run_step (λ r. false) 0
    ∷ []

steps-IsReplicated_example : IsReplicated (steps history (new_hub 40 3))
unfolding new_hub
steps-IsReplicated_example = steps-IsReplicated history (new_hub 40 3) tt
