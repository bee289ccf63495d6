-- ===== src/Network/Accept/Tests.antt =====
-- Two connections, an interruption between them.
use zltool_kit.Kit.{◌≡◌, refl, true, false, List, [], ◌∷◌, some, none}
use zltool_kit.Network.Accept.{
  Child, would_block, new_listener, complete, hand, accept_loop, on_accept,
}
use zltool_kit.Network.Accept.Places.{Waits, answers, stop, Ends, on_accept_lem}

abbrev plain : Child
plain = record { before_throws = false; accept_throws = false; keeps = false; attach_ok = true }

abbrev throwing : Child
throwing = record { before_throws = true; accept_throws = false; keeps = false; attach_ok = true }

abbrev waiting : List Waits
waiting = some (5, plain) ∷ none ∷ some (6, throwing) ∷ []

waiting-on_accept :
    on_accept true false (answers waiting (would_block ∷ [])) new_listener
    ≡ some (record new_listener { closed = 6 ∷ []; handed = 5 ∷ []; attached = 5 ∷ [] }, true, [])
unfolding on_accept accept_loop hand complete
waiting-on_accept = refl

on_accept_lem_example :
    Ends waiting true [] new_listener
      (on_accept true false (answers waiting (stop true ∷ [])) new_listener)
on_accept_lem_example = on_accept_lem waiting true [] new_listener
