-- ===== src/Network/SendMsg/Tests.antt =====
-- Runs of `BufferSendMsg`.
use zltool_kit.Kit.{ℕ, ◌≡◌, refl, List, [], ◌∷◌, Option, some, arith}
use zltool_kit.Network.Kernel.{Answer, room, interrupted, refused, Chunk}
use zltool_kit.Network.SendMsg.{SendMsg, new_send_msg, send_loop}
use zltool_kit.Network.SendMsg.Conserve.{IsWhole, Sends, send_loop_lem}

abbrev two_chunks : List Chunk
two_chunks =
    record { id = 1; rest = 10 ∷ 11 ∷ [] } ∷ record { id = 2; rest = 20 ∷ 21 ∷ 22 ∷ [] } ∷ []

abbrev queued : SendMsg
queued = record { chunks = two_chunks; remain_size = 5; called = []; wire = [] }

queued-new_send_msg : new_send_msg two_chunks [] ≡ queued
unfolding new_send_msg
queued-new_send_msg = refl

queued-IsWhole : IsWhole queued
queued-IsWhole = record {
  drained = λ z. absurd (omega (arith, z));
  filled = (omega arith, (omega arith, tt));
  sized = refl;
  small = omega arith;
}

-- The kernel takes three bytes, then is interrupted, then has no room.
abbrev answers : List Answer
answers = room 3 ∷ interrupted ∷ refused 11 ∷ []

send_loop_lem_example :
    (t : SendMsg) × (error : Option ℕ) × (rest : List Answer) × (send_loop answers queued
      ≡ some (t, (error, rest)))
    × Sends answers queued t error rest
send_loop_lem_example = send_loop_lem answers queued queued-IsWhole refl
