-- ===== src/Network/SendTo/Tests.antt =====
-- Runs of `BufferSendTo`.
use zltool_kit.Kit.{◌≡◌, refl, true, false, List, [], ◌∷◌, some}
use zltool_kit.Network.Kernel.{Answer, room, interrupted, refused, Chunk}
use zltool_kit.Network.SendTo.{SendTo, send_to, advance}

abbrev two : List Chunk
two = record { id = 1; rest = 10 ∷ 11 ∷ 12 ∷ [] } ∷ record { id = 2; rest = 20 ∷ [] } ∷ []

abbrev halfway : SendTo
halfway = record { is_udp = false; chunks = two; offset = 1; called = []; wire = 10 ∷ [] }

abbrev some_room : List Answer
some_room = room 1 ∷ interrupted ∷ room 5 ∷ refused 11 ∷ []

abbrev first_out : SendTo
first_out = record halfway {
  chunks = record { id = 2; rest = 20 ∷ [] } ∷ [];
  offset = 0;
  called = (1, true) ∷ [];
  wire = 10 ∷ 11 ∷ 12 ∷ [];
}

halfway_run : send_to some_room two halfway ≡ some (first_out, (some 11, []))
unfolding send_to advance
halfway_run = refl
