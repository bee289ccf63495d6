-- ===== src/Network/SendMmsg/Tests.antt =====
-- Runs of `BufferSendMMsg`.
use zltool_kit.Kit.{ℕ, ◌≡◌, refl, true, List, [], ◌∷◌, Option, none, some, arith}
use zltool_kit.Network.Kernel.{Answer, room, interrupted, refused, Chunk}
use zltool_kit.Network.SendMmsg.{
  SendMmsg, new_message, new_send_mmsg, send_messages, take_messages, re_offset_messages,
  skip_messages,
}
use zltool_kit.Network.SendMmsg.Datagrams.{IsPending, Sent, send_messages_lem}

abbrev three : List Chunk
three =
    record { id = 1; rest = 10 ∷ 11 ∷ [] }
    ∷ record { id = 2; rest = 20 ∷ [] }
    ∷ record { id = 3; rest = 30 ∷ [] }
    ∷ []

abbrev queued : SendMmsg
queued = record {
  messages =
      new_message (record { id = 1; rest = 10 ∷ 11 ∷ [] })
      ∷ new_message (record { id = 2; rest = 20 ∷ [] })
      ∷ new_message (record { id = 3; rest = 30 ∷ [] })
      ∷ [];
  remain_size = 4;
  called = [];
  wire = [];
}

queued-new_send_mmsg : new_send_mmsg three [] ≡ queued
unfolding new_send_mmsg
queued-new_send_mmsg = refl

queued-IsPending : IsPending queued
queued-IsPending = record {
  unsent = (
    record { more = omega arith; unset = refl },
    (
      record { more = omega arith; unset = refl },
      (record { more = omega arith; unset = refl }, tt),
    ),
  );
  sized = refl;
  small = omega arith;
}

abbrev answers : List Answer
answers = room 1 ∷ interrupted ∷ room 1 ∷ refused 11 ∷ []

send_messages_lem_example :
    (t : SendMmsg) × (error : Option ℕ) × (rest : List Answer) × (send_messages answers queued
      ≡ some (t, (error, rest)))
    × Sent queued t
    × (error ≡ none → t.messages ≡ [])
send_messages_lem_example = send_messages_lem answers queued queued-IsPending refl

-- An empty datagram behind one that is taken is counted as sent, though the kernel has not taken it.
abbrev with_empty : SendMmsg
with_empty = record queued {
  messages =
      new_message (record { id = 1; rest = 10 ∷ 11 ∷ [] })
      ∷ new_message (record { id = 2; rest = [] })
      ∷ new_message (record { id = 3; rest = 30 ∷ 31 ∷ [] })
      ∷ [];
}

empty_is_skipped :
    send_messages (room 1 ∷ refused 11 ∷ []) with_empty
    ≡ some (
      record {
        messages = new_message (record { id = 3; rest = 30 ∷ 31 ∷ [] }) ∷ [];
        remain_size = 2;
        called = (1, true) ∷ (2, true) ∷ [];
        wire = (10 ∷ 11 ∷ []) ∷ [];
      },
      (some 11, []),
    )
unfolding send_messages take_messages re_offset_messages skip_messages
empty_is_skipped = refl
