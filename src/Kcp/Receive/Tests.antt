-- ===== src/Kcp/Receive/Tests.antt =====
-- The receiving side on concrete packets.
use zltool_kit.Kit.{
  ℕ, zero, suc, ◌+◌, ◌≤◌, ◌<◌, ◌≡◌, ◌≢◌, ◌∷◌, ◌++◌, length, [], some, none, refl, List, arith,
}
use zltool_kit.Kcp.Packet.{Packet}
use zltool_kit.Kcp.State.{Kcp}
use zltool_kit.Kcp.Fixtures.{garbage, data_packet, idle}
use zltool_kit.Kcp.Receive.{insert_packet, handle_cmd_push, move_ready, sort_recv_buf, take_message}
use zltool_kit.Kcp.Receive.Order.{find_sn}
use zltool_kit.Kcp.Receive.Stream.{
  arrive, Streams, arrive-Streams, arrive_complete, IsReceiver, Consecutive,
}
use zltool_kit.Kcp.Receive.Deliver.{take_message_last}

abbrev first : Packet
first = data_packet 0 0 (10 ∷ 11 ∷ [])

abbrev second : Packet
second = data_packet 1 0 (20 ∷ [])

abbrev third : Packet
third = data_packet 2 0 (30 ∷ 31 ∷ 32 ∷ [])

-- Out of order, with a repetition.
abbrev shuffled : List Packet
shuffled = third ∷ first ∷ third ∷ second ∷ []

shuffled_queue : (sort_recv_buf (arrive shuffled idle)).rcv_queue ≡ first ∷ second ∷ third ∷ []
unfolding sort_recv_buf move_ready arrive handle_cmd_push insert_packet
shuffled_queue = refl

idle-IsReceiver : IsReceiver 10 idle
idle-IsReceiver = omega arith

arrive-Streams_example : Streams idle (sort_recv_buf (arrive shuffled idle))
arrive-Streams_example = arrive-Streams 10 shuffled idle (omega arith) idle-IsReceiver

all_arrive : (i : ℕ) → i < 3 → find_sn (idle.rcv_nxt + i) shuffled ≢ none
all_arrive zero h = λ e. cc
all_arrive (suc zero) h = λ e. cc
all_arrive (suc (suc zero)) h = λ e. cc
all_arrive (suc (suc (suc i))) h = absurd (omega arith)

arrive_complete_example :
    (run : List Packet) × ((sort_recv_buf (arrive shuffled idle)).rcv_queue ≡ idle.rcv_queue ++ run)
    × Consecutive idle.rcv_nxt run
    × (3 ≤ length run)
    × ((sort_recv_buf (arrive shuffled idle)).rcv_nxt ≡ idle.rcv_nxt + length run)
arrive_complete_example =
    arrive_complete 10 3 shuffled idle (omega arith) idle-IsReceiver (omega arith) all_arrive

-- A message in two fragments: the first fragment's bytes are lost.
take_message_last_example :
    take_message garbage 3 (data_packet 0 1 (10 ∷ 11 ∷ []) ∷ second ∷ [])
    ≡ some (20 ∷ 205 ∷ 205 ∷ [], [])
take_message_last_example =
    take_message_last garbage 3 (data_packet 0 1 (10 ∷ 11 ∷ []) ∷ []) second [] (ground arith)
      (omega arith) refl

abbrev waiting : Kcp
waiting = record idle { rcv_queue = first ∷ second ∷ [] }

-- Two packets wait and the window holds one: the advertised window is 65535.
abbrev crowded : Kcp
crowded = record waiting { settings = record (idle.settings) { rcv_wnd = 1 } }
