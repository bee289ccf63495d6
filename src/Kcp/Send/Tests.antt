-- ===== src/Kcp/Send/Tests.antt =====
-- The sending side on concrete messages.
use zltool_kit.Kit.{
  ℕ, ◌+◌, ◌-◌, ◌/◌, ◌≡◌, List, ◌∷◌, [], ◌++◌, none, arith, map, concat, refl, All, leb,
  if◌then◌else◌,
}
use zltool_kit.Kcp.Packet.{Packet, payload}
use zltool_kit.Kcp.State.{Kcp}
use zltool_kit.Kcp.Fixtures.{garbage, garbage_sized, data_packet, idle}
use zltool_kit.Kcp.Receive.Order.{find_sn}
use zltool_kit.Kcp.Send.{
  enqueue, make_fragment, drop_cache_by_una, sort_send_queue, send_window, fragments,
}
use zltool_kit.Kcp.Send.Fragments.{enqueue_message, IsFragment, countdown}
use zltool_kit.Kcp.Send.Sequence.{IsSender, Enters, drop_cache_by_una_lem, sort_send_queue_lem}

-- A connection that sends three bytes to a packet.
abbrev tight : Kcp
tight = record idle { settings = record (idle.settings) { mss = 3 } }

abbrev message : List ℕ
message = 1 ∷ 2 ∷ 3 ∷ 4 ∷ 5 ∷ 6 ∷ 7 ∷ []

message_payloads :
    map payload (enqueue garbage message tight).snd_queue
    ≡ (1 ∷ 2 ∷ 3 ∷ []) ∷ (4 ∷ 5 ∷ 6 ∷ []) ∷ (7 ∷ []) ∷ []
unfolding enqueue make_fragment fragments
message_payloads = refl

enqueue_message_example :
    (fs : List Packet) × ((enqueue garbage message tight).snd_queue ≡ tight.snd_queue ++ fs)
    × (concat (map payload fs) ≡ message)
    × All (IsFragment garbage garbage_sized 3) fs
    × (map (λ p. p.header.frg) fs ≡ countdown garbage garbage_sized ((7 + 3 - 1) / 3))
enqueue_message_example =
    enqueue_message garbage garbage_sized message tight refl (omega arith) (omega arith)

-- Three packets in flight, two that wait.
abbrev flying : Kcp
flying = record idle {
  snd_una = 4;
  snd_nxt = 7;
  snd_buf = data_packet 4 0 (1 ∷ []) ∷ data_packet 5 0 (2 ∷ []) ∷ data_packet 6 0 (3 ∷ []) ∷ [];
  snd_queue = data_packet 0 0 (4 ∷ []) ∷ data_packet 0 0 (5 ∷ []) ∷ [];
  window = record (idle.window) { cwnd = 4 };
}

flying-IsSender : IsSender flying
flying-IsSender = record { ordered = omega arith; bounded = omega arith; first = refl }

drop_cache_by_una_lem_example :
    IsSender (drop_cache_by_una 6 flying)
    × (find_sn 5 (drop_cache_by_una 6 flying).snd_buf
        ≡ (if leb 6 5 then find_sn 5 flying.snd_buf else none))
drop_cache_by_una_lem_example = drop_cache_by_una_lem 6 5 flying flying-IsSender

sort_send_queue_lem_example :
    IsSender (sort_send_queue flying)
    × Enters 7 (flying.snd_una + send_window flying) 7 flying.snd_queue flying.snd_buf (record {
      queue = (sort_send_queue flying).snd_queue;
      next = (sort_send_queue flying).snd_nxt;
      buf = (sort_send_queue flying).snd_buf;
    })
sort_send_queue_lem_example =
    sort_send_queue_lem flying flying-IsSender (omega arith) (unfold send_window in omega arith)
