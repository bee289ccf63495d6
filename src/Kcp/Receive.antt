-- ===== src/Kcp/Receive.antt =====
-- The receiving side: `handleCmdPush`, `sortRecvBuf`, `peeksize`, `onData`, `getRcvWndUnused`.
-- `none` says that the handler does not complete: a copy out of bounds, `front()` of an empty list,
-- or an allocation that throws.
pub mod Order
pub mod Deliver
pub mod Stream
mod Tests
use zltool_kit.Kit.{
  ℕ, zero, suc, ◌+◌, Bool, true, false, ◌&&◌, ◌||◌, not, List, [], ◌∷◌, ◌++◌, Option, none, some,
  ltb, leb, ◌==◌, if◌then◌else◌, length, bit_or,
}
use zltool_kit.Kit.Words.{u32, add32, sub64, is_neg32}
use zltool_kit.Buffer.{memcpy_at}
use zltool_kit.Kcp.Header.{header_size}
use zltool_kit.Kcp.Packet.{Packet, Uninit, payload}
use zltool_kit.Kcp.State.{Kcp, Event, delivered, emit, ikcp_ask_tell}

-- The walk over `_rcv_buf`: a known number is skipped, else the packet goes before the first larger.
unfoldable pub insert_packet : Packet → List Packet → List Packet
insert_packet p [] = p ∷ []
insert_packet p (old ∷ rest) =
    let further = old ∷ insert_packet p rest in
    if old.header.sn == p.header.sn
    then old ∷ rest
    else if ltb p.header.sn old.header.sn
    then p ∷ old ∷ rest
    else further

unfoldable pub handle_cmd_push : Packet → Kcp → Kcp
handle_cmd_push p k =
    let sn = p.header.sn in
    if leb (add32 k.rcv_nxt k.settings.rcv_wnd) sn
    then k
    else let acked = record k { acklist = k.acklist ++ (sn, p.header.ts) ∷ [] } in
      if ltb sn k.rcv_nxt then acked else record acked { rcv_buf = insert_packet p k.rcv_buf }

-- What `sortRecvBuf` changes.
pub record Moved : Type 0 where
  pub buf : List Packet
  pub next : ℕ
  pub queue : List Packet

unfoldable pub move_ready : List Packet → ℕ → List Packet → Moved
move_ready [] next queue = record { buf = []; next = next; queue = queue }
move_ready (p ∷ ps) next queue =
    let moved = move_ready ps (add32 next 1) (queue ++ p ∷ []) in
    if p.header.sn == next then moved else record { buf = p ∷ ps; next = next; queue = queue }

unfoldable pub sort_recv_buf : Kcp → Kcp
sort_recv_buf k =
    let m = move_ready k.rcv_buf k.rcv_nxt k.rcv_queue in
    record k { rcv_buf = m.buf; rcv_nxt = m.next; rcv_queue = m.queue }

-- The `int` sum of the lengths up to the first packet with fragment number 0.
unfoldable pub message_length : ℕ → List Packet → ℕ
message_length acc [] = acc
message_length acc (p ∷ ps) =
    let rest = message_length (add32 acc p.header.len) ps in
    if p.header.frg == 0 then add32 acc p.header.len else rest

unfoldable pub peeksize : List Packet → ℕ
unfolding message_length
peeksize [] = 0
peeksize (p ∷ ps) =
    if ltb (suc (length ps)) (p.header.frg + 1) then 0 else message_length 0 (p ∷ ps)

-- Both ends of the `memcpy` of a payload into a buffer of `size` bytes lie in their blocks.
abbrev pub copies_in_bounds : ℕ → Packet → Bool
copies_in_bounds size p = leb p.header.len size && leb (header_size + p.header.len) p.raw.capacity

-- The inner loop: each round makes a buffer of its own, and the one of the last fragment is the one
-- that is handed out.
unfoldable pub take_message : Uninit → ℕ → List Packet → Option (List ℕ × List Packet)
take_message u size [] = none
take_message u size (p ∷ ps) =
    let rest = take_message u size ps in
    if not (copies_in_bounds size p)
    then none
    else if p.header.frg == 0
    then some (memcpy_at 0 (payload p) (u.bytes size), ps)
    else rest

-- The outer loop. A round takes at least one packet, so more fuel than packets is enough.
unfoldable pub deliver_all : Uninit → ℕ → Kcp → Option Kcp
deliver_all u zero k = none
deliver_all u (suc fuel) k =
    let size = peeksize k.rcv_queue in
    if size == 0
    then some k
    else if is_neg32 size
    then none
    else elim (take_message u size k.rcv_queue) [
      | none ↦ none
      | some (buffer, rest) ↦
          deliver_all u fuel (emit (delivered buffer) (record k { rcv_queue = rest }))
    ]

unfoldable pub fast_recover : Bool → Kcp → Kcp
fast_recover was_full k =
    if ltb (length k.rcv_queue) k.settings.rcv_wnd && was_full
    then record k { probing = record (k.probing) { probe = bit_or k.probing.probe ikcp_ask_tell } }
    else k

unfoldable pub on_data : Uninit → Kcp → Option Kcp
unfolding sort_recv_buf fast_recover
on_data u k =
    let sorted = sort_recv_buf k in
    let was_full = leb sorted.settings.rcv_wnd (length sorted.rcv_queue) in
    elim (deliver_all u (length sorted.rcv_queue + 1) sorted) [
      | none ↦ none
      | some done ↦ some (fast_recover was_full done)
    ]

-- The difference is a `size_t`, and the result is cut to an `int`.
unfoldable pub get_rcv_wnd_unused : Kcp → ℕ
get_rcv_wnd_unused k =
    let wnd = sub64 k.settings.rcv_wnd (length k.rcv_queue) in if ltb 0 wnd then u32 wnd else 0
