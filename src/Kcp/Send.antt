-- ===== src/Kcp/Send.antt =====
-- The sending side: `send`, `mergeSendQueue`, `sortSendQueue`, `dropCacheByUna`, `dropCacheByAck`,
-- `updateFastAck`, `getWaitSnd`.
pub mod Fragments
pub mod Merge
pub mod Sequence
mod Tests
use zltool_kit.Kit.{
  ℕ, zero, suc, ◌+◌, ◌-◌, ◌/◌, Bool, true, false, ◌&&◌, ◌||◌, not, List, [], ◌∷◌, ◌++◌, Option,
  none, some, ltb, leb, ◌==◌, if◌then◌else◌, length, take, drop, min,
}
use zltool_kit.Kit.Words.{u8, u32, add32, mul32}
use zltool_kit.Kcp.Header.{cmd_push, cmd_wask}
use zltool_kit.Kcp.Packet.{Packet, Uninit, new_packet, set_payload_size, write_payload}
use zltool_kit.Kcp.State.{Kcp, imin, imax, ikcp_wnd_rcv}

-- The merge into the packet at the front of the queue.
unfoldable pub extend_packet : Uninit → ℕ → List ℕ → Packet → Packet
unfolding set_payload_size write_payload
extend_packet u extend buffer p =
    let old = p.header.len in
    let copied = write_payload old (take extend buffer) (set_payload_size u (old + extend) p) in
    record copied { header = record (copied.header) { len = u32 (old + extend); frg = 0 } }

-- The number of bytes that were merged, and the new queue.
unfoldable pub merge_front : Uninit → ℕ → List ℕ → List Packet → ℕ × List Packet
unfolding extend_packet
merge_front u mss buffer [] = (0, [])
merge_front u mss buffer (p ∷ ps) =
    if leb mss p.header.len
    then (0, p ∷ ps)
    else let extend = min (length buffer) (mss - p.header.len) in
      (extend, extend_packet u extend buffer p ∷ ps)

unfoldable pub merge_send_queue : Uninit → List ℕ → Kcp → ℕ × Kcp
unfolding merge_front
merge_send_queue u buffer k =
    if length buffer == 0 || not k.settings.stream
    then (0, k)
    else let (extend, queue) = merge_front u k.settings.mss buffer k.snd_queue in
      (extend, record k { snd_queue = queue })

-- The packet for the next `n` bytes of `buffer`.
unfoldable pub make_fragment : Uninit → ℕ → ℕ → ℕ → List ℕ → Packet
unfolding new_packet write_payload
make_fragment u conv frg n buffer =
    let p = write_payload 0 (take n buffer) (new_packet u conv cmd_wask n) in
    record p { header = record (p.header) { frg = frg } }

-- The loop over the fragments; the first argument is `count - i`.
unfoldable pub fragments : Uninit → Bool → ℕ → ℕ → ℕ → List ℕ → List Packet
fragments u stream conv mss zero buffer = []
fragments u stream conv mss (suc left) buffer =
    let n = min (length buffer) mss in
    make_fragment u conv (if stream then 0 else u8 left) n buffer
    ∷ fragments u stream conv mss left (drop n buffer)

-- What `send` queues, without the flush that may follow.
unfoldable pub enqueue : Uninit → List ℕ → Kcp → Kcp
unfolding merge_send_queue
enqueue u buffer k =
    let (extend, merged) = merge_send_queue u buffer k in
    let left = drop extend buffer in
    let mss = k.settings.mss in
    record merged {
      snd_queue =
          merged.snd_queue
          ++ fragments u k.settings.stream k.conv mss ((length left + mss - 1) / mss) left;
    }

-- What `send` returns: -1, or the size.
pub data Reply : Type 0 where
  refused : Reply
  accepted : ℕ → Reply

unfoldable pub check_send : List ℕ → Kcp → Reply
check_send buffer k =
    if not k.conv_init
    then refused
    else if length buffer == 0
    then accepted 0
    else if leb (mul32 k.settings.mss ikcp_wnd_rcv) (length buffer)
    then refused
    else accepted (length buffer)

-- The window of `sortSendQueue`.
unfoldable pub send_window : Kcp → ℕ
send_window k =
    let both = imin k.settings.snd_wnd k.window.rmt_wnd in
    imax 1 (if not k.settings.nocwnd then imin k.window.cwnd both else both)

abbrev pub number_packet : ℕ → ℕ → Packet → Packet
number_packet conv sn p = record p {
  header = record (p.header) { conv = conv; cmd = cmd_push; sn = sn };
  xmit = 0;
  fastack = 0;
}

-- What `sortSendQueue` changes.
pub record Numbered : Type 0 where
  pub queue : List Packet
  pub next : ℕ
  pub buf : List Packet

-- The loop; `limit` is `_snd_una + cwnd`.
unfoldable pub number_ready : ℕ → ℕ → List Packet → ℕ → List Packet → Numbered
number_ready conv limit [] next buf = record { queue = []; next = next; buf = buf }
number_ready conv limit (p ∷ ps) next buf =
    let rest = number_ready conv limit ps (add32 next 1) (buf ++ number_packet conv next p ∷ []) in
    if leb limit next then record { queue = p ∷ ps; next = next; buf = buf } else rest

unfoldable pub sort_send_queue : Kcp → Kcp
unfolding send_window
sort_send_queue k =
    let n = number_ready k.conv (add32 k.snd_una (send_window k)) k.snd_queue k.snd_nxt k.snd_buf in
    record k { snd_queue = n.queue; snd_nxt = n.next; snd_buf = n.buf }

-- The first number of the buffer, or `_snd_nxt` if it is empty.
abbrev pub first_sn : ℕ → List Packet → ℕ
first_sn next [] = next
first_sn next (p ∷ ps) = p.header.sn

unfoldable pub drop_below : ℕ → List Packet → List Packet
drop_below una [] = []
drop_below una (p ∷ ps) =
    let rest = drop_below una ps in if leb una p.header.sn then p ∷ ps else rest

unfoldable pub drop_cache_by_una : ℕ → Kcp → Kcp
drop_cache_by_una una k =
    if leb una k.snd_una
    then k
    else let buf = drop_below una k.snd_buf in
      record k { snd_buf = buf; snd_una = first_sn k.snd_nxt buf }

unfoldable pub remove_sn : ℕ → List Packet → List Packet
remove_sn sn [] = []
remove_sn sn (p ∷ ps) =
    let rest = p ∷ remove_sn sn ps in
    if ltb sn p.header.sn then p ∷ ps else if sn == p.header.sn then ps else rest

unfoldable pub drop_cache_by_ack : ℕ → Kcp → Kcp
drop_cache_by_ack sn k =
    if ltb sn k.snd_una
    then k
    else let buf = remove_sn sn k.snd_buf in
      record k { snd_buf = buf; snd_una = first_sn k.snd_nxt buf }

-- A packet before `sn` counts one more acknowledgement that overtook it.
unfoldable pub count_fast_ack : Bool → ℕ → ℕ → List Packet → List Packet
count_fast_ack conserve sn ts [] = []
count_fast_ack conserve sn ts (p ∷ ps) =
    let rest = count_fast_ack conserve sn ts ps in
    if ltb sn p.header.sn
    then p ∷ ps
    else if not (sn == p.header.sn) && (not conserve || ltb p.header.ts ts)
    then record p { fastack = add32 p.fastack 1 } ∷ rest
    else p ∷ rest

unfoldable pub update_fast_ack : ℕ → ℕ → Kcp → Kcp
unfolding count_fast_ack
update_fast_ack sn ts k =
    if ltb sn k.snd_una || leb k.snd_nxt sn
    then k
    else record k { snd_buf = count_fast_ack k.settings.fastack_conserve sn ts k.snd_buf }

unfoldable pub get_wait_snd : Kcp → ℕ
get_wait_snd k = length k.snd_buf + length k.snd_queue
