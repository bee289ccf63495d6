-- ===== src/Kcp/Flush.antt =====
-- What goes out: `sendPacket`, `flushPool`, `sendAckList`, `sendProbePacket`, `sendSendQueue`,
-- `update`. `none` is a copy past the end of `_buffer_pool`.
pub mod Pool
pub mod Acks
pub mod Resend
mod Tests
use zltool_kit.Kit.{
  ℕ, zero, suc, ◌+◌, ◌/◌, Bool, true, false, ◌&&◌, ◌||◌, not, List, [], ◌∷◌, ◌++◌, Option, none,
  some, ltb, leb, ◌==◌, if◌then◌else◌, bit_and, bit_or,
}
use zltool_kit.Kit.Words.{u16, add32, sub32, is_neg32, sdiv32}
use zltool_kit.Buffer.{contents, memcpy_at}
use zltool_kit.Kcp.Header.{cmd_ack, cmd_wask, cmd_wins}
use zltool_kit.Kcp.Packet.{Packet, Uninit, new_packet, store_to_data}
use zltool_kit.Kcp.State.{
  Kcp, Settings, Rtt, Probing, Event, wrote, dead, emit, imax, fastlimit, dead_link,
  delay_mode_normal, delay_mode_fast, ikcp_ask_send, ikcp_ask_tell, ikcp_probe_init,
  ikcp_probe_limit,
}
use zltool_kit.Kcp.Receive.{get_rcv_wnd_unused}
use zltool_kit.Kcp.Send.{sort_send_queue}
use zltool_kit.Kcp.Congestion.{decrease_cwnd, resend_threshold}

-- A fallible operation on the state.
infixl 5 ◌>>=◌
abbrev pub ◌>>=◌ {ℓ κ} : {A : Type ℓ} {B : Type κ} → Option A → (A → Option B) → Option B
none >>= f = none
some a >>= f = f a

unfoldable pub flush_pool : Kcp → Kcp
flush_pool k = record (emit (wrote (contents k.buffer_pool)) k) {
  buffer_pool = record (k.buffer_pool) { size = 0 };
}

-- The copy behind what the pool holds; `setSize` checks the same bound as the copy needs.
unfoldable pub append_pool : List ℕ → ℕ → Kcp → Option Kcp
append_pool bytes n k =
    let b = k.buffer_pool in
    if ltb b.capacity (b.size + n)
    then none
    else some (record k {
      buffer_pool = record b { mem = memcpy_at b.size bytes b.mem; size = b.size + n };
    })

-- The packet with its header stored, and the state.
unfoldable pub send_packet : Packet → Kcp → Option (Packet × Kcp)
send_packet p k =
    let q = store_to_data p in
    let room = if ltb k.settings.mtu (q.raw.size + k.buffer_pool.size) then flush_pool k else k in
    elim (append_pool (contents q.raw) q.raw.size room) [ none ↦ none | some sent ↦ some (q, sent) ]

-- The window of the acknowledgement is cut to the field's 16 bits.
unfoldable pub ack_packet : Uninit → ℕ × ℕ → Kcp → Packet
ack_packet u (sn, ts) k =
    let p = new_packet u k.conv cmd_ack 0 in
    record p {
      header = record (p.header) {
        wnd = u16 (get_rcv_wnd_unused k);
        una = k.rcv_nxt;
        sn = sn;
        ts = ts;
      };
    }

unfoldable pub send_acks : Uninit → List (ℕ × ℕ) → Kcp → Option Kcp
send_acks u [] k = some (record k { acklist = [] })
send_acks u (a ∷ acks) k = elim (send_packet (ack_packet u a k) k) [
  | none ↦ none
  | some (_, sent) ↦ send_acks u acks sent
]

unfoldable pub send_ack_list : Uninit → Kcp → Option Kcp
send_ack_list u k = send_acks u k.acklist k

-- The timing of the probe, before anything is sent; `_itimediff` is the sign of the difference.
unfoldable pub schedule_probe : ℕ → ℕ → Probing → Probing
schedule_probe now rmt_wnd p =
    let least = if ltb p.probe_wait ikcp_probe_init then ikcp_probe_init else p.probe_wait in
    let grown = add32 least (least / 2) in
    let wait = if ltb ikcp_probe_limit grown then ikcp_probe_limit else grown in
    if not (rmt_wnd == 0)
    then record p { ts_probe = 0; probe_wait = 0 }
    else if p.probe_wait == 0
    then record p { probe_wait = ikcp_probe_init; ts_probe = add32 now ikcp_probe_init }
    else if is_neg32 (sub32 now p.ts_probe)
    then p
    else record {
      probe = bit_or p.probe ikcp_ask_send;
      ts_probe = add32 now wait;
      probe_wait = wait;
    }

-- One of the two window commands, if its flag is set. Only `conv`, `cmd` and `frg` are written.
unfoldable pub send_command : Uninit → ℕ → ℕ → ℕ → Kcp → Option Kcp
send_command u probe flag cmd k =
    if bit_and probe flag == 0 then some k else elim (send_packet (new_packet u k.conv cmd 0) k) [
      | none ↦ none
      | some (_, sent) ↦ some sent
    ]

unfoldable pub send_probe_packet : Uninit → ℕ → Kcp → Option Kcp
send_probe_packet u now k = do
  let p = schedule_probe now k.window.rmt_wnd k.probing
  k1 ← send_command u p.probe ikcp_ask_send cmd_wask (record k { probing = p })
  k2 ← send_command u p.probe ikcp_ask_tell cmd_wins k1
  some (record k2 { probing = record p { probe = 0 } })

-- What one round of the loop over `_snd_buf` decides for a packet.
pub record Turn : Type 0 where
  pub packet : Packet
  pub needsend : Bool
  pub change : Bool
  pub lost : Bool

-- `_rx_rto >> 3` on a value that is never negative.
abbrev pub rto_margin : ℕ → ℕ → ℕ
rto_margin delay_mode rx_rto = if delay_mode == delay_mode_normal then rx_rto / 8 else 0

unfoldable pub first_send : ℕ → Settings → Rtt → Packet → Turn
first_send now s r p = record {
  packet = record p {
    xmit = add32 p.xmit 1;
    rto = r.rx_rto;
    resendts = add32 (add32 now r.rx_rto) (rto_margin s.delay_mode r.rx_rto);
  };
  needsend = true;
  change = false;
  lost = false;
}

-- The next time-out. The source's test reads `(_delay_mode == DELAY_MODE_NORMAL) == 0`.
unfoldable pub backoff : ℕ → ℕ → ℕ → ℕ
backoff delay_mode rx_rto rto =
    if not (delay_mode == delay_mode_normal)
    then add32 rto (imax rto rx_rto)
    else let step = if delay_mode == delay_mode_fast then rto else rx_rto in
      add32 rto (sdiv32 step 2)

unfoldable pub timeout_send : ℕ → Settings → Rtt → Packet → Turn
timeout_send now s r p = record {
  packet = record p {
    xmit = add32 p.xmit 1;
    rto = backoff s.delay_mode r.rx_rto p.rto;
    resendts = add32 now p.rto;
  };
  needsend = true;
  change = false;
  lost = true;
}

unfoldable pub fast_send : ℕ → Packet → Turn
fast_send now p = record {
  packet = record p { xmit = add32 p.xmit 1; fastack = 0; resendts = add32 now p.rto };
  needsend = true;
  change = true;
  lost = false;
}

abbrev pub keep_packet : Packet → Turn
keep_packet p = record { packet = p; needsend = false; change = false; lost = false }

unfoldable pub take_turn : ℕ → Settings → Rtt → Packet → Turn
take_turn now s r p =
    if p.xmit == 0
    then first_send now s r p
    else if leb p.resendts now
    then timeout_send now s r p
    else if leb (resend_threshold s.fastresend) p.fastack
        && (is_neg32 p.xmit || leb p.xmit fastlimit)
    then fast_send now p
    else keep_packet p

-- The fields written just before a data packet goes out.
abbrev pub stamp : ℕ → Kcp → Packet → Packet
stamp now k p = record p {
  header = record (p.header) { ts = now; wnd = u16 (get_rcv_wnd_unused k); una = k.rcv_nxt };
}

-- The call of `onErr` for a packet that went out too often.
abbrev pub report_dead : Packet → Kcp → Kcp
report_dead p k = if leb dead_link p.xmit then emit (dead p.xmit) k else k

abbrev pub count_resend : Bool → Kcp → Kcp
count_resend lost k = if lost then record k { resent_count = add32 k.resent_count 1 } else k

unfoldable pub play_turn : ℕ → Turn → Kcp → Option (Packet × Kcp)
play_turn now t k =
    if t.needsend
    then elim (send_packet (stamp now k t.packet) (count_resend t.lost k)) [
      | none ↦ none
      | some (q, sent) ↦ some (q, report_dead q sent)
    ]
    else some (t.packet, k)

-- What the loop leaves: the packets in order, the flags, and the state.
pub record Sent : Type 0 where
  pub buf : List Packet
  pub change : Bool
  pub lost : Bool
  pub state : Kcp

unfoldable pub send_segments : ℕ → List Packet → Kcp → Option Sent
send_segments now [] k = some (record { buf = []; change = false; lost = false; state = k })
send_segments now (p ∷ ps) k =
    let t = take_turn now k.settings k.rtt p in
    elim (play_turn now t k) [
      | none ↦ none
      | some (q, k1) ↦ elim (send_segments now ps k1) [
        | none ↦ none
        | some s ↦
            some
              (record s { buf = q ∷ s.buf; change = t.change || s.change; lost = t.lost || s.lost })
      ]
    ]

unfoldable pub send_send_queue : ℕ → Kcp → Option Kcp
send_send_queue now k =
    let sorted = sort_send_queue k in
    elim (send_segments now sorted.snd_buf sorted) [
      | none ↦ none
      | some s ↦
          some (decrease_cwnd s.change s.lost (flush_pool (record (s.state) { snd_buf = s.buf })))
    ]

unfoldable pub update : Uninit → ℕ → Kcp → Option Kcp
update u now k = do k1 ← send_ack_list u k; k2 ← send_probe_packet u now k1; send_send_queue now k2
