-- ===== src/Kcp/Flush/Resend.antt =====
-- When a packet in flight is sent again, how its time-out grows, and when the window is probed.
use zltool_kit.Kit.{
  ℕ, ◌+◌, ◌/◌, ◌≤◌, ◌<◌, ◌^◌, ◌≡◌, ◌⊎◌, inl, inr, Bool, ◌&&◌, ◌||◌, some, arith, ltb, leb, ◌==◌,
  if◌then◌else◌, max, length, append-nil,
}
use zltool_kit.Kcp.Header.{Header, cmd_wins}
use zltool_kit.Kcp.Header.RoundTrip.{header_bytes}
use zltool_kit.Kcp.Packet.{Packet, Uninit, new_packet}
use zltool_kit.Kcp.Packet.RoundTrip.{IsWired, wire}
use zltool_kit.Kcp.State.{Kcp, Settings, Rtt, Probing}
use zltool_kit.Kcp.Congestion.{resend_threshold}
use zltool_kit.Kcp.Flush.{
  take_turn, first_send, timeout_send, fast_send, backoff, schedule_probe, send_command,
}
use zltool_kit.Kcp.Flush.Pool.{IsPooled, Sends, send_packet_lem}

-- While no sum overflows, the time-out after a loss grows by half of the current estimate in the
-- normal mode, and by the larger of the packet's own time-out and the estimate in the other two.
pub backoff_lem :
    (delay_mode rx_rto rto : ℕ)
    → rx_rto ≤ 60000
    → rto < 2 ^ 31
    → backoff delay_mode rx_rto rto
      ≡ (if delay_mode == 0 then rto + rx_rto / 2 else rto + max rto rx_rto)
unfolding backoff
backoff_lem delay_mode rx_rto rto h k = ground arith

-- Whether the packet is due: never sent, timed out, or overtaken often enough and not sent more than
-- five times.
abbrev pub is_due : ℕ → ℕ → Packet → Bool
is_due now threshold p =
    p.xmit == 0 || (leb p.resendts now || (leb threshold p.fastack && leb p.xmit 5))

-- For a packet sent less than 2 ^ 31 times, a round sends it exactly if it is due, counts each
-- sending, never the others, and reports a loss exactly for a packet sent before whose time-out has
-- passed.
pub take_turn_lem :
    (now : ℕ) (s : Settings) (r : Rtt) (p : Packet)
    → p.xmit < 2 ^ 31
    → let t = take_turn now s r p in
      (t.needsend ≡ is_due now (resend_threshold s.fastresend) p)
      × (t.packet.xmit ≡ (if t.needsend then p.xmit + 1 else p.xmit))
      × (t.lost ≡ (ltb 0 p.xmit && leb p.resendts now))
unfolding take_turn first_send timeout_send fast_send
take_turn_lem now s r p h = ground arith

-- The time between probes is 0 while the remote window is open, and else between 7 and 120 seconds.
abbrev pub IsTimed : Probing → Type 0
IsTimed p = (p.probe_wait ≡ 0) ⊎ ((7000 ≤ p.probe_wait) × (p.probe_wait ≤ 120000))

-- Scheduling a probe keeps these bounds; it asks for one only while the remote window is closed.
pub schedule_probe-IsTimed :
    (now rmt_wnd : ℕ) (p : Probing)
    → IsTimed p
    → IsTimed (schedule_probe now rmt_wnd p)
      × (((schedule_probe now rmt_wnd p).probe ≡ p.probe) ⊎ (rmt_wnd ≡ 0))
unfolding schedule_probe
schedule_probe-IsTimed now rmt_wnd p (inl h) = ground arith
schedule_probe-IsTimed now rmt_wnd p (inr h) = ground arith

-- The header of a window command: the members that nothing writes go out as they were found.
abbrev pub command_header : Uninit → ℕ → ℕ → Header
command_header u conv cmd = record {
  conv = conv;
  cmd = cmd;
  frg = 0;
  wnd = u.wnd;
  ts = u.ts;
  sn = u.sn;
  una = u.una;
  len = 0;
}

-- What the unwritten members hold is within their types.
pub record IsUninit (u : Uninit) : Type 0 where
  pub sized : (n : ℕ) → length (u.bytes n) ≡ n
  pub wnd_in : u.wnd < 2 ^ 16
  pub ts_in : u.ts < 2 ^ 32
  pub sn_in : u.sn < 2 ^ 32
  pub una_in : u.una < 2 ^ 32

-- With a well-formed pool and room for a header, the packet that tells the window size is sent, but
-- its window, its acknowledgement, its number and its time stamp are unwritten memory: the receive
-- queue has no part in them.
pub send_command_tell :
    (u : Uninit) (k : Kcp)
    → IsUninit u
    → IsPooled k
    → k.conv < 2 ^ 32
    → 24 ≤ k.settings.mtu
    → (l : Kcp) × (send_command u 2 2 cmd_wins k ≡ some l)
      × Sends k l (header_bytes (command_header u k.conv cmd_wins))
unfolding send_command
send_command_tell u k h v c m =
    let (l, e, s) =
      send_packet_lem (new_packet u k.conv cmd_wins 0) k v wired
        (unfold new_packet in omega arith) in
    (l, rw (e, send_command), rw image at s)
  where
    wired : IsWired (new_packet u k.conv cmd_wins 0)
    wired =
        unfold new_packet in
        record {
          wide = record {
            conv_in = c;
            cmd_in = omega arith;
            frg_in = omega arith;
            wnd_in = h.wnd_in;
            ts_in = h.ts_in;
            sn_in = h.sn_in;
            una_in = h.una_in;
            len_in = omega arith;
          };
          sized_as = omega arith;
          covers = omega (arith, h.sized (0 + 24 + 1));
          short = omega arith;
        }

    image : wire (new_packet u k.conv cmd_wins 0) ≡ header_bytes (command_header u k.conv cmd_wins)
    image = unfold new_packet in append-nil (header_bytes (command_header u k.conv cmd_wins))
