-- ===== src/Kcp/Input.antt =====
-- `input`: the packets of a datagram, one after the other.
pub mod Loop
pub mod Progress
mod Tests
use zltool_kit.Kit.{
  ℕ, zero, suc, Bool, true, false, ◌&&◌, ◌||◌, not, List, Option, none, some, ltb, ◌==◌,
  if◌then◌else◌, length, drop, bit_or,
}
use zltool_kit.Kit.Words.{sub32}
use zltool_kit.Kcp.Header.{cmd_push, cmd_ack, cmd_wask, cmd_wins}
use zltool_kit.Kcp.Packet.{Packet, Uninit, parse}
use zltool_kit.Kcp.State.{Kcp, ikcp_ask_tell}
use zltool_kit.Kcp.Rtt.{update_rtt}
use zltool_kit.Kcp.Receive.{handle_cmd_push, on_data}
use zltool_kit.Kcp.Send.{drop_cache_by_una, drop_cache_by_ack, update_fast_ack}
use zltool_kit.Kcp.Congestion.{increase_cwnd}

unfoldable pub handle_any_packet : Packet → Kcp → Kcp
handle_any_packet p k =
    drop_cache_by_una p.header.una
      (record k { window = record (k.window) { rmt_wnd = p.header.wnd } })

unfoldable pub handle_cmd_ack : ℕ → Packet → Kcp → Kcp
handle_cmd_ack now p k =
    drop_cache_by_ack p.header.sn
      (record k { rtt = update_rtt k.settings.interval (sub32 now p.header.ts) k.rtt })

-- The local variables of the loop, with the state.
pub record Scan : Type 0 where
  pub state : Kcp
  pub fast_ack : Bool
  pub maxack : ℕ
  pub latest_ts : ℕ
  pub has_data : Bool

unfoldable pub note_ack : Bool → Packet → Scan → Scan
note_ack conserve p s =
    if not s.fast_ack
    then record s { fast_ack = true; maxack = p.header.sn; latest_ts = p.header.ts }
    else if ltb s.maxack p.header.sn && (not conserve || ltb s.latest_ts p.header.ts)
    then record s { maxack = p.header.sn; latest_ts = p.header.ts }
    else s

-- The `switch` over the command.
unfoldable pub dispatch : ℕ → Packet → Scan → Scan
dispatch now p s =
    let k = s.state in
    if p.header.cmd == cmd_ack
    then note_ack k.settings.fastack_conserve p (record s { state = handle_cmd_ack now p k })
    else if p.header.cmd == cmd_push
    then record s { state = handle_cmd_push p k; has_data = true }
    else if p.header.cmd == cmd_wask
    then record s {
      state = record k {
        probing = record (k.probing) { probe = bit_or k.probing.probe ikcp_ask_tell };
      };
    }
    else s

abbrev pub is_known_cmd : ℕ → Bool
is_known_cmd c = c == cmd_push || (c == cmd_ack || (c == cmd_wask || c == cmd_wins))

-- The session number of the first packet is taken over by a server that has none.
abbrev pub adopt_conv : Packet → Kcp → Kcp
adopt_conv p k = if k.conv_init then k else record k { conv = p.header.conv; conv_init = true }

-- The body of the loop for a parsed packet.
unfoldable pub process_packet : ℕ → Packet → Scan → Scan
process_packet now p s =
    let k = adopt_conv p s.state in
    if not (k.conv == p.header.conv)
    then s
    else if not (is_known_cmd p.header.cmd)
    then record s { state = k }
    else dispatch now p (record s { state = handle_any_packet p k })

-- `while (size)`, on fuel; `none` says that the fuel ran out before the data.
unfoldable pub scan_packets : Uninit → ℕ → ℕ → List ℕ → Scan → Option Scan
scan_packets u now zero d s = none
scan_packets u now (suc fuel) d s = if length d == 0 then some s else elim (parse u d) [
  | none ↦ some s
  | some p ↦ scan_packets u now fuel (drop p.raw.size d) (process_packet now p s)
]

-- What follows the loop. `none` is a handler of `onData` that does not complete.
unfoldable pub finish : Uninit → ℕ → Scan → Option Kcp
finish u prev_una s =
    let k1 = if s.fast_ack then update_fast_ack s.maxack s.latest_ts s.state else s.state in
    let grown = record k1 { window = increase_cwnd k1.settings.mss k1.window } in
    let k2 = if ltb prev_una k1.snd_una then grown else k1 in
    let read = on_data u k2 in if s.has_data then read else some k2

unfoldable pub input : Uninit → ℕ → ℕ → List ℕ → Kcp → Option Kcp
input u now fuel d k =
    elim (scan_packets u now fuel d
      (record { state = k; fast_ack = false; maxack = 0; latest_ts = 0; has_data = false })) [
        | none ↦ none
        | some s ↦ finish u k.snd_una s
      ]
