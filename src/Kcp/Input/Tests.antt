-- ===== src/Kcp/Input/Tests.antt =====
-- The loop over a datagram, on concrete bytes.
use zltool_kit.Kit.{
  ℕ, zero, suc, ◌≡◌, ◌<◌, ◌^◌, ◌-◌, drop, List, ◌∷◌, [], ◌++◌, some, none, arith, refl, false, map,
  concat, replicate,
}
use zltool_kit.Bytes.{get4_le}
use zltool_kit.Kcp.Packet.{Packet, Uninit}
use zltool_kit.Kcp.Packet.RoundTrip.{wire}
use zltool_kit.Kcp.Fixtures.{garbage, garbage_sized, data_packet, idle}
use zltool_kit.Kcp.Input.{Scan, scan_packets}
use zltool_kit.Kcp.Input.Loop.{AreCopies, process_all, scan_packets-wire}
use zltool_kit.Kcp.Input.Progress.{
  IsRead, at_first, behind, IsUnwrapped, scan_packets_total, scan_packets_stuck,
}

abbrev begin : Scan
begin = record { state = idle; fast_ack = false; maxack = 0; latest_ts = 0; has_data = false }

abbrev packets : List Packet
packets = data_packet 0 0 (10 ∷ 11 ∷ []) ∷ data_packet 1 0 (20 ∷ []) ∷ []

scan_packets-wire_example :
    (qs : List Packet) × AreCopies packets qs
    × (scan_packets garbage 5000 3 (concat (map wire packets)) begin
        ≡ some (process_all 5000 qs begin))
scan_packets-wire_example =
    scan_packets-wire garbage 5000 3 packets begin garbage_sized
      (
        record { wide = omega arith; sized_as = refl; covers = omega arith; short = omega arith },
        (
          record { wide = omega arith; sized_as = refl; covers = omega arith; short = omega arith },
          tt,
        ),
      )
      (omega arith)

abbrev short : List ℕ
short = replicate 30 1

abbrev AllUnwrapped : List ℕ → Type 0
AllUnwrapped [] = Unit
AllUnwrapped (x ∷ xs) = (get4_le (x ∷ xs) 20 < 2 ^ 32 - 24) × AllUnwrapped xs

AllUnwrapped-drop : (n : ℕ) (d : List ℕ) → AllUnwrapped d → AllUnwrapped (drop n d)
AllUnwrapped-drop zero d h = h
AllUnwrapped-drop (suc n) [] h = h
AllUnwrapped-drop (suc n) (x ∷ d) h = AllUnwrapped-drop n d h.1

AllUnwrapped-IsRead : (u : Uninit) (d e : List ℕ) → AllUnwrapped d → IsRead u d e → AllUnwrapped e
AllUnwrapped-IsRead u d e h (at_first c) = h
AllUnwrapped-IsRead u d e h (behind c p g f r) =
    AllUnwrapped-IsRead u (drop p.raw.size d) e (AllUnwrapped-drop p.raw.size d h) r

short-IsUnwrapped : IsUnwrapped garbage short
unfolding get4_le
short-IsUnwrapped e p r f = front e (AllUnwrapped-IsRead garbage short e (omega arith) r)
  where
    front : (e : List ℕ) → AllUnwrapped e → get4_le e 20 < 2 ^ 32 - 24
    front [] h = omega arith
    front (x ∷ xs) h = h.0

scan_packets_total_example : (r : Scan) × (scan_packets garbage 5000 31 short begin ≡ some r)
scan_packets_total_example =
    scan_packets_total garbage 5000 31 short begin short-IsUnwrapped (omega arith)

-- The length field is 0xffffffe8.
abbrev endless : List ℕ
endless = replicate 19 0 ++ 0xe8 ∷ 0xff ∷ 0xff ∷ 0xff ∷ []

scan_packets_stuck_example : scan_packets garbage 5000 9 (0 ∷ endless) begin ≡ none
scan_packets_stuck_example =
    scan_packets_stuck garbage 5000 9 endless begin (omega arith) (unfold get4_le in refl)
