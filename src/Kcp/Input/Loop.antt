-- ===== src/Kcp/Input/Loop.antt =====
-- What the loop does with a datagram that was put together from packets, and with one that was not
-- meant for this session.
use zltool_kit.Kit.{
  ℕ, zero, suc, ◌<◌, ◌≡◌, ◌≢◌, refl, ap, ◌∙◌, true, List, [], ◌∷◌, ◌++◌, some, arith, length, drop,
  All, drop-append_length, concat, map,
}
use zltool_kit.Buffer.{contents}
use zltool_kit.Kcp.Header.RoundTrip.{header_bytes}
use zltool_kit.Kcp.Packet.{Packet, Uninit, parse}
use zltool_kit.Kcp.Packet.RoundTrip.{IsWired, wire, length-wire, parse-wire}
use zltool_kit.Kcp.Input.{Scan, scan_packets, process_packet}
use zltool_kit.Kcp.Input.Progress.{scan_packets_step}

-- The packets of a datagram, one after the other.
abbrev pub process_all : ℕ → List Packet → Scan → Scan
process_all now [] s = s
process_all now (p ∷ ps) s = process_all now ps (process_packet now p s)

-- A received packet says what the sent one said.
pub record IsCopy (p q : Packet) : Type 0 where
  pub same_header : q.header ≡ p.header
  pub same_bytes : contents q.raw ≡ wire p

abbrev pub AreCopies : List Packet → List Packet → Type 0
AreCopies [] [] = Unit
AreCopies (p ∷ ps) (q ∷ qs) = IsCopy p q × AreCopies ps qs
AreCopies _ _ = ⊥

scan_packets-wire_step :
    (u : Uninit) (now fuel : ℕ) (p q : Packet) (rest : List ℕ) (s : Scan)
    → parse u (wire p ++ rest) ≡ some q
    → scan_packets u now (suc fuel) (wire p ++ rest) s
      ≡ scan_packets u now fuel (drop q.raw.size (wire p ++ rest)) (process_packet now q s)
unfolding header_bytes
scan_packets-wire_step u now fuel p q rest s e = scan_packets_step u now fuel _ _ s q e

-- With more rounds than packets, a datagram that is the wire images of packets put together, each with
-- a length field that agrees with its buffer, is read completely, as exactly those packets in order.
pub scan_packets-wire :
    (u : Uninit) (now fuel : ℕ) (ps : List Packet) (s : Scan)
    → ((n : ℕ) → length (u.bytes n) ≡ n)
    → All IsWired ps
    → length ps < fuel
    → (qs : List Packet) × AreCopies ps qs
      × (scan_packets u now fuel (concat (map wire ps)) s ≡ some (process_all now qs s))
scan_packets-wire u now zero ps s sized w f = absurd (omega arith)
scan_packets-wire u now (suc fuel) [] s sized w f = ([], tt, unfold scan_packets in refl)
scan_packets-wire u now (suc fuel) (p ∷ ps) s sized w f =
    let rest = concat (map wire ps) in
    let (q, c) = parse-wire u p rest sized w.0 in
    let (qs, cs, e) =
      scan_packets-wire u now fuel ps (process_packet now q s) sized w.1 (omega arith) in
    let size : q.raw.size ≡ length (wire p) =
      c.same_size ∙ omega (arith, w.0.sized_as, length-wire p w.0) in
    (
      q ∷ qs,
      (record { same_header = c.same_header; same_bytes = c.same_bytes }, cs),
      scan_packets-wire_step u now fuel p q rest s c.parsed
          ∙ ap (λ d. scan_packets u now fuel d (process_packet now q s))
              (ap (λ n. drop n (wire p ++ rest)) size ∙ drop-append_length (wire p) rest)
          ∙ e,
    )

-- Once the session number is set, a packet of another session changes nothing at all.
pub process_packet_foreign :
    (now : ℕ) (p : Packet) (s : Scan)
    → s.state.conv_init ≡ true
    → p.header.conv ≢ s.state.conv
    → process_packet now p s ≡ s
unfolding process_packet
process_packet_foreign now p s i h = ground arith
