-- ===== src/Kcp/Input/Progress.antt =====
-- Whether the loop over a datagram ends.
use zltool_kit.Kit.{
  ℕ, zero, suc, ◌-◌, ◌^◌, ◌≤◌, ◌<◌, ◌≡◌, refl, ap, ◌∙◌, List, [], ◌∷◌, none, some, arith, length,
  drop, length-drop, Option-cases, inl, inr, le→not_ltb,
}
use zltool_kit.Buffer.{assign, strlen}
use zltool_kit.Bytes.{get4_le}
use zltool_kit.Kcp.Header.{Header, read_header, load_header, get_packet_size}
use zltool_kit.Kcp.Packet.{Packet, Uninit, parse, load_from_data}
use zltool_kit.Kcp.Packet.RoundTrip.{received, parse_lem}
use zltool_kit.Kcp.Input.{Scan, scan_packets, process_packet}

-- What is left of a datagram when the loop reads a packet.
pub data IsRead (u : Uninit) : List ℕ → List ℕ → Type 0 where
  at_first : (d : List ℕ) → IsRead u d d
  behind :
      (d : List ℕ) (p : Packet) (e : List ℕ)
      → parse u d ≡ some p
      → IsRead u (drop p.raw.size d) e
      → IsRead u d e

-- The length field of no packet that the loop reads makes `len + 24` wrap; the payloads may hold any bytes.
abbrev pub IsUnwrapped : Uninit → List ℕ → Type 0
IsUnwrapped u d =
    (e : List ℕ) (p : Packet) → IsRead u d e → parse u e ≡ some p → get4_le e 20 < 2 ^ 32 - 24

-- A packet that parses then takes its header and its payload off the front of the data.
size-parse :
    (u : Uninit) (x : ℕ) (xs : List ℕ) {p : Packet}
    → get4_le (x ∷ xs) 20 < 2 ^ 32 - 24
    → parse u (x ∷ xs) ≡ some p
    → (24 ≤ p.raw.size) × (p.raw.size ≤ length (x ∷ xs))
unfolding parse load_from_data load_header get_packet_size assign
size-parse u x xs h e = ground arith

pub scan_packets_step :
    (u : Uninit) (now fuel x : ℕ) (xs : List ℕ) (s : Scan) (p : Packet)
    → parse u (x ∷ xs) ≡ some p
    → scan_packets u now (suc fuel) (x ∷ xs) s
      ≡ scan_packets u now fuel (drop p.raw.size (x ∷ xs)) (process_packet now p s)
unfolding scan_packets
scan_packets_step u now fuel x xs s p e = rw (e, scan_packets) (ground arith)

-- The loop ends: more rounds than bytes are enough, in whatever state it starts and whatever the
-- packets say, if the length field of no packet that it reads makes the packet size wrap.
pub scan_packets_total :
    (u : Uninit) (now fuel : ℕ) (d : List ℕ) (s : Scan)
    → IsUnwrapped u d
    → length d < fuel
    → (r : Scan) × (scan_packets u now fuel d s ≡ some r)
scan_packets_total u now zero d s h f = absurd (omega arith)
scan_packets_total u now (suc fuel) [] s h f = (s, unfold scan_packets in refl)
scan_packets_total u now (suc fuel) (x ∷ xs) s h f = elim (Option-cases (parse u (x ∷ xs))) [
  | inl e ↦ (s, unfold scan_packets in rw (e, scan_packets) (ground arith))
  | inr (p, e) ↦
      let sizes = size-parse u x xs (h (x ∷ xs) p (at_first (x ∷ xs)) e) e in
      let (r, g) =
        scan_packets_total u now fuel (drop p.raw.size (x ∷ xs)) (process_packet now p s)
          (λ e1 q r f1. h e1 q (behind (x ∷ xs) p e1 e r) f1)
          (omega (arith, length-drop p.raw.size (x ∷ xs), sizes)) in
      (r, scan_packets_step u now fuel x xs s p e ∙ g)
]

load_header_long :
    (d : List ℕ) → 24 ≤ length d → (h : Header) × (load_header d ≡ some h) × (h.len ≡ get4_le d 20)
unfolding load_header
load_header_long d h = (read_header d, rw (le→not_ltb (length d) 24 h), refl)

-- A header whose length field is 2 ^ 32 - 24, with a session number that begins with a zero byte.
parse_stuck :
    (u : Uninit) (xs : List ℕ)
    → 23 ≤ length xs
    → get4_le (0 ∷ xs) 20 ≡ 2 ^ 32 - 24
    → (p : Packet) × (parse u (0 ∷ xs) ≡ some p) × (p.raw.size ≡ 0)
parse_stuck u xs h e =
    let (k, loaded, len) = load_header_long (0 ∷ xs) (omega arith) in
    let wrapped : get_packet_size k ≡ 0 = unfold get_packet_size in omega (arith, len, e) in
    (
      received u (0 ∷ xs) 0 k,
      parse_lem u (0 ∷ xs) 0 k loaded wrapped (omega arith),
      unfold assign strlen in refl,
    )

-- Without that condition it may not end: a datagram of at least 24 bytes that begins with a zero byte
-- and whose length field is 2 ^ 32 - 24 is a packet of size 0, and no number of rounds gets past it.
pub scan_packets_stuck :
    (u : Uninit) (now fuel : ℕ) (xs : List ℕ) (s : Scan)
    → 23 ≤ length xs
    → get4_le (0 ∷ xs) 20 ≡ 2 ^ 32 - 24
    → scan_packets u now fuel (0 ∷ xs) s ≡ none
scan_packets_stuck u now zero xs s h e = unfold scan_packets in refl
scan_packets_stuck u now (suc fuel) xs s h e =
    let (p, parsed, none_left) = parse_stuck u xs h e in
    scan_packets_step u now fuel 0 xs s p parsed
    ∙ ap (λ n. scan_packets u now fuel (drop n (0 ∷ xs)) (process_packet now p s)) none_left
    ∙ scan_packets_stuck u now fuel xs (process_packet now p s) h e
