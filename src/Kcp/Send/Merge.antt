-- ===== src/Kcp/Send/Merge.antt =====
-- Stream mode: `mergeSendQueue` extends the packet at the front of the queue.
use zltool_kit.Kit.{
  ℕ, ◌+◌, ◌^◌, ◌≤◌, ◌<◌, ◌≡◌, refl, ◌∙◌, false, List, ◌++◌, arith, length, take, drop,
  if◌then◌else◌, Bool-cases, inl, inr, length-take,
}
use zltool_kit.Kit.Words.{u32}
use zltool_kit.Buffer.{keeps_block}
use zltool_kit.Buffer.Laws.{take-drop-memcpy_at_behind, length-memcpy_at}
use zltool_kit.Kcp.Packet.{Packet, Uninit, payload}
use zltool_kit.Kcp.Send.{extend_packet, make_fragment}

-- A packet whose block covers its payload.
pub record IsHeld (p : Packet) : Type 0 where
  pub whole_block : p.raw.capacity ≡ length p.raw.mem
  pub covers : 24 + p.header.len ≤ p.raw.capacity

-- The merged payload ends in the new bytes. The old bytes stand before them only if the block is
-- kept: where it is not, `setCapacity` has replaced it, and unwritten memory goes out in their place.
pub payload-extend_packet :
    (u : Uninit) (extend : ℕ) (buffer : List ℕ) (p : Packet)
    → ((n : ℕ) → length (u.bytes n) ≡ n)
    → IsHeld p
    → extend ≤ length buffer
    → p.header.len + extend < 2 ^ 32
    → let old = p.header.len in
      let capacity = old + extend + 24 + 1 in
      payload (extend_packet u extend buffer p)
      ≡ take old (drop 24 (if keeps_block capacity p.raw then p.raw.mem else u.bytes capacity))
        ++ take extend buffer
unfolding extend_packet
payload-extend_packet u extend buffer p sized v h w =
    elim (Bool-cases (keeps_block (p.header.len + extend + 24 + 1) p.raw)) [
      | inl e ↦ rw e (
          take-drop-memcpy_at_behind 24 p.header.len (u32 (p.header.len + extend))
            (take extend buffer) p.raw.mem (omega (arith, length-take extend buffer))
            (omega (arith, v.whole_block, v.covers, sized (p.header.len + extend + 24 + 1))))
      | inr e ↦ rw e (
          take-drop-memcpy_at_behind 24 p.header.len (u32 (p.header.len + extend))
            (take extend buffer) (u.bytes (p.header.len + extend + 24 + 1))
            (omega (arith, length-take extend buffer))
            (omega (arith, v.whole_block, v.covers, sized (p.header.len + extend + 24 + 1))))
    ]

-- Below 2 ^ 32 bytes, a fragment's block has no room to grow, so a merge always replaces it: after
-- a packet of `send` has been extended by any bytes, its payload is unwritten memory where the
-- first message's bytes stood, followed by the new bytes.
pub payload-extend_packet-make_fragment :
    (u : Uninit) (conv frg n extend : ℕ) (first second : List ℕ)
    → ((n : ℕ) → length (u.bytes n) ≡ n)
    → n ≤ length first
    → 0 < extend
    → extend ≤ length second
    → n + extend < 2 ^ 32
    → payload (extend_packet u extend second (make_fragment u conv frg n first))
      ≡ take n (drop 24 (u.bytes (n + extend + 24 + 1))) ++ take extend second
payload-extend_packet-make_fragment u conv frg n extend first second sized h pos k w =
    let p = make_fragment u conv frg n first in
    let len : p.header.len ≡ n = unfold make_fragment in omega arith in
    let full : p.raw.capacity ≡ n + 24 + 1 = unfold make_fragment in refl in
    let held : IsHeld p = record {
      whole_block =
          unfold make_fragment in
          omega (
            arith,
            sized (n + 24 + 1),
            length-memcpy_at 24 (take n first) (u.bytes (n + 24 + 1)),
            length-take n first,
          );
      covers = omega (arith, len, full);
    } in
    let lost : keeps_block (n + extend + 24 + 1) p.raw ≡ false =
      unfold keeps_block in ground (arith, full) in
    payload-extend_packet u extend second p sized held k (omega (arith, len)) ∙ rw (len, lost)
