-- ===== src/Network/RecvBuffer/Bounds.antt =====
-- The bytes of the blocks of a receive buffer.
use zltool_kit.Kit.{
  ℕ, ◌*◌, ◌/◌, ◌^◌, ◌-◌, ◌≤◌, ◌≡◌, refl, inl, inr, Bool, true, false, ◌||◌, ltb, Bool-cases, arith,
}
use native.Mathlib.Nat.{le-div_iff_mul-le, mul-le-mul}
use zltool_kit.Kit.Words.{u64}
use zltool_kit.Network.RecvBuffer.{
  packet_count_def, buffer_capacity_def, max_total_buffer_bytes, or_default, use_default,
  make_buffer, create_buffer, block_bytes, room_of,
}

fits-make_buffer :
    (is_udp : Bool) (count capacity : ℕ)
    → 1 ≤ count
    → 2 ≤ capacity
    → count * capacity ≤ max_total_buffer_bytes
    → (1 ≤ room_of (make_buffer is_udp count capacity))
      × (block_bytes (make_buffer is_udp count capacity) ≤ max_total_buffer_bytes)
unfolding room_of
fits-make_buffer true count capacity a b h = (omega (arith, b), h)
fits-make_buffer false count capacity a b h =
    let more : 1 * 2 ≤ count * capacity = mul-le-mul a b in
    let fits : u64 (count * capacity) ≡ count * capacity = omega (arith, h) in
    (omega (arith, fits, more), omega (arith, fits, h))

or-false : (a b : Bool) → (a || b) ≡ false → (a ≡ false) × (b ≡ false)
or-false true b h = cc
or-false false b h = (refl, h)

ltb-false : (a b : ℕ) → ltb a b ≡ false → b ≤ a
ltb-false a b h = ground arith

accepted :
    (count capacity : ℕ)
    → use_default count capacity ≡ false
    → (1 ≤ count)
      × (2 ≤ capacity)
      × (count ≤ (2 ^ 64 - 1) / capacity)
      × (u64 (count * capacity) ≤ max_total_buffer_bytes)
unfolding use_default
accepted count capacity h =
    let total = or-false _ (ltb max_total_buffer_bytes (u64 (count * capacity))) h in
    let wide = or-false _ (ltb ((2 ^ 64 - 1) / capacity) count) total.0 in
    let small = or-false (ltb count 1) (ltb capacity 2) wide.0 in
    (ground (arith, small.0), ground (arith, small.1), ltb-false _ _ wide.1, ltb-false _ _ total.1)

-- Whatever is asked for, the buffer has room for a byte at each call, and the bytes of its blocks are at most 64 MiB; what
-- each block needs beside them is not counted.
pub create_buffer_bounds :
    (is_udp : Bool) (count0 capacity0 : ℕ)
    → (1 ≤ room_of (create_buffer is_udp count0 capacity0))
      × (block_bytes (create_buffer is_udp count0 capacity0) ≤ max_total_buffer_bytes)
unfolding create_buffer use_default
create_buffer_bounds is_udp count0 capacity0 =
    let count = or_default packet_count_def count0 in
    let capacity = or_default buffer_capacity_def capacity0 in
    elim (Bool-cases (use_default count capacity)) [
      | inl bad ↦ rw bad (
          fits-make_buffer is_udp packet_count_def buffer_capacity_def (omega arith) (omega arith)
            (omega arith))
      | inr good ↦
          let (a, b, c, d) = accepted count capacity good in
          let within : count * capacity ≤ 2 ^ 64 - 1 = (le-div_iff_mul-le (omega (arith, b))).0 c in
          rw good (fits-make_buffer is_udp count capacity a b (omega (arith, within, d)))
    ]
