-- ===== src/Network/RecvBuffer.antt =====
-- `SocketRecvBuffer::create` of src/Network/BufferSock.cpp: the blocks that a receive buffer gets.
mod Bounds
mod Tests
use zltool_kit.Kit.{ℕ, ◌*◌, ◌/◌, ◌^◌, ◌-◌, Bool, true, false, ◌&&◌, ◌||◌, ltb, ◌==◌, if◌then◌else◌}
use zltool_kit.Kit.Words.{u64}

abbrev pub packet_count_def : ℕ
packet_count_def = 32

abbrev pub buffer_capacity_def : ℕ
buffer_capacity_def = 4 * 1024

abbrev pub max_total_buffer_bytes : ℕ
max_total_buffer_bytes = 64 * 1024 * 1024

-- `SocketRecvmmsgBuffer`, by its packets and their capacity, and `SocketRecvFromBuffer`, by its size.
pub data RecvBuffer : Type 0 where
  recvmmsg_buffer : ℕ → ℕ → RecvBuffer
  recvfrom_buffer : ℕ → RecvBuffer

abbrev pub or_default : ℕ → ℕ → ℕ
or_default d n = if n == 0 then d else n

-- Whether the defaults are used, by the tests in their order.
unfoldable pub use_default : ℕ → ℕ → Bool
use_default count capacity =
    ltb count 1
    || ltb capacity 2
    || ltb ((2 ^ 64 - 1) / capacity) count
    || ltb max_total_buffer_bytes (u64 (count * capacity))

-- On Linux, for UDP, `recvmmsg`.
abbrev pub make_buffer : Bool → ℕ → ℕ → RecvBuffer
make_buffer true count capacity = recvmmsg_buffer count capacity
make_buffer false count capacity = recvfrom_buffer (u64 (count * capacity))

unfoldable pub create_buffer : Bool → ℕ → ℕ → RecvBuffer
unfolding use_default
create_buffer is_udp count0 capacity0 =
    let count = or_default packet_count_def count0 in
    let capacity = or_default buffer_capacity_def capacity0 in
    if use_default count capacity
    then make_buffer is_udp packet_count_def buffer_capacity_def
    else make_buffer is_udp count capacity

-- The bytes of the blocks of a buffer, which the limit is about; not the objects and the vectors that go with each
-- block.
abbrev pub block_bytes : RecvBuffer → ℕ
block_bytes (recvmmsg_buffer count capacity) = count * capacity
block_bytes (recvfrom_buffer n) = n

-- The bytes that one call of the kernel may write into a block; the last byte is for the terminator.
unfoldable pub room_of : RecvBuffer → ℕ
room_of (recvmmsg_buffer count capacity) = capacity - 1
room_of (recvfrom_buffer n) = n - 1
