-- ===== src/Network/RecvBuffer/Tests.antt =====
-- Receive buffers for concrete sizes.
use zltool_kit.Kit.{◌≤◌, ◌≡◌, refl, true, false}
use zltool_kit.Network.RecvBuffer.{
  max_total_buffer_bytes, recvmmsg_buffer, create_buffer, use_default, block_bytes, room_of,
}
use zltool_kit.Network.RecvBuffer.Bounds.{create_buffer_bounds}

-- A product that wraps to a small number falls back to the defaults.
too_many : create_buffer true 4294967296 4294967297 ≡ recvmmsg_buffer 32 4096
unfolding create_buffer use_default
too_many = refl

create_buffer_bounds_example :
    (1 ≤ room_of (create_buffer false 16 1500))
    × (block_bytes (create_buffer false 16 1500) ≤ max_total_buffer_bytes)
create_buffer_bounds_example = create_buffer_bounds false 16 1500
