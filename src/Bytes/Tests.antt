-- ===== src/Bytes/Tests.antt =====
-- Byte.hpp on concrete buffers.
use zltool_kit.Kit.{ℕ, ◌≡◌, refl, List, [], ◌∷◌}
use zltool_kit.Bytes.{get4, get4_le, pad_to4_bytes}

abbrev buffer : List ℕ
buffer = 1 ∷ 2 ∷ 3 ∷ 4 ∷ 5 ∷ 6 ∷ 7 ∷ 8 ∷ 9 ∷ []

read_buffer : get4 buffer 1 ≡ 0x02030405
unfolding get4
read_buffer = refl

read_le_buffer : get4_le buffer 1 ≡ 0x05040302
unfolding get4_le
read_le_buffer = refl

pad_to4_bytes_five : pad_to4_bytes 5 ≡ 8
unfolding pad_to4_bytes
pad_to4_bytes_five = refl
