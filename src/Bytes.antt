-- ===== src/Bytes.antt =====
-- src/Util/Byte.hpp: the readers and writers of integers in a byte buffer.
-- A buffer is the list of its bytes. A read past its end gives 0 and a write past its end changes
-- nothing: the callers check the bounds. The operands of `|` occupy distinct bits, so it is `+`.
pub mod RoundTrip
mod Tests
use zltool_kit.Kit.{
  ℕ, ◌+◌, ◌-◌, ◌*◌, ◌/◌, ◌%◌, ◌^◌, List, get_or, set, bit_and, ◌==◌, if◌then◌else◌,
}
use zltool_kit.Kit.Words.{u8, u16}

abbrev pub byte_at : List ℕ → ℕ → ℕ
byte_at xs i = get_or xs i 0

abbrev pub get1 : List ℕ → ℕ → ℕ
get1 xs i = byte_at xs i

abbrev pub set1 : List ℕ → ℕ → ℕ → List ℕ
set1 xs i v = set xs i v

unfoldable pub get2 : List ℕ → ℕ → ℕ
get2 xs i = byte_at xs (i + 1) + byte_at xs i * 2 ^ 8

unfoldable pub get3 : List ℕ → ℕ → ℕ
get3 xs i = byte_at xs (i + 2) + byte_at xs (i + 1) * 2 ^ 8 + byte_at xs i * 2 ^ 16

unfoldable pub get4 : List ℕ → ℕ → ℕ
get4 xs i =
    byte_at xs (i + 3)
    + byte_at xs (i + 2) * 2 ^ 8
    + byte_at xs (i + 1) * 2 ^ 16
    + byte_at xs i * 2 ^ 24

unfoldable pub get8 : List ℕ → ℕ → ℕ
unfolding get4
get8 xs i = get4 xs i * 2 ^ 32 + get4 xs (i + 4)

unfoldable pub set2 : List ℕ → ℕ → ℕ → List ℕ
set2 xs i v = set (set xs (i + 1) (u8 v)) i (u8 (v / 2 ^ 8))

unfoldable pub set3 : List ℕ → ℕ → ℕ → List ℕ
set3 xs i v = set (set (set xs (i + 2) (u8 v)) (i + 1) (u8 (v / 2 ^ 8))) i (u8 (v / 2 ^ 16))

unfoldable pub set4 : List ℕ → ℕ → ℕ → List ℕ
set4 xs i v =
    let a = set xs (i + 3) (u8 v) in
    let b = set a (i + 2) (u8 (v / 2 ^ 8)) in
    let c = set b (i + 1) (u8 (v / 2 ^ 16)) in set c i (u8 (v / 2 ^ 24))

unfoldable pub set8 : List ℕ → ℕ → ℕ → List ℕ
set8 xs i v =
    let a = set xs (i + 7) (u8 v) in
    let b = set a (i + 6) (u8 (v / 2 ^ 8)) in
    let c = set b (i + 5) (u8 (v / 2 ^ 16)) in
    let d = set c (i + 4) (u8 (v / 2 ^ 24)) in
    let e = set d (i + 3) (u8 (v / 2 ^ 32)) in
    let f = set e (i + 2) (u8 (v / 2 ^ 40)) in
    let g = set f (i + 1) (u8 (v / 2 ^ 48)) in set g i (u8 (v / 2 ^ 56))

unfoldable pub get2_le : List ℕ → ℕ → ℕ
get2_le xs i = byte_at xs i + byte_at xs (i + 1) * 2 ^ 8

unfoldable pub get3_le : List ℕ → ℕ → ℕ
get3_le xs i = byte_at xs i + byte_at xs (i + 1) * 2 ^ 8 + byte_at xs (i + 2) * 2 ^ 16

unfoldable pub get4_le : List ℕ → ℕ → ℕ
get4_le xs i =
    byte_at xs i
    + byte_at xs (i + 1) * 2 ^ 8
    + byte_at xs (i + 2) * 2 ^ 16
    + byte_at xs (i + 3) * 2 ^ 24

-- The source reads the two halves with the big-endian `Get4Bytes`.
unfoldable pub get8_le : List ℕ → ℕ → ℕ
unfolding get4
get8_le xs i = get4 xs (i + 4) * 2 ^ 32 + get4 xs i

unfoldable pub set2_le : List ℕ → ℕ → ℕ → List ℕ
set2_le xs i v = set (set xs i (u8 v)) (i + 1) (u8 (v / 2 ^ 8))

unfoldable pub set3_le : List ℕ → ℕ → ℕ → List ℕ
set3_le xs i v = set (set (set xs i (u8 v)) (i + 1) (u8 (v / 2 ^ 8))) (i + 2) (u8 (v / 2 ^ 16))

unfoldable pub set4_le : List ℕ → ℕ → ℕ → List ℕ
set4_le xs i v =
    let a = set xs i (u8 v) in
    let b = set a (i + 1) (u8 (v / 2 ^ 8)) in
    let c = set b (i + 2) (u8 (v / 2 ^ 16)) in set c (i + 3) (u8 (v / 2 ^ 24))

unfoldable pub set8_le : List ℕ → ℕ → ℕ → List ℕ
set8_le xs i v =
    let a = set xs i (u8 v) in
    let b = set a (i + 1) (u8 (v / 2 ^ 8)) in
    let c = set b (i + 2) (u8 (v / 2 ^ 16)) in
    let d = set c (i + 3) (u8 (v / 2 ^ 24)) in
    let e = set d (i + 4) (u8 (v / 2 ^ 32)) in
    let f = set e (i + 5) (u8 (v / 2 ^ 40)) in
    let g = set f (i + 6) (u8 (v / 2 ^ 48)) in set g (i + 7) (u8 (v / 2 ^ 56))

-- On a uint16_t: `size & 0x03`, and the sum is cut to 16 bits by the return type.
unfoldable pub pad_to4_bytes : ℕ → ℕ
pad_to4_bytes size = if bit_and size 0x03 == 0 then size else u16 (bit_and size 0xfffc + 4)
