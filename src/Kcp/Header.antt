-- ===== src/Kcp/Header.antt =====
-- `KcpHeader`: the 24 bytes in front of every segment.
pub mod RoundTrip
use zltool_kit.Kit.{ℕ, ◌+◌, ◌%◌, ◌^◌, ◌<◌, List, Option, none, some, ltb, if◌then◌else◌, length}
use zltool_kit.Kit.Words.{u32, u8}
use zltool_kit.Bytes.{get1, get2_le, get4_le, set1, set2_le, set4_le}

abbrev pub header_size : ℕ
header_size = 24

abbrev pub cmd_push : ℕ
cmd_push = 81

abbrev pub cmd_ack : ℕ
cmd_ack = 82

abbrev pub cmd_wask : ℕ
cmd_wask = 83

abbrev pub cmd_wins : ℕ
cmd_wins = 84

-- `_cmd` is the byte of the enum `Cmd`, which a received header need not keep to.
pub record Header : Type 0 where
  pub conv : ℕ
  pub cmd : ℕ
  pub frg : ℕ
  pub wnd : ℕ
  pub ts : ℕ
  pub sn : ℕ
  pub una : ℕ
  pub len : ℕ

-- The result type is uint32_t, so the sum is cut to 32 bits.
unfoldable pub get_packet_size : Header → ℕ
get_packet_size h = u32 (h.len + header_size)

-- The fields at their offsets.
abbrev pub read_header : List ℕ → Header
read_header d = record {
  conv = get4_le d 0;
  cmd = get1 d 4;
  frg = get1 d 5;
  wnd = get2_le d 6;
  ts = get4_le d 8;
  sn = get4_le d 12;
  una = get4_le d 16;
  len = get4_le d 20;
}

-- `loadHeaderFromData`; the length of the data is that of the list.
unfoldable pub load_header : List ℕ → Option Header
load_header d = if ltb (length d) header_size then none else some (read_header d)

-- `storeHeaderToData` on the buffer `d`; `none` for a buffer that is too small.
unfoldable pub store_header : Header → List ℕ → Option (List ℕ)
store_header h d =
    if ltb (length d) header_size
    then none
    else let d0 = set4_le d 0 h.conv in
      let d4 = set1 d0 4 h.cmd in
      let d5 = set1 d4 5 h.frg in
      let d6 = set2_le d5 6 h.wnd in
      let d8 = set4_le d6 8 h.ts in
      let d12 = set4_le d8 12 h.sn in let d16 = set4_le d12 16 h.una in some (set4_le d16 20 h.len)

-- Every field is within the width of its C type.
pub record IsWide (h : Header) : Type 0 where
  pub conv_in : h.conv < 2 ^ 32
  pub cmd_in : h.cmd < 2 ^ 8
  pub frg_in : h.frg < 2 ^ 8
  pub wnd_in : h.wnd < 2 ^ 16
  pub ts_in : h.ts < 2 ^ 32
  pub sn_in : h.sn < 2 ^ 32
  pub una_in : h.una < 2 ^ 32
  pub len_in : h.len < 2 ^ 32
