-- ===== src/Kcp/Header/RoundTrip.antt =====
-- `KcpHeader`: storing a header and loading it again.
use zltool_kit.Kit.{
  ℕ, ◌+◌, ◌*◌, ◌/◌, ◌^◌, ◌≤◌, ◌<◌, ◌≡◌, refl, List, [], ◌∷◌, ◌++◌, some, arith, length, drop,
  le→not_ltb,
}
use zltool_kit.Kit.Words.{u8}
use zltool_kit.Bytes.{get2_le, get4_le, set2_le, set4_le}
use zltool_kit.Bytes.RoundTrip.{front-append-drop}
use zltool_kit.Kcp.Header.{Header, IsWide, load_header, store_header}

abbrev le4 : ℕ → List ℕ → List ℕ
le4 v r = u8 v ∷ u8 (v / 2 ^ 8) ∷ u8 (v / 2 ^ 16) ∷ u8 (v / 2 ^ 24) ∷ r

-- The wire image of a header.
unfoldable pub header_bytes : Header → List ℕ
header_bytes h =
    le4 h.conv (
      h.cmd
      ∷ h.frg
      ∷ u8 h.wnd
      ∷ u8 (h.wnd / 2 ^ 8)
      ∷ le4 h.ts (le4 h.sn (le4 h.una (le4 h.len []))))

pub length-header_bytes : (h : Header) → length (header_bytes h) ≡ 24
unfolding header_bytes
length-header_bytes h = refl

-- Storing replaces the first 24 bytes by the image of the header.
pub store_header-eq :
    (h : Header) (d : List ℕ)
    → 24 ≤ length d
    → store_header h d ≡ some (header_bytes h ++ drop 24 d)
unfolding store_header header_bytes set4_le set2_le
store_header-eq h d p = rw (le→not_ltb (length d) 24 p) (rw (front-append-drop 24 d p))

word4 :
    (v : ℕ)
    → v < 2 ^ 32
    → u8 v + u8 (v / 2 ^ 8) * 2 ^ 8 + u8 (v / 2 ^ 16) * 2 ^ 16 + u8 (v / 2 ^ 24) * 2 ^ 24 ≡ v
word4 v h = omega arith

word2 : (v : ℕ) → v < 2 ^ 16 → u8 v + u8 (v / 2 ^ 8) * 2 ^ 8 ≡ v
word2 v h = omega arith

-- Loading needs no more than the image of a header in front.
pub load_header-header_bytes :
    (h : Header) (rest : List ℕ) → IsWide h → load_header (header_bytes h ++ rest) ≡ some h
unfolding load_header header_bytes get4_le get2_le
load_header-header_bytes h rest w = rw (
  le→not_ltb (length (header_bytes h ++ rest)) 24 (omega arith),
  word4 h.conv w.conv_in,
  word2 h.wnd w.wnd_in,
  word4 h.ts w.ts_in,
  word4 h.sn w.sn_in,
  word4 h.una w.una_in,
  word4 h.len w.len_in,
)

-- A wide header that is stored in a buffer is loaded back from it, whatever follows, and the bytes
-- from the 25th on are the buffer's.
pub load_header-store_header :
    (h : Header) (d : List ℕ)
    → IsWide h
    → 24 ≤ length d
    → (d' : List ℕ) × (store_header h d ≡ some d')
      × (load_header d' ≡ some h)
      × (drop 24 d' ≡ drop 24 d)
load_header-store_header h d w p = (
  header_bytes h ++ drop 24 d,
  store_header-eq h d p,
  load_header-header_bytes h (drop 24 d) w,
  unfold header_bytes in refl,
)
