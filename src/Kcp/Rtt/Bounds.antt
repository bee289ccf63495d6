-- ===== src/Kcp/Rtt/Bounds.antt =====
-- Where the retransmission time-out lies after a sample, and the formula without overflow.
use zltool_kit.Kit.{
  ℕ, ◌+◌, ◌-◌, ◌*◌, ◌/◌, ◌^◌, ◌≤◌, ◌<◌, ◌≡◌, arith, ◌==◌, if◌then◌else◌, min, max, ne→not_==, ◌||◌,
}
use zltool_kit.Kit.Words.{u32, u64, is_neg32, sext64, abs32, sub32, sdiv32, add32, mul32, sdiv64}
use zltool_kit.Kcp.State.{Rtt}
use zltool_kit.Kcp.Rtt.{smooth, update_rtt}

-- Whatever the sample and the state, the new time-out is at most 60 seconds, and at least the
-- minimum, if that is no more.
pub update_rtt_bounds :
    (interval sample : ℕ) (r : Rtt)
    → sample < 2 ^ 31
    → ((update_rtt interval sample r).rx_rto ≤ 60000)
      × (min r.minrto 60000 ≤ (update_rtt interval sample r).rx_rto)
unfolding update_rtt
update_rtt_bounds interval sample r h = ground arith

-- A negative sample changes nothing.
pub update_rtt_negative :
    (interval sample : ℕ) (r : Rtt) → 2 ^ 31 ≤ sample → update_rtt interval sample r ≡ r
unfolding update_rtt
update_rtt_negative interval sample r h = ground arith

abbrev pub distance : ℕ → ℕ → ℕ
distance a b = max a b - min a b

delta_lem : (a b : ℕ) → a < 2 ^ 28 → b < 2 ^ 28 → sext64 (abs32 (sub32 a b)) ≡ distance a b
delta_lem a b h k = ground arith

srtt_lem :
    (srtt sample : ℕ)
    → srtt < 2 ^ 28
    → sample < 2 ^ 28
    → sdiv32 (add32 (mul32 7 srtt) sample) 8 ≡ (7 * srtt + sample) / 8
srtt_lem srtt sample h k = ground arith

rttval_lem :
    (rttval delta : ℕ)
    → rttval < 2 ^ 28
    → delta < 2 ^ 28
    → u32 (sdiv64 (u64 (sext64 (mul32 3 rttval) + delta)) 4) ≡ (3 * rttval + delta) / 4
rttval_lem rttval delta h k = ground arith

floor_lem : (n : ℕ) → n < 2 ^ 28 → (if n == 0 || is_neg32 n then 1 else n) ≡ max 1 n
floor_lem n h = ground arith

-- Below 2 ^ 28 milliseconds nothing overflows, and the smoothed values are those of the
-- Jacobson/Karels estimate in whole numbers.
pub smooth_lem :
    (sample : ℕ) (r : Rtt)
    → sample < 2 ^ 28
    → 0 < r.srtt
    → r.srtt < 2 ^ 28
    → r.rttval < 2 ^ 28
    → smooth sample r ≡ record r {
      srtt = max 1 ((7 * r.srtt + sample) / 8);
      rttval = (3 * r.rttval + distance sample r.srtt) / 4;
    }
unfolding smooth
smooth_lem sample r h p a b = rw (
  ne→not_== r.srtt 0 (omega arith),
  delta_lem sample r.srtt h a,
  srtt_lem r.srtt sample a h,
  rttval_lem r.rttval (distance sample r.srtt) b (omega arith),
  floor_lem ((7 * r.srtt + sample) / 8) (omega arith),
)
