-- ===== src/Kcp/Rtt.antt =====
-- `updateRtt`: the Jacobson/Karels estimate, in the source's 32-bit `int` and 64-bit `long`.
pub mod Bounds
mod Tests
use zltool_kit.Kit.{ℕ, ◌+◌, ◌/◌, ◌||◌, ◌==◌, if◌then◌else◌}
use zltool_kit.Kit.Words.{u32, u64, add32, sub32, mul32, is_neg32, sdiv32, abs32, sext64, sdiv64}
use zltool_kit.Kcp.State.{Rtt, imax, ibound, ikcp_rto_max}

-- The first sample sets the estimate, a later one moves it. Signed overflow is taken to wrap.
unfoldable pub smooth : ℕ → Rtt → Rtt
smooth sample r =
    if r.srtt == 0
    then record r { srtt = sample; rttval = sample / 2 }
    else let delta = sext64 (abs32 (sub32 sample r.srtt)) in
      let srtt = sdiv32 (add32 (mul32 7 r.srtt) sample) 8 in
      record r {
        rttval = u32 (sdiv64 (u64 (sext64 (mul32 3 r.rttval) + delta)) 4);
        srtt = if srtt == 0 || is_neg32 srtt then 1 else srtt;
      }

unfoldable pub update_rtt : ℕ → ℕ → Rtt → Rtt
unfolding smooth
update_rtt interval sample r =
    if is_neg32 sample
    then r
    else let s = smooth sample r in
      let rto = add32 s.srtt (imax interval (mul32 4 s.rttval)) in
      record s { rx_rto = ibound r.minrto rto ikcp_rto_max }
