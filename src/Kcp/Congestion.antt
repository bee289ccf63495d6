-- ===== src/Kcp/Congestion.antt =====
-- `increaseCwnd` and `decreaseCwnd`.
pub mod Bounds
mod Tests
use zltool_kit.Kit.{ℕ, ◌+◌, ◌/◌, ◌-◌, Bool, not, ltb, leb, ◌==◌, if◌then◌else◌}
use zltool_kit.Kit.Words.{add32, sub32, mul32}
use zltool_kit.Kcp.State.{Kcp, Window, imin, ikcp_thresh_min}

-- Slow start below the threshold, else congestion avoidance.
unfoldable pub grow_cwnd : ℕ → Window → Window
grow_cwnd mss w =
    if ltb w.cwnd w.ssthresh
    then record w { cwnd = add32 w.cwnd 1; incr = add32 w.incr mss }
    else let base = if ltb w.incr mss then mss else w.incr in
      let incr = add32 base (add32 (mul32 mss mss / base) (mss / 16)) in
      record w {
        cwnd =
            if leb (mul32 (add32 w.cwnd 1) mss) incr
            then sub32 (add32 incr mss) 1 / (if ltb 0 mss then mss else 1)
            else w.cwnd;
        incr = incr;
      }

unfoldable pub increase_cwnd : ℕ → Window → Window
unfolding grow_cwnd
increase_cwnd mss w =
    if leb w.rmt_wnd w.cwnd
    then w
    else let g = grow_cwnd mss w in
      if ltb w.rmt_wnd g.cwnd then record g { cwnd = w.rmt_wnd; incr = mul32 w.rmt_wnd mss } else g

abbrev pub no_fast_resend : ℕ
no_fast_resend = 0xffffffff

abbrev pub resend_threshold : ℕ → ℕ
resend_threshold fastresend = if ltb 0 fastresend then fastresend else no_fast_resend

abbrev pub at_least_min : ℕ → ℕ
at_least_min n = if ltb n ikcp_thresh_min then ikcp_thresh_min else n

-- A fast retransmission halves the threshold by what is in flight.
unfoldable pub after_change : Kcp → Window → Window
after_change k w =
    let ssthresh = at_least_min (sub32 k.snd_nxt k.snd_una / 2) in
    let cwnd = add32 ssthresh (resend_threshold k.settings.fastresend) in
    record w { ssthresh = ssthresh; cwnd = cwnd; incr = mul32 cwnd k.settings.mss }

-- A timeout goes back to slow start; `cwnd` is the window before both adjustments.
unfoldable pub after_loss : ℕ → Kcp → Window → Window
after_loss cwnd k w = record w {
  ssthresh = at_least_min (cwnd / 2);
  cwnd = 1;
  incr = k.settings.mss;
}

unfoldable pub decrease_cwnd : Bool → Bool → Kcp → Kcp
unfolding after_change after_loss
decrease_cwnd change lost k =
    let both = imin k.settings.snd_wnd k.window.rmt_wnd in
    let cwnd = if not k.settings.nocwnd then imin k.window.cwnd both else both in
    let w1 = if change then after_change k k.window else k.window in
    let w2 = if lost then after_loss cwnd k w1 else w1 in
    record k {
      window = if ltb w2.cwnd 1 then record w2 { cwnd = 1; incr = k.settings.mss } else w2;
    }
