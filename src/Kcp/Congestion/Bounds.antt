-- ===== src/Kcp/Congestion/Bounds.antt =====
-- How far the congestion window of `increaseCwnd` and `decreaseCwnd` goes.
use zltool_kit.Kit.{ℕ, ◌+◌, ◌/◌, ◌^◌, ◌≤◌, ◌<◌, ◌≡◌, Bool, true, false, arith, min, max}
use zltool_kit.Kcp.State.{Kcp, Window}
use zltool_kit.Kcp.Congestion.{increase_cwnd, decrease_cwnd}

-- Growth never takes the window past the remote one: it stays as it was, or ends within it.
pub increase_cwnd_within :
    (mss : ℕ) (w : Window) → (increase_cwnd mss w).cwnd ≤ max w.cwnd w.rmt_wnd
unfolding increase_cwnd
increase_cwnd_within mss w = ground arith

-- In slow start below the remote window each call adds one packet and `_mss` bytes.
pub increase_cwnd_slow_start :
    (mss : ℕ) (w : Window)
    → w.cwnd < w.rmt_wnd
    → w.cwnd < w.ssthresh
    → w.rmt_wnd < 2 ^ 32
    → w.incr + mss < 2 ^ 32
    → increase_cwnd mss w ≡ record w { cwnd = w.cwnd + 1; incr = w.incr + mss }
unfolding increase_cwnd
increase_cwnd_slow_start mss w a b c d = ground arith

-- With congestion control on, a time-out sets the window to one packet of `_mss` bytes and the
-- threshold to half of the window that was in use, but at least 2.
pub decrease_cwnd_lost :
    (change : Bool) (k : Kcp)
    → k.settings.nocwnd ≡ false
    → (decrease_cwnd change true k).window ≡ record (k.window) {
      cwnd = 1;
      incr = k.settings.mss;
      ssthresh = max 2 (min k.window.cwnd (min k.settings.snd_wnd k.window.rmt_wnd) / 2);
    }
unfolding decrease_cwnd
decrease_cwnd_lost change k e = ground arith

-- After a flush the window holds at least one packet.
pub decrease_cwnd_pos :
    (change lost : Bool) (k : Kcp) → 1 ≤ (decrease_cwnd change lost k).window.cwnd
unfolding decrease_cwnd
decrease_cwnd_pos change lost k = ground arith
