-- ===== src/Network/Connect/Once.antt =====
-- The callbacks of connect over time.
use zltool_kit.Kit.{ℕ, ◌+◌, ◌≡◌, Bool, Option, arith}
use zltool_kit.Kit.Counts.{count}
use zltool_kit.Network.Connect.{
  Conn, new_conn, pending, close_sock, connect_l, on_resolved, on_timeout, on_event,
}
use zltool_kit.Network.Connect.Attempts.{
  reported, made, IsWell, close-IsWell, connect-IsWell, resolved-IsWell, timeout-IsWell,
  event-IsWell,
}

-- What may happen, in any order: a resolution may end at any time, for any attempt.
pub data History : Conn → Type 0 where
  starts : History new_conn
  connects :
      (c : Conn) (is_ip : Bool) (fd : Option ℕ) (add_ok : Bool)
      → History c
      → History (connect_l is_ip fd add_ok c)
  resolves :
      (c : Conn) (k : ℕ) (fd : Option ℕ) (add_ok : Bool)
      → History c
      → History (on_resolved k fd add_ok c)
  times_out : (c : Conn) → History c → History (on_timeout c)
  events : (c : Conn) (err attach_ok : Bool) → History c → History (on_event err attach_ok c)
  closes : (c : Conn) (close_fd : Bool) → History c → History (close_sock close_fd c)

history-IsWell : (c : Conn) → History c → IsWell c
history-IsWell c starts = (λ i. ground arith, tt, tt)
history-IsWell c (connects b is_ip fd add_ok x) =
    connect-IsWell is_ip fd add_ok b (history-IsWell b x)
history-IsWell c (resolves b k fd add_ok x) = resolved-IsWell k fd add_ok b (history-IsWell b x)
history-IsWell c (times_out b x) = timeout-IsWell b (history-IsWell b x)
history-IsWell c (events b err attach_ok x) = event-IsWell err attach_ok b (history-IsWell b x)
history-IsWell c (closes b close_fd x) = close-IsWell close_fd b (history-IsWell b x)

-- Over every history of connects, resolutions that end, time-outs, events of the descriptor and closes, each attempt to
-- connect was reported to its callback once, or was dropped by a close or the next connect, or waits with its
-- timer on, and only one of these.
pub attempts_lem :
    (c : Conn)
    → History c
    → (i : ℕ)
    → count i (reported c.reports) + count i c.dropped + count i (pending c.timer)
      ≡ made i c.attempts
attempts_lem c x i = (history-IsWell c x).0 i
