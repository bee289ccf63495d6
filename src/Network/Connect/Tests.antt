-- ===== src/Network/Connect/Tests.antt =====
-- One attempt by name and one by address.
use zltool_kit.Kit.{◌+◌, ◌≡◌, refl, true, false, [], ◌∷◌, some, none}
use zltool_kit.Kit.Counts.{count}
use zltool_kit.Network.Connect.{
  Conn, new_conn, pending, set_sock, close_sock, con_cb, start, connect_l, on_resolved, fire,
  on_timeout, on_connected, writable, on_event,
}
use zltool_kit.Network.Connect.Attempts.{reported, made}
use zltool_kit.Network.Connect.Once.{History, starts, connects, resolves, times_out, attempts_lem}

-- The name is resolved, the descriptor gets writable, and nothing is left for the timer.
abbrev by_name : Conn
by_name =
    on_timeout
      (on_event false true (on_resolved 0 (some 7) true (connect_l false none true new_conn)))

by_name-reports : by_name.reports ≡ (0, false) ∷ []
unfolding connect_l start close_sock on_resolved on_event writable on_connected con_cb set_sock
    on_timeout fire
by_name-reports = refl

by_name-sock : by_name.sock ≡ some 7
unfolding connect_l start close_sock on_resolved on_event writable on_connected con_cb set_sock
    on_timeout fire
by_name-sock = refl

-- The time-out comes first: the resolution that ends later finds no callback.
abbrev too_late : Conn
too_late = on_resolved 0 (some 7) true (on_timeout (connect_l false none true new_conn))

too_late-reports : too_late.reports ≡ (0, true) ∷ []
unfolding connect_l start close_sock on_resolved con_cb set_sock on_timeout fire
too_late-reports = refl

too_late_history : History too_late
too_late_history =
    resolves _ 0 (some 7) true (times_out _ (connects new_conn false none true starts))

attempts_lem_example :
    count 0 (reported too_late.reports)
      + count 0 too_late.dropped
      + count 0 (pending too_late.timer)
    ≡ made 0 too_late.attempts
attempts_lem_example = attempts_lem too_late too_late_history 0
