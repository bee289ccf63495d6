-- ===== src/Kcp/Api.antt =====
-- `KcpTransport::send`: the checks in the caller's thread, then what it posts to the poller's thread.
use zltool_kit.Kit.{ℕ, zero, suc, Bool, List, Option, some, if◌then◌else◌}
use zltool_kit.Kcp.Packet.{Uninit}
use zltool_kit.Kcp.State.{Kcp}
use zltool_kit.Kcp.Send.{Reply, refused, accepted, check_send, enqueue}
use zltool_kit.Kcp.Flush.{update}

-- The posted task.
unfoldable pub queue_and_flush : Uninit → ℕ → Bool → List ℕ → Kcp → Option Kcp
queue_and_flush u now flush buffer k =
    let queued = enqueue u buffer k in if flush then update u now queued else some queued

abbrev pub after_check : Uninit → ℕ → Bool → List ℕ → Kcp → Reply → Reply × Option Kcp
after_check u now flush buffer k refused = (refused, some k)
after_check u now flush buffer k (accepted zero) = (accepted zero, some k)
after_check u now flush buffer k (accepted (suc n)) =
    (accepted (suc n), queue_and_flush u now flush buffer k)

unfoldable pub send : Uninit → ℕ → Bool → List ℕ → Kcp → Reply × Option Kcp
send u now flush buffer k = after_check u now flush buffer k (check_send buffer k)
