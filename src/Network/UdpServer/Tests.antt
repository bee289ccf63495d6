-- ===== src/Network/UdpServer/Tests.antt =====
-- Two pollers, 1 and 2, and a peer, 5.
use zltool_kit.Kit.{ℕ, ◌≡◌, ◌≢◌, refl, true, [], ◌∷◌, ◌++◌, Option, none, some, arith}
use zltool_kit.Network.UdpServer.{
  Datagram, Server, new_server, emit_session_recv, async_recv, new_helper, find_or_make,
  helper_creator, dispatch, create_session, read_found, on_read_l, run_creates, run_task, run_taken,
  run_poller, on_err, erase_peer, run_erasure,
}
use zltool_kit.Network.UdpServer.PeerId.{SockAddr, inet, inet6, addr_mapped, make_sock_id}
use zltool_kit.Network.UdpServer.Histories.{History, starts, arrives, runs}
use zltool_kit.Network.UdpServer.Mapped.{IsWell}
use zltool_kit.Network.UdpServer.Sessions.{history-IsWell}
use zltool_kit.Network.UdpServer.Conserve.{count, count_received}
use zltool_kit.Network.UdpServer.Delivered.{delivered_lem}

abbrev one : Datagram
one = record { from = 5; number = 1 }

abbrev two : Datagram
two = record { from = 5; number = 2 }

-- The same new peer is seen by both pollers, and each makes a socket that poller 2 owns.
abbrev raced : Server
raced =
    run_poller true true 0 2 (on_read_l 0 2 two (some 2) (on_read_l 0 1 one (some 2) new_server))

chosen : ◌≢◌ {A = Option ℕ} (some 2) none
chosen = λ e. ground (arith, e)

abbrev raced_history : History true (two ∷ one ∷ []) raced
raced_history =
    runs (two ∷ one ∷ []) _ true true 0 2 (λ c. (refl, refl))
      (arrives (one ∷ []) _ 0 2 two (some 2) (λ c. chosen)
        (arrives [] new_server 0 1 one (some 2) (λ c. chosen) starts))

raced_sessions : raced.sessions ≡ (5, 0) ∷ []
unfolding run_poller run_taken run_task run_creates on_read_l read_found create_session dispatch
    async_recv emit_session_recv helper_creator find_or_make new_helper
raced_sessions = refl

-- A session with an error gets nothing more, and its peer stays in the map until the delayed task.
late_lost :
    (on_read_l 0 2 one (some 2) (on_err true true 0 (on_read_l 0 2 two (some 2) new_server))).lost
    ≡ one ∷ []
unfolding on_err on_read_l read_found create_session dispatch async_recv emit_session_recv
    helper_creator find_or_make new_helper
late_lost = refl

erased : (run_erasure 0 (on_err true true 0 (on_read_l 0 2 two (some 2) new_server))).sessions ≡ []
unfolding run_erasure erase_peer on_err on_read_l read_found create_session dispatch async_recv
    emit_session_recv helper_creator find_or_make new_helper
erased = refl

history-IsWell_example : IsWell raced
history-IsWell_example = history-IsWell true (two ∷ one ∷ []) raced_history

raced_done : raced.tasks ≡ []
unfolding run_poller run_taken run_task run_creates on_read_l read_found create_session dispatch
    async_recv emit_session_recv helper_creator find_or_make new_helper
raced_done = refl

delivered_lem_example :
    (raced.lost ≡ []) × (count_received one raced.received ≡ count one (two ∷ one ∷ []))
delivered_lem_example = delivered_lem one (two ∷ one ∷ []) raced_history raced_done

abbrev v4 : SockAddr
v4 = inet 513 (1 ∷ 2 ∷ 3 ∷ 4 ∷ [])

abbrev mapped_v4 : SockAddr
mapped_v4 = inet6 513 (addr_mapped ++ (1 ∷ 2 ∷ 3 ∷ 4 ∷ []))

v4_same : make_sock_id v4 ≡ make_sock_id mapped_v4
unfolding make_sock_id
v4_same = refl
