-- ===== src/Network/TcpServer/Tests.antt =====
-- Two sessions, 3 and 4; when the manager calls the first, both have an error.
use zltool_kit.Kit.{
  ℕ, ◌≡◌, refl, Bool, true, false, List, [], ◌∷◌, ◌++◌, ◌+◌, ◌==◌, if◌then◌else◌, arith,
}
use zltool_kit.Kit.Counts.{count}
use zltool_kit.Network.TcpServer.{
  Server, new_server, managed, errored, on_accept_connection, remove_session, on_err, on_errs,
  manage_sessions, on_manager_session, run_first, run_task,
}
use zltool_kit.Network.TcpServer.Manager.{errs_of, failed, walk_heard, on_manager_session_lem}
use zltool_kit.Network.TcpServer.Balance.{
  History, starts, accepts, manages, IsBalanced, history-IsBalanced,
}
use zltool_kit.Network.TcpServer.Family.{clones, get_server, get_server_lem}

abbrev two_sessions : Server
two_sessions = on_accept_connection 1 4 (on_accept_connection 0 3 new_server)

abbrev both_fail : ℕ → List (Bool × ℕ)
both_fail h = if h == 3 then (true, 3) ∷ (true, 4) ∷ [] else []

both_heard :
    (on_manager_session both_fail two_sessions).heard
    ≡ managed 3 ∷ errored 3 ∷ errored 4 ∷ managed 4 ∷ []
unfolding on_manager_session manage_sessions on_errs on_err remove_session on_accept_connection
both_heard = refl

both_erased : (run_task (run_task (on_manager_session both_fail two_sessions))).sessions ≡ []
unfolding run_task run_first on_manager_session manage_sessions on_errs on_err remove_session
    on_accept_connection
both_erased = refl

on_manager_session_lem_example : on_manager_session both_fail two_sessions ≡ record two_sessions {
  is_on_manager = false;
  tasks = two_sessions.tasks ++ failed (errs_of both_fail two_sessions.sessions);
  heard = two_sessions.heard ++ walk_heard both_fail two_sessions.sessions;
}
on_manager_session_lem_example = on_manager_session_lem both_fail two_sessions

split_open :
    (i : ℕ)
    → count i (4 ∷ 3 ∷ []) ≡ count i (failed (errs_of both_fail two_sessions.sessions)) + count i []
unfolding on_accept_connection
split_open i = omega arith

abbrev both_failed : History [] (on_manager_session both_fail two_sessions)
both_failed =
    manages (4 ∷ 3 ∷ []) [] two_sessions both_fail split_open (
      accepts (3 ∷ []) (on_accept_connection 0 3 new_server) 1 4 (accepts [] new_server 0 3 starts))

history-IsBalanced_example :
    ((on_manager_session both_fail two_sessions).is_on_manager ≡ false)
    × IsBalanced [] (on_manager_session both_fail two_sessions)
history-IsBalanced_example = history-IsBalanced [] both_failed

-- The clone of poller 2 accepts a socket of poller 3; poller 1 has the main server.
third_poller : get_server true 1 2 (clones 1 (1 ∷ 2 ∷ 3 ∷ [])) 3 ≡ 3
third_poller = get_server_lem true 1 2 3 (1 ∷ 2 ∷ 3 ∷ []) (omega arith) (λ other. refl)
