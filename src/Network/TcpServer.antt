-- ===== src/Network/TcpServer.antt =====
-- src/Network/TcpServer.cpp: the sessions of a server on one poller, and the server that a new connection goes to. A session's
-- helper is a number, the address by which `_session_map` knows it. All operations run on the server's poller.
use zltool_kit.Kit.{
  ℕ, Bool, true, false, List, [], ◌∷◌, ◌++◌, Option, none, some, ◌==◌, if◌then◌else◌,
}
use zltool_kit.Kit.Counts.{erase_one}
use zltool_kit.Kit.Maps.{emplace}
pub mod Manager
pub mod Balance
pub mod Family
mod Tests

-- What a session hears.
pub data Notice : Type 0 where
  managed : (h : ℕ) → Notice
  errored : (h : ℕ) → Notice

-- `tasks` are the sessions that posted tasks will erase; `heard` is what the sessions heard.
pub record Server : Type 0 where
  sessions : List ℕ
  is_on_manager : Bool
  tasks : List ℕ
  heard : List Notice

abbrev pub new_server : Server
new_server = record { sessions = []; is_on_manager = false; tasks = []; heard = [] }

abbrev pub hear : Notice → Server → Server
hear n s = record s { heard = s.heard ++ (n ∷ []) }

-- `onAcceptConnection`: the session is put into the map.
unfoldable pub on_accept_connection : (place h : ℕ) → Server → Server
on_accept_connection place h s = record s { sessions = emplace place h s.sessions }

-- The end of the error callback: the map is not changed while `onManagerSession` runs over it.
unfoldable pub remove_session : ℕ → Server → Server
remove_session h s =
    if s.is_on_manager
    then record s { tasks = s.tasks ++ (h ∷ []) }
    else record s { sessions = erase_one h s.sessions }

-- The `setOnErr` of a session's socket; `locked` tells whether the session could be locked.
unfoldable pub on_err : (locked : Bool) → ℕ → Server → Server
on_err locked h s = remove_session h (if locked then hear (errored h) s else s)

unfoldable pub on_errs : List (Bool × ℕ) → Server → Server
on_errs [] s = s
on_errs ((locked, h) ∷ es) s = on_errs es (on_err locked h s)

-- The loop of `onManagerSession`: a session's onManager may lead to errors of any sessions, and an exception
-- of it is caught.
unfoldable pub manage_sessions : (does : ℕ → List (Bool × ℕ)) → List ℕ → Server → Server
manage_sessions does [] s = s
manage_sessions does (h ∷ hs) s = manage_sessions does hs (on_errs (does h) (hear (managed h) s))

unfoldable pub on_manager_session : (does : ℕ → List (Bool × ℕ)) → Server → Server
on_manager_session does s =
    let done = manage_sessions does s.sessions (record s { is_on_manager = true }) in
    record done { is_on_manager = false }

-- A posted task runs.
unfoldable pub run_first : Server → List ℕ → Server
run_first s [] = s
run_first s (h ∷ hs) = record s { sessions = erase_one h s.sessions; tasks = hs }

unfoldable pub run_task : Server → Server
run_task s = run_first s s.tasks
