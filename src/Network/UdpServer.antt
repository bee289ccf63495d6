-- ===== src/Network/UdpServer.antt =====
-- src/Network/UdpServer.cpp: the map of sessions that a server and its clones on other pollers share, and the tasks that
-- they post to pollers. A datagram knows its sender, a peer by its id. Helpers, each with its session and socket, are
-- numbered in the order in which they are made. A step runs on one poller, `cur`.
use zltool_kit.Kit.{
  ℕ, zero, suc, ◌+◌, Bool, true, false, List, [], ◌∷◌, ◌++◌, Option, none, some, ◌==◌,
  if◌then◌else◌, length, get_or, get_elem?, set,
}
use zltool_kit.Kit.Maps.{Entries, emplace, find, erase}
pub mod PeerId
mod Keeps
mod Mapped
pub mod Histories
pub mod Sessions
pub mod Conserve
pub mod Delivered
mod Tests

pub record Datagram : Type 0 where
  from : ℕ
  number : ℕ

-- A SessionHelper: the peer of its socket, the poller that owns the socket, and `enable`.
pub record Helper : Type 0 where
  peer : ℕ
  poller : ℕ
  enable : Bool

abbrev pub no_helper : Helper
no_helper = record { peer = 0; poller = 0; enable = false }

-- What is posted to a poller: the making of a session, and a datagram for a session that is held, or only
-- referred to.
pub data Task : Type 0 where
  creates : (d : Datagram) → Task
  receives : (h : ℕ) (d : Datagram) → Task
  receives_weak : (h : ℕ) (d : Datagram) → Task

-- A datagram that reached a session: on which poller, and whose.
pub record Received : Type 0 where
  on : ℕ
  helper : ℕ
  what : Datagram

-- The servers: `sessions` is `_session_map`; `erasures` the peers that delayed tasks will erase; what
-- happened is in `received`, `lost`, `errors` and `managed`.
pub record Server : Type 0 where
  helpers : List Helper
  sessions : Entries
  tasks : List (ℕ × Task)
  erasures : List ℕ
  received : List Received
  lost : List Datagram
  errors : List ℕ
  managed : List ℕ

abbrev pub new_server : Server
new_server = record {
  helpers = [];
  sessions = [];
  tasks = [];
  erasures = [];
  received = [];
  lost = [];
  errors = [];
  managed = [];
}

abbrev pub helper_of : ℕ → Server → Helper
helper_of h s = get_or s.helpers h no_helper

abbrev pub post : ℕ → Task → Server → Server
post p t s = record s { tasks = s.tasks ++ ((p, t) ∷ []) }

abbrev pub lose : Datagram → Server → Server
lose d s = record s { lost = s.lost ++ (d ∷ []) }

unfoldable pub emit_session_recv : (cur h : ℕ) → Datagram → Server → Server
emit_session_recv cur h d s =
    if (helper_of h s).enable
    then record s { received = s.received ++ (record { on = cur; helper = h; what = d } ∷ []) }
    else lose d s

-- `async` of the poller of a helper's socket, called on `cur`: a task for the current poller runs at once.
unfoldable pub async_recv : (cur h : ℕ) → Datagram → Task → Server → Server
async_recv cur h d t s =
    if (helper_of h s).poller == cur
    then emit_session_recv cur h d s
    else post (helper_of h s).poller t s

unfoldable pub new_helper : (place p peer : ℕ) → Server → Server
new_helper place p peer s = record s {
  helpers = s.helpers ++ (record { peer = peer; poller = p; enable = true } ∷ []);
  sessions = emplace place (peer, length s.helpers) s.sessions;
}

-- `helper_creator`, under the lock of the map: a session that another poller made meanwhile is taken.
unfoldable pub find_or_make : (place p peer : ℕ) → Server → Option ℕ → Server × ℕ
find_or_make place p peer s (some h) = (s, h)
find_or_make place p peer s none = (new_helper place p peer s, length s.helpers)

unfoldable pub helper_creator : (place p peer : ℕ) → Server → Server × ℕ
helper_creator place p peer s = find_or_make place p peer s (find peer s.sessions)

-- The rest of `onRead_l` with a session.
unfoldable pub dispatch : (cur h : ℕ) → Datagram → Server → Server
dispatch cur h d s = async_recv cur h d (receives_weak h d) s

-- `createSession` and what `onRead_l` does with its result: `choice` is the poller of the socket made, if one is.
unfoldable pub create_session : (place cur : ℕ) → Datagram → (choice : Option ℕ) → Server → Server
create_session place cur d none s = lose d s
create_session place cur d (some p) s =
    let made = helper_creator place p d.from s in
    if p == cur then dispatch cur made.1 d made.0 else post p (creates d) s

unfoldable pub read_found :
    (place cur : ℕ) → Datagram → (choice : Option ℕ) → Server → Option ℕ → Server
read_found place cur d choice s (some h) = dispatch cur h d s
read_found place cur d choice s none = create_session place cur d choice s

unfoldable pub on_read_l : (place cur : ℕ) → Datagram → (choice : Option ℕ) → Server → Server
on_read_l place cur d choice s = read_found place cur d choice s (find d.from s.sessions)

-- A weak reference is locked, or the datagram is dropped.
unfoldable pub recv_if_locked : (locked : Bool) → (cur h : ℕ) → Datagram → Server → Server
recv_if_locked locked cur h d s = if locked then emit_session_recv cur h d s else lose d s

-- The `setOnRead` of a session's socket, which runs on the poller of the socket.
unfoldable pub on_peer_read :
    (locked : Bool) → (place h : ℕ) → Datagram → (choice : Option ℕ) → Server → Server
on_peer_read locked place h d choice s =
    if (helper_of h s).peer == d.from
    then recv_if_locked locked (helper_of h s).poller h d s
    else on_read_l place (helper_of h s).poller d choice s

-- The task with which `createSession` makes a session on another poller: `alive` tells whether the server is.
unfoldable pub run_creates : (alive : Bool) → (place cur : ℕ) → Datagram → Server → Server
run_creates alive place cur d s =
    let made = helper_creator place cur d.from s in
    if alive then async_recv cur made.1 d (receives made.1 d) made.0 else lose d s

unfoldable pub run_task : (alive locked : Bool) → (place cur : ℕ) → Task → Server → Server
run_task alive locked place cur (creates d) s = run_creates alive place cur d s
run_task alive locked place cur (receives h d) s = emit_session_recv cur h d s
run_task alive locked place cur (receives_weak h d) s = recv_if_locked locked cur h d s

-- The first task that waits for a poller, and the others.
abbrev pub with_task :
    (ℕ × Task) → Option (Task × List (ℕ × Task)) → Option (Task × List (ℕ × Task))
with_task x none = none
with_task x (some (t, rest)) = some (t, x ∷ rest)

abbrev pub take_task : ℕ → List (ℕ × Task) → Option (Task × List (ℕ × Task))
take_task p [] = none
take_task p ((q, t) ∷ ts) =
    let later = with_task (q, t) (take_task p ts) in if q == p then some (t, ts) else later

unfoldable pub run_taken :
    (alive locked : Bool) → (place cur : ℕ) → Server → Option (Task × List (ℕ × Task)) → Server
run_taken alive locked place cur s none = s
run_taken alive locked place cur s (some (t, rest)) =
    run_task alive locked place cur t (record s { tasks = rest })

unfoldable pub run_poller : (alive locked : Bool) → (place cur : ℕ) → Server → Server
run_poller alive locked place cur s = run_taken alive locked place cur s (take_task cur s.tasks)

-- The `setOnErr` of a session's socket: the helper is switched off and hears of the error, then its peer is
-- left to a delayed task.
unfoldable pub on_err : (alive locked : Bool) → ℕ → Server → Server
on_err alive locked h s =
    let off = record (helper_of h s) { enable = false } in
    record s {
      helpers = if locked then set s.helpers h off else s.helpers;
      errors = if locked then s.errors ++ (h ∷ []) else s.errors;
      erasures = if alive then s.erasures ++ ((helper_of h s).peer ∷ []) else s.erasures;
    }

abbrev pub remove_at {ℓ} : {A : Type ℓ} → ℕ → List A → List A
remove_at k [] = []
remove_at zero (x ∷ xs) = xs
remove_at (suc k) (x ∷ xs) = x ∷ remove_at k xs

unfoldable pub erase_peer : ℕ → Server → Option ℕ → Server
erase_peer k s none = s
erase_peer k s (some peer) = record s {
  sessions = erase peer s.sessions;
  erasures = remove_at k s.erasures;
}

-- A delayed task runs, the one at position `k`.
unfoldable pub run_erasure : (k : ℕ) → Server → Server
run_erasure k s = erase_peer k s (get_elem? s.erasures k)

-- `onManagerSession` on one poller, over a copy of the map.
abbrev pub manage_all : (cur : ℕ) → List Helper → Entries → List ℕ
manage_all cur hs [] = []
manage_all cur hs ((peer, h) ∷ m) =
    let rest = manage_all cur hs m in
    if (get_or hs h no_helper).poller == cur then h ∷ rest else rest

unfoldable pub on_manager_session : (cur : ℕ) → (copy : Entries) → Server → Server
on_manager_session cur copy s = record s { managed = s.managed ++ manage_all cur s.helpers copy }
