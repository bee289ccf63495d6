-- ===== src/Network/Connect.antt =====
-- src/Network/Socket.cpp: connect_l, onConnected and the part of closeSock that concerns them, all on the poller's
-- thread. A call of connect is an attempt, numbered in order; its callback hears of it. Descriptors are numbers. What
-- SockUtil::connect, addEvent and getSockErr answer are arguments.
use zltool_kit.Kit.{
  ℕ, suc, Bool, true, false, List, [], ◌∷◌, ◌++◌, Option, none, some, ◌==◌, if◌then◌else◌,
}
mod Attempts
pub mod Once
mod Tests

-- The members: `timer` is the attempt of `_con_timer`, `async_cb` that of `_async_con_cb`, and `watched` the descriptor
-- whose being writable an attempt waits for. `reports` are the calls of callbacks, with whether there was an
-- error; `dropped` the attempts that a close ended without a call; `connected` the calls of setConnected.
pub record Conn : Type 0 where
  attempts : ℕ
  timer : Option ℕ
  async_cb : Option ℕ
  watched : Option (ℕ × ℕ)
  sock : Option ℕ
  connected : List ℕ
  reports : List (ℕ × Bool)
  dropped : List ℕ

abbrev pub new_conn : Conn
new_conn = record {
  attempts = 0;
  timer = none;
  async_cb = none;
  watched = none;
  sock = none;
  connected = [];
  reports = [];
  dropped = [];
}

-- The destructor of a SockFD ends the watch of its descriptor.
abbrev pub end_watch : Option ℕ → Option (ℕ × ℕ) → Option (ℕ × ℕ)
end_watch none w = w
end_watch (some f) none = none
end_watch (some f) (some (g, k)) = if g == f then none else some (g, k)

unfoldable pub set_sock : Option ℕ → Conn → Conn
set_sock o c = record c { sock = o; watched = end_watch c.sock c.watched }

abbrev pub pending : Option ℕ → List ℕ
pending none = []
pending (some k) = k ∷ []

unfoldable pub close_sock : (close_fd : Bool) → Conn → Conn
close_sock close_fd c = record c {
  timer = none;
  async_cb = none;
  watched = end_watch c.sock c.watched;
  sock = if close_fd then none else c.sock;
  dropped = c.dropped ++ pending c.timer;
}

-- The callback of an attempt, with the timer off.
abbrev pub report : ℕ → Bool → Conn → Conn
report k err c = record c { timer = none; async_cb = none; reports = c.reports ++ ((k, err) ∷ []) }

unfoldable pub con_cb : ℕ → Bool → Conn → Conn
con_cb k err c = report k err (if err then set_sock none c else c)

-- `async_con_cb`, with the descriptor that SockUtil::connect gave.
unfoldable pub start : ℕ → (fd : Option ℕ) → (add_ok : Bool) → Conn → Conn
start k none add_ok c = con_cb k true c
start k (some f) add_ok c =
    if add_ok then set_sock (some f) (record c { watched = some (f, k) }) else con_cb k true c

unfoldable pub connect_l : (is_ip : Bool) → (fd : Option ℕ) → (add_ok : Bool) → Conn → Conn
connect_l is_ip fd add_ok c =
    let k = c.attempts in
    let armed = record (close_sock true c) { timer = some k; attempts = suc k } in
    if is_ip then start k fd add_ok armed else record armed { async_cb = some k }

abbrev pub is_for : ℕ → Option ℕ → Bool
is_for k none = false
is_for k (some j) = j == k

-- The task behind the resolution of a name: it finds the callback only while `_async_con_cb` holds it.
unfoldable pub on_resolved : ℕ → (fd : Option ℕ) → (add_ok : Bool) → Conn → Conn
on_resolved k fd add_ok c = if is_for k c.async_cb then start k fd add_ok c else c

unfoldable pub fire : Option ℕ → Conn → Conn
fire none c = c
fire (some k) c = con_cb k true c

unfoldable pub on_timeout : Conn → Conn
on_timeout c = fire c.timer c

unfoldable pub on_connected : (f k : ℕ) → (err attach_ok : Bool) → Conn → Conn
on_connected f k err attach_ok c =
    let moved = record (set_sock (some f) c) { watched = none } in
    let done = record moved { connected = moved.connected ++ (f ∷ []) } in
    if err then con_cb k true c else if attach_ok then con_cb k false done else con_cb k true moved

unfoldable pub writable : Option (ℕ × ℕ) → (err attach_ok : Bool) → Conn → Conn
writable none err attach_ok c = c
writable (some (f, k)) err attach_ok c = on_connected f k err attach_ok c

-- The descriptor that an attempt watches is writable, or has an error.
unfoldable pub on_event : (err attach_ok : Bool) → Conn → Conn
on_event err attach_ok c = writable c.watched err attach_ok c
