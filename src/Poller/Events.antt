-- ===== src/Poller/Events.antt =====
-- The events of an `EventPoller` with epoll (src/Poller/EventPoller.cpp), on its own thread: `addEvent`,
-- `delEvent`, and the loop of `runLoop` over the events of one `epoll_wait`. A callback is a number, and what it
-- does to the poller is a list of acts, an argument of the loop. What `epoll_ctl` returns is an argument.
mod Expired
mod Tests
use zltool_kit.Kit.{
  ℕ, suc, ◌+◌, Bool, true, false, ◌||◌, List, [], ◌∷◌, ◌++◌, Option, none, some, ◌==◌,
  if◌then◌else◌, length,
}

pub record Events : Type 0 where
  pub event_map : List (ℕ × ℕ)
  pub event_cache_expired : List ℕ
  pub fd_count : ℕ
  pub calls : List (ℕ × ℕ)

abbrev pub find : ℕ → List (ℕ × ℕ) → Option ℕ
find fd [] = none
find fd (e ∷ es) = let rest = find fd es in if fd == e.0 then some e.1 else rest

abbrev pub erase : ℕ → List (ℕ × ℕ) → List (ℕ × ℕ)
erase fd [] = []
erase fd (e ∷ es) = let rest = erase fd es in if fd == e.0 then es else e ∷ rest

abbrev pub contains : ℕ → List ℕ → Bool
contains fd [] = false
contains fd (x ∷ xs) = (fd == x) || contains fd xs

-- `emplace` keeps an entry that is there.
abbrev pub emplace_event : ℕ → ℕ → Option ℕ → List (ℕ × ℕ) → List (ℕ × ℕ)
emplace_event fd cb none es = (fd, cb) ∷ es
emplace_event fd cb (some old) es = es

-- `addEvent` with a callback; `ok` is whether `epoll_ctl` succeeds.
unfoldable pub add_event : Bool → ℕ → ℕ → Events → Events
add_event ok fd cb s =
    let added = emplace_event fd cb (find fd s.event_map) s.event_map in
    let es = if ok then added else s.event_map in record s { event_map = es; fd_count = length es }

abbrev pub del_found : ℕ → Option ℕ → Events → Events
del_found fd none s = record s { fd_count = length s.event_map }
del_found fd (some cb) s = record s {
  event_map = erase fd s.event_map;
  event_cache_expired = fd ∷ s.event_cache_expired;
  fd_count = length (erase fd s.event_map);
}

unfoldable pub del_event : ℕ → Events → Events
del_event fd s = del_found fd (find fd s.event_map) s

-- What a callback may do.
pub data Act : Type 0 where
  add_act : Bool → ℕ → ℕ → Act
  del_act : ℕ → Act

unfoldable pub act : Act → Events → Events
unfolding add_event del_event
act (add_act ok fd cb) s = add_event ok fd cb s
act (del_act fd) s = del_event fd s

abbrev pub act_all : List Act → Events → Events
act_all [] s = s
act_all (a ∷ rest) s = act_all rest (act a s)

-- The call of a callback that was found.
abbrev pub call_found : (ℕ → List Act) → ℕ → Option ℕ → Events → Events
call_found acts fd none s = s
call_found acts fd (some cb) s = act_all (acts cb) (record s { calls = s.calls ++ ((fd, cb) ∷ []) })

-- One event of the batch.
unfoldable pub handle_event : (ℕ → List Act) → ℕ → Events → Events
unfolding act
handle_event acts fd s =
    if contains fd s.event_cache_expired then s else call_found acts fd (find fd s.event_map) s

abbrev pub handle_all : (ℕ → List Act) → List ℕ → Events → Events
handle_all acts [] s = s
handle_all acts (fd ∷ fds) s = handle_all acts fds (handle_event acts fd s)

-- A return of `epoll_wait` with the descriptors `fds`.
unfoldable pub run_batch : (ℕ → List Act) → List ℕ → Events → Events
run_batch acts fds s = handle_all acts fds (record s { event_cache_expired = [] })
