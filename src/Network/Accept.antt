-- ===== src/Network/Accept.antt =====
-- src/Network/Socket.cpp: onAccept, the loop of a listening socket over the connections that wait. What accept answers, and
-- what the callbacks do with a connection, is chosen by the environment.
use zltool_kit.Kit.{
  ℕ, suc, Bool, true, false, List, [], ◌∷◌, ◌++◌, Option, none, some, if◌then◌else◌,
}
pub mod Places
mod Tests

-- One connection: whether the callback before it throws, whether onAccept throws, whether onAccept keeps the reference
-- to `completed`, and whether the poller takes the descriptor.
pub record Child : Type 0 where
  before_throws : Bool
  accept_throws : Bool
  keeps : Bool
  attach_ok : Bool

pub data Answer : Type 0 where
  interrupted : Answer
  would_block : Answer
  refused : Answer
  gives : (fd : ℕ) (c : Child) → Answer

-- The descriptors closed, those handed to onAccept, those in the poller, those whose socket got an error, and those
-- whose `completed` is kept; the delayed calls of onAccept; and the errors of the listener.
pub record Listener : Type 0 where
  closed : List ℕ
  handed : List ℕ
  attached : List ℕ
  failed : List ℕ
  kept : List ℕ
  retries : ℕ
  errors : ℕ

abbrev pub new_listener : Listener
new_listener = record {
  closed = [];
  handed = [];
  attached = [];
  failed = [];
  kept = [];
  retries = 0;
  errors = 0;
}

-- The deleter of `completed`.
unfoldable pub complete : (fd : ℕ) → (attach_ok : Bool) → Listener → Listener
complete fd attach_ok s =
    if attach_ok
    then record s { attached = s.attached ++ (fd ∷ []) }
    else record s { failed = s.failed ++ (fd ∷ []) }

unfoldable pub hand : (fd : ℕ) → Child → Listener → Listener
hand fd c s =
    let handed = record s { handed = s.handed ++ (fd ∷ []) } in
    if c.keeps then record handed { kept = s.kept ++ (fd ∷ []) } else complete fd c.attach_ok handed

abbrev pub close_fd : ℕ → Listener → Listener
close_fd fd s = record s { closed = s.closed ++ (fd ∷ []) }

abbrev pub emit_err : Listener → Listener
emit_err s = record s { errors = suc s.errors }

-- What the loop comes to: the state, whether 0 is returned, and what accept was not asked for.
abbrev pub Result : Type 0
Result = Option (Listener × Bool × List Answer)

-- The loop for a readable event; `err` tells whether the event has an error too.
unfoldable pub accept_loop : (err : Bool) → List Answer → Listener → Result
accept_loop err [] s = none
accept_loop err (interrupted ∷ more) s = accept_loop err more s
accept_loop err (would_block ∷ more) s = some (s, true, more)
accept_loop err (refused ∷ more) s = some (record s { retries = suc s.retries }, false, more)
accept_loop err (gives fd c ∷ more) s =
    let after_close = accept_loop err more (close_fd fd s) in
    let after_hand = accept_loop err more (hand fd c s) in
    if c.before_throws
    then after_close
    else if c.accept_throws
    then after_hand
    else if err
    then some (emit_err (hand fd c s), false, more)
    else after_hand

-- An event that is neither readable nor an error keeps the loop from ending.
unfoldable pub on_accept : (read err : Bool) → List Answer → Listener → Result
on_accept read err answers s =
    if read
    then accept_loop err answers s
    else if err
    then some (emit_err s, false, answers)
    else none
