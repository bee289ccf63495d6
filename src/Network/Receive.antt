-- ===== src/Network/Receive.antt =====
-- `Socket::onRead` (src/Network/Socket.cpp) with the calls of `recvFromSocket` (src/Network/BufferSock.cpp).
-- What `recvfrom` and `recvmmsg` answer is chosen by the environment. The read callback is an argument:
-- it may do anything to the socket, and an exception that it throws changes nothing else.
mod Drain
mod Tests
use zltool_kit.Kit.{
  ℕ, zero, suc, ◌+◌, Bool, true, false, not, List, [], ◌∷◌, ◌++◌, Option, none, some, ◌==◌,
  if◌then◌else◌, length,
}
use zltool_kit.Network.Socket.{Socket, Fault, errno_fault, end_of_file, emit_err, eagain}

-- One call: the buffers that it filled, which are one for `recvfrom`; `EINTR`; or another error.
pub data Arrival : Type 0 where
  got : List (List ℕ) → Arrival
  interrupted_read : Arrival
  refused_read : ℕ → Arrival

-- A socket that is read: `delivered` are the calls of the read callback.
pub record Reader : Type 0 where
  pub sock : Socket
  pub delivered : List (List (List ℕ))
  pub enable_speed : Bool
  pub recv_speed : ℕ

-- `nread`.
abbrev pub total : List (List ℕ) → ℕ
total [] = 0
total (b ∷ bs) = length b + total bs

unfoldable pub deliver : (List (List ℕ) → Socket → Socket) → List (List ℕ) → Reader → Reader
deliver on_multi_read bs r = record r {
  sock = on_multi_read bs r.sock;
  delivered = r.delivered ++ (bs ∷ []);
  recv_speed = if r.enable_speed then r.recv_speed + total bs else r.recv_speed;
}

-- A call that read nothing, on a UDP socket or a TCP socket.
unfoldable pub at_eof : Bool → Reader → Reader
unfolding emit_err
at_eof true r = r
at_eof false r = record r { sock = emit_err end_of_file r.sock }

-- A call that failed.
unfoldable pub at_error : Bool → ℕ → Reader → Reader
unfolding emit_err
at_error true e r = r
at_error false e r = if e == eagain then r else record r { sock = emit_err (errno_fault e) r.sock }

-- The loop of `onRead`, with that of `recvFromSocket`, over the answers of the kernel, and the answers that
-- are left. `none` is a call for which no answer is left.
unfoldable pub on_read :
    Bool
    → (List (List ℕ) → Socket → Socket)
    → List Arrival
    → Reader
    → Option (Reader × List Arrival)
unfolding deliver at_eof at_error
on_read udp h [] r = if r.sock.enable_recv then none else some (r, [])
on_read udp h (interrupted_read ∷ rest) r =
    let again = on_read udp h rest r in
    if r.sock.enable_recv then again else some (r, interrupted_read ∷ rest)
on_read udp h (refused_read e ∷ rest) r =
    if r.sock.enable_recv then some (at_error udp e r, rest) else some (r, refused_read e ∷ rest)
on_read udp h (got bs ∷ rest) r =
    let again = on_read udp h rest (deliver h bs r) in
    if not r.sock.enable_recv
    then some (r, got bs ∷ rest)
    else if total bs == 0
    then some (at_eof udp r, rest)
    else again
