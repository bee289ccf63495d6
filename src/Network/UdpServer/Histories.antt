-- ===== src/Network/UdpServer/Histories.antt =====
-- What may happen to the servers, in any order.
use zltool_kit.Kit.{ℕ, ◌<◌, ◌≡◌, ◌≢◌, Bool, true, false, List, [], ◌∷◌, Option, none, some, length}
use zltool_kit.Kit.Maps.{Entries}
use zltool_kit.Network.UdpServer.Keeps.{IsPeer}
use zltool_kit.Network.UdpServer.{
  Datagram, Server, new_server, read_found, on_read_l, on_peer_read, run_poller, on_err,
  run_erasure, on_manager_session,
}

-- The datagrams that arrived, the last one first. In a calm history each socket asked for is made, the server and the
-- sessions are there when a task looks for them, and no session has an error.
pub data History (calm : Bool) : List Datagram → Server → Type 0 where
  starts : History calm [] new_server
  arrives :
      (ds : List Datagram) (s : Server) (place cur : ℕ) (d : Datagram) (choice : Option ℕ)
      → (calm ≡ true → choice ≢ none)
      → History calm ds s
      → History calm (d ∷ ds) (on_read_l place cur d choice s)
  -- onRead_l looks for the session under the lock, and goes on behind it: `o` is what it found, and other pollers took
  -- their steps meanwhile.
  arrives_late :
      (ds : List Datagram) (s : Server) (place cur : ℕ) (d : Datagram) (choice o : Option ℕ)
      → (calm ≡ true → choice ≢ none)
      → ((h : ℕ) → o ≡ some h → IsPeer s.helpers h d.from)
      → History calm ds s
      → History calm (d ∷ ds) (read_found place cur d choice s o)
  reads :
      (ds : List Datagram) (s : Server) (locked : Bool) (place h : ℕ) (d : Datagram)
      (choice : Option ℕ)
      → (calm ≡ true → (choice ≢ none) × (locked ≡ true))
      → h < length s.helpers
      → History calm ds s
      → History calm (d ∷ ds) (on_peer_read locked place h d choice s)
  runs :
      (ds : List Datagram) (s : Server) (alive locked : Bool) (place cur : ℕ)
      → (calm ≡ true → (alive ≡ true) × (locked ≡ true))
      → History calm ds s
      → History calm ds (run_poller alive locked place cur s)
  errs :
      (ds : List Datagram) (s : Server) (alive locked : Bool) (h : ℕ)
      → calm ≡ false
      → h < length s.helpers
      → History calm ds s
      → History calm ds (on_err alive locked h s)
  erases :
      (ds : List Datagram) (s : Server) (k : ℕ)
      → History calm ds s
      → History calm ds (run_erasure k s)
  manages :
      (ds : List Datagram) (s : Server) (cur : ℕ) (copy : Entries)
      → History calm ds s
      → History calm ds (on_manager_session cur copy s)
