-- ===== src/UdpTracker/Client/Connecting.antt =====
-- What connecting to the server establishes.
use go_bt.Prelude.{ℕ}
use go_bt.UdpTracker.Client.{Client}
use go_bt.UdpTracker.Server.{UdpAddr, Server, get_connection_id, add_connection}

-- The state of the server, and the connection it gives, once a client has connected.
abbrev pub admitted : Server → UdpAddr → ℕ → Server
admitted uts raddr now =
    add_connection (get_connection_id uts).0 (get_connection_id uts).1 raddr now
