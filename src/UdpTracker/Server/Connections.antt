-- ===== src/UdpTracker/Server/Connections.antt =====
-- What the server makes of a request's head.
use go_bt.Prelude.{
  ℕ, ◌+◌, ◌-◌, ◌≤◌, ◌≡◌, ◌≢◌, refl, ◌∙◌, Bool, true, false, ◌&&◌, some, [], ◌∷◌, length, drop,
  take_of_length-le, Bytes, IsU32, IsU64, be32, be64, of_be, of_be-be32, of_be-be64, ltb, ◌==◌,
  ==_refl, bytes_beq, bytes_beq_refl, ℕ_eq, if◌then◌else◌, arith,
}
use go_bt.Prelude.Map.{Map, lookup, insert, delete_if, lookup-insert}
use go_bt.Prelude.Slices.{slice}
use go_bt.UdpTracker.Announce.{protocol_id, action_connect}
use go_bt.UdpTracker.Client.{request}
use go_bt.UdpTracker.Server.{
  UdpAddr, ServerHandler, WrappedPeerAddr, Server, add_connection, check_connection,
  clean_connection_id, error_packet, connection_expired, handle_action, handle_connect,
  handle_packet, receive,
}

-- The head of a request, as the server reads it.
pub request-head :
    (cid action tid : ℕ) (rest : Bytes)
    → IsU64 cid
    → IsU32 action
    → IsU32 tid
    → (of_be (slice 0 8 (request cid action tid rest)) ≡ cid)
      × (of_be (slice 8 12 (request cid action tid rest)) ≡ action)
      × (of_be (slice 12 16 (request cid action tid rest)) ≡ tid)
      × (drop 16 (request cid action tid rest) ≡ rest)
unfolding request slice be64 be32
request-head cid action tid rest c a t =
    (of_be-be64 cid c, of_be-be32 action a, of_be-be32 tid t, refl)

pub length-request :
    (cid action tid : ℕ) (rest : Bytes) → length (request cid action tid rest) ≡ 16 + length rest
unfolding request be64 be32
length-request cid action tid rest = omega arith

module _ (handler : ServerHandler) (raddr : UdpAddr) (now : ℕ) (uts : Server) where
  -- A request of a connected client goes to the case of its action.
  pub handle_packet-connected :
      (cid action tid : ℕ) (rest sent : Bytes)
      → IsU64 cid
      → IsU32 action
      → IsU32 tid
      → action ≢ action_connect
      → check_connection uts cid raddr ≡ true
      → handle_action handler raddr action tid rest ≡ some sent
      → handle_packet handler raddr now uts (request cid action tid rest) ≡ some (uts, sent)
  unfolding handle_packet
  handle_packet-connected cid action tid rest sent c a t other known e =
      let (is_cid, is_action, is_tid, is_rest) = request-head cid action tid rest c a t in
      let second : (cid == protocol_id && action == action_connect) ≡ false = ground arith in
      rw (is_cid, is_action, is_tid, is_rest, second, known, e) refl

  -- Any request of a client that is not connected, but to connect, is answered that its connection
  -- is expired, and changes nothing.
  pub handle_packet-expired :
      (cid action tid : ℕ) (rest : Bytes)
      → IsU64 cid
      → IsU32 action
      → IsU32 tid
      → (cid == protocol_id && action == action_connect) ≡ false
      → check_connection uts cid raddr ≡ false
      → handle_packet handler raddr now uts (request cid action tid rest)
        ≡ some (uts, error_packet tid connection_expired)
  unfolding handle_packet
  handle_packet-expired cid action tid rest c a t other known =
      let (is_cid, is_action, is_tid, is_rest) = request-head cid action tid rest c a t in
      rw (is_cid, is_action, is_tid, is_rest, other, known) refl

  -- The request to connect.
  pub handle_packet-connect :
      (tid : ℕ)
      → IsU32 tid
      → handle_packet handler raddr now uts (request protocol_id action_connect tid [])
        ≡ some (handle_connect handler raddr now uts tid)
  unfolding handle_packet
  handle_packet-connect tid t =
      let (is_cid, is_action, is_tid, is_rest) =
        request-head protocol_id action_connect tid [] (omega arith) (omega arith) t in
      rw (is_cid, is_action, is_tid) refl

  pub receive-whole :
      (b : Bytes) (after : Server × Bytes)
      → 16 ≤ length b
      → length b ≤ uts.buf_size
      → handle_packet handler raddr now uts b ≡ some after
      → receive handler raddr now uts b ≡ some (after.0, some after.1)
  unfolding receive
  receive-whole b after low high e =
      let long : ltb (length b) 16 ≡ false = ground arith in
      rw (take_of_length-le uts.buf_size b high, long, e) refl

-- A connection that is added is known from then on, for its address; one of another count stays as it
-- was.
pub check_connection-add :
    (uts : Server) (cid other : ℕ) (raddr from : UdpAddr) (now : ℕ)
    → check_connection (add_connection uts cid raddr now) other from ≡ (
        if cid == other
        then raddr.port == from.port && bytes_beq raddr.ip from.ip
        else check_connection uts other from)
unfolding check_connection add_connection
check_connection-add uts cid other raddr from now =
    ground (arith, lookup-insert cid other (record { addr = raddr; time = now }) uts.conns)

lookup-delete_if_kept :
    (d : WrappedPeerAddr → Bool) (k : ℕ) (w : WrappedPeerAddr) (m : Map ℕ WrappedPeerAddr)
    → lookup k m ≡ some w
    → d w ≡ false
    → lookup k (delete_if d m) ≡ some w
unfolding lookup delete_if
lookup-delete_if_kept d k w [] h e = ground arith
lookup-delete_if_kept d k w ((j, v) ∷ m) h e = ground (arith, lookup-delete_if_kept d k w m)

-- A connection that is not older than the interval is still known after a round of cleaning.
pub check_connection-clean :
    (uts : Server) (cid : ℕ) (raddr : UdpAddr) (made now interval : ℕ)
    → now ≤ made + interval
    → check_connection
        (clean_connection_id (add_connection uts cid raddr made) interval now)
        cid
        raddr
      ≡ true
unfolding check_connection clean_connection_id add_connection
check_connection-clean uts cid raddr made now interval h =
    let w : WrappedPeerAddr = record { addr = raddr; time = made } in
    let old : ltb interval (now - made) ≡ false = ground arith in
    let put : lookup cid (insert cid w uts.conns) ≡ some w =
      lookup-insert cid cid w uts.conns ∙ rw (==_refl cid) refl in
    rw
      (
        check_connection,
        clean_connection_id,
        add_connection,
        lookup-delete_if_kept (λ wa. ltb interval (now - wa.time)) cid w (insert cid w uts.conns)
            put old,
        ==_refl raddr.port,
        bytes_beq_refl raddr.ip,
      )
      refl
