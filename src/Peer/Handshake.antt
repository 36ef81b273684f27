-- ===== src/Peer/Handshake.antt =====
-- The exchange of the first 68 bytes (peerprotocol/handshake.go), over a socket whose writing succeeds:
-- the argument is what the socket gives to read, the result what is written.
pub mod Meeting
use go_bt.Prelude.{
  ℕ, Bool, true, false, not, Option, none, some, List, [], ◌∷◌, ◌++◌, Bytes, length as len, ltb,
  bytes_beq, if◌then◌else◌,
}
use go_bt.Prelude.Slices.{slice}
use go_bt.Peer.Conn.{PeerConn, HandshakeMsg, HandshakeError, zero_hash, handshake}

-- `ProtocolHeader`: the byte 19 and "BitTorrent protocol".
abbrev pub protocol_header : Bytes
protocol_header =
    19 ∷ 66 ∷ 105 ∷ 116 ∷ 84 ∷ 111 ∷ 114 ∷ 114 ∷ 101 ∷ 110 ∷ 116 ∷ 32 ∷ 112 ∷ 114 ∷ 111 ∷ 116 ∷ 111
    ∷ 99 ∷ 111 ∷ 108 ∷ []

-- What `Handshake` writes.
unfoldable pub handshake_bytes : HandshakeMsg → Bytes
handshake_bytes msg = protocol_header ++ (msg.extension_bits ++ (msg.info_hash ++ msg.peer_id))

-- `getPeerHandshakeMsg`; an error is `none`.
unfoldable pub get_peer_handshake_msg : Bytes → Option HandshakeMsg
get_peer_handshake_msg b =
    if ltb (len b) 68
    then none
    else if not (bytes_beq (slice 0 20 b) protocol_header)
    then none
    else some (record {
      extension_bits = slice 20 28 b;
      info_hash = slice 28 48 b;
      peer_id = slice 48 68 b;
    })

-- `Handshake(sock, msg)` of the package: what is written, and the peer's message.
unfoldable pub exchange : Bytes → HandshakeMsg → Bytes × Option HandshakeMsg
exchange b msg =
    let met = get_peer_handshake_msg b in
    if bytes_beq msg.info_hash zero_hash
    then elim met [
      | none ↦ ([], none)
      | some ret ↦ (handshake_bytes (record msg { info_hash = ret.info_hash }), some ret)
    ]
    else (handshake_bytes msg, met)

-- The message of `PeerConn.Handshake`, and the whole of it.
abbrev pub own_message : PeerConn → HandshakeMsg
own_message pc = record { extension_bits = pc.ext_bits; peer_id = pc.id; info_hash = pc.info_hash }

unfoldable pub handshake_over : Bytes → PeerConn → Bytes × (PeerConn × Option HandshakeError)
handshake_over b pc = let (sent, met) = exchange b (own_message pc) in (sent, handshake pc met)
