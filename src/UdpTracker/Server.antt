-- ===== src/UdpTracker/Server.antt =====
-- The UDP tracker's server (tracker/udptracker/udp_server.go). The handler is the user's: a record of
-- what it returns. A `none` of a whole packet is a panic, which nothing in the server recovers.
pub mod Connections
pub mod Panics
use go_bt.Prelude.{
  ℕ, suc, ◌+◌, ◌-◌, ◌%◌, ◌^◌, ◌⊎◌, inl, inr, Bool, true, false, not, ◌&&◌, Option, none, some, List,
  [], ◌∷◌, ◌++◌, length, take, drop, Bytes, be32, be64, of_be, ltb, ◌==◌, bytes_beq, ℕ_eq,
  if◌then◌else◌,
}
use go_bt.Prelude.Map.{Map, lookup, insert, delete_if}
use go_bt.Prelude.Ip.{to4}
use go_bt.Prelude.Slices.{slice}
use go_bt.UdpTracker.Announce.{
  protocol_id, action_connect, action_announce, action_scrape, action_error, AnnounceRequest,
  AnnounceResponse, decode_request, encode_response,
}
use go_bt.UdpTracker.Scrape.{ScrapeResponse, encode_scrapes, decode_hashes}

-- The `net.UDPAddr` of a client.
pub record UdpAddr : Type 0 where
  pub ip : Bytes
  pub port : ℕ

-- `ServerHandler`: what its methods return; an error is its text.
pub record ServerHandler : Type 0 where
  pub on_connect : UdpAddr → Option Bytes
  pub on_announce : UdpAddr → AnnounceRequest → Bytes ⊎ AnnounceResponse
  pub on_scrap : UdpAddr → List Bytes → Bytes ⊎ List ScrapeResponse

pub record WrappedPeerAddr : Type 0 where
  pub addr : UdpAddr
  pub time : ℕ

-- `Server`, with the size of the buffers it reads into.
pub record Server : Type 0 where
  pub buf_size : ℕ
  pub cid : ℕ
  pub conns : Map ℕ WrappedPeerAddr

abbrev pub max_buf_size : ℕ
max_buf_size = 2048

-- `NewServer(c, h, bufSize)`; a size that is not positive is 0 here.
abbrev pub new_server : ℕ → Server
new_server size = record {
  buf_size = if size == 0 then max_buf_size else size;
  cid = 0;
  conns = [];
}

-- A round of `cleanConnectionID(interval)`.
unfoldable pub clean_connection_id : Server → ℕ → ℕ → Server
clean_connection_id uts interval now = record uts {
  conns = delete_if (λ (wa : WrappedPeerAddr). ltb interval (now - wa.time)) uts.conns;
}

-- `getConnectionID()`: the count wraps around.
unfoldable pub get_connection_id : Server → Server × ℕ
get_connection_id uts = let cid = (uts.cid + 1) % 2 ^ 64 in (record uts { cid = cid }, cid)

-- `addConnection(cid, raddr)`.
unfoldable pub add_connection : Server → ℕ → UdpAddr → ℕ → Server
add_connection uts cid raddr now = record uts {
  conns = insert cid (record { addr = raddr; time = now }) uts.conns;
}

-- `checkConnection(cid, raddr)`.
unfoldable pub check_connection : Server → ℕ → UdpAddr → Bool
check_connection uts cid raddr = elim (lookup cid uts.conns) [
  | none ↦ false
  | some w ↦ w.addr.port == raddr.port && bytes_beq w.addr.ip raddr.ip
]

-- `encodeResponseHeader(buf, action, tid)` before what follows.
unfoldable pub response : ℕ → ℕ → Bytes → Bytes
response action tid rest = be32 action ++ (be32 tid ++ rest)

-- What `sendError`, `sendConnResp`, `sendAnnounceResp` and `sendScrapResp` send.
unfoldable pub error_packet : ℕ → Bytes → Bytes
error_packet tid reason = response action_error tid reason

unfoldable pub conn_packet : ℕ → ℕ → Bytes
conn_packet tid cid = response action_connect tid (be64 cid)

-- `raddr.IP.To4() != nil`.
unfoldable pub is_v4 : UdpAddr → Bool
is_v4 raddr = not (length (to4 raddr.ip) == 0)

unfoldable pub announce_packet : UdpAddr → ℕ → AnnounceResponse → Option Bytes
announce_packet raddr tid resp = elim (encode_response resp (is_v4 raddr)) [
  | none ↦ none
  | some b ↦ some (response action_announce tid b)
]

unfoldable pub scrap_packet : ℕ → List ScrapeResponse → Bytes
scrap_packet tid rs = response action_scrape tid (encode_scrapes rs)

-- "invalid announce request"
abbrev pub invalid_announce : Bytes
invalid_announce =
    105 ∷ 110 ∷ 118 ∷ 97 ∷ 108 ∷ 105 ∷ 100 ∷ 32 ∷ 97 ∷ 110 ∷ 110 ∷ 111 ∷ 117 ∷ 110 ∷ 99 ∷ 101 ∷ 32
    ∷ 114 ∷ 101 ∷ 113 ∷ 117 ∷ 101 ∷ 115 ∷ 116 ∷ []

-- "connection is expired"
abbrev pub connection_expired : Bytes
connection_expired =
    99 ∷ 111 ∷ 110 ∷ 110 ∷ 101 ∷ 99 ∷ 116 ∷ 105 ∷ 111 ∷ 110 ∷ 32 ∷ 105 ∷ 115 ∷ 32 ∷ 101 ∷ 120 ∷ 112
    ∷ 105 ∷ 114 ∷ 101 ∷ 100 ∷ []

-- "no infohash"
abbrev pub no_infohash : Bytes
no_infohash = 110 ∷ 111 ∷ 32 ∷ 105 ∷ 110 ∷ 102 ∷ 111 ∷ 104 ∷ 97 ∷ 115 ∷ 104 ∷ []

-- "unkwnown action"
abbrev pub unknown_action : Bytes
unknown_action =
    117 ∷ 110 ∷ 107 ∷ 119 ∷ 110 ∷ 111 ∷ 119 ∷ 110 ∷ 32 ∷ 97 ∷ 99 ∷ 116 ∷ 105 ∷ 111 ∷ 110 ∷ []

-- The case `ActionAnnounce` of `handlePacket`: the packet that is sent.
unfoldable pub handle_announce : ServerHandler → UdpAddr → ℕ → Bytes → Option Bytes
handle_announce handler raddr tid b =
    if ltb (length b) (if is_v4 raddr then 82 else 94)
    then some (error_packet tid invalid_announce)
    else elim (decode_request b) [
      | none ↦ none
      | some req ↦ elim (handler.on_announce raddr req) [
        | inl reason ↦ some (error_packet tid reason)
        | inr resp ↦ announce_packet raddr tid resp
      ]
    ]

-- The case `ActionScrape`.
unfoldable pub handle_scrape : ServerHandler → UdpAddr → ℕ → Bytes → Option Bytes
handle_scrape handler raddr tid b = elim (decode_hashes b) [
  | none ↦ none
  | some infohashes ↦
      if length infohashes == 0
      then some (error_packet tid no_infohash)
      else elim (handler.on_scrap raddr infohashes) [
        | inl reason ↦ some (error_packet tid reason)
        | inr resps ↦ some (scrap_packet tid resps)
      ]
]

-- The connection request.
unfoldable pub handle_connect : ServerHandler → UdpAddr → ℕ → Server → ℕ → Server × Bytes
handle_connect handler raddr now uts tid = elim (handler.on_connect raddr) [
  | some reason ↦ (uts, error_packet tid reason)
  | none ↦
      let (counted, cid) = get_connection_id uts in
      (add_connection counted cid raddr now, conn_packet tid cid)
]

-- What is done of a packet once the client is connected.
unfoldable pub handle_action : ServerHandler → UdpAddr → ℕ → ℕ → Bytes → Option Bytes
handle_action handler raddr action tid b =
    if action == action_announce
    then handle_announce handler raddr tid b
    else if action == action_scrape
    then handle_scrape handler raddr tid b
    else some (error_packet tid unknown_action)

-- `handlePacket(raddr, b)` of sixteen bytes at least: the state after it and the packet it sends.
unfoldable pub handle_packet :
    ServerHandler → UdpAddr → ℕ → Server → Bytes → Option (Server × Bytes)
handle_packet handler raddr now uts b =
    let cid = of_be (slice 0 8 b) in
    let action = of_be (slice 8 12 b) in
    let tid = of_be (slice 12 16 b) in
    if cid == protocol_id && action == action_connect
    then some (handle_connect handler raddr now uts tid)
    else if not (check_connection uts cid raddr)
    then some (uts, error_packet tid connection_expired)
    else elim (handle_action handler raddr action tid (drop 16 b)) [
      | none ↦ none
      | some sent ↦ some (uts, sent)
    ]

-- A round of the loop of `Run`: a packet is cut to the buffer, and one of fewer than 16 bytes gets no
-- answer.
unfoldable pub receive :
    ServerHandler → UdpAddr → ℕ → Server → Bytes → Option (Server × Option Bytes)
receive handler raddr now uts b =
    let got = take uts.buf_size b in
    if ltb (length got) 16
    then some (uts, none)
    else elim (handle_packet handler raddr now uts got) [
      | none ↦ none
      | some (after, sent) ↦ some (after, some sent)
    ]
