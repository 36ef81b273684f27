-- ===== src/Dht/Query.antt =====
-- How the DHT server answers queries (`handleQuery` of dht/dht_server.go). The peers are those of the
-- manager that is the default. What `reply` and `sendError` send is given as a value.
pub mod Tokens
use go_bt.Prelude.{
  ℕ, Bool, true, false, not, ◌&&◌, List, [], ◌∷◌, ◌++◌, Bytes, length, ◌==◌, if◌then◌else◌,
}
use go_bt.Dht.Node.{Hash, Node}
use go_bt.Dht.Table.{Table, table_closest}
use go_bt.Dht.Token.{TokenManager, token as new_token, check}
use go_bt.Dht.PeerManager.{Peers, get_peers as stored_peers}
use go_bt.Dht.Server.{Sender}

-- `Server` with what the answers read and write.
pub record Answering : Type 0 where
  pub k : ℕ
  pub table4 : Table
  pub table6 : Table
  pub tokens : TokenManager
  pub peers : Peers

-- The field `Q`.
pub data Method : Type 0 where
  ping find_node get_peers announce_peer other_method : Method

-- `krpc.Message` of a query: `A.Target`, `A.InfoHash`, `A.ContainsWant` of `WantNodes` and of
-- `WantNodes6`, and `A.Token`.
pub record Query : Type 0 where
  pub method : Method
  pub target : Hash
  pub info_hash : Hash
  pub want4 : Bool
  pub want6 : Bool
  pub token : Bytes

-- `krpc.ResponseResult`.
pub record ResponseResult : Type 0 where
  pub nodes : List Node
  pub nodes6 : List Node
  pub values : List Bytes
  pub token : Bytes

-- What is sent.
pub data Answer : Type 0 where
  no_answer : Answer
  reply : ResponseResult → Answer
  send_error : ℕ → Answer

abbrev pub error_code_method_unknown : ℕ
error_code_method_unknown = 204

abbrev pub empty_result : ResponseResult
empty_result = record { nodes = []; nodes6 = []; values = []; token = [] }

-- The closest nodes: of the tables that are wanted, or of the one of the sender's address.
unfoldable pub closest_result : Answering → Sender → Query → ResponseResult
closest_result s raddr m =
    let r4 = table_closest s.table4 m.info_hash s.k in
    let r6 = table_closest s.table6 m.info_hash s.k in
    if not m.want4 && not m.want6
    then (if raddr.is_ipv6
        then record empty_result { nodes6 = r6 }
        else record empty_result { nodes = r4 })
    else record empty_result {
      nodes = if m.want4 then r4 else [];
      nodes6 = if m.want6 then r6 else [];
    }

-- The peers that are stored for the torrent.
unfoldable pub peer_values : Answering → Sender → Query → List Bytes
peer_values s raddr m =
    let of_family = λ (ipv6 : Bool). stored_peers s.peers m.info_hash s.k ipv6 in
    if not m.want4 && not m.want6
    then of_family raddr.is_ipv6
    else (if m.want4 then of_family false else []) ++ (if m.want6 then of_family true else [])

-- `handleQuery(raddr, m)`.
unfoldable pub handle_query : Answering → Sender → Query → ℕ → Answering × Answer
handle_query s raddr m now = elim m.method [
  | ping ↦ (s, reply empty_result)
  | find_node ↦ (s, reply (closest_result s raddr m))
  | get_peers ↦
      let values = peer_values s raddr m in
      let result =
        if length values == 0
        then closest_result s raddr m
        else record empty_result { values = values } in
      let (tokens, given) = new_token s.tokens raddr.text now in
      (record s { tokens = tokens }, reply (record result { token = given }))
  | announce_peer ↦
      if check s.tokens raddr.text m.token then (s, no_answer) else (s, reply empty_result)
  | other_method ↦ (s, send_error error_code_method_unknown)
]
