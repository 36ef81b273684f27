-- ===== src/Dht/Search.antt =====
-- The search of dht/dht_server.go: the queries that `GetPeers` and `FindNode` begin with, and those
-- that a response leads to. What `request` does with a query is left out. The texts of an address and
-- the test for IPv6 are given by `view`.
pub mod Descent
pub mod Chain
use go_bt.Prelude.{
  ℕ, zero, suc, ◌-◌, Bool, true, false, not, ◌&&◌, ◌||◌, Option, none, some, List, [], ◌∷◌, ◌++◌,
  map, length, Bytes, leb, ◌==◌, bytes_beq, if◌then◌else◌,
}
use go_bt.Dht.Node.{Hash, Addr, Node}
use go_bt.Dht.Bucket.{
  Added, node_added, node_not_added, node_exist_and_updated, node_exist_and_changed,
}
use go_bt.Dht.Table.{table_closest}
use go_bt.Dht.PeerManager.{Peers, set_peer}
use go_bt.Dht.Server.{Server, Sender, is_zero, server_add}

-- A `transaction` of a search: the query to `addr` for `target`, with its depth and the nodes visited.
pub record Search : Type 0 where
  pub addr : Addr
  pub target : Hash
  pub depth : ℕ
  pub visited : List Hash

-- The response `m.R`, with the flag `m.RO`.
pub record Response : Type 0 where
  pub id : Hash
  pub ro : Bool
  pub token : Bytes
  pub values : List Bytes
  pub nodes : List Node
  pub nodes6 : List Node

-- `Hashes.Contains`.
unfoldable pub contains_hash : List Hash → Hash → Bool
contains_hash [] h = false
contains_hash (g ∷ hs) h = bytes_beq h g || contains_hash hs h

-- `addNode2(node, ro)`.
unfoldable pub add_node2 : (Addr → Sender) → ℕ → Server → Node → Bool → Option (Server × Added)
add_node2 view now s node ro =
    if ro then some (s, node_not_added) else server_add s (view node.addr) node.id now

-- The variables of the loops over the nodes of a response.
pub record Found : Type 0 where
  pub found : Bool
  pub ids : List Hash
  pub nodes : List Node

abbrev pub is_added : Added → Bool
is_added node_added = true
is_added _ = false

-- A round of a loop.
unfoldable pub see_node :
    (Addr → Sender) → ℕ → Bool → Hash → Server × Found → Node → Option (Server × Found)
see_node view now ro target (s, f) node =
    let seen = record f { found = f.found || bytes_beq node.id target } in
    if contains_hash f.ids node.id then some (s, seen) else elim (add_node2 view now s node ro) [
      | none ↦ none
      | some r ↦ some (
        r.0,
        if is_added r.1
            then record seen { ids = f.ids ++ (node.id ∷ []); nodes = f.nodes ++ (node ∷ []) }
            else seen,
      )
    ]

unfoldable pub see_nodes :
    (Addr → Sender) → ℕ → Bool → Hash → Server × Found → List Node → Option (Server × Found)
see_nodes view now ro target st [] = some st
see_nodes view now ro target st (node ∷ nodes) = elim (see_node view now ro target st node) [
  | none ↦ none
  | some next ↦ see_nodes view now ro target next nodes
]

-- Both loops of a response, one after the other.
unfoldable pub gather : (Addr → Sender) → ℕ → Server → Search → Response → Option (Server × Found)
gather view now s t m =
    let start : Found = record { found = false; ids = t.visited; nodes = [] } in
    elim (see_nodes view now m.ro t.target (s, start) m.nodes) [
      | none ↦ none
      | some st ↦ see_nodes view now m.ro t.target st m.nodes6
    ]

-- `getPeers(info, addr, depth, ids)` and `findNode(target, addr, depth, ids)`, which does not set the
-- depth of its transaction.
unfoldable pub get_peers_query : Hash → ℕ → List Hash → Node → Search
get_peers_query info depth ids node = record {
  addr = node.addr;
  target = info;
  depth = depth;
  visited = ids;
}

unfoldable pub find_node_query : Hash → ℕ → List Hash → Addr → Search
find_node_query target depth ids addr = record {
  addr = addr;
  target = target;
  depth = 0;
  visited = ids;
}

-- What a response does: the states after it, the peers that the callback is given, and the queries
-- that follow.
pub record Followed : Type 0 where
  pub server : Server
  pub peers : Peers
  pub given : List Bytes
  pub queries : List Search

-- `onGetPeersResp(t, a, m)`. A panic is `none`.
unfoldable pub on_get_peers_resp :
    (Addr → Sender) → ℕ → Server → Peers → Search → Addr → Response → Option Followed
on_get_peers_resp view now s peers t a m =
    let kept =
      if length m.token == 0
      then peers
      else set_peer peers m.id (view a).text (view a).is_ipv6 m.token now in
    let stop : List Bytes → Server → Followed =
      λ given after. record { server = after; peers = kept; given = given; queries = [] } in
    if not (length m.values == 0)
    then some (stop m.values s)
    else if leb t.depth 1
    then some (stop [] s)
    else elim (gather view now s t m) [
      | none ↦ none
      | some r ↦
          if r.1.found
          then some (stop [] r.0)
          else some (record (stop [] r.0) {
            queries = map (get_peers_query t.target (t.depth - 1) r.1.ids) r.1.nodes;
          })
    ]

-- `onFindNodeResp(t, _, m)`.
unfoldable pub on_find_node_resp :
    (Addr → Sender) → ℕ → Server → Search → Response → Option (Server × List Search)
on_find_node_resp view now s t m =
    if leb t.depth 1 then some (s, []) else elim (gather view now s t m) [
      | none ↦ none
      | some r ↦
          if r.1.found
          then some (r.0, [])
          else some (
            r.0,
            map (λ node. find_node_query t.target (t.depth - 1) r.1.ids node.addr) r.1.nodes,
          )
    ]

-- The nodes that `GetPeers` begins with, of both tables.
unfoldable pub first_nodes : Server → Hash → ℕ → List Node
first_nodes s infohash k =
    (if s.ipv4 then table_closest s.table4 infohash k else [])
    ++ (if s.ipv6 then table_closest s.table6 infohash k else [])

abbrev pub ids_of : List Node → List Hash
ids_of nodes = map (λ (n : Node). n.id) nodes

-- `GetPeers(infohash)`: the queries, where none at all means that the callback is called at once. A
-- zero infohash panics, `none`.
unfoldable pub get_peers_search : Server → Hash → ℕ → ℕ → Option (List Search)
get_peers_search s infohash k search_depth =
    let nodes = first_nodes s infohash k in
    let queries = map (get_peers_query infohash search_depth (ids_of nodes)) nodes in
    if is_zero infohash then none else some queries

-- `FindNode(addr, target)`. A zero target panics, `none`.
unfoldable pub find_node_search : Hash → Addr → ℕ → Option Search
find_node_search target addr search_depth =
    if is_zero target then none else some (find_node_query target search_depth [] addr)
