-- ===== src/Dht/Server.antt =====
-- How the DHT server (dht/dht_server.go) takes in a packet: which packets it drops, how it learns of
-- the sender, and what it does next. Sockets, logging and the answers to queries are left out. The
-- configured blacklist is the one in memory.
pub mod Incoming
pub mod Dispatch
use mathlib.Core.Option
use go_bt.Prelude.{
  ℕ, Bool, true, false, not, ◌&&◌, Option, none, some, [], ◌∷◌, Bytes, length, ◌==◌, bytes_beq,
  if◌then◌else◌,
}
use go_bt.Dht.Node.{Hash, Addr, Node}
use go_bt.Dht.Bucket.{Added, node_not_added, node_exist_and_changed}
use go_bt.Dht.Table.{Table, table_add_node}
use go_bt.Dht.Blacklist.{Blacklist, is_in, add}
use go_bt.Dht.Transaction.{Transaction, TransactionManager, pop_transaction}

-- `Server` with what the handling of a packet reads and writes.
pub record Server : Type 0 where
  pub ipv4 : Bool
  pub ipv6 : Bool
  pub read_only : Bool
  pub table4 : Table
  pub table6 : Table
  pub blacklist : Blacklist
  pub transactions : TransactionManager

-- The sender's address, whether `isIPv6` holds of it, and its texts `IP.String()` and `String()`.
pub record Sender : Type 0 where
  pub addr : Addr
  pub is_ipv6 : Bool
  pub ip_text : Bytes
  pub text : Bytes

-- The field `Y`: "q", "r", "e" or another text.
pub data Kind : Type 0 where
  query_kind response_kind error_kind other_kind : Kind

-- `krpc.Message` with the transaction, the read-only flag and the two identifiers.
pub record KrpcMessage : Type 0 where
  pub kind : Kind
  pub t : Bytes
  pub ro : Bool
  pub query_id : Hash
  pub response_id : Hash

-- What the server does last.
pub data Reaction : Type 0 where
  drops : Reaction
  handles_query : Reaction
  hands_response hands_error : Transaction → Reaction

abbrev pub is_zero : Hash → Bool
is_zero id =
    bytes_beq id
      (0 ∷ 0 ∷ 0 ∷ 0 ∷ 0 ∷ 0 ∷ 0 ∷ 0 ∷ 0 ∷ 0 ∷ 0 ∷ 0 ∷ 0 ∷ 0 ∷ 0 ∷ 0 ∷ 0 ∷ 0 ∷ 0 ∷ 0 ∷ [])

abbrev pub is_changed : Added → Bool
is_changed node_exist_and_changed = true
is_changed _ = false

abbrev pub put4 : Server → Table × Added → Server × Added
put4 s r = (record s { table4 = r.0 }, r.1)

abbrev pub put6 : Server → Table × Added → Server × Added
put6 s r = (record s { table6 = r.0 }, r.1)

-- `AddNode(node)`. A panic is `none`.
unfoldable pub server_add : Server → Sender → Hash → ℕ → Option (Server × Added)
server_add s from id now =
    let node : Node = record { id = id; addr = from.addr } in
    if from.is_ipv6
    then if s.ipv6
      then Option.map (put6 s) (table_add_node s.table6 node now)
      else some (s, node_not_added)
    else if s.ipv4
    then Option.map (put4 s) (table_add_node s.table4 node now)
    else some (s, node_not_added)

abbrev pub punish : Sender → ℕ → Server × Added → Server × Added
punish from now (s, a) =
    if is_changed a
    then (record s { blacklist = add s.blacklist from.ip_text from.addr.port now }, a)
    else (s, a)

-- `addNode(kaddr, id, ro)`.
unfoldable pub add_sender : Server → Sender → Hash → Bool → ℕ → Option (Server × Added)
add_sender s from id ro now =
    if ro then some (s, node_not_added) else Option.map (punish from now) (server_add s from id now)

-- `PopTransaction` and the callback that gets the transaction, if there is one.
unfoldable pub pop_for : (Transaction → Reaction) → Server → Sender → Bytes → Server × Reaction
pop_for react s from t =
    let r = pop_transaction s.transactions t from.text in
    (record s { transactions = r.0 }, elim r.1 [ none ↦ drops | some found ↦ react found ])

abbrev pub after_query : Server × Added → Server × Reaction
after_query (s, a) = (s, if not (is_changed a) && not s.read_only then handles_query else drops)

abbrev pub after_response : Sender → Bytes → Server × Added → Server × Reaction
after_response from t (s, a) = if is_changed a then (s, drops) else pop_for hands_response s from t

-- `handleMessage(kaddr, m)` up to the call of `handleQuery` or of the transaction's callback. `handled`
-- is what the callback `HandleInMessage` returns, which leaves the message as it is.
unfoldable pub handle_message :
    Bool → Server → Sender → KrpcMessage → ℕ → Option (Server × Reaction)
handle_message handled s from m now =
    let query = Option.map after_query (add_sender s from m.query_id m.ro now) in
    let response =
      Option.map (after_response from m.t) (add_sender s from m.response_id m.ro now) in
    if handled then some (s, drops) else elim m.kind [
      | query_kind ↦ if is_zero m.query_id then some (s, drops) else query
      | response_kind ↦ if is_zero m.response_id then some (s, drops) else response
      | error_kind ↦ some (pop_for hands_error s from m.t)
      | other_kind ↦ some (s, drops)
    ]

-- `isDisabled(raddr)`.
unfoldable pub is_disabled : Server → Sender → Bool
is_disabled s from =
    if length from.addr.ip == 0 then false else if from.is_ipv6 then not s.ipv6 else not s.ipv4

-- `handlePacket`, where `decoded` is what `bencode.DecodeBytes` makes of the data. `handleMessage`,
-- which runs in a goroutine of its own, runs here before the next packet.
unfoldable pub handle_packet :
    Bool → Server → Sender → Option KrpcMessage → ℕ → Option (Server × Reaction)
handle_packet handled s from decoded now =
    if is_disabled s from
    then some (s, drops)
    else if is_in s.blacklist from.ip_text from.addr.port
    then some (s, drops)
    else elim decoded [
      | none ↦ some (s, drops)
      | some m ↦ if length m.t == 0 then some (s, drops) else handle_message handled s from m now
    ]
