-- ===== src/Krpc/Node.antt =====
-- The compact nodes of krpc/node.go: an identifier and an address.
pub mod RoundTrip
use go_bt.Prelude.{
  ℕ, ◌-◌, ◌%◌, ◌/◌, Bool, true, false, Option, none, some, List, [], ◌∷◌, ◌++◌, length, take, drop,
  Bytes, ltb, ◌==◌, if◌then◌else◌,
}
use go_bt.Prelude.Chunks.{read_chunks}
use go_bt.Prelude.Ip.{to4, to16}
use go_bt.Dht.Node.{Addr, Node}
use go_bt.Krpc.Addr.{write_addr, unmarshal_addr}

-- `WriteBinary` and `MarshalBinary`: what is written.
unfoldable pub write_node : Node → Bytes
write_node n = n.id ++ write_addr n.addr

-- `UnmarshalBinary(b)`; an error is `none`.
unfoldable pub unmarshal_node : Bytes → Option Node
unmarshal_node b = if ltb (length b) 26 then none else elim (unmarshal_addr (drop 20 b)) [
  | none ↦ none
  | some a ↦ some (record { id = take 20 b; addr = a })
]

abbrev pub with_ip : Node → Bytes → Node
with_ip n ip = record n { addr = record { ip = ip; port = n.addr.port } }

-- The loop of `CompactIPv4Nodes.MarshalBinary`: a node that has no IPv4 form is passed over. Another
-- length than 26 panics, shown as `none`.
unfoldable pub marshal_nodes4 : List Node → Option Bytes
marshal_nodes4 [] = some []
marshal_nodes4 (n ∷ cns) =
    let rest = marshal_nodes4 cns in
    let written = write_node (with_ip n (to4 n.addr.ip)) in
    if length (to4 n.addr.ip) == 0
    then rest
    else if length written == 26
    then elim rest [ none ↦ none | some more ↦ some (written ++ more) ]
    else none

-- `CompactIPv6Nodes.MarshalBinary`.
unfoldable pub marshal_nodes6 : List Node → Option Bytes
marshal_nodes6 [] = some []
marshal_nodes6 (n ∷ cns) =
    let rest = marshal_nodes6 cns in
    let written = write_node (with_ip n (to16 n.addr.ip)) in
    if length written == 38
    then elim rest [ none ↦ none | some more ↦ some (written ++ more) ]
    else none

-- `CompactIPv4Nodes.UnmarshalBinary(b)` and `CompactIPv6Nodes.UnmarshalBinary(b)`.
unfoldable pub unmarshal_nodes4 : Bytes → Option (List Node)
unmarshal_nodes4 b =
    if length b % 26 == 0 then read_chunks unmarshal_node 26 (length b / 26) b else none

unfoldable pub unmarshal_nodes6 : Bytes → Option (List Node)
unmarshal_nodes6 b =
    if length b % 38 == 0 then read_chunks unmarshal_node 38 (length b / 38) b else none
