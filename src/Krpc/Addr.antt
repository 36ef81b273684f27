-- ===== src/Krpc/Addr.antt =====
-- The compact addresses of krpc/addr.go.
pub mod RoundTrip
use go_bt.Prelude.{
  ℕ, ◌-◌, ◌%◌, ◌/◌, Bool, true, false, ◌||◌, Option, none, some, List, [], ◌∷◌, ◌++◌, length, take,
  drop, Bytes, be16, of_be, ◌==◌, if◌then◌else◌,
}
use go_bt.Prelude.Chunks.{read_chunks}
use go_bt.Prelude.Ip.{to4}
use go_bt.Dht.Node.{Addr}

-- `WriteBinary` and `MarshalBinary`: what is written.
unfoldable pub write_addr : Addr → Bytes
write_addr a = a.ip ++ be16 a.port

-- `UnmarshalBinary(data)`; an error is `none`.
unfoldable pub unmarshal_addr : Bytes → Option Addr
unmarshal_addr b =
    let size = length b - 2 in
    if size == 4 || size == 16
    then some (record { ip = take size b; port = of_be (drop size b) })
    else none

-- `CompactIPv4Addrs.MarshalBinary` and `CompactIPv6Addrs.MarshalBinary`, which differ in the number
-- of bytes that an address may have: another number panics, shown as `none`.
unfoldable pub marshal_by : ℕ → List Addr → Option Bytes
marshal_by size [] = some []
marshal_by size (a ∷ cas) =
    let rest = marshal_by size cas in
    let written = write_addr (record a { ip = to4 a.ip }) in
    if length (to4 a.ip) == 0
    then rest
    else if length written == size
    then elim rest [ none ↦ none | some more ↦ some (written ++ more) ]
    else none

unfoldable pub marshal_v4 : List Addr → Option Bytes
marshal_v4 cas = marshal_by 6 cas

unfoldable pub marshal_v6 : List Addr → Option Bytes
marshal_v6 cas = marshal_by 18 cas

unfoldable pub unmarshal_v4 : Bytes → Option (List Addr)
unmarshal_v4 b = if length b % 6 == 0 then read_chunks unmarshal_addr 6 (length b / 6) b else none

unfoldable pub unmarshal_v6 : Bytes → Option (List Addr)
unmarshal_v6 b =
    if length b % 18 == 0 then read_chunks unmarshal_addr 18 (length b / 18) b else none
