-- ===== src/Metainfo/Addr.antt =====
-- The compact addresses of metainfo/addr_compact.go. Writing into a `bytes.Buffer` does not fail.
pub mod RoundTrip
use go_bt.Prelude.{
  ℕ, ◌+◌, ◌-◌, ◌/◌, ◌%◌, Bool, true, false, ◌&&◌, ◌||◌, Option, none, some, List, [], ◌∷◌, ◌++◌,
  length, take, drop, Bytes, be16, of_be, ◌==◌, bytes_beq, if◌then◌else◌,
}
use go_bt.Prelude.Chunks.{read_chunks}
use go_bt.Prelude.Ip.{to4, to16}

pub record CompactAddr : Type 0 where
  pub ip : Bytes
  pub port : ℕ

-- `WriteBinary` and `MarshalBinary`: what is written.
unfoldable pub write_addr : CompactAddr → Bytes
write_addr a = a.ip ++ be16 a.port

-- `UnmarshalBinary(data)`; an error is `none`. Data of fewer than two bytes has a negative length
-- left, which is neither of the two.
unfoldable pub unmarshal_addr : Bytes → Option CompactAddr
unmarshal_addr b =
    let size = length b - 2 in
    if size == 4 || size == 16
    then some (record { ip = take size b; port = of_be (drop size b) })
    else none

-- The loop of `CompactIPv4Addrs.MarshalBinary`: an address that has no IPv4 form is passed over.
-- What is written has six bytes each, so that the panic is not met.
unfoldable pub marshal_v4 : List CompactAddr → Bytes
marshal_v4 [] = []
marshal_v4 (a ∷ cas) =
    let rest = marshal_v4 cas in
    let ip = to4 a.ip in if length ip == 0 then rest else write_addr (record a { ip = ip }) ++ rest

-- `CompactIPv6Addrs.MarshalBinary`: an address of another length panics, shown as `none`.
unfoldable pub marshal_v6 : List CompactAddr → Option Bytes
marshal_v6 [] = some []
marshal_v6 (a ∷ cas) =
    let rest = marshal_v6 cas in
    let written = write_addr (record a { ip = to16 a.ip }) in
    if length written == 18
    then elim rest [ none ↦ none | some more ↦ some (written ++ more) ]
    else none

-- `CompactIPv4Addrs.UnmarshalBinary(b)` and `CompactIPv6Addrs.UnmarshalBinary(b)`.
unfoldable pub unmarshal_v4 : Bytes → Option (List CompactAddr)
unmarshal_v4 b = if length b % 6 == 0 then read_chunks unmarshal_addr 6 (length b / 6) b else none

unfoldable pub unmarshal_v6 : Bytes → Option (List CompactAddr)
unmarshal_v6 b =
    if length b % 18 == 0 then read_chunks unmarshal_addr 18 (length b / 18) b else none
