-- ===== src/Krpc/Addr/RoundTrip.antt =====
-- What the compact addresses of krpc/addr.go keep and lose.
use go_bt.Prelude.{
  ◌+◌, ◌≡◌, ◌⊎◌, inl, inr, refl, Bool, true, false, ◌||◌, Bool-cases, none, some, List, [], ◌∷◌,
  length, Bytes, IsU16, ◌==◌, if◌then◌else◌, arith,
}
use go_bt.Prelude.Ip.{to4, length-to4}
use go_bt.Dht.Node.{Addr}
use go_bt.Metainfo.Addr.{
  CompactAddr, write_addr as write_compact, unmarshal_addr as unmarshal_compact,
}
use go_bt.Metainfo.Addr.RoundTrip.{
  length-write_addr as length-write_compact, unmarshal-write_addr as unmarshal-write_compact,
}
use go_bt.Krpc.Addr.{write_addr, unmarshal_addr, marshal_by, marshal_v6}

-- The same address as `metainfo.CompactAddr`, whose code is the same.
abbrev compact : Addr → CompactAddr
compact a = record { ip = a.ip; port = a.port }

abbrev of_compact : CompactAddr → Addr
of_compact a = record { ip = a.ip; port = a.port }

pub length-write_addr : (a : Addr) → length (write_addr a) ≡ length a.ip + 2
unfolding write_addr write_compact
length-write_addr a = length-write_compact (compact a)

unmarshal-compact :
    (b : Bytes) (a : CompactAddr)
    → unmarshal_compact b ≡ some a
    → unmarshal_addr b ≡ some (of_compact a)
unfolding unmarshal_addr unmarshal_compact
unmarshal-compact b a e = ground arith

-- An address of 4 or 16 bytes, with its port, is read back from its compact form.
pub unmarshal-write_addr :
    (a : Addr)
    → (length a.ip ≡ 4) ⊎ (length a.ip ≡ 16)
    → IsU16 a.port
    → unmarshal_addr (write_addr a) ≡ some a
unfolding write_addr write_compact
unmarshal-write_addr a h p =
    unmarshal-compact (write_addr a) (compact a) (unmarshal-write_compact (compact a) h p)

-- An address that has an IPv4 form.
abbrev pub has_v4 : Addr → Bool
has_v4 a = if length (to4 a.ip) == 0 then false else true

abbrev pub any_v4 : List Addr → Bool
any_v4 [] = false
any_v4 (a ∷ cas) = has_v4 a || any_v4 cas

-- `CompactIPv6Addrs.MarshalBinary` never writes an address: it passes over every address that has no
-- IPv4 form, the ones it is meant for, and panics on every other.
pub marshal_v6-lem : (cas : List Addr) → marshal_v6 cas ≡ (if any_v4 cas then none else some [])
unfolding marshal_v6 marshal_by
marshal_v6-lem [] = refl
marshal_v6-lem (a ∷ cas) = elim (Bool-cases (length (to4 a.ip) == 0)) [
  | inl e ↦ ground (arith, marshal_v6-lem cas)
  | inr e ↦
      let four = length-to4 a.ip e in
      let six = length-write_addr (record a { ip = to4 a.ip }) in ground arith
]
