-- ===== src/Dht/Node.antt =====
-- The nodes that the routing table stores: `krpc.Node`, `krpc.Addr` and `metainfo.Hash`.
use go_bt.Prelude.{ℕ, ◌≡◌, Bool, ◌&&◌, length, Bytes, All, IsByte, ◌==◌, bytes_beq}

-- `metainfo.Hash` is `[20]byte`.
abbrev pub Hash : Type 0
Hash = Bytes

pub record IsHash (h : Hash) : Type 0 where
  pub size : length h ≡ 20
  pub bytes : All IsByte h

-- The address without the original network address, which the table does not read. `IP` is held in
-- the form that `net.IP.Equal` compares, so that equal addresses have equal bytes.
pub record Addr : Type 0 where
  pub ip : Bytes
  pub port : ℕ

-- `Addr.Equal`.
unfoldable pub addr_equal : Addr → Addr → Bool
addr_equal a o = a.port == o.port && bytes_beq a.ip o.ip

pub record Node : Type 0 where
  pub id : Hash
  pub addr : Addr
