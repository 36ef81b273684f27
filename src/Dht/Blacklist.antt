-- ===== src/Dht/Blacklist.antt =====
-- The blacklist of dht/blacklist.go. A key is what `addr.IP.String()` gives. A nil map of ports is
-- the empty one: the code tells them apart only to make a map before it stores into it.
pub mod Membership
use go_bt.Prelude.{
  ℕ, ◌-◌, Bool, true, false, ◌||◌, ◌&&◌, Option, none, some, List, [], ◌∷◌, length, Bytes, leb, ltb,
  ◌==◌, Bytes_eq, ℕ_eq, if◌then◌else◌,
}
use go_bt.Prelude.Map.{Map, lookup, insert, delete, delete_if}

pub record WrappedPort : Type 0 where
  pub time : ℕ
  pub enable : Bool
  pub ports : Map ℕ Unit

-- `blacklist` without its lock and channel.
pub record Blacklist : Type 0 where
  pub ips : Map Bytes WrappedPort
  pub num : ℕ

-- `In(addr)`.
unfoldable pub is_in : Blacklist → Bytes → ℕ → Bool
is_in bl ip port = elim (lookup ip bl.ips) [
  | none ↦ false
  | some wp ↦
      if wp.enable then elim (lookup port wp.ports) [ none ↦ false | some _ ↦ true ] else true
]

-- What `Add` makes of the entry of its address.
unfoldable pub add_port : WrappedPort → ℕ → ℕ → WrappedPort
add_port wp port now =
    if ltb port 1
    then record { time = now; enable = false; ports = [] }
    else record { time = now; enable = wp.enable; ports = insert port tt wp.ports }

abbrev pub fresh_port : WrappedPort
fresh_port = record { time = 0; enable = true; ports = [] }

unfoldable pub is_full : Blacklist → Bool
is_full bl = ltb 0 bl.num && leb bl.num (length bl.ips)

-- `Add(addr)` at the time `now`.
unfoldable pub add : Blacklist → Bytes → ℕ → ℕ → Blacklist
add bl ip port now = elim (lookup ip bl.ips) [
  | some wp ↦ record bl { ips = insert ip (add_port wp port now) bl.ips }
  | none ↦
      if is_full bl then bl else record bl { ips = insert ip (add_port fresh_port port now) bl.ips }
]

-- `Del(addr)` at the time `now`.
unfoldable pub del : Blacklist → Bytes → ℕ → ℕ → Blacklist
del bl ip port now =
    let dropped = record bl { ips = delete ip bl.ips } in
    elim (lookup ip bl.ips) [
      | none ↦ bl
      | some wp ↦
          if ltb port 1
          then dropped
          else if wp.enable
          then if ltb (length wp.ports) 2 then dropped else record bl {
            ips = insert ip (record wp { time = now; ports = delete port wp.ports }) bl.ips;
          }
          else bl
    ]

-- A tick of `loop(interval)` at the time `now`.
unfoldable pub expire : Blacklist → ℕ → ℕ → Blacklist
expire bl now interval = record bl { ips = delete_if (λ wp. ltb interval (now - wp.time)) bl.ips }
