-- ===== src/Dht/PeerManager.antt =====
-- The token-peer manager of dht/peer_manager.go. A key is what `addr.String()` gives, `now` what
-- `time.Now()` gives. A Go map is ranged over in an order that is not fixed; here it is the order of
-- the entries.
pub mod Peers
use go_bt.Prelude.{
  ℕ, zero, suc, ◌-◌, Bool, true, false, not, ◌&&◌, Option, none, some, List, [], ◌∷◌, length, Bytes,
  ltb, ◌==◌, Bytes_eq, if◌then◌else◌,
}
use go_bt.Prelude.Map.{Map, lookup, insert, delete_if}
use go_bt.Dht.Node.{Hash}

-- `peer`, with the text of its address and whether that is an IPv6 address (`isIPv6(addr.IP)`).
pub record Peer : Type 0 where
  pub addr : Bytes
  pub ipv6 : Bool
  pub token : Bytes
  pub time : ℕ

-- `peers` of `tokenPeerManager`.
abbrev pub Peers : Type 0
Peers = Map Hash (Map Bytes Peer)

-- `Set(id, addr, token)`.
unfoldable pub set_peer : Peers → Hash → Bytes → Bool → Bytes → ℕ → Peers
set_peer tpm id addr ipv6 token now =
    let new : Peer = record { addr = addr; ipv6 = ipv6; token = token; time = now } in
    elim (lookup id tpm) [
      | none ↦ insert id ((addr, new) ∷ []) tpm
      | some peers ↦ insert id (insert addr new peers) tpm
    ]

-- `Get(id, addr)`, with the empty token where there is none.
unfoldable pub get_token : Peers → Hash → Bytes → Bytes
get_token tpm id addr = elim (lookup id tpm) [
  | none ↦ []
  | some peers ↦ elim (lookup addr peers) [ none ↦ [] | some p ↦ p.token ]
]

-- The loop of `GetPeers`.
unfoldable pub collect_peers : ℕ → Bool → Map Bytes Peer → List Bytes
collect_peers maxnum ipv6 [] = []
collect_peers zero ipv6 ((k, p) ∷ peers) = []
collect_peers (suc maxnum) ipv6 ((k, p) ∷ peers) =
    let taken = collect_peers maxnum ipv6 peers in
    let passed = collect_peers (suc maxnum) ipv6 peers in
    if ipv6
    then (if p.ipv6 then p.addr ∷ taken else passed)
    else if not p.ipv6
    then p.addr ∷ taken
    else passed

-- `GetPeers(infohash, maxnum, ipv6)`.
unfoldable pub get_peers : Peers → Hash → ℕ → Bool → List Bytes
get_peers tpm id maxnum ipv6 = elim (lookup id tpm) [
  | none ↦ []
  | some peers ↦ collect_peers maxnum ipv6 peers
]

-- A tick of `Start(interval)` at the time `now`: old peers go, and then the identifiers without one.
unfoldable pub expire_peers : Peers → ℕ → ℕ → Peers
expire_peers [] now interval = []
expire_peers ((id, peers) ∷ tpm) now interval =
    let young = delete_if (λ p. ltb interval (now - p.time)) peers in
    let rest = expire_peers tpm now interval in
    if length young == 0 then rest else (id, young) ∷ rest
