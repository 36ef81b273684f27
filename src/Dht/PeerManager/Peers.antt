-- ===== src/Dht/PeerManager/Peers.antt =====
-- What `Set`, `Get`, `GetPeers` and the expiry (dht/peer_manager.go) answer.
use go_bt.Prelude.{
  ℕ, zero, suc, ◌≤◌, ◌≡◌, inl, inr, refl, ap, ◌∙◌, Bool, ◌&&◌, Option, none, some, Option-cases, [],
  ◌∷◌, length, Bytes, bytes_beq, bytes_beq_iff, Bytes_eq, if◌then◌else◌, arith,
}
use go_bt.Prelude.Map.{Map, lookup, insert, lookup-insert}
use go_bt.Dht.Node.{Hash}
use go_bt.Dht.PeerManager.{Peer, Peers, set_peer, get_token, collect_peers, get_peers}

-- The token that a map of peers holds for an address.
abbrev pub token_in : Bytes → Option (Map Bytes Peer) → Bytes
token_in addr none = []
token_in addr (some peers) = elim (lookup addr peers) [ none ↦ [] | some p ↦ p.token ]

get-token_in :
    (tpm : Peers) (id : Hash) (addr : Bytes) → get_token tpm id addr ≡ token_in addr (lookup id tpm)
unfolding get_token
get-token_in tpm id addr = ground arith

module _ (tpm : Peers) (id : Hash) (addr : Bytes) (ipv6 : Bool) (token : Bytes) (now : ℕ) where
  abbrev new : Peer
  new = record { addr = addr; ipv6 = ipv6; token = token; time = now }

  set-absent :
      lookup id tpm ≡ none → set_peer tpm id addr ipv6 token now ≡ insert id ((addr, new) ∷ []) tpm
  unfolding set_peer
  set-absent e = ground arith

  set-present :
      (peers : Map Bytes Peer)
      → lookup id tpm ≡ some peers
      → set_peer tpm id addr ipv6 token now ≡ insert id (insert addr new peers) tpm
  unfolding set_peer
  set-present peers e = ground arith

  single : (a : Bytes) → lookup a ((addr, new) ∷ []) ≡ (if bytes_beq addr a then some new else none)
  unfolding lookup
  single a = refl

  -- After `Set`, `Get` finds the token for its identifier and address, and for any other pair what it
  -- found before.
  pub get-set :
      (id' : Hash) (addr' : Bytes)
      → get_token (set_peer tpm id addr ipv6 token now) id' addr'
        ≡ (if bytes_beq id id' && bytes_beq addr addr' then token else get_token tpm id' addr')
  get-set id' addr' = elim (Option-cases (lookup id tpm)) [
    | inl e ↦
        ap (λ t. get_token t id' addr') (set-absent e)
        ∙ get-token_in (insert id ((addr, new) ∷ []) tpm) id' addr'
        ∙ ap (token_in addr') (lookup-insert id id' ((addr, new) ∷ []) tpm)
        ∙ ground (arith, single addr', get-token_in tpm id' addr', bytes_beq_iff id id')
    | inr (peers, e) ↦
        ap (λ t. get_token t id' addr') (set-present peers e)
        ∙ get-token_in (insert id (insert addr new peers) tpm) id' addr'
        ∙ ap (token_in addr') (lookup-insert id id' (insert addr new peers) tpm)
        ∙ ground (
          arith,
          lookup-insert addr addr' new peers,
          get-token_in tpm id' addr',
          bytes_beq_iff id id',
        )
  ]

collect-bound :
    (k : ℕ) (ipv6 : Bool) (peers : Map Bytes Peer) → length (collect_peers k ipv6 peers) ≤ k
unfolding collect_peers
collect-bound k ipv6 [] = omega arith
collect-bound zero ipv6 ((a, p) ∷ peers) = omega arith
collect-bound (suc k) ipv6 ((a, p) ∷ peers) =
    ground (arith, collect-bound k ipv6 peers, collect-bound (suc k) ipv6 peers)

-- `GetPeers` returns at most `maxnum` addresses.
pub get_peers-bound :
    (tpm : Peers) (id : Hash) (maxnum : ℕ) (ipv6 : Bool)
    → length (get_peers tpm id maxnum ipv6) ≤ maxnum
unfolding get_peers
get_peers-bound tpm id maxnum ipv6 = elim (Option-cases (lookup id tpm)) [
  | inl e ↦ ground arith
  | inr (peers, e) ↦ ground (arith, collect-bound maxnum ipv6 peers)
]
