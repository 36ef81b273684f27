-- ===== src/Dht/Server/Dispatch.antt =====
-- What a packet that the DHT server (dht/dht_server.go) hands on has to do with it, and what the
-- server learns of the sender.
pub mod Reactions
use mathlib.Core.Option
use go_bt.Prelude.{
  ℕ, ◌≡◌, ◌⊎◌, refl, subst, Bool, true, false, Bool-cases, inl, inr, Option, some, Option-cases,
  Bytes, length, ◌==◌, arith,
}
use go_bt.Dht.Node.{Hash, Node}
use go_bt.Dht.Bucket.{Added, node_not_added}
use go_bt.Dht.Table.{table_add_node}
use go_bt.Dht.Blacklist.{is_in}
use go_bt.Dht.Transaction.{Transaction, pop_transaction}
use go_bt.Dht.Server.{
  Server, Sender, query_kind, response_kind, error_kind, KrpcMessage, Reaction, drops,
  handles_query, hands_response, hands_error, is_zero, is_changed, put4, put6, server_add, punish,
  add_sender, is_disabled,
}
use go_bt.Dht.Server.Incoming.{IsSound}

-- The two routing tables and the blacklist are as before.
abbrev pub Unlearned : Server → Server → Type 0
Unlearned s s' = (s'.table4 ≡ s.table4) × (s'.table6 ≡ s.table6) × (s'.blacklist ≡ s.blacklist)

-- The sender's transaction with the identifier was pending and is taken out.
abbrev pub IsPopped : Server → Sender → Bytes → Server → Transaction → Type 0
IsPopped s from t s' found =
    (s'.transactions ≡ (pop_transaction s.transactions t from.text).0)
    × ((pop_transaction s.transactions t from.text).1 ≡ some found)

-- The packet is dropped before its message is handled.
abbrev pub IsBlocked : Bool → Server → Sender → KrpcMessage → Type 0
IsBlocked handled s from m =
    (is_disabled s from ≡ true)
    ⊎ (is_in s.blacklist from.ip_text from.addr.port ≡ true)
    ⊎ ((length m.t == 0) ≡ true)
    ⊎ (handled ≡ true)

-- What the server before a packet with the message `m` has to do with the server and the reaction
-- after it.
pub record Reacts (s : Server) (from : Sender) (m : KrpcMessage) (r : Server × Reaction)
    : Type 0 where
  pub query :
      r.1 ≡ handles_query
      → (m.kind ≡ query_kind)
        × (is_zero m.query_id ≡ false)
        × (s.read_only ≡ false)
        × (r.0.blacklist ≡ s.blacklist)
  pub response :
      (found : Transaction)
      → r.1 ≡ hands_response found
      → (m.kind ≡ response_kind)
        × (is_zero m.response_id ≡ false)
        × IsPopped s from m.t r.0 found
        × (r.0.blacklist ≡ s.blacklist)
  pub error :
      (found : Transaction)
      → r.1 ≡ hands_error found
      → (m.kind ≡ error_kind) × IsPopped s from m.t r.0 found × Unlearned s r.0
  pub read_only : m.ro ≡ true → Unlearned s r.0

-- The step of the server on a packet ends without a panic, and how.
pub record Dispatch (handled : Bool) (s : Server) (from : Sender) (m : KrpcMessage)
    (step : Option (Server × Reaction)) : Type 0 where
  pub result : Server × Reaction
  pub returns : step ≡ some result
  pub sound : IsSound result.0
  pub blocked : IsBlocked handled s from m → result ≡ (s, drops)
  pub reacts : Reacts s from m result

pub map-some :
    {A B : Type 0} (f : A → B) (o : Option A) (y : B)
    → Option.map f o ≡ some y
    → (x : A) × (o ≡ some x) × (f x ≡ y)
map-some f o y h = elim (Option-cases o) [
  | inl e ↦ absurd (ground arith)
  | inr (x, e) ↦ (x, e, ground arith)
]

pub some-inj : {A : Type 0} {x y : A} → some x ≡ some y → x ≡ y
some-inj h = cc

-- What learning of the sender leaves alone.
abbrev Apart : Server → Server → Type 0
Apart s s' =
    (s'.transactions ≡ s.transactions) × (s'.read_only ≡ s.read_only) × (s'.blacklist ≡ s.blacklist)

pub record Learns (s : Server) (ro : Bool) (p : Server × Added) : Type 0 where
  pub transactions : p.0.transactions ≡ s.transactions
  pub read_only : p.0.read_only ≡ s.read_only
  pub unpunished : is_changed p.1 ≡ false → p.0.blacklist ≡ s.blacklist
  pub unlearned : ro ≡ true → Unlearned s p.0

module _ (s : Server) (from : Sender) (now : ℕ) where
  server_add-Apart :
      (id : Hash) (p : Server × Added) → server_add s from id now ≡ some p → Apart s p.0
  unfolding server_add
  server_add-Apart id p h =
      let node : Node = record { id = id; addr = from.addr } in
      elim (Bool-cases from.is_ipv6) [
        | inl e ↦ elim (Bool-cases s.ipv6) [
          | inl d ↦
              let (x, _, same) =
                map-some (put6 s) (table_add_node s.table6 node now) p (ground arith) in
              subst (λ (q : Server × Added). Apart s q.0) same (refl, refl, refl)
          | inr d ↦
              let same : (s, node_not_added) ≡ p = ground arith in
              subst (λ (q : Server × Added). Apart s q.0) same (refl, refl, refl)
        ]
        | inr e ↦ elim (Bool-cases s.ipv4) [
          | inl d ↦
              let (x, _, same) =
                map-some (put4 s) (table_add_node s.table4 node now) p (ground arith) in
              subst (λ (q : Server × Added). Apart s q.0) same (refl, refl, refl)
          | inr d ↦
              let same : (s, node_not_added) ≡ p = ground arith in
              subst (λ (q : Server × Added). Apart s q.0) same (refl, refl, refl)
        ]
      ]

  punish-Learns : (p : Server × Added) → Apart s p.0 → Learns s false (punish from now p)
  punish-Learns (t, a) (x, y, z) = elim (Bool-cases (is_changed a)) [
    | inl e ↦ rw e (record {
      transactions = x;
      read_only = y;
      unpunished = λ k. absurd (ground arith);
      unlearned = λ k. absurd (cc);
    })
    | inr e ↦ rw e (record {
      transactions = x;
      read_only = y;
      unpunished = λ k. z;
      unlearned = λ k. absurd (cc);
    })
  ]

  pub add_sender-Learns :
      (id : Hash) (ro : Bool) (p : Server × Added)
      → add_sender s from id ro now ≡ some p
      → Learns s ro p
  unfolding add_sender
  add_sender-Learns id true p h =
      let same : (s, node_not_added) ≡ p = ground arith in
      subst (Learns s true) same (record {
        transactions = refl;
        read_only = refl;
        unpunished = λ k. refl;
        unlearned = λ k. (refl, refl, refl);
      })
  add_sender-Learns id false p h =
      let (q, added, same) = map-some (punish from now) (server_add s from id now) p h in
      subst (Learns s false) same (punish-Learns q (server_add-Apart id q added))
