-- ===== src/Dht/Server/Incoming.antt =====
-- The routing tables under the packets that come in (dht/dht_server.go).
use mathlib.Core.Option
use go_bt.Prelude.{
  ℕ, ◌≡◌, refl, ap, Bool, true, false, Bool-cases, inl, inr, Option, some, Bytes, length, ◌==◌,
}
use go_bt.Dht.Node.{Hash, IsHash, Node}
use go_bt.Dht.Bucket.{Added, node_not_added}
use go_bt.Dht.Table.{Table, table_add_node}
use go_bt.Dht.Table.Routed.{IsRouted, Adds, table_add_node-IsRouted}
use go_bt.Dht.Blacklist.{is_in}
use go_bt.Dht.Transaction.{Transaction}
use go_bt.Dht.Server.{
  Server, Sender, Kind, query_kind, response_kind, error_kind, other_kind, KrpcMessage, Reaction,
  drops, hands_response, hands_error, is_zero, is_changed, put4, put6, server_add, punish,
  add_sender, pop_for, after_query, after_response, handle_message, is_disabled, handle_packet,
}

-- Both tables keep each node in its bucket.
abbrev pub IsSound : Server → Type 0
IsSound s = IsRouted s.table4 × IsRouted s.table6

-- The step ends without a panic, in a sound state.
pub record Yields {A : Type 0} (r : Option (Server × A)) : Type 0 where
  pub result : Server × A
  pub returns : r ≡ some result
  pub sound : IsSound result.0

pub yields : {A : Type 0} (p : Server × A) → IsSound p.0 → Yields (some p)
yields p h = record { result = p; returns = refl; sound = h }

Yields-map :
    {A B : Type 0} (f : Server × A → Server × B) (r : Option (Server × A))
    → ((p : Server × A) → IsSound p.0 → IsSound (f p).0)
    → Yields r
    → Yields (Option.map f r)
Yields-map f r keeps y = record {
  result = f y.result;
  returns = ap (Option.map f) y.returns;
  sound = keeps y.result y.sound;
}

Yields-put4 :
    (s : Server) (r : Option (Table × Added))
    → IsSound s
    → Adds s.table4 r
    → Yields (Option.map (put4 s) r)
Yields-put4 s r h a = record {
  result = put4 s (a.table, a.answer);
  returns = ap (Option.map (put4 s)) a.returns;
  sound = (a.routed, h.1);
}

Yields-put6 :
    (s : Server) (r : Option (Table × Added))
    → IsSound s
    → Adds s.table6 r
    → Yields (Option.map (put6 s) r)
Yields-put6 s r h a = record {
  result = put6 s (a.table, a.answer);
  returns = ap (Option.map (put6 s)) a.returns;
  sound = (h.0, a.routed);
}

module _ (s : Server) (from : Sender) (now : ℕ) (h : IsSound s) where
  pub server_add-Yields : (id : Hash) → IsHash id → Yields (server_add s from id now)
  unfolding server_add
  server_add-Yields id w =
      let node : Node = record { id = id; addr = from.addr } in
      let stays = yields (s, node_not_added) h in
      elim (Bool-cases from.is_ipv6) [
        | inl e ↦ elim (Bool-cases s.ipv6) [
          | inl d ↦
              simp (e, d)
                (Yields-put6 s (table_add_node s.table6 node now) h
                  (table_add_node-IsRouted s.table6 node now h.1 w))
          | inr d ↦ simp (e, d) stays
        ]
        | inr e ↦ elim (Bool-cases s.ipv4) [
          | inl d ↦
              simp (e, d)
                (Yields-put4 s (table_add_node s.table4 node now) h
                  (table_add_node-IsRouted s.table4 node now h.0 w))
          | inr d ↦ simp (e, d) stays
        ]
      ]

  punish-IsSound : (p : Server × Added) → IsSound p.0 → IsSound (punish from now p).0
  punish-IsSound (t, a) k = elim (Bool-cases (is_changed a)) [ inl e ↦ rw e k | inr e ↦ rw e k ]

  add_sender-Yields : (id : Hash) (ro : Bool) → IsHash id → Yields (add_sender s from id ro now)
  unfolding add_sender
  add_sender-Yields id true w = yields (s, node_not_added) h
  add_sender-Yields id false w =
      Yields-map (punish from now) (server_add s from id now) punish-IsSound
        (server_add-Yields id w)

  pop_for-IsSound :
      (react : Transaction → Reaction) (t : Server) (m : Bytes)
      → IsSound t
      → IsSound (pop_for react t from m).0
  unfolding pop_for
  pop_for-IsSound react t m k = k

  after_response-IsSound :
      (t : Bytes) (p : Server × Added) → IsSound p.0 → IsSound (after_response from t p).0
  after_response-IsSound t (u, a) k = elim (Bool-cases (is_changed a)) [
    | inl e ↦ rw e k
    | inr e ↦ rw e (pop_for-IsSound hands_response u t k)
  ]

  -- The step for each kind of message, given the kind.
  kind-Yields :
      (m : KrpcMessage) (k : Kind)
      → m.kind ≡ k
      → IsHash m.query_id
      → IsHash m.response_id
      → Yields (handle_message false s from m now)
  unfolding handle_message
  kind-Yields m query_kind e q r = elim (Bool-cases (is_zero m.query_id)) [
    | inl z ↦ simp (e, z) (yields (s, drops) h)
    | inr z ↦
        simp (e, z)
          (Yields-map after_query (add_sender s from m.query_id m.ro now) (λ p k. k)
            (add_sender-Yields m.query_id m.ro q))
  ]
  kind-Yields m response_kind e q r = elim (Bool-cases (is_zero m.response_id)) [
    | inl z ↦ simp (e, z) (yields (s, drops) h)
    | inr z ↦
        simp (e, z)
          (Yields-map (after_response from m.t) (add_sender s from m.response_id m.ro now)
            (after_response-IsSound m.t) (add_sender-Yields m.response_id m.ro r))
  ]
  kind-Yields m error_kind e q r =
      simp e (yields (pop_for hands_error s from m.t) (pop_for-IsSound hands_error s m.t h))
  kind-Yields m other_kind e q r = simp e (yields (s, drops) h)

  message-Yields :
      (handled : Bool) (m : KrpcMessage)
      → IsHash m.query_id
      → IsHash m.response_id
      → Yields (handle_message handled s from m now)
  unfolding handle_message
  message-Yields true m q r = yields (s, drops) h
  message-Yields false m q r = kind-Yields m m.kind refl q r

  pub handle_packet-Yields :
      (handled : Bool) (m : KrpcMessage)
      → IsHash m.query_id
      → IsHash m.response_id
      → Yields (handle_packet handled s from (some m) now)
  unfolding handle_packet
  handle_packet-Yields handled m q r =
      let stays = yields (s, drops) h in
      elim (Bool-cases (is_disabled s from)) [
        | inl a ↦ rw a stays
        | inr a ↦ elim (Bool-cases (is_in s.blacklist from.ip_text from.addr.port)) [
          | inl b ↦ rw (a, b) stays
          | inr b ↦ elim (Bool-cases (length m.t == 0)) [
            | inl c ↦ rw (a, b, c) stays
            | inr c ↦ rw (a, b, c) (message-Yields handled m q r)
          ]
        ]
      ]
