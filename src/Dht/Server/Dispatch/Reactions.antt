-- ===== src/Dht/Server/Dispatch/Reactions.antt =====
-- Which packets the DHT server (dht/dht_server.go) hands on.
use go_bt.Prelude.{
  ℕ, ◌≡◌, ◌≢◌, ◌⊎◌, refl, ap, sym, subst, ◌∙◌, Bool, true, false, Bool-cases, inl, inr, some,
  Option-cases, length, ◌==◌, arith,
}
use go_bt.Dht.Node.{IsHash}
use go_bt.Dht.Bucket.{Added}
use go_bt.Dht.Blacklist.{is_in}
use go_bt.Dht.Transaction.{Transaction, pop_transaction}
use go_bt.Dht.Server.{
  Server, Sender, Kind, query_kind, response_kind, error_kind, other_kind, KrpcMessage, Reaction,
  drops, hands_response, hands_error, is_zero, is_changed, add_sender, pop_for, after_query,
  after_response, handle_message, is_disabled, handle_packet,
}
use go_bt.Dht.Server.Incoming.{IsSound, handle_packet-Yields}
use go_bt.Dht.Server.Dispatch.{
  IsPopped, IsBlocked, Reacts, Dispatch, map-some, some-inj, Learns, add_sender-Learns,
}

module _ (s : Server) (from : Sender) (now : ℕ) (m : KrpcMessage) where
  dropped-Reacts : Reacts s from m (s, drops)
  dropped-Reacts = record {
    query = λ h. absurd (cc);
    response = λ found h. absurd (cc);
    error = λ found h. absurd (cc);
    read_only = λ k. (refl, refl, refl);
  }

  after_query-Reacts :
      (p : Server × Added)
      → m.kind ≡ query_kind
      → is_zero m.query_id ≡ false
      → Learns s m.ro p
      → Reacts s from m (after_query p)
  after_query-Reacts (t, a) k z l = record {
    query = λ h. (
      k,
      z,
      elim (Bool-cases t.read_only) [
        | inl e ↦ absurd (ground (arith, Bool-cases (is_changed a)))
        | inr e ↦ sym l.read_only ∙ e
      ],
      l.unpunished (elim (Bool-cases (is_changed a)) [ inl e ↦ absurd (ground arith) | inr e ↦ e ]),
    );
    response =
        λ found h. absurd (ground (arith, Bool-cases (is_changed a), Bool-cases t.read_only));
    error = λ found h. absurd (ground (arith, Bool-cases (is_changed a), Bool-cases t.read_only));
    read_only = l.unlearned;
  }

  popped :
      (t : Server) (react : Transaction → Reaction) (found : Transaction)
      → t.transactions ≡ s.transactions
      → ((a b : Transaction) → react a ≡ react b → a ≡ b)
      → (pop_for react t from m.t).1 ≡ react found
      → ((a : Transaction) → drops ≢ react a)
      → IsPopped s from m.t (pop_for react t from m.t).0 found
  unfolding pop_for
  popped t react found e inj h other =
      let r = pop_transaction t.transactions m.t from.text in
      (
        ap (λ tm. (pop_transaction tm m.t from.text).0) e,
        ap (λ tm. (pop_transaction tm m.t from.text).1) (sym e) ∙ elim (Option-cases r.1) [
          | inl k ↦ absurd (other found (ground arith))
          | inr (x, k) ↦ k ∙ ap some (inj x found (ground arith))
        ],
      )

  pop_for-shape :
      (t : Server) (react : Transaction → Reaction)
      → ((pop_for react t from m.t).1 ≡ drops)
        ⊎ ((x : Transaction) × ((pop_for react t from m.t).1 ≡ react x))
  unfolding pop_for
  pop_for-shape t react = elim (Option-cases (pop_transaction t.transactions m.t from.text).1) [
    | inl e ↦ inl (ground arith)
    | inr (x, e) ↦ inr (x, ground arith)
  ]

  after_response-Reacts :
      (p : Server × Added)
      → m.kind ≡ response_kind
      → is_zero m.response_id ≡ false
      → Learns s m.ro p
      → Reacts s from m (after_response from m.t p)
  unfolding pop_for
  after_response-Reacts (t, a) k z l = elim (Bool-cases (is_changed a)) [
    | inl e ↦ rw e (record {
      query = λ h. absurd (cc);
      response = λ found h. absurd (cc);
      error = λ found h. absurd (cc);
      read_only = l.unlearned;
    })
    | inr e ↦ rw e (record {
      query = λ h. elim (pop_for-shape t hands_response) [
        | inl d ↦ absurd (cc)
        | inr (x, d) ↦ absurd (cc)
      ];
      response = λ found h. (
        k,
        z,
        popped t hands_response found l.transactions (λ a b d. cc) h (λ a d. cc),
        l.unpunished e,
      );
      error = λ found h. elim (pop_for-shape t hands_response) [
        | inl d ↦ absurd (cc)
        | inr (x, d) ↦ absurd (cc)
      ];
      read_only = l.unlearned;
    })
  ]

  error-Reacts : m.kind ≡ error_kind → Reacts s from m (pop_for hands_error s from m.t)
  unfolding pop_for
  error-Reacts k = record {
    query =
        λ h. elim (pop_for-shape s hands_error) [ inl d ↦ absurd (cc) | inr (x, d) ↦ absurd (cc) ];
    response = λ found h. elim (pop_for-shape s hands_error) [
      | inl d ↦ absurd (cc)
      | inr (x, d) ↦ absurd (cc)
    ];
    error = λ found h.
        (k, popped s hands_error found refl (λ a b d. cc) h (λ a d. cc), (refl, refl, refl));
    read_only = λ h. (refl, refl, refl);
  }

  kind-Reacts :
      (k : Kind) (r : Server × Reaction)
      → m.kind ≡ k
      → handle_message false s from m now ≡ some r
      → Reacts s from m r
  unfolding handle_message
  kind-Reacts query_kind r e h = elim (Bool-cases (is_zero m.query_id)) [
    | inl z ↦ subst (Reacts s from m) (some-inj (ground arith)) dropped-Reacts
    | inr z ↦
        let (p, added, same) =
          map-some after_query (add_sender s from m.query_id m.ro now) r (ground arith) in
        subst (Reacts s from m) same
          (after_query-Reacts p e z (add_sender-Learns s from now m.query_id m.ro p added))
  ]
  kind-Reacts response_kind r e h = elim (Bool-cases (is_zero m.response_id)) [
    | inl z ↦ subst (Reacts s from m) (some-inj (ground arith)) dropped-Reacts
    | inr z ↦
        let (p, added, same) =
          map-some (after_response from m.t) (add_sender s from m.response_id m.ro now) r
            (ground arith) in
        subst (Reacts s from m) same
          (after_response-Reacts p e z (add_sender-Learns s from now m.response_id m.ro p added))
  ]
  kind-Reacts error_kind r e h = subst (Reacts s from m) (some-inj (ground arith)) (error-Reacts e)
  kind-Reacts other_kind r e h = subst (Reacts s from m) (some-inj (ground arith)) dropped-Reacts

  message-Reacts :
      (handled : Bool) (r : Server × Reaction)
      → handle_message handled s from m now ≡ some r
      → Reacts s from m r
  unfolding handle_message
  message-Reacts true r h = subst (Reacts s from m) (some-inj h) dropped-Reacts
  message-Reacts false r h = kind-Reacts m.kind r refl h

  packet-Reacts :
      (handled : Bool) (r : Server × Reaction)
      → handle_packet handled s from (some m) now ≡ some r
      → Reacts s from m r
  unfolding handle_packet
  packet-Reacts handled r h =
      let dropped = λ (e : (s, drops) ≡ r). subst (Reacts s from m) e dropped-Reacts in
      elim (Bool-cases (is_disabled s from)) [
        | inl a ↦ dropped (some-inj (ground arith))
        | inr a ↦ elim (Bool-cases (is_in s.blacklist from.ip_text from.addr.port)) [
          | inl b ↦ dropped (some-inj (ground arith))
          | inr b ↦ elim (Bool-cases (length m.t == 0)) [
            | inl c ↦ dropped (some-inj (ground arith))
            | inr c ↦ message-Reacts handled r (ground arith)
          ]
        ]
      ]

  packet-blocked :
      (handled : Bool)
      → IsBlocked handled s from m
      → handle_packet handled s from (some m) now ≡ some (s, drops)
  unfolding handle_packet handle_message
  packet-blocked handled h = ground arith

  -- Up to the call of `handleQuery` or of a transaction's callback, the server does not panic on a
  -- packet with the message `m` whose identifiers have 20 bytes, where both routing tables have each
  -- node in the bucket of its identifier, and both are so again then. Where the sender's family is
  -- disabled, or the blacklist has the sender, or the transaction identifier is empty, or the
  -- callback has handled the message, the message is dropped and the server is as before. Only a
  -- query with an identifier other than zero is handed to `handleQuery`, by a server that is not
  -- read-only, and the sender is not put on the blacklist. Only a response with an identifier other
  -- than zero is handed to `OnResponse`, and only an error to `OnError`, each of the transaction
  -- that was pending for the sender and the message's transaction identifier, which is pending no
  -- more; the response's sender is not put on the blacklist, and an error teaches the server
  -- nothing. Of a read-only sender the server learns nothing: tables and blacklist are as before.
  pub handle_packet-Dispatch :
      (handled : Bool)
      → IsSound s
      → IsHash m.query_id
      → IsHash m.response_id
      → Dispatch handled s from m (handle_packet handled s from (some m) now)
  handle_packet-Dispatch handled h q r =
      let y = handle_packet-Yields s from now h handled m q r in
      record {
        result = y.result;
        returns = y.returns;
        sound = y.sound;
        blocked = λ b. some-inj (sym y.returns ∙ packet-blocked handled b);
        reacts = packet-Reacts handled y.result y.returns;
      }
