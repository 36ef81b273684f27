-- ===== src/Dht/Search/Descent.antt =====
-- A search goes to nodes it has not visited, and its depth falls with every response.
use go_bt.Prelude.{
  ℕ, ◌-◌, ◌<◌, ◌≡◌, ◌⊎◌, inl, inr, refl, ap, sym, ◌∙◌, Bool, true, false, not, ◌||◌, Bool-cases,
  Option, some, List, [], ◌∷◌, ◌++◌, append-nil, append_assoc, map, length, All, Bytes, leb, ◌==◌,
  bytes_beq, if◌then◌else◌, arith,
}
use go_bt.Dht.Node.{Hash, IsHash, Addr, Node}
use go_bt.Dht.PeerManager.{Peers, set_peer}
use go_bt.Dht.Server.{Server, Sender, is_zero}
use go_bt.Dht.Server.Incoming.{IsSound, Yields, yields, server_add-Yields}
use go_bt.Dht.Bucket.{node_not_added}
use go_bt.Dht.Search.{
  Search, Response, Found, Followed, contains_hash, add_node2, is_added, see_node, see_nodes,
  gather, get_peers_query, find_node_query, on_get_peers_resp, on_find_node_resp, find_node_search,
  ids_of,
}

-- None of the nodes is among the identifiers, and no two of them have the same one.
abbrev pub Unseen : List Hash → List Node → Type 0
Unseen ids [] = Unit
Unseen ids (n ∷ ns) = (contains_hash ids n.id ≡ false) × Unseen (ids ++ (n.id ∷ [])) ns

ids_of-append : (ns : List Node) (n : Node) → ids_of (ns ++ (n ∷ [])) ≡ ids_of ns ++ (n.id ∷ [])
ids_of-append [] n = refl
ids_of-append (m ∷ ns) n = ap (λ ids. m.id ∷ ids) (ids_of-append ns n)

Unseen-append :
    (ids : List Hash) (ns : List Node) (n : Node)
    → Unseen ids ns
    → contains_hash (ids ++ ids_of ns) n.id ≡ false
    → Unseen ids (ns ++ (n ∷ []))
Unseen-append ids [] n h e = (ap (λ l. contains_hash l n.id) (sym (append-nil ids)) ∙ e, tt)
Unseen-append ids (m ∷ ns) n h e = (
  h.0,
  Unseen-append (ids ++ (m.id ∷ [])) ns n h.1
      (ap (λ l. contains_hash l n.id) (append_assoc ids (m.id ∷ []) (ids_of ns)) ∙ e),
)

-- What the loops keep of the nodes they take.
abbrev IsFresh : List Hash → Found → Type 0
IsFresh visited f = (f.ids ≡ visited ++ ids_of f.nodes) × Unseen visited f.nodes

taken-IsFresh :
    (visited : List Hash) (f : Found) (node : Node) (b : Bool)
    → IsFresh visited f
    → contains_hash f.ids node.id ≡ false
    → IsFresh visited
        (record { found = b; ids = f.ids ++ (node.id ∷ []); nodes = f.nodes ++ (node ∷ []) })
taken-IsFresh visited f node b h e = (
  ap (λ ids. ids ++ (node.id ∷ [])) h.0
      ∙ append_assoc visited (ids_of f.nodes) (node.id ∷ [])
      ∙ ap (λ ids. visited ++ ids) (sym (ids_of-append f.nodes node)),
  Unseen-append visited f.nodes node h.1 (ap (λ ids. contains_hash ids node.id) (sym h.0) ∙ e),
)

-- A loop ends without a panic, in a sound state, with what it keeps of the nodes.
record Seen (visited : List Hash) (r : Option (Server × Found)) : Type 0 where
  result : Server × Found
  returns : r ≡ some result
  sound : IsSound result.0
  fresh : IsFresh visited result.1

add_node2-Yields :
    (view : Addr → Sender) (now : ℕ) (s : Server) (node : Node) (ro : Bool)
    → IsSound s
    → IsHash node.id
    → Yields (add_node2 view now s node ro)
unfolding add_node2
add_node2-Yields view now s node true h w = yields (s, node_not_added) h
add_node2-Yields view now s node false h w = server_add-Yields s (view node.addr) now h node.id w

module _ (view : Addr → Sender) (now : ℕ) (ro : Bool) (target : Hash) (visited : List Hash) where
  see_node-Seen :
      (s : Server) (f : Found) (node : Node)
      → IsSound s
      → IsHash node.id
      → IsFresh visited f
      → Seen visited (see_node view now ro target (s, f) node)
  unfolding see_node
  see_node-Seen s f node h w fresh = elim (Bool-cases (contains_hash f.ids node.id)) [
    | inl c ↦ rw c (record {
      result = (s, record f { found = f.found || bytes_beq node.id target });
      returns = refl;
      sound = h;
      fresh = fresh;
    })
    | inr c ↦
        let y = add_node2-Yields view now s node ro h w in
        let b = f.found || bytes_beq node.id target in
        rw (c, y.returns)
          (elim (Bool-cases (is_added y.result.1)) [
            | inl a ↦ rw a (record {
              result = (
                y.result.0,
                record { found = b; ids = f.ids ++ (node.id ∷ []); nodes = f.nodes ++ (node ∷ []) },
              );
              returns = refl;
              sound = y.sound;
              fresh = taken-IsFresh visited f node b fresh c;
            })
            | inr a ↦ rw a (record {
              result = (y.result.0, record f { found = b });
              returns = refl;
              sound = y.sound;
              fresh = fresh;
            })
          ])
  ]

  see_nodes-Seen :
      (nodes : List Node) (s : Server) (f : Found)
      → IsSound s
      → All (λ n. IsHash n.id) nodes
      → IsFresh visited f
      → Seen visited (see_nodes view now ro target (s, f) nodes)
  unfolding see_nodes
  see_nodes-Seen [] s f h w fresh = record {
    result = (s, f);
    returns = refl;
    sound = h;
    fresh = fresh;
  }
  see_nodes-Seen (node ∷ nodes) s f h w fresh =
      let met = see_node-Seen s f node h w.0 fresh in
      rw (see_nodes, met.returns)
        (see_nodes-Seen nodes met.result.0 met.result.1 met.sound w.1 met.fresh)

-- The nodes of a response have identifiers of 20 bytes.
abbrev pub IsResponse : Response → Type 0
IsResponse m = All (λ (n : Node). IsHash n.id) m.nodes × All (λ (n : Node). IsHash n.id) m.nodes6

gather-Seen :
    (view : Addr → Sender) (now : ℕ) (s : Server) (t : Search) (m : Response)
    → IsSound s
    → IsResponse m
    → Seen t.visited (gather view now s t m)
unfolding gather
gather-Seen view now s t m h w =
    let start : Found = record { found = false; ids = t.visited; nodes = [] } in
    let first =
      see_nodes-Seen view now m.ro t.target t.visited m.nodes s start h w.0
        (sym (append-nil t.visited), tt) in
    rw (gather, first.returns)
      (see_nodes-Seen view now m.ro t.target t.visited m.nodes6 first.result.0 first.result.1
        first.sound w.1 first.fresh)

-- What a response to a search leads to: no panic, tables in which each node stands in its bucket, and
-- queries to nodes of which none has been visited and no two are the same, one level deeper, that
-- pass on what is visited now; none at all on the last level.
pub record Descends (s : Server) (t : Search) (r : Option Followed) : Type 0 where
  pub out : Followed
  pub returns : r ≡ some out
  pub sound : IsSound out.server
  pub asked : List Node
  pub unseen : Unseen t.visited asked
  pub sent :
      out.queries ≡ map (get_peers_query t.target (t.depth - 1) (t.visited ++ ids_of asked)) asked
  pub level : (asked ≡ []) ⊎ (1 < t.depth)

stopped :
    {s : Server} {t : Search} (peers : Peers) (given : List Bytes) (after : Server)
    → IsSound after
    → Descends s t (some (record { server = after; peers = peers; given = given; queries = [] }))
stopped peers given after h = record {
  out = record { server = after; peers = peers; given = given; queries = [] };
  returns = refl;
  sound = h;
  asked = [];
  unseen = tt;
  sent = refl;
  level = inl refl;
}

-- In a state whose tables hold each node in its bucket, a response with identifiers of 20 bytes leads
-- to no panic and leaves such a state. The queries that follow go to nodes that the search has not
-- visited, no two of which are the same, one level deeper; on the last level there are none.
pub on_get_peers_resp-Descends :
    (view : Addr → Sender) (now : ℕ) (s : Server) (peers : Peers) (t : Search) (a : Addr)
    (m : Response)
    → IsSound s
    → IsResponse m
    → Descends s t (on_get_peers_resp view now s peers t a m)
unfolding on_get_peers_resp
on_get_peers_resp-Descends view now s peers t a m h w =
    let g = gather-Seen view now s t m h w in
    let kept =
      if length m.token == 0
      then peers
      else set_peer peers m.id (view a).text (view a).is_ipv6 m.token now in
    elim (Bool-cases (not (length m.values == 0))) [
      | inl v ↦ rw v (stopped kept m.values s h)
      | inr v ↦ elim (Bool-cases (leb t.depth 1)) [
        | inl l ↦ rw (v, l) (stopped kept [] s h)
        | inr l ↦ elim (Bool-cases g.result.1.found) [
          | inl f ↦ rw (v, l, g.returns, f) (stopped kept [] g.result.0 g.sound)
          | inr f ↦
              rw (v, l, g.returns, f)
                (record {
                  out = record {
                    server = g.result.0;
                    peers = kept;
                    given = [];
                    queries =
                        map (get_peers_query t.target (t.depth - 1) g.result.1.ids)
                          g.result.1.nodes;
                  };
                  returns = refl;
                  sound = g.sound;
                  asked = g.result.1.nodes;
                  unseen = g.fresh.1;
                  sent =
                      ap (λ ids. map (get_peers_query t.target (t.depth - 1) ids) g.result.1.nodes)
                        g.fresh.0;
                  level = inr (ground arith);
                })
        ]
      ]
    ]

find_node_query-depth :
    (target : Hash) (addr : Addr) (search_depth : ℕ) (t : Search)
    → find_node_search target addr search_depth ≡ some t
    → t.depth ≡ 0
unfolding find_node_search find_node_query
find_node_query-depth target addr search_depth t e = elim (Bool-cases (is_zero target)) [
  | inl z ↦ absurd (ground arith)
  | inr z ↦ ground arith
]

-- A search of `FindNode` ends with the first response, whatever its depth is and whatever nodes the
-- response has: no query follows, and none of the nodes is added.
pub on_find_node_resp-stops :
    (target : Hash) (addr : Addr) (search_depth : ℕ) (t : Search) (view : Addr → Sender) (now : ℕ)
    (s : Server) (m : Response)
    → find_node_search target addr search_depth ≡ some t
    → on_find_node_resp view now s t m ≡ some (s, [])
unfolding on_find_node_resp
on_find_node_resp-stops target addr search_depth t view now s m e =
    let none_left = find_node_query-depth target addr search_depth t e in
    let stops : leb t.depth 1 ≡ true = ground arith in rw stops refl
