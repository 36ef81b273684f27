-- ===== src/Dht/Search/Chain.antt =====
-- A search ends: the queries that follow from one another are no more than the depth it begins with.
use go_bt.Prelude.{
  ℕ, suc, ◌+◌, ◌-◌, ◌≤◌, ◌<◌, ◌≡◌, refl, subst, not, Bool-cases, inl, inr, Option, none, some,
  Option-cases, List, [], ◌∷◌, map, length, get_elem?, All, All-get_elem?, leb, ◌==◌, arith,
}
use go_bt.Dht.Node.{Hash, Addr, Node}
use go_bt.Dht.PeerManager.{Peers}
use go_bt.Dht.Server.{Server, Sender, is_zero}
use go_bt.Dht.Search.{
  Search, Response, Followed, gather, get_peers_query, on_get_peers_resp, get_peers_search,
  first_nodes, ids_of,
}

-- Some response to the first search, in some state, makes the server send the second.
pub data Leads : Search → Search → Type 0 where
  leads :
      (view : Addr → Sender) (now : ℕ) (s : Server) (peers : Peers) (t : Search) (a : Addr)
      (m : Response) (out : Followed) (i : ℕ) (q : Search)
      → on_get_peers_resp view now s peers t a m ≡ some out
      → get_elem? out.queries i ≡ some q
      → Leads t q

-- A number of queries, each of which leads to the next.
pub data Chain : ℕ → Search → Search → Type 0 where
  here : (t : Search) → Chain 0 t t
  further : (n : ℕ) (t q r : Search) → Leads t q → Chain n q r → Chain (suc n) t r

map-depth :
    (target : Hash) (depth : ℕ) (ids : List Hash) (nodes : List Node)
    → All (λ (q : Search). q.depth ≡ depth) (map (get_peers_query target depth ids) nodes)
unfolding get_peers_query
map-depth target depth ids [] = tt
map-depth target depth ids (n ∷ nodes) = (refl, map-depth target depth ids nodes)

abbrev queries_of : Option Followed → List Search
queries_of none = []
queries_of (some out) = out.queries

abbrev IsDeeper : Search → Search → Type 0
IsDeeper t q = suc q.depth ≡ t.depth

deeper :
    (t : Search) (ids : List Hash) (nodes : List Node)
    → 1 < t.depth
    → All (IsDeeper t) (map (get_peers_query t.target (t.depth - 1) ids) nodes)
unfolding get_peers_query
deeper t ids [] h = tt
deeper t ids (n ∷ nodes) h = (omega (arith, h), deeper t ids nodes h)

all-IsDeeper :
    (view : Addr → Sender) (now : ℕ) (s : Server) (peers : Peers) (t : Search) (a : Addr)
    (m : Response)
    → All (IsDeeper t) (queries_of (on_get_peers_resp view now s peers t a m))
unfolding on_get_peers_resp
all-IsDeeper view now s peers t a m = elim (Bool-cases (not (length m.values == 0))) [
  | inl v ↦ rw v tt
  | inr v ↦ elim (Bool-cases (leb t.depth 1)) [
    | inl l ↦ rw (v, l) tt
    | inr l ↦ elim (Option-cases (gather view now s t m)) [
      | inl g ↦ rw (v, l, g) tt
      | inr (r, g) ↦ elim (Bool-cases r.1.found) [
        | inl f ↦ rw (v, l, g, f) tt
        | inr f ↦ rw (v, l, g, f) (deeper t r.1.ids r.1.nodes (ground arith))
      ]
    ]
  ]
]

Leads-depth : (t q : Search) → Leads t q → suc q.depth ≡ t.depth
Leads-depth _ _ (leads view now s peers t a m out i q e f) =
    All-get_elem? (IsDeeper t) out.queries i
      (subst (λ o. All (IsDeeper t) (queries_of o)) e (all-IsDeeper view now s peers t a m)) f

-- A chain of queries makes up for the depth that is left at its end.
Chain-depth : (n : ℕ) (t q : Search) → Chain n t q → n + q.depth ≡ t.depth
Chain-depth _ _ _ (here t) = omega arith
Chain-depth _ _ _ (further n t q r l c) = omega (arith, Leads-depth t q l, Chain-depth n q r c)

begins :
    (s : Server) (infohash : Hash) (k search_depth : ℕ)
    → All
        (λ (q : Search). q.depth ≡ search_depth)
        (elim (get_peers_search s infohash k search_depth) [ none ↦ [] | some queries ↦ queries ])
unfolding get_peers_search
begins s infohash k search_depth = elim (Bool-cases (is_zero infohash)) [
  | inl z ↦ rw z tt
  | inr z ↦ rw z (
      map-depth infohash search_depth (ids_of (first_nodes s infohash k))
        (first_nodes s infohash k))
]

-- From each query that `GetPeers` begins with, whatever the responses are and whatever happens
-- between them, a chain of at most as many queries follows as the depth of the search.
pub get_peers_search-bound :
    (s : Server) (infohash : Hash) (k search_depth i n : ℕ) (queries : List Search) (t q : Search)
    → get_peers_search s infohash k search_depth ≡ some queries
    → get_elem? queries i ≡ some t
    → Chain n t q
    → n ≤ search_depth
get_peers_search-bound s infohash k search_depth i n queries t q e f c =
    let first : t.depth ≡ search_depth =
      All-get_elem? (λ (q : Search). q.depth ≡ search_depth) queries i
        (subst
          (λ (o : Option (List Search)).
            All (λ (q : Search). q.depth ≡ search_depth) (elim o [ none ↦ [] | some qs ↦ qs ]))
          e (begins s infohash k search_depth))
        f in
    omega (arith, first, Chain-depth n t q c)
