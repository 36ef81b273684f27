-- ===== src/Dht/Tests.antt =====
-- The theorems about dht at concrete inputs.
use go_bt.Prelude.{
  ℕ, ◌+◌, ◌*◌, ◌<◌, ◌≤◌, ◌^◌, ◌≡◌, ◌≢◌, refl, true, false, some, [], ◌∷◌, Bytes, length, flatten,
  IsByte, arith,
}
use go_bt.Prelude.Map.{lookup}
use go_bt.Dht.Node.{Hash, IsHash, Node}
use go_bt.Dht.Distance.{distance}
use go_bt.Dht.Closest.{closest}
use go_bt.Dht.Closest.Optimal.{IsClosest, closest-IsClosest}
use go_bt.Dht.BucketId.{bucketid, IsBucketOf, bucketid-IsBucketOf}
use go_bt.Dht.Bucket.{
  minute, WrappedNode, Bucket, node_added, find_id, first_bad, is_bad, copy_down, add_node,
  check_all_nodes,
}
use go_bt.Dht.Bucket.Holds.{holds}
use go_bt.Dht.Bucket.AddNode.{appended, add_node_keeps_good, add_node_overfull}
use go_bt.Dht.Bucket.Answers.{Outcome, add_node-Outcome}
use go_bt.Dht.Bucket.Check.{check_two_bad}
use go_bt.Dht.Table.{Table, new_table, table_add_node}
use go_bt.Dht.Table.Routed.{IsRouted, Adds, new_table-IsRouted, table_add_node-IsRouted}
use go_bt.Dht.Token.{TokenManager, new_token_manager, token, check, updates, clears, issues, run}
use go_bt.Dht.Token.Rotation.{token_lasts, token_expires}
use go_bt.Dht.Blacklist.{Blacklist, WrappedPort, is_in, del}
use go_bt.Dht.Blacklist.Membership.{is_in-del_other}
use go_bt.Dht.Transaction.{Transaction, TransactionManager, at, key_of}
use go_bt.Dht.PeerManager.{Peers}
use go_bt.Dht.Search.{
  Search, Response, Followed, on_get_peers_resp, get_peers_query, get_peers_search, first_nodes,
  gather, see_nodes, see_node, contains_hash, add_node2,
}
use go_bt.Dht.Server.{server_add}
use go_bt.Dht.Table.{table_add}
use go_bt.Dht.BucketId.{bucketid_from, bit_diff}
use go_bt.Dht.Bucket.{add_new}
use go_bt.Dht.Closest.{push_buckets, push_all, push, sort_search, search_loop, slide}
use go_bt.Prelude.Bits.{test_bit}
use go_bt.Prelude.{get_elem?}
use go_bt.Dht.Search.{find_node_query, find_node_search, on_find_node_resp}
use go_bt.Dht.Search.Descent.{Descends, on_find_node_resp-stops, on_get_peers_resp-Descends}
use go_bt.Dht.Search.Chain.{here, further, leads, get_peers_search-bound}
use go_bt.Dht.Query.{Answering, Query, get_peers, announce_peer, no_answer, handle_query}
use go_bt.Dht.Query.Tokens.{token_of, after_events, announce_peer-unanswered}
use go_bt.Dht.Table.{table_closest}
use go_bt.Dht.Node.{Addr}
use go_bt.Dht.Server.{Server, Sender, KrpcMessage, query_kind, handle_packet}
use go_bt.Dht.Server.Dispatch.{Dispatch}
use go_bt.Dht.Server.Dispatch.Reactions.{handle_packet-Dispatch}

-- Hashes that differ in the last byte.
abbrev hash_of : ℕ → Hash
hash_of b = 0 ∷ 0 ∷ 0 ∷ 0 ∷ 0 ∷ 0 ∷ 0 ∷ 0 ∷ 0 ∷ 0 ∷ 0 ∷ 0 ∷ 0 ∷ 0 ∷ 0 ∷ 0 ∷ 0 ∷ 0 ∷ 0 ∷ b ∷ []

IsHash-of : (b : ℕ) → IsByte b → IsHash (hash_of b)
IsHash-of b h =
    let z : IsByte 0 = omega arith in
    record {
      size = refl;
      bytes = (
        z,
        (
          z,
          (
            z,
            (z, (z, (z, (z, (z, (z, (z, (z, (z, (z, (z, (z, (z, (z, (z, (z, (h, tt))))))))))))))))),
          ),
        ),
      );
    }

abbrev node_of : ℕ → Node
node_of b = record { id = hash_of b; addr = record { ip = 10 ∷ 0 ∷ 0 ∷ b ∷ []; port = 6881 } }

closest-IsClosest_example :
    IsClosest
      (hash_of 1)
      1
      (flatten ((node_of 7 ∷ []) ∷ (node_of 3 ∷ []) ∷ []))
      (closest ((node_of 7 ∷ []) ∷ (node_of 3 ∷ []) ∷ []) (hash_of 1) 1)
closest-IsClosest_example =
    closest-IsClosest ((node_of 7 ∷ []) ∷ (node_of 3 ∷ []) ∷ []) (hash_of 1) 1
      (IsHash-of 1 (omega arith))
      ((IsHash-of 7 (omega arith), tt), ((IsHash-of 3 (omega arith), tt), tt))

apart : 0 < distance (hash_of 5) (hash_of 1)
unfolding distance
apart = omega arith

bucketid-IsBucketOf_example :
    IsBucketOf (bucketid (hash_of 1) (hash_of 5)) (distance (hash_of 5) (hash_of 1)) 160
bucketid-IsBucketOf_example =
    bucketid-IsBucketOf (hash_of 1) (hash_of 5) (IsHash-of 1 (omega arith))
      (IsHash-of 5 (omega arith)) apart

-- A node last seen at the given minute.
abbrev seen : ℕ → ℕ → WrappedNode
seen b at = record { node = node_of b; last_changed = minute * at }

abbrev noon : ℕ
noon = minute * 60

-- The first node is bad at noon.
abbrev old_bucket : Bucket
old_bucket = record { nodes = seen 2 10 ∷ seen 3 50 ∷ []; last_changed = minute * 30 }

add_node-Outcome_example :
    Outcome 8 old_bucket
      (node_of 4)
      noon
      (add_node 8 old_bucket (node_of 4) noon).0
      (add_node 8 old_bucket (node_of 4) noon).1
add_node-Outcome_example = add_node-Outcome 8 old_bucket (node_of 4) noon

add_node_keeps_good_example :
    holds (hash_of 3) (add_node 2 old_bucket (node_of 4) noon).0.nodes ≡ true
unfolding is_bad
add_node_keeps_good_example = add_node_keeps_good 2 old_bucket (node_of 4) noon (hash_of 3) refl

add_node_overfull_example :
    (add_node 2 old_bucket (node_of 4) noon
      ≡ (appended 2 old_bucket (node_of 4) noon (copy_down 0 old_bucket.nodes), node_added))
    × (length (add_node 2 old_bucket (node_of 4) noon).0.nodes ≡ length old_bucket.nodes + 1)
unfolding find_id first_bad is_bad
add_node_overfull_example =
    add_node_overfull 2 old_bucket (node_of 4) noon 0 (omega arith) refl refl

-- Two nodes that are bad at noon, and one that is not.
abbrev worse_bucket : Bucket
worse_bucket = record { nodes = seen 2 10 ∷ seen 5 10 ∷ seen 3 50 ∷ []; last_changed = minute * 30 }

check_two_bad_example : (check_all_nodes worse_bucket noon).bucket.nodes ≡ seen 5 10 ∷ []
unfolding is_bad
check_two_bad_example =
    check_two_bad worse_bucket noon (omega arith) [] [] (seen 2 10) (seen 5 10) (seen 3 50) refl tt
      refl refl (refl, tt)

abbrev table : Table
table = new_table (hash_of 1) 8

table-IsRouted : IsRouted table
table-IsRouted = new_table-IsRouted (hash_of 1) 8 (IsHash-of 1 (omega arith))

table_add_node-IsRouted_example : Adds table (table_add_node table (node_of 5) noon)
table_add_node-IsRouted_example =
    table_add_node-IsRouted table (node_of 5) noon table-IsRouted (IsHash-of 5 (omega arith))

abbrev key : Bytes
key = 1 ∷ 2 ∷ []

abbrev manager : TokenManager
manager = new_token_manager (65 ∷ [])

token_lasts_example :
    check
      (run (token manager key 100).0 (updates (66 ∷ []) ∷ clears 500 600 ∷ []))
      key
      (token manager key 100).1
    ≡ true
token_lasts_example =
    token_lasts manager key 100 (updates (66 ∷ []) ∷ clears 500 600 ∷ []) (omega arith)
      (tt, (omega arith, tt))

letters_differ : (a b : ℕ) → a ≢ b → a ∷ [] ≢ b ∷ []
letters_differ a b h e = h cc

token_expires_example :
    check (run manager (updates (66 ∷ []) ∷ issues key 200 ∷ updates (67 ∷ []) ∷ [])) key (65 ∷ [])
    ≡ false
token_expires_example =
    token_expires manager key (65 ∷ [])
      (updates (66 ∷ []) ∷ issues key 200 ∷ updates (67 ∷ []) ∷ []) (omega arith)
      (letters_differ 66 65 (λ e. omega arith), (tt, (letters_differ 67 65 (λ e. omega arith), tt)))

abbrev entry : WrappedPort
entry = record { time = 5; enable = true; ports = (80, tt) ∷ (81, tt) ∷ [] }

abbrev single : WrappedPort
single = record { time = 5; enable = true; ports = (80, tt) ∷ [] }

abbrev list_with : WrappedPort → Blacklist
list_with wp = record { ips = (key, wp) ∷ []; num = 4 }

is_in-del_other_example :
    (is_in (list_with single) key 80 ≡ true)
    × (is_in (del (list_with single) key 90 6) key 80 ≡ false)
unfolding lookup
is_in-del_other_example =
    is_in-del_other (list_with single) key 90 6 single 80 refl (omega arith) refl refl
      (λ e. omega arith)

abbrev query : ℕ → Transaction
query at = record { id = 97 ∷ []; addr = key; query = []; time = at }

abbrev transactions : TransactionManager
transactions = record { trans = (key_of (query 3), query 3) ∷ []; tid = 7 }

abbrev digits : ℕ → Bytes
digits n = n ∷ []

digits_differ : (a b : ℕ) → a < 2 ^ 32 → b < 2 ^ 32 → digits a ≡ digits b → a ≡ b
digits_differ a b ha hb e = cc

abbrev peers : Peers
peers = (hash_of 2, (key, record { addr = key; ipv6 = false; token = 65 ∷ []; time = 3 }) ∷ []) ∷ []

abbrev server : Server
server = record {
  ipv4 = true;
  ipv6 = false;
  read_only = false;
  table4 = table;
  table6 = table;
  blacklist = list_with entry;
  transactions = transactions;
}

abbrev sender : Sender
sender = record { addr = (node_of 5).addr; is_ipv6 = false; ip_text = 53 ∷ []; text = 54 ∷ [] }

abbrev ping : KrpcMessage
ping = record {
  kind = query_kind;
  t = 97 ∷ [];
  ro = false;
  query_id = hash_of 5;
  response_id = hash_of 0;
}

handle_packet-Dispatch_example :
    Dispatch false server sender ping (handle_packet false server sender (some ping) noon)
handle_packet-Dispatch_example =
    handle_packet-Dispatch server sender noon ping false (table-IsRouted, table-IsRouted)
      (IsHash-of 5 (omega arith)) (IsHash-of 0 (omega arith))

abbrev view : Addr → Sender
view a = record { addr = a; is_ipv6 = false; ip_text = 53 ∷ []; text = 54 ∷ [] }

abbrev search : Search
search = record { addr = (node_of 5).addr; target = hash_of 9; depth = 3; visited = hash_of 5 ∷ [] }

abbrev answer : Response
answer = record {
  id = hash_of 5;
  ro = false;
  token = 65 ∷ [];
  values = [];
  nodes = node_of 5 ∷ node_of 7 ∷ [];
  nodes6 = [];
}

on_get_peers_resp-Descends_example :
    Descends server search (on_get_peers_resp view noon server peers search (node_of 5).addr answer)
on_get_peers_resp-Descends_example =
    on_get_peers_resp-Descends view noon server peers search (node_of 5).addr answer
      (table-IsRouted, table-IsRouted)
      ((IsHash-of 5 (omega arith), (IsHash-of 7 (omega arith), tt)), tt)

abbrev stocked : Server
stocked = record server {
  table4 = record {
    root = hash_of 1;
    k = 8;
    buckets = record { nodes = seen 5 10 ∷ []; last_changed = 0 } ∷ [];
  };
}

abbrev first : Search
first = get_peers_query (hash_of 9) 3 (hash_of 5 ∷ []) (node_of 5)

abbrev second : Search
second = get_peers_query (hash_of 9) 2 (hash_of 5 ∷ hash_of 7 ∷ []) (node_of 7)

-- The state and the queries after the answer to the first query.
followed :
    (out : Followed) × (on_get_peers_resp view noon server peers first (node_of 5).addr answer
      ≡ some out)
    × (get_elem? out.queries 0 ≡ some second)
unfolding on_get_peers_resp get_peers_query gather see_nodes see_node contains_hash add_node2
    server_add table_add_node table_add bucketid bucketid_from bit_diff add_node find_id add_new
    test_bit
followed = (_, refl, refl)

begins : get_peers_search stocked (hash_of 9) 8 3 ≡ some (first ∷ [])
unfolding get_peers_search first_nodes table_closest closest push_buckets push_all push sort_search
    search_loop slide
begins = refl

get_peers_search-bound_example : 1 ≤ 3
get_peers_search-bound_example =
    get_peers_search-bound stocked (hash_of 9) 8 3 0 1 (first ∷ []) first second begins refl (
      further 0 first second second
        (leads view noon server peers first (node_of 5).addr answer followed.0 0 second followed.1
          followed.2)
        (here second))

abbrev answering : Answering
answering = record { k = 8; table4 = table; table6 = table; tokens = manager; peers = peers }

abbrev wish : Query
wish = record {
  method = get_peers;
  target = hash_of 9;
  info_hash = hash_of 9;
  want4 = false;
  want6 = false;
  token = [];
}

announce_peer-unanswered_example :
    handle_query
      (after_events (handle_query answering sender wish 5).0 (updates (66 ∷ []) ∷ []))
      sender
      (record wish {
        method = announce_peer;
        token = token_of (handle_query answering sender wish 5).1;
      })
      9
    ≡ (after_events (handle_query answering sender wish 5).0 (updates (66 ∷ []) ∷ []), no_answer)
announce_peer-unanswered_example =
    announce_peer-unanswered answering sender wish wish 5 9 (updates (66 ∷ []) ∷ []) (omega arith)
      (tt, tt)

abbrev sought : Search
sought = find_node_query (hash_of 9) 5 [] (node_of 5).addr

on_find_node_resp-stops_example :
    on_find_node_resp view noon server sought answer ≡ some (server, [])
unfolding find_node_search
on_find_node_resp-stops_example =
    on_find_node_resp-stops (hash_of 9) (node_of 5).addr 5 sought view noon server answer refl
