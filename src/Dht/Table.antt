-- ===== src/Dht/Table.antt =====
-- The routing table of dht/routing_table.go: 160 buckets, one for each length of the prefix that an
-- identifier shares with the owner's.
pub mod Places
pub mod Routed
use go_bt.Prelude.{
  ℕ, zero, suc, ◌+◌, ◌-◌, ◌*◌, Bool, true, false, not, Option, none, some, List, [], ◌∷◌, ◌++◌, map,
  length, get_elem?, set, replicate, flatten, ltb, leb, ◌==◌, bytes_beq, if◌then◌else◌,
}
use go_bt.Dht.Node.{Hash, Addr, Node}
use go_bt.Dht.BucketId.{bucketid}
use go_bt.Dht.Closest.{closest}
use go_bt.Dht.Bucket.{
  dubious_timeout, WrappedNode, Bucket, empty_bucket, Added, node_added, node_not_added,
  node_exist_and_updated, node_exist_and_changed, add_node, Checked, check_all_nodes,
}

-- `routingTable` without its lock and channels.
pub record Table : Type 0 where
  pub root : Hash
  pub k : ℕ
  pub buckets : List Bucket

-- `newRoutingTable` before it loads nodes.
abbrev pub new_table : Hash → ℕ → Table
new_table root k = record { root = root; k = k; buckets = replicate 160 empty_bucket }

-- `addNode(n, now)`. An index outside the buckets panics, shown as `none`.
unfoldable pub table_add : Table → Node → ℕ → Option (Table × Added)
table_add t n now =
    let i = bucketid t.root n.id in
    elim (get_elem? t.buckets i) [
      | none ↦ none
      | some b ↦
          let r = add_node t.k b n now in some (record t { buckets = set t.buckets i r.0 }, r.1)
    ]

-- `AddNode(n)` at the time `now`.
unfoldable pub table_add_node : Table → Node → ℕ → Option (Table × Added)
table_add_node t n now =
    if bytes_beq n.id t.root then some (t, node_not_added) else table_add t n now

-- The loop of `newRoutingTable` over the nodes that the storage returned.
unfoldable pub load : Table → ℕ → List WrappedNode → Option Table
load t now [] = some t
load t now (n ∷ ns) =
    if ltb (now - n.last_changed) dubious_timeout
    then elim (table_add t n.node n.last_changed) [ none ↦ none | some r ↦ load r.0 now ns ]
    else load t now ns

-- `checkAllBuckets(now)`: a panic in one bucket ends the loop, and the deferred `recover` hides it.
unfoldable pub check_buckets : List Bucket → ℕ → List Bucket × List Addr
check_buckets [] now = ([], [])
check_buckets (b ∷ bs) now =
    let c = check_all_nodes b now in
    let rest = check_buckets bs now in
    if c.panicked then (c.bucket ∷ bs, c.pinged) else (c.bucket ∷ rest.0, c.pinged ++ rest.1)

unfoldable pub check_all_buckets : Table → ℕ → Table × List Addr
check_all_buckets t now = let r = check_buckets t.buckets now in (record t { buckets = r.0 }, r.1)

-- `dump()`: what it hands to the storage.
unfoldable pub dump : Table → List WrappedNode
dump t = flatten (map (λ b. b.nodes) t.buckets)

-- `Len()`.
unfoldable pub len_from : ℕ → List Bucket → ℕ
len_from n [] = n
len_from n (b ∷ bs) = len_from (n + length b.nodes) bs

unfoldable pub len : Table → ℕ
len t = len_from 0 t.buckets

-- `Closest(target, maxnum)` of the table.
unfoldable pub table_closest : Table → Hash → ℕ → List Node
table_closest t target maxnum =
    closest (map (λ b. map (λ w. w.node) b.nodes) t.buckets) target maxnum
