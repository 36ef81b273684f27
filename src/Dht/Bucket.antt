-- ===== src/Dht/Bucket.antt =====
-- The buckets of dht/routing_table.go. Times are numbers of nanoseconds. A time in the future is no
-- time ago, as it is for the tests `now.Sub(t) > timeout` with a timeout that is not negative.
pub mod Holds
pub mod AddNode
pub mod Answers
pub mod Check
use go_bt.Prelude.{
  ℕ, zero, suc, ◌+◌, ◌-◌, ◌*◌, Bool, true, false, not, Option, none, some, List, [], ◌∷◌, ◌++◌, map,
  length, take, drop, ltb, leb, ◌==◌, bytes_beq, if◌then◌else◌,
}
use go_bt.Dht.Node.{Hash, Addr, addr_equal, Node}

abbrev pub minute : ℕ
minute = 60 * 1_000_000_000

abbrev pub bad_timeout : ℕ
bad_timeout = minute * 20

abbrev pub dubious_timeout : ℕ
dubious_timeout = minute * 15

-- `wrappedNode` without the pointer back to its bucket.
pub record WrappedNode : Type 0 where
  pub node : Node
  pub last_changed : ℕ

pub record Bucket : Type 0 where
  pub nodes : List WrappedNode
  pub last_changed : ℕ

abbrev pub empty_bucket : Bucket
empty_bucket = record { nodes = []; last_changed = 0 }

-- The values of `AddNode`.
pub data Added : Type 0 where
  node_added node_not_added node_exist_and_updated node_exist_and_changed : Added

pub data NodeStatus : Type 0 where
  status_good status_dubious status_bad : NodeStatus

unfoldable pub is_bad : ℕ → WrappedNode → Bool
is_bad now n = ltb bad_timeout (now - n.last_changed)

unfoldable pub status : ℕ → WrappedNode → NodeStatus
status now n =
    let duration = now - n.last_changed in
    if ltb bad_timeout duration
    then status_bad
    else if ltb dubious_timeout duration
    then status_dubious
    else status_good

abbrev pub has_id : Hash → WrappedNode → Bool
has_id id n = bytes_beq n.node.id id

-- `for _, orig := range b.Nodes { if orig.ID == n.ID … }`: the first node with the identifier.
unfoldable pub find_id : Hash → List WrappedNode → Option WrappedNode
find_id id [] = none
find_id id (n ∷ ns) = if has_id id n then some n else find_id id ns

-- `orig.UpdateLastChangedTime(now)`. The bucket holds pointers, and an entry is made only for an
-- identifier that the bucket lacks. So the entries with one identifier are copies of one pointer,
-- and the write shows in all of them.
unfoldable pub touch : Hash → ℕ → List WrappedNode → List WrappedNode
touch id now [] = []
touch id now (n ∷ ns) =
    (if has_id id n then record n { last_changed = now } else n) ∷ touch id now ns

-- `copy(b.Nodes[i:], b.Nodes[i+1:])`: the entries behind `i` move down by one, and the last place
-- keeps what it held.
unfoldable pub close_gap {ℓ} : {A : Type ℓ} → A → List A → List A
close_gap x [] = x ∷ []
close_gap x (y ∷ ys) = y ∷ close_gap y ys

unfoldable pub copy_down {ℓ} : {A : Type ℓ} → ℕ → List A → List A
copy_down i [] = []
copy_down zero (x ∷ xs) = close_gap x xs
copy_down (suc i) (x ∷ xs) = x ∷ copy_down i xs

-- The index of the first bad node.
unfoldable pub first_bad : ℕ → List WrappedNode → Option ℕ
first_bad now [] = none
first_bad now (n ∷ ns) =
    let rest = first_bad now ns in
    if is_bad now n then some 0 else elim rest [ none ↦ none | some i ↦ some (suc i) ]

abbrev pub wrap : Node → ℕ → WrappedNode
wrap n now = record { node = n; last_changed = now }

-- The part of `AddNode` behind the search for the identifier.
unfoldable pub add_new : ℕ → Bucket → Node → ℕ → Bucket × Added
add_new k b n now =
    if ltb (length b.nodes) k
    then (record { nodes = b.nodes ++ (wrap n now ∷ []); last_changed = now }, node_added)
    else elim (first_bad now b.nodes) [
      | some i ↦ (
        record { nodes = copy_down i b.nodes ++ (wrap n now ∷ []); last_changed = now },
        node_added,
      )
      | none ↦ (b, node_not_added)
    ]

-- `AddNode(n, now)` of a bucket, where `k` is the table's.
unfoldable pub add_node : ℕ → Bucket → Node → ℕ → Bucket × Added
add_node k b n now = elim (find_id n.id b.nodes) [
  | some orig ↦
      if addr_equal orig.node.addr n.addr
      then (record { nodes = touch n.id now b.nodes; last_changed = now }, node_exist_and_updated)
      else (b, node_exist_and_changed)
  | none ↦ add_new k b n now
]

-- The loop of `CheckAllNodes`: the addresses to ping, and the indexes of the bad nodes, from `i` on.
unfoldable pub dubious_addrs : ℕ → List WrappedNode → List Addr
dubious_addrs now [] = []
dubious_addrs now (n ∷ ns) =
    let rest = dubious_addrs now ns in
    elim (status now n) [ status_dubious ↦ n.node.addr ∷ rest | _ ↦ rest ]

unfoldable pub bad_indexes : ℕ → ℕ → List WrappedNode → List ℕ
bad_indexes now i [] = []
bad_indexes now i (n ∷ ns) =
    let rest = bad_indexes now (suc i) ns in
    elim (status now n) [ status_bad ↦ i ∷ rest | _ ↦ rest ]

-- `delNodeByIndex(index)`. The slice `b.Nodes[index+1:]` panics behind the end, shown as `none`.
unfoldable pub del_node_by_index {ℓ} : {A : Type ℓ} → ℕ → List A → Option (List A)
del_node_by_index i [] = none
del_node_by_index zero (x ∷ xs) = some xs
del_node_by_index (suc i) (x ∷ xs) = elim (del_node_by_index i xs) [
  | none ↦ none
  | some r ↦ some (x ∷ r)
]

-- The deletions one after the other, with the nodes as they stand and whether a deletion panicked.
unfoldable pub del_all {ℓ} : {A : Type ℓ} → List ℕ → List A → List A × Bool
del_all [] ns = (ns, false)
del_all (i ∷ is) ns = elim (del_node_by_index i ns) [ none ↦ (ns, true) | some r ↦ del_all is r ]

-- What `CheckAllNodes` does: the bucket, the addresses that it pings, and whether it panicked.
pub record Checked : Type 0 where
  pub bucket : Bucket
  pub pinged : List Addr
  pub panicked : Bool

unfoldable pub check_all_nodes : Bucket → ℕ → Checked
check_all_nodes b now =
    let swept = del_all (bad_indexes now 0 b.nodes) b.nodes in
    if length b.nodes == 0
    then record { bucket = b; pinged = []; panicked = false }
    else if ltb (now - b.last_changed) dubious_timeout
    then record { bucket = b; pinged = []; panicked = false }
    else record {
      bucket = record b { nodes = swept.0 };
      pinged = dubious_addrs now b.nodes;
      panicked = swept.1;
    }
