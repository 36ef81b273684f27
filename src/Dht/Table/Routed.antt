-- ===== src/Dht/Table/Routed.antt =====
-- The invariant of the routing table (dht/routing_table.go): each node stands in the bucket of its
-- identifier.
use mathlib.Core.Path.{subst}
use go_bt.Prelude.{
  ℕ, zero, suc, ◌+◌, ◌-◌, ◌<◌, ◌≡◌, refl, sym, ◌∙◌, true, false, Bool-cases, Option, some, inl, inr,
  List, [], ◌∷◌, length, get_elem?, get_elem?-some, set, length-set, replicate, length-replicate,
  All, ltb, bytes_beq, arith,
}
use go_bt.Dht.Node.{Hash, IsHash, Node}
use go_bt.Dht.BucketId.{bucketid, bucketid-lt}
use go_bt.Dht.Bucket.{
  dubious_timeout, WrappedNode, Bucket, empty_bucket, Added, node_not_added, add_node,
}
use go_bt.Dht.Table.{Table, new_table, table_add, table_add_node, load, check_all_buckets}
use go_bt.Dht.Table.Places.{
  RoutedFrom, Fits-add_node, routed-get, routed-set, routed-check, length-check,
}

-- The invariant of the table.
pub record IsRouted (t : Table) : Type 0 where
  pub root_hash : IsHash t.root
  pub size : length t.buckets ≡ 160
  pub routed : RoutedFrom t.root 0 t.buckets

routed-empty : (root : Hash) (i n : ℕ) → RoutedFrom root i (replicate n empty_bucket)
routed-empty root i zero = tt
routed-empty root i (suc n) = (tt, routed-empty root (suc i) n)

pub new_table-IsRouted : (root : Hash) (k : ℕ) → IsHash root → IsRouted (new_table root k)
new_table-IsRouted root k h = record {
  root_hash = h;
  size = length-replicate 160 empty_bucket;
  routed = routed-empty root 0 160;
}

table_add-found :
    (t : Table) (n : Node) (now : ℕ) (b : Bucket)
    → get_elem? t.buckets (bucketid t.root n.id) ≡ some b
    → table_add t n now
      ≡ some (
        record t { buckets = set t.buckets (bucketid t.root n.id) (add_node t.k b n now).0 },
        (add_node t.k b n now).1,
      )
unfolding table_add
table_add-found t n now b e = ground arith

-- The table `t'` and the answer `a` come from `t` without a panic, and `t'` keeps the invariant.
pub record Adds (t : Table) (r : Option (Table × Added)) : Type 0 where
  pub table : Table
  pub answer : Added
  pub returns : r ≡ some (table, answer)
  pub same_root : table.root ≡ t.root
  pub routed : IsRouted table

-- `addNode` finds a bucket for every node, and keeps each node in the bucket of its identifier.
pub table_add-IsRouted :
    (t : Table) (n : Node) (now : ℕ) → IsRouted t → IsHash n.id → Adds t (table_add t n now)
table_add-IsRouted t n now w h =
    let i : ℕ = bucketid t.root n.id in
    let l : i < length t.buckets = omega (arith, bucketid-lt t.root n.id w.root_hash h, w.size) in
    let (b, e) = get_elem?-some t.buckets i l in
    record {
      table = record t { buckets = set t.buckets i (add_node t.k b n now).0 };
      answer = (add_node t.k b n now).1;
      returns = table_add-found t n now b e;
      same_root = refl;
      routed = record {
        root_hash = w.root_hash;
        size = length-set t.buckets i (add_node t.k b n now).0 ∙ w.size;
        routed = routed-set t.root 0 i t.buckets (add_node t.k b n now).0 w.routed (
            Fits-add_node t.root (0 + i) t.k b n now (omega arith)
              (routed-get t.root 0 i t.buckets b w.routed e));
      };
    }

add_node-own :
    (t : Table) (n : Node) (now : ℕ)
    → bytes_beq n.id t.root ≡ true
    → table_add_node t n now ≡ some (t, node_not_added)
unfolding table_add_node
add_node-own t n now e = ground arith

add_node-other :
    (t : Table) (n : Node) (now : ℕ)
    → bytes_beq n.id t.root ≡ false
    → table_add_node t n now ≡ table_add t n now
unfolding table_add_node
add_node-other t n now e = ground arith

-- On a table whose owner has a 20-byte identifier, which has 160 buckets and each node in the
-- bucket of its identifier, `AddNode` of a node with a 20-byte identifier does not panic, and the
-- table it leaves is again such a table.
pub table_add_node-IsRouted :
    (t : Table) (n : Node) (now : ℕ) → IsRouted t → IsHash n.id → Adds t (table_add_node t n now)
table_add_node-IsRouted t n now w h = elim (Bool-cases (bytes_beq n.id t.root)) [
  | inl e ↦ record {
    table = t;
    answer = node_not_added;
    returns = add_node-own t n now e;
    same_root = refl;
    routed = w;
  }
  | inr e ↦ subst (Adds t) (sym (add_node-other t n now e)) (table_add-IsRouted t n now w h)
]

-- The sweep of all buckets keeps the invariant, whether a deletion panics or not.
pub check_all_buckets-IsRouted :
    (t : Table) (now : ℕ) → IsRouted t → IsRouted (check_all_buckets t now).0
unfolding check_all_buckets
check_all_buckets-IsRouted t now w = record {
  root_hash = w.root_hash;
  size = length-check t.buckets now ∙ w.size;
  routed = routed-check t.root 0 t.buckets now w.routed;
}

load-young :
    (t : Table) (now : ℕ) (n : WrappedNode) (ns : List WrappedNode)
    (a : Adds t (table_add t n.node n.last_changed))
    → ltb (now - n.last_changed) dubious_timeout ≡ true
    → load t now (n ∷ ns) ≡ load a.table now ns
unfolding load
load-young t now n ns a e = ground (arith, a.returns)

load-old :
    (t : Table) (now : ℕ) (n : WrappedNode) (ns : List WrappedNode)
    → ltb (now - n.last_changed) dubious_timeout ≡ false
    → load t now (n ∷ ns) ≡ load t now ns
unfolding load
load-old t now n ns e = ground arith

-- Loading the stored nodes, all with 20-byte identifiers, into a table with the invariant does not
-- panic and gives a table with the invariant.
pub load-IsRouted :
    (t : Table) (now : ℕ) (ns : List WrappedNode)
    → IsRouted t
    → All (λ n. IsHash n.node.id) ns
    → (t' : Table) × (load t now ns ≡ some t') × IsRouted t'
unfolding load
load-IsRouted t now [] w h = (t, refl, w)
load-IsRouted t now (n ∷ ns) w h = elim (Bool-cases (ltb (now - n.last_changed) dubious_timeout)) [
  | inl e ↦
      let a = table_add-IsRouted t n.node n.last_changed w h.0 in
      let (u, q, v) = load-IsRouted a.table now ns a.routed h.1 in
      (u, load-young t now n ns a e ∙ q, v)
  | inr e ↦ let (u, q, v) = load-IsRouted t now ns w h.1 in (u, load-old t now n ns e ∙ q, v)
]
