-- ===== src/Dht/Bucket/Answers.antt =====
-- What each answer of `AddNode` of a bucket (dht/routing_table.go) says of the bucket before and
-- after it.
use go_bt.Prelude.{
  ℕ, zero, suc, ◌<◌, ◌≤◌, ◌≡◌, ◌≢◌, refl, ap, ap₂, ◌∙◌, true, false, Bool-cases, none, some,
  Option-cases, inl, inr, List, [], ◌∷◌, ◌++◌, append_assoc, map, length, All, bytes_beq_iff,
  bytes_beq_refl, if◌then◌else◌, arith,
}
use mathlib.Core.Path.{subst}
use go_bt.Dht.Node.{Hash, Addr, addr_equal, Node}
use go_bt.Dht.Bucket.{
  WrappedNode, Bucket, Added, node_added, node_not_added, node_exist_and_updated,
  node_exist_and_changed, is_bad, has_id, find_id, touch, close_gap, copy_down, first_bad, wrap,
  add_node,
}
use go_bt.Dht.Bucket.Holds.{holds, find_id-holds, map-touch, first_bad_zero, first_bad-suc}
use go_bt.Dht.Bucket.AddNode.{appended, add_node-cases}
use go_bt.Dht.Bucket.Check.{NoneBad}

-- The last node of `x ∷ ns`.
abbrev pub last_of : WrappedNode → List WrappedNode → WrappedNode
last_of x [] = x
last_of x (y ∷ ys) = last_of y ys

-- The nodes with another identifier.
abbrev pub others : Hash → List WrappedNode → List WrappedNode
others id [] = []
others id (n ∷ ns) = if has_id id n then others id ns else n ∷ others id ns

-- `orig` is the first node of the list with the identifier.
pub record IsFirst (id : Hash) (ns : List WrappedNode) (orig : WrappedNode) : Type 0 where
  pub before : List WrappedNode
  pub behind : List WrappedNode
  pub split : ns ≡ before ++ (orig ∷ behind)
  pub absent : holds id before ≡ false
  pub same : has_id id orig ≡ true

-- The answers of `AddNode` of the node `n`, in a table of buckets of `k` nodes.
pub data Outcome (k : ℕ) (b : Bucket) (n : Node) (now : ℕ) : Bucket → Added → Type 0 where
  appends :
      {b' : Bucket}
      → holds n.id b.nodes ≡ false
      → length b.nodes < k
      → b'.nodes ≡ b.nodes ++ (wrap n now ∷ [])
      → b'.last_changed ≡ now
      → Outcome k b n now b' node_added
  replaces :
      {b' : Bucket} (pre post : List WrappedNode) (bad : WrappedNode)
      → holds n.id b.nodes ≡ false
      → k ≤ length b.nodes
      → b.nodes ≡ pre ++ (bad ∷ post)
      → NoneBad now pre
      → is_bad now bad ≡ true
      → b'.nodes ≡ pre ++ (post ++ (last_of bad post ∷ wrap n now ∷ []))
      → b'.last_changed ≡ now
      → Outcome k b n now b' node_added
  refuses :
      holds n.id b.nodes ≡ false
      → k ≤ length b.nodes
      → NoneBad now b.nodes
      → Outcome k b n now b node_not_added
  updates :
      {b' : Bucket} (orig : WrappedNode)
      → IsFirst n.id b.nodes orig
      → orig.node.addr ≡ n.addr
      → map (λ w. w.node) b'.nodes ≡ map (λ w. w.node) b.nodes
      → All (λ w. has_id n.id w ≡ true → w.last_changed ≡ now) b'.nodes
      → others n.id b'.nodes ≡ others n.id b.nodes
      → b'.last_changed ≡ now
      → Outcome k b n now b' node_exist_and_updated
  changes :
      (orig : WrappedNode)
      → IsFirst n.id b.nodes orig
      → orig.node.addr ≢ n.addr
      → Outcome k b n now b node_exist_and_changed

addr_equal_sound : (a o : Addr) → addr_equal a o ≡ true → a ≡ o
unfolding addr_equal
addr_equal_sound a o h =
    let same_ip : a.ip ≡ o.ip = (bytes_beq_iff a.ip o.ip).0 (ground arith) in
    let same_port : a.port ≡ o.port = ground arith in
    ap₂ (λ i p. record { ip = i; port = p }) same_ip same_port

addr_equal_refl : (a : Addr) → addr_equal a a ≡ true
unfolding addr_equal
addr_equal_refl a = ground (arith, bytes_beq_refl a.ip)

find_id-IsFirst :
    (id : Hash) (ns : List WrappedNode) (w : WrappedNode) → find_id id ns ≡ some w → IsFirst id ns w
unfolding find_id
find_id-IsFirst id [] w e = absurd (cc)
find_id-IsFirst id (n ∷ ns) w e = elim (Bool-cases (has_id id n)) [
  | inl h ↦
      let same : n ≡ w = ground arith in
      record {
        before = [];
        behind = ns;
        split = ap (λ x. x ∷ ns) same;
        absent = refl;
        same = subst (λ x. has_id id x ≡ true) same h;
      }
  | inr h ↦
      let r = find_id-IsFirst id ns w (ground arith) in
      record {
        before = n ∷ r.before;
        behind = r.behind;
        split = ap (◌∷◌ n) r.split;
        absent = rw h r.absent;
        same = r.same;
      }
]

others-touch :
    (id : Hash) (now : ℕ) (ns : List WrappedNode) → others id (touch id now ns) ≡ others id ns
unfolding touch
others-touch id now [] = refl
others-touch id now (n ∷ ns) = ground (arith, others-touch id now ns)

touch-now :
    (id : Hash) (now : ℕ) (ns : List WrappedNode)
    → All (λ w. has_id id w ≡ true → w.last_changed ≡ now) (touch id now ns)
unfolding touch
touch-now id now [] = tt
touch-now id now (n ∷ ns) = elim (Bool-cases (has_id id n)) [
  | inl e ↦ rw e ((λ h. refl), touch-now id now ns)
  | inr e ↦ rw e ((λ h. absurd (cc)), touch-now id now ns)
]

close_gap-last :
    (x : WrappedNode) (ns : List WrappedNode) → close_gap x ns ≡ ns ++ (last_of x ns ∷ [])
unfolding close_gap
close_gap-last x [] = refl
close_gap-last x (y ∷ ys) = ap (◌∷◌ y) (close_gap-last y ys)

-- Where the first bad node stands, and what closing its gap makes of the list.
record FirstBad (now i : ℕ) (ns : List WrappedNode) : Type 0 where
  pre : List WrappedNode
  post : List WrappedNode
  bad : WrappedNode
  split : ns ≡ pre ++ (bad ∷ post)
  none_before : NoneBad now pre
  is_it : is_bad now bad ≡ true
  moved : copy_down i ns ≡ pre ++ (post ++ (last_of bad post ∷ []))

first_bad-FirstBad :
    (now i : ℕ) (ns : List WrappedNode) → first_bad now ns ≡ some i → FirstBad now i ns
unfolding first_bad copy_down
first_bad-FirstBad now i [] e = absurd (cc)
first_bad-FirstBad now zero (n ∷ ns) e = record {
  pre = [];
  post = ns;
  bad = n;
  split = refl;
  none_before = tt;
  is_it = first_bad_zero now n ns e;
  moved = close_gap-last n ns;
}
first_bad-FirstBad now (suc i) (n ∷ ns) e =
    let r = first_bad-FirstBad now i ns (first_bad-suc now i n ns e) in
    record {
      pre = n ∷ r.pre;
      post = r.post;
      bad = r.bad;
      split = ap (◌∷◌ n) r.split;
      none_before = (ground (arith, Option-cases (first_bad now ns)), r.none_before);
      is_it = r.is_it;
      moved = ap (◌∷◌ n) r.moved;
    }

first_bad-NoneBad : (now : ℕ) (ns : List WrappedNode) → first_bad now ns ≡ none → NoneBad now ns
unfolding first_bad
first_bad-NoneBad now [] e = tt
first_bad-NoneBad now (n ∷ ns) e = elim (Option-cases (first_bad now ns)) [
  | inl g ↦ (ground arith, first_bad-NoneBad now ns g)
  | inr g ↦ absurd (ground arith)
]

append-last :
    (pre post : List WrappedNode) (x y : WrappedNode)
    → (pre ++ (post ++ (x ∷ []))) ++ (y ∷ []) ≡ pre ++ (post ++ (x ∷ y ∷ []))
append-last pre post x y =
    append_assoc pre (post ++ (x ∷ [])) (y ∷ [])
    ∙ ap (λ b. pre ++ b) (append_assoc post (x ∷ []) (y ∷ []))

module _ (k : ℕ) (b : Bucket) (n : Node) (now : ℕ) where
  replaces-first :
      (i : ℕ)
      → holds n.id b.nodes ≡ false
      → k ≤ length b.nodes
      → FirstBad now i b.nodes
      → Outcome k b n now (appended k b n now (copy_down i b.nodes)) node_added
  unfolding appended
  replaces-first i h full f =
      replaces f.pre f.post f.bad h full f.split f.none_before f.is_it
        (ap (λ ns. ns ++ (wrap n now ∷ [])) f.moved
          ∙ append-last f.pre f.post (last_of f.bad f.post) (wrap n now))
        refl

  -- The answers of `AddNode`. Where no node has the identifier, the node is added at the end with
  -- the time, and the bucket's time is set: to all the nodes, where there are fewer than `k`; else
  -- to the nodes without the first bad one, behind which the bucket's last node stands once more.
  -- Where there are `k` and none is bad, the node is not added and the bucket is as before. Where
  -- the first node with the identifier has the address of the new one, the answer is that it was
  -- updated: the nodes are the same, those with the identifier and the bucket have the time, the
  -- others keep theirs. Where its address is another one, the answer is that it has changed, and
  -- the bucket is as before.
  pub add_node-Outcome : Outcome k b n now (add_node k b n now).0 (add_node k b n now).1
  unfolding appended
  add_node-Outcome =
      add_node-cases k b n now (λ p. Outcome k b n now p.0 p.1)
        (λ e h. appends (find_id-holds n.id b.nodes e) h refl refl)
        (λ i e h g.
          replaces-first i (find_id-holds n.id b.nodes e) h (first_bad-FirstBad now i b.nodes g))
        (λ e h g. refuses (find_id-holds n.id b.nodes e) h (first_bad-NoneBad now b.nodes g))
        (λ orig e a.
          updates orig (find_id-IsFirst n.id b.nodes orig e)
            (addr_equal_sound orig.node.addr n.addr a) (map-touch n.id now b.nodes)
            (touch-now n.id now b.nodes) (others-touch n.id now b.nodes) refl)
        (λ orig e a. changes orig (find_id-IsFirst n.id b.nodes orig e) (λ same.
          absurd (ground (arith, addr_equal_refl n.addr, ap (λ x. addr_equal x n.addr) same))))
