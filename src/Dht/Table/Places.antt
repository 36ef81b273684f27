-- ===== src/Dht/Table/Places.antt =====
-- The nodes of each bucket stay in their places (dht/routing_table.go).
use mathlib.Core.Path.{subst}
use go_bt.Prelude.{
  ℕ, zero, suc, ◌+◌, ◌-◌, ◌≡◌, refl, sym, Bool-cases, some, Option-cases, inl, inr, List, [], ◌∷◌,
  length, get_elem?, set, All, All-append, ltb, ◌==◌, ◌⊎◌, arith,
}
use go_bt.Dht.Node.{Hash, Node}
use go_bt.Dht.BucketId.{bucketid}
use go_bt.Dht.Bucket.{
  dubious_timeout, WrappedNode, Bucket, has_id, touch, close_gap, copy_down, wrap, add_node,
  bad_indexes, del_node_by_index, del_all, check_all_nodes,
}
use go_bt.Dht.Bucket.AddNode.{appended, add_node-cases}
use go_bt.Dht.Table.{check_buckets}

-- The node belongs to the bucket with the index `i`.
abbrev pub Fits : Hash → ℕ → WrappedNode → Type 0
Fits root i w = bucketid root w.node.id ≡ i

-- The nodes of the buckets, of which the first has the index `i`, belong to their buckets.
abbrev pub RoutedFrom : Hash → ℕ → List Bucket → Type 0
RoutedFrom root i [] = Unit
RoutedFrom root i (b ∷ bs) = All (Fits root i) b.nodes × RoutedFrom root (suc i) bs

module _ (root : Hash) (i : ℕ) where
  pub Fits-touch :
      (id : Hash) (now : ℕ) (ns : List WrappedNode)
      → All (Fits root i) ns
      → All (Fits root i) (touch id now ns)
  unfolding touch
  Fits-touch id now [] h = tt
  Fits-touch id now (n ∷ ns) h =
      let rest = Fits-touch id now ns h.1 in
      elim (Bool-cases (has_id id n)) [
        | inl e ↦ ground (arith, rest)
        | inr e ↦ ground (arith, rest)
      ]

  pub Fits-close_gap :
      (x : WrappedNode) (ns : List WrappedNode)
      → Fits root i x
      → All (Fits root i) ns
      → All (Fits root i) (close_gap x ns)
  unfolding close_gap
  Fits-close_gap x [] p h = (p, tt)
  Fits-close_gap x (y ∷ ys) p h = (h.0, Fits-close_gap y ys h.0 h.1)

  pub Fits-copy_down :
      (j : ℕ) (ns : List WrappedNode) → All (Fits root i) ns → All (Fits root i) (copy_down j ns)
  unfolding copy_down
  Fits-copy_down j [] h = tt
  Fits-copy_down zero (x ∷ xs) h = Fits-close_gap x xs h.0 h.1
  Fits-copy_down (suc j) (x ∷ xs) h = (h.0, Fits-copy_down j xs h.1)

  -- `AddNode` of the bucket `i` keeps the invariant, given a node that belongs there.
  pub Fits-add_node :
      (k : ℕ) (b : Bucket) (n : Node) (now : ℕ)
      → bucketid root n.id ≡ i
      → All (Fits root i) b.nodes
      → All (Fits root i) (add_node k b n now).0.nodes
  unfolding appended
  Fits-add_node k b n now e h =
      add_node-cases k b n now (λ p. All (Fits root i) p.0.nodes)
        (λ a r. All-append (Fits root i) b.nodes (wrap n now ∷ []) h (e, tt))
        (λ j a r g.
          All-append (Fits root i) (copy_down j b.nodes) (wrap n now ∷ [])
            (Fits-copy_down j b.nodes h) (e, tt))
        (λ a r g. h) (λ orig a s. Fits-touch n.id now b.nodes h) (λ orig a s. h)

  pub Fits-del :
      (j : ℕ) (ns r : List WrappedNode)
      → del_node_by_index j ns ≡ some r
      → All (Fits root i) ns
      → All (Fits root i) r
  unfolding del_node_by_index
  Fits-del j [] r e h = cc
  Fits-del zero (x ∷ xs) r e h = subst (All (Fits root i)) (cc) h.1
  Fits-del (suc j) (x ∷ xs) r e h = elim (Option-cases (del_node_by_index j xs)) [
    | inl a ↦ absurd (ground arith)
    | inr (s, a) ↦
        let q : x ∷ s ≡ r = ground arith in subst (All (Fits root i)) q (h.0, Fits-del j xs s a h.1)
  ]

  pub Fits-del_all :
      (js : List ℕ) (ns : List WrappedNode)
      → All (Fits root i) ns
      → All (Fits root i) (del_all js ns).0
  unfolding del_all
  Fits-del_all [] ns h = h
  Fits-del_all (j ∷ js) ns h = elim (Option-cases (del_node_by_index j ns)) [
    | inl a ↦
        let q : (del_all (j ∷ js) ns).0 ≡ ns = ground arith in subst (All (Fits root i)) (sym q) h
    | inr (s, a) ↦
        let q : (del_all (j ∷ js) ns).0 ≡ (del_all js s).0 = ground arith in
        subst (All (Fits root i)) (sym q) (Fits-del_all js s (Fits-del j ns s a h))
  ]

-- What the sweep of one bucket leaves: the bucket, or what the deletions leave of it.
pub check-cases :
    (b : Bucket) (now : ℕ)
    → ((check_all_nodes b now).bucket.nodes ≡ b.nodes)
      ⊎ ((check_all_nodes b now).bucket.nodes ≡ (del_all (bad_indexes now 0 b.nodes) b.nodes).0)
unfolding check_all_nodes
check-cases b now = elim (Bool-cases (length b.nodes == 0)) [
  | inl e ↦ inl (ground arith)
  | inr e ↦ elim (Bool-cases (ltb (now - b.last_changed) dubious_timeout)) [
    | inl d ↦ inl (ground arith)
    | inr d ↦ inr (ground arith)
  ]
]

pub Fits-check :
    (root : Hash) (i : ℕ) (b : Bucket) (now : ℕ)
    → All (Fits root i) b.nodes
    → All (Fits root i) (check_all_nodes b now).bucket.nodes
Fits-check root i b now h = elim (check-cases b now) [
  | inl e ↦ subst (All (Fits root i)) (sym e) h
  | inr e ↦
      subst (All (Fits root i)) (sym e) (Fits-del_all root i (bad_indexes now 0 b.nodes) b.nodes h)
]

pub routed-get :
    (root : Hash) (i j : ℕ) (bs : List Bucket) (b : Bucket)
    → RoutedFrom root i bs
    → get_elem? bs j ≡ some b
    → All (Fits root (i + j)) b.nodes
routed-get root i j [] b h e = cc
routed-get root i zero (x ∷ bs) b h e =
    let q : x ≡ b = cc in
    let z : i ≡ i + 0 = omega arith in
    subst (λ k. All (Fits root k) b.nodes) z
      (subst (λ (y : Bucket). All (Fits root i) y.nodes) q h.0)
routed-get root i (suc j) (x ∷ bs) b h e =
    let z : suc i + j ≡ i + suc j = omega arith in
    subst (λ k. All (Fits root k) b.nodes) z (routed-get root (suc i) j bs b h.1 e)

pub routed-set :
    (root : Hash) (i j : ℕ) (bs : List Bucket) (b : Bucket)
    → RoutedFrom root i bs
    → All (Fits root (i + j)) b.nodes
    → RoutedFrom root i (set bs j b)
routed-set root i j [] b h p = h
routed-set root i zero (x ∷ bs) b h p =
    let z : i + 0 ≡ i = omega arith in (subst (λ k. All (Fits root k) b.nodes) z p, h.1)
routed-set root i (suc j) (x ∷ bs) b h p =
    let z : i + suc j ≡ suc i + j = omega arith in
    (h.0, routed-set root (suc i) j bs b h.1 (subst (λ k. All (Fits root k) b.nodes) z p))

pub routed-check :
    (root : Hash) (i : ℕ) (bs : List Bucket) (now : ℕ)
    → RoutedFrom root i bs
    → RoutedFrom root i (check_buckets bs now).0
unfolding check_buckets
routed-check root i [] now h = h
routed-check root i (b ∷ bs) now h =
    let here = Fits-check root i b now h.0 in
    elim (Bool-cases (check_all_nodes b now).panicked) [
      | inl e ↦
          let q : (check_buckets (b ∷ bs) now).0 ≡ (check_all_nodes b now).bucket ∷ bs =
            ground arith in
          subst (RoutedFrom root i) (sym q) (here, h.1)
      | inr e ↦
          let q : (check_buckets (b ∷ bs) now).0
              ≡ (check_all_nodes b now).bucket ∷ (check_buckets bs now).0 =
            ground arith in
          subst (RoutedFrom root i) (sym q) (here, routed-check root (suc i) bs now h.1)
    ]

pub length-check : (bs : List Bucket) (now : ℕ) → length (check_buckets bs now).0 ≡ length bs
unfolding check_buckets
length-check [] now = refl
length-check (b ∷ bs) now = ground (arith, length-check bs now)
