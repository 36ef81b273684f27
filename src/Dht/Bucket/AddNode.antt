-- ===== src/Dht/Bucket/AddNode.antt =====
-- What `AddNode` of a bucket (dht/routing_table.go) does to the nodes of the bucket.
use go_bt.Prelude.{
  ℕ, ◌+◌, ◌<◌, ◌≤◌, ◌≡◌, ◌⊎◌, ap, sym, ◌∙◌, true, false, Bool-cases, none, some, Option-cases, inl,
  inr, List, [], ◌∷◌, ◌++◌, length, length-append, arith,
}
use mathlib.Core.Path.{subst}
use native.Mathlib.Decide.{dec_lt}
use go_bt.Dht.Node.{Hash, addr_equal, Node}
use go_bt.Dht.Bucket.{
  WrappedNode, Bucket, Added, node_added, node_not_added, node_exist_and_updated,
  node_exist_and_changed, find_id, touch, copy_down, first_bad, wrap, add_new, add_node,
}
use go_bt.Dht.Bucket.Holds.{
  holds, holds_good, holds-append, holds-touch, length-touch, length-copy_down, good→holds,
  holds-copy_down,
}

-- The equations of `AddNode`, one for each way through it.
module _ (k : ℕ) (b : Bucket) (n : Node) (now : ℕ) where
  unfoldable pub appended : List WrappedNode → Bucket
  appended ns = record { nodes = ns ++ (wrap n now ∷ []); last_changed = now }

  add_new_room : length b.nodes < k → add_new k b n now ≡ (appended b.nodes, node_added)
  unfolding add_new appended
  add_new_room h = ground arith

  add_new_replace :
      (i : ℕ)
      → k ≤ length b.nodes
      → first_bad now b.nodes ≡ some i
      → add_new k b n now ≡ (appended (copy_down i b.nodes), node_added)
  unfolding add_new appended
  add_new_replace i h e = ground arith

  add_new_refuse :
      k ≤ length b.nodes → first_bad now b.nodes ≡ none → add_new k b n now ≡ (b, node_not_added)
  unfolding add_new
  add_new_refuse h e = ground arith

  add_node_absent : find_id n.id b.nodes ≡ none → add_node k b n now ≡ add_new k b n now
  unfolding add_node
  add_node_absent e = ground arith

  add_node_same :
      (orig : WrappedNode)
      → find_id n.id b.nodes ≡ some orig
      → addr_equal orig.node.addr n.addr ≡ true
      → add_node k b n now
        ≡ (record { nodes = touch n.id now b.nodes; last_changed = now }, node_exist_and_updated)
  unfolding add_node
  add_node_same orig e a = ground arith

  add_node_other :
      (orig : WrappedNode)
      → find_id n.id b.nodes ≡ some orig
      → addr_equal orig.node.addr n.addr ≡ false
      → add_node k b n now ≡ (b, node_exist_and_changed)
  unfolding add_node
  add_node_other orig e a = ground arith

  -- A statement about the result of `AddNode`, from the statement on every way through it.
  pub add_node-cases {ℓ} :
      (P : Bucket × Added → Type ℓ)
      → (find_id n.id b.nodes ≡ none → length b.nodes < k → P (appended b.nodes, node_added))
      → ((i : ℕ)
          → find_id n.id b.nodes ≡ none
          → k ≤ length b.nodes
          → first_bad now b.nodes ≡ some i
          → P (appended (copy_down i b.nodes), node_added))
      → (find_id n.id b.nodes ≡ none
          → k ≤ length b.nodes
          → first_bad now b.nodes ≡ none
          → P (b, node_not_added))
      → ((orig : WrappedNode)
          → find_id n.id b.nodes ≡ some orig
          → addr_equal orig.node.addr n.addr ≡ true
          → P (
            record { nodes = touch n.id now b.nodes; last_changed = now },
            node_exist_and_updated,
          ))
      → ((orig : WrappedNode)
          → find_id n.id b.nodes ≡ some orig
          → addr_equal orig.node.addr n.addr ≡ false
          → P (b, node_exist_and_changed))
      → P (add_node k b n now)
  add_node-cases P room replace refuse same other = elim (Option-cases (find_id n.id b.nodes)) [
    | inr (orig, e) ↦ elim (Bool-cases (addr_equal orig.node.addr n.addr)) [
      | inl a ↦ subst P (sym (add_node_same orig e a)) (same orig e a)
      | inr a ↦ subst P (sym (add_node_other orig e a)) (other orig e a)
    ]
    | inl e ↦ subst P (sym (add_node_absent e)) (elim (dec_lt (length b.nodes) k) [
      | yes h ↦ subst P (sym (add_new_room h)) (room e h)
      | no h ↦ elim (Option-cases (first_bad now b.nodes)) [
        | inl g ↦ subst P (sym (add_new_refuse (omega arith) g)) (refuse e (omega arith) g)
        | inr (i, g) ↦
            subst P (sym (add_new_replace i (omega arith) g)) (replace i e (omega arith) g)
      ]
    ])
  ]

  -- `AddNode` drops no node that is not bad: its identifier stays in the bucket.
  pub add_node_keeps_good :
      (id : Hash) → holds_good now id b.nodes ≡ true → holds id (add_node k b n now).0.nodes ≡ true
  unfolding appended
  add_node_keeps_good id h =
      let there : holds id b.nodes ≡ true = good→holds now id b.nodes h in
      add_node-cases (λ p. holds id p.0.nodes ≡ true)
        (λ e r. ground (arith, holds-append id b.nodes (wrap n now ∷ [])))
        (λ i e r g. ground (
          arith,
          holds-append id (copy_down i b.nodes) (wrap n now ∷ []),
          holds-copy_down now id i b.nodes g h,
        ))
        (λ e r g. there) (λ orig e a. holds-touch id n.id now b.nodes ∙ there) (λ orig e a. there)

  -- A bucket within its size stays within it where it has room, or where no node is bad.
  pub add_node_bound :
      (length b.nodes < k) ⊎ (first_bad now b.nodes ≡ none)
      → length b.nodes ≤ k
      → length (add_node k b n now).0.nodes ≤ k
  unfolding appended
  add_node_bound h l =
      add_node-cases (λ p. length p.0.nodes ≤ k)
        (λ e r. omega (arith, length-append b.nodes (wrap n now ∷ []))) (λ i e r g. ground arith)
        (λ e r g. l) (λ orig e a. omega (arith, length-touch n.id now b.nodes)) (λ orig e a. l)

  -- A full bucket with a bad node does not have that node replaced: the new node is appended, and
  -- the bucket grows by one entry, past `k`.
  pub add_node_overfull :
      (i : ℕ)
      → k ≤ length b.nodes
      → find_id n.id b.nodes ≡ none
      → first_bad now b.nodes ≡ some i
      → (add_node k b n now ≡ (appended (copy_down i b.nodes), node_added))
        × (length (add_node k b n now).0.nodes ≡ length b.nodes + 1)
  unfolding appended
  add_node_overfull i full absent bad =
      let e = add_node_absent absent ∙ add_new_replace i full bad in
      (
        e,
        ap (λ (p : Bucket × Added). length p.0.nodes) e
            ∙ length-append (copy_down i b.nodes) (wrap n now ∷ [])
            ∙ omega (arith, length-copy_down i b.nodes),
      )
