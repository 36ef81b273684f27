-- ===== src/Dht/Bucket/Check.antt =====
-- What `CheckAllNodes` (dht/routing_table.go) removes.
use go_bt.Prelude.{
  ℕ, suc, ◌+◌, ◌-◌, ◌≤◌, ◌≡◌, ◌≢◌, refl, ap, ap₂, sym, ◌∙◌, true, false, some, List, [], ◌∷◌, ◌++◌,
  length, All, arith,
}
use go_bt.Dht.Bucket.{
  dubious_timeout, WrappedNode, Bucket, status_bad, is_bad, status, bad_indexes, del_node_by_index,
  del_all, check_all_nodes,
}

-- The nodes of the list have a status other than bad.
abbrev pub NoneBad : ℕ → List WrappedNode → Type 0
NoneBad now = All (λ n. is_bad now n ≡ false)

status-bad : (now : ℕ) (n : WrappedNode) → is_bad now n ≡ true → status now n ≡ status_bad
unfolding is_bad status
status-bad now n h = ground arith

status-ne_bad : (now : ℕ) (n : WrappedNode) → is_bad now n ≡ false → status now n ≢ status_bad
unfolding is_bad status
status-ne_bad now n h = ground arith

bad_indexes-none : (now i : ℕ) (ns : List WrappedNode) → NoneBad now ns → bad_indexes now i ns ≡ []
unfolding bad_indexes
bad_indexes-none now i [] h = refl
bad_indexes-none now i (n ∷ ns) h =
    ground (arith, status-ne_bad now n h.0, bad_indexes-none now (suc i) ns h.1)

bad_indexes-append :
    (now i : ℕ) (pre ns : List WrappedNode)
    → NoneBad now pre
    → bad_indexes now i (pre ++ ns) ≡ bad_indexes now (i + length pre) ns
unfolding bad_indexes
bad_indexes-append now i [] ns h = ap (λ k. bad_indexes now k ns) (omega arith)
bad_indexes-append now i (n ∷ pre) ns h =
    let e : suc i + length pre ≡ i + suc (length pre) = omega arith in
    ground (
      arith,
      status-ne_bad now n h.0,
      bad_indexes-append now (suc i) pre ns h.1,
      ap (λ k. bad_indexes now k ns) e,
    )

bad_indexes-bad :
    (now i : ℕ) (n : WrappedNode) (ns : List WrappedNode)
    → is_bad now n ≡ true
    → bad_indexes now i (n ∷ ns) ≡ i ∷ bad_indexes now (suc i) ns
unfolding bad_indexes
bad_indexes-bad now i n ns h = ground (arith, status-bad now n h)

del-append {ℓ} :
    {A : Type ℓ} (pre : List A) (x : A) (post : List A)
    → del_node_by_index (length pre) (pre ++ (x ∷ post)) ≡ some (pre ++ post)
unfolding del_node_by_index
del-append [] x post = refl
del-append (y ∷ pre) x post = rw (del-append pre x post)

del-append_next {ℓ} :
    {A : Type ℓ} (pre : List A) (y x : A) (post : List A)
    → del_node_by_index (suc (length pre)) (pre ++ (y ∷ x ∷ post)) ≡ some (pre ++ (y ∷ post))
unfolding del_node_by_index
del-append_next [] y x post = refl
del-append_next (z ∷ pre) y x post = rw (del-append_next pre y x post)

-- One deletion that succeeds, and the rest.
del_all-cons {ℓ} :
    {A : Type ℓ} (i : ℕ) (is : List ℕ) (ns r : List A)
    → del_node_by_index i ns ≡ some r
    → (del_all (i ∷ is) ns).0 ≡ (del_all is r).0
unfolding del_all
del_all-cons i is ns r e = ground (arith)

del_all-nil {ℓ} : {A : Type ℓ} (ns : List A) → (del_all [] ns).0 ≡ ns
unfolding del_all
del_all-nil ns = refl

append-ne_nil {ℓ} : {A : Type ℓ} (pre : List A) (x : A) (post : List A) → pre ++ (x ∷ post) ≢ []
append-ne_nil [] x post e = cc
append-ne_nil (y ∷ pre) x post e = cc

-- The bucket is old enough to be checked.
abbrev pub IsDue : Bucket → ℕ → Type 0
IsDue b now = dubious_timeout ≤ now - b.last_changed

check-due :
    (b : Bucket) (now : ℕ)
    → IsDue b now
    → b.nodes ≢ []
    → (check_all_nodes b now).bucket.nodes ≡ (del_all (bad_indexes now 0 b.nodes) b.nodes).0
unfolding check_all_nodes
check-due b now d h = ground arith

module _ (b : Bucket) (now : ℕ) (due : IsDue b now) (pre post : List WrappedNode) where
  nodes_there :
      (n : WrappedNode) (rest : List WrappedNode) → b.nodes ≡ pre ++ (n ∷ rest) → b.nodes ≢ []
  nodes_there n rest e z = append-ne_nil pre n rest (sym e ∙ z)

  -- A bucket that is due, as `IsDue` has it, and has one bad node loses exactly that node.
  pub check_one_bad :
      (n : WrappedNode)
      → b.nodes ≡ pre ++ (n ∷ post)
      → NoneBad now pre
      → is_bad now n ≡ true
      → NoneBad now post
      → (check_all_nodes b now).bucket.nodes ≡ pre ++ post
  check_one_bad n e hp hb hq =
      let ns : List WrappedNode = pre ++ (n ∷ post) in
      let is : bad_indexes now 0 ns ≡ length pre ∷ [] =
        bad_indexes-append now 0 pre (n ∷ post) hp
        ∙ bad_indexes-bad now (0 + length pre) n post hb
        ∙ ap₂ ◌∷◌ (omega arith) (bad_indexes-none now _ post hq) in
      check-due b now due (nodes_there n post e)
      ∙ ap (λ xs. (del_all (bad_indexes now 0 xs) xs).0) e
      ∙ ap (λ js. (del_all js ns).0) is
      ∙ del_all-cons (length pre) [] ns (pre ++ post) (del-append pre n post)
      ∙ del_all-nil (pre ++ post)

  -- `CheckAllNodes` of a bucket whose last change is 15 minutes ago or more, with two bad nodes side by
  -- side, another node behind them, and no further bad one: the second deletion uses an index from
  -- before the first. So the node behind the pair goes, though it is not bad, and the second bad node
  -- stays.
  pub check_two_bad :
      (m n g : WrappedNode)
      → b.nodes ≡ pre ++ (m ∷ n ∷ g ∷ post)
      → NoneBad now pre
      → is_bad now m ≡ true
      → is_bad now n ≡ true
      → NoneBad now (g ∷ post)
      → (check_all_nodes b now).bucket.nodes ≡ pre ++ (n ∷ post)
  check_two_bad m n g e hp hm hn hg =
      let ns : List WrappedNode = pre ++ (m ∷ n ∷ g ∷ post) in
      let is : bad_indexes now 0 ns ≡ length pre ∷ suc (length pre) ∷ [] =
        bad_indexes-append now 0 pre (m ∷ n ∷ g ∷ post) hp
        ∙ bad_indexes-bad now (0 + length pre) m (n ∷ g ∷ post) hm
        ∙ ap₂ ◌∷◌ (omega arith) (
            bad_indexes-bad now (suc (0 + length pre)) n (g ∷ post) hn
            ∙ ap₂ ◌∷◌ (omega arith) (bad_indexes-none now _ (g ∷ post) hg)) in
      check-due b now due (nodes_there m (n ∷ g ∷ post) e)
      ∙ ap (λ xs. (del_all (bad_indexes now 0 xs) xs).0) e
      ∙ ap (λ js. (del_all js ns).0) is
      ∙ del_all-cons (length pre) (suc (length pre) ∷ []) ns (pre ++ (n ∷ g ∷ post))
          (del-append pre m (n ∷ g ∷ post))
      ∙ del_all-cons (suc (length pre)) [] (pre ++ (n ∷ g ∷ post)) (pre ++ (n ∷ post))
          (del-append_next pre n g post)
      ∙ del_all-nil (pre ++ (n ∷ post))
