-- ===== src/Dht/Closest.antt =====
-- `Closest` and `nodesByDistance` of dht/routing_table.go.
pub mod Search
pub mod Insert
pub mod Optimal
use go_bt.Prelude.{
  ℕ, zero, suc, ◌+◌, ◌/◌, Bool, true, false, not, Option, none, some, List, [], ◌∷◌, ◌++◌, length,
  get_elem?, ltb, ◌==◌, if◌then◌else◌,
}
use go_bt.Dht.Node.{Hash, Node}
use go_bt.Dht.Distance.{Cmp, less, same, greater, distcmp}

-- `sort.Search(n, f)`: `for i < j { h := (i+j)/2; if !f(h) { i = h + 1 } else { j = h } }`, with a
-- round of fuel for each index.
unfoldable pub search_loop : ℕ → (ℕ → Bool) → ℕ → ℕ → ℕ
search_loop zero f i j = i
search_loop (suc fuel) f i j =
    let h = (i + j) / 2 in
    let right = search_loop fuel f (h + 1) j in
    let left = search_loop fuel f i h in if ltb i j then (if f h then left else right) else i

unfoldable pub sort_search : ℕ → (ℕ → Bool) → ℕ
sort_search n f = search_loop n f 0 n

abbrev pub is_greater : Cmp → Bool
is_greater greater = true
is_greater _ = false

-- `distcmp(ns.target, x, node.ID) > 0`: whether `x` is farther from the target than `node`.
unfoldable pub farther : Hash → Node → Node → Bool
farther target x node = is_greater (distcmp target x.id node.id)

-- `copy(nodes[ix+1:], nodes[ix:]); nodes[ix] = node`: the entries from `ix` on move up by one, and
-- the last one falls off.
unfoldable pub slide {ℓ} : {A : Type ℓ} → ℕ → A → List A → List A
slide i node [] = []
slide zero node (x ∷ xs) = node ∷ slide zero x xs
slide (suc i) node (x ∷ xs) = x ∷ slide i node xs

-- The test that `push` hands to `sort.Search`. It is called within the list only.
unfoldable pub after : (Node → Bool) → List Node → ℕ → Bool
after f nodes i = elim (get_elem? nodes i) [ none ↦ false | some x ↦ f x ]

unfoldable pub push : Hash → ℕ → List Node → Node → List Node
push target maxnum nodes node =
    let ix = sort_search (length nodes) (after (λ x. farther target x node) nodes) in
    let grown = if ltb (length nodes) maxnum then nodes ++ (node ∷ []) else nodes in
    if ix == length grown then grown else slide ix node grown

-- The loop of `Closest` over the nodes of one bucket, and over the buckets.
unfoldable pub push_all : Hash → ℕ → List Node → List Node → List Node
push_all target maxnum nodes [] = nodes
push_all target maxnum nodes (n ∷ ns) = push_all target maxnum (push target maxnum nodes n) ns

unfoldable pub push_buckets : Hash → ℕ → List Node → List (List Node) → List Node
push_buckets target maxnum nodes [] = nodes
push_buckets target maxnum nodes (b ∷ bs) =
    push_buckets target maxnum (push_all target maxnum nodes b) bs

-- `Closest(target, maxnum)` over the nodes of the buckets.
unfoldable pub closest : List (List Node) → Hash → ℕ → List Node
closest buckets target maxnum = push_buckets target maxnum [] buckets
