-- ===== src/Dht/Bucket/Holds.antt =====
-- Which identifiers stand in a bucket (dht/routing_table.go), and what moving its nodes keeps.
use go_bt.Prelude.{
  ℕ, zero, suc, ◌≡◌, refl, ap, Bool, true, false, ◌||◌, Bool-cases, none, some, Option-cases, inl,
  inr, List, [], ◌∷◌, ◌++◌, map, length, bytes_beq_refl, if◌then◌else◌, arith,
}
use go_bt.Dht.Node.{Hash, Node}
use go_bt.Dht.Bucket.{
  WrappedNode, is_bad, has_id, find_id, touch, close_gap, copy_down, first_bad, wrap,
}

-- Whether a node with the identifier stands in the list.
abbrev pub holds : Hash → List WrappedNode → Bool
holds id [] = false
holds id (n ∷ ns) = has_id id n || holds id ns

-- Whether a node with the identifier that is not bad stands in the list.
abbrev pub holds_good : ℕ → Hash → List WrappedNode → Bool
holds_good now id [] = false
holds_good now id (n ∷ ns) =
    if has_id id n
    then (if is_bad now n then holds_good now id ns else true)
    else holds_good now id ns

pub find_id-holds : (id : Hash) (ns : List WrappedNode) → find_id id ns ≡ none → holds id ns ≡ false
unfolding find_id
find_id-holds id [] e = refl
find_id-holds id (n ∷ ns) e = ground (arith, find_id-holds id ns)

pub find_id-some :
    (id : Hash) (ns : List WrappedNode) (w : WrappedNode)
    → find_id id ns ≡ some w
    → holds id ns ≡ true
unfolding find_id
find_id-some id [] w e = cc
find_id-some id (n ∷ ns) w e = ground (arith, find_id-some id ns w)

pub holds-append :
    (id : Hash) (ns ms : List WrappedNode) → holds id (ns ++ ms) ≡ (holds id ns || holds id ms)
holds-append id [] ms = refl
holds-append id (n ∷ ns) ms = ground (arith, holds-append id ns ms)

pub holds-touch :
    (id other : Hash) (now : ℕ) (ns : List WrappedNode)
    → holds id (touch other now ns) ≡ holds id ns
unfolding touch
holds-touch id other now [] = refl
holds-touch id other now (n ∷ ns) = ground (arith, holds-touch id other now ns)

pub length-touch :
    (id : Hash) (now : ℕ) (ns : List WrappedNode) → length (touch id now ns) ≡ length ns
unfolding touch
length-touch id now [] = refl
length-touch id now (n ∷ ns) = ap suc (length-touch id now ns)

pub length-close_gap {ℓ} :
    {A : Type ℓ} (x : A) (xs : List A) → length (close_gap x xs) ≡ suc (length xs)
unfolding close_gap
length-close_gap x [] = refl
length-close_gap x (y ∷ ys) = ap suc (length-close_gap y ys)

pub length-copy_down {ℓ} : {A : Type ℓ} (i : ℕ) (xs : List A) → length (copy_down i xs) ≡ length xs
unfolding copy_down
length-copy_down i [] = refl
length-copy_down zero (x ∷ xs) = length-close_gap x xs
length-copy_down (suc i) (x ∷ xs) = ap suc (length-copy_down i xs)

-- Moving down over `x` keeps what stands behind it.
pub holds-close_gap :
    (id : Hash) (x : WrappedNode) (xs : List WrappedNode)
    → holds id xs ≡ true
    → holds id (close_gap x xs) ≡ true
unfolding close_gap
holds-close_gap id x [] h = cc
holds-close_gap id x (y ∷ ys) h = ground (arith, holds-close_gap id y ys)

pub good→holds :
    (now : ℕ) (id : Hash) (ns : List WrappedNode) → holds_good now id ns ≡ true → holds id ns ≡ true
good→holds now id [] h = h
good→holds now id (n ∷ ns) h = ground (arith, good→holds now id ns)

pub first_bad_zero :
    (now : ℕ) (n : WrappedNode) (ns : List WrappedNode)
    → first_bad now (n ∷ ns) ≡ some 0
    → is_bad now n ≡ true
unfolding first_bad
first_bad_zero now n ns e = ground (arith, Option-cases (first_bad now ns))

pub first_bad-suc :
    (now i : ℕ) (n : WrappedNode) (ns : List WrappedNode)
    → first_bad now (n ∷ ns) ≡ some (suc i)
    → first_bad now ns ≡ some i
unfolding first_bad
first_bad-suc now i n ns e = ground (arith, Option-cases (first_bad now ns))

pub holds-copy_down :
    (now : ℕ) (id : Hash) (i : ℕ) (ns : List WrappedNode)
    → first_bad now ns ≡ some i
    → holds_good now id ns ≡ true
    → holds id (copy_down i ns) ≡ true
unfolding copy_down
holds-copy_down now id i [] e h = cc
holds-copy_down now id zero (n ∷ ns) e h =
    ground (arith, first_bad_zero now n ns e, good→holds now id ns, holds-close_gap id n ns)
holds-copy_down now id (suc i) (n ∷ ns) e h =
    ground (arith, first_bad-suc now i n ns e, holds-copy_down now id i ns)

pub holds_last :
    (n : Node) (now : ℕ) (ns : List WrappedNode) → holds n.id (ns ++ (wrap n now ∷ [])) ≡ true
holds_last n now ns = ground (arith, holds-append n.id ns (wrap n now ∷ []), bytes_beq_refl n.id)

pub map-touch :
    (id : Hash) (now : ℕ) (ns : List WrappedNode)
    → map (λ w. w.node) (touch id now ns) ≡ map (λ w. w.node) ns
unfolding touch
map-touch id now [] = refl
map-touch id now (n ∷ ns) = elim (Bool-cases (has_id id n)) [
  | inl e ↦ rw e (ap (◌∷◌ n.node) (map-touch id now ns))
  | inr e ↦ rw e (ap (◌∷◌ n.node) (map-touch id now ns))
]
