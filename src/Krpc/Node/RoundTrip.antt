-- ===== src/Krpc/Node/RoundTrip.antt =====
-- Compact nodes are read back (krpc/node.go).
use go_bt.Prelude.{
  ℕ, ◌+◌, ◌*◌, ◌/◌, ◌%◌, ◌≤◌, ◌≡◌, ◌⊎◌, inl, inr, refl, ap, sym, ◌∙◌, true, false, Bool-cases, some,
  List, [], ◌∷◌, ◌++◌, append-nil, length, length-append, take, drop, take-append_length,
  drop-append_length, All, Bytes, IsU16, ◌==◌, if◌then◌else◌, arith,
}
use go_bt.Prelude.Chunks.{
  read_chunks, write_chunks, ReadsBack, length-write_chunks, read_chunks-write,
}
use go_bt.Prelude.Ip.{to4, to16, length-to4, v4_prefix}
use go_bt.Dht.Node.{Addr, Node}
use go_bt.Krpc.Addr.{write_addr, unmarshal_addr}
use go_bt.Krpc.Addr.RoundTrip.{length-write_addr, unmarshal-write_addr}
use go_bt.Krpc.Node.{
  write_node, unmarshal_node, with_ip, marshal_nodes4, marshal_nodes6, unmarshal_nodes4,
  unmarshal_nodes6,
}

-- A node with an identifier of 20 bytes, an address of 4 or 16 and a port of 16 bits.
abbrev pub IsNode : Node → Type 0
IsNode n =
    (length n.id ≡ 20) × ((length n.addr.ip ≡ 4) ⊎ (length n.addr.ip ≡ 16)) × IsU16 n.addr.port

length-write_node : (n : Node) → length (write_node n) ≡ length n.id + (length n.addr.ip + 2)
unfolding write_node
length-write_node n =
    omega (arith, length-append n.id (write_addr n.addr), length-write_addr n.addr)

unmarshal_node-step :
    (b : Bytes) (a : Addr)
    → 26 ≤ length b
    → unmarshal_addr (drop 20 b) ≡ some a
    → unmarshal_node b ≡ some (record { id = take 20 b; addr = a })
unfolding unmarshal_node
unmarshal_node-step b a h e = ground arith

-- A node is read back from its compact form.
pub unmarshal-write_node : (n : Node) → IsNode n → unmarshal_node (write_node n) ≡ some n
unfolding write_node
unmarshal-write_node n h =
    let (size, ip, port) = h in
    let front : take 20 (write_node n) ≡ n.id =
      ap (λ k. take k (write_node n)) (sym size) ∙ take-append_length n.id (write_addr n.addr) in
    let behind : drop 20 (write_node n) ≡ write_addr n.addr =
      ap (λ k. drop k (write_node n)) (sym size) ∙ drop-append_length n.id (write_addr n.addr) in
    unmarshal_node-step (write_node n) n.addr (omega (arith, length-write_node n, ip, size))
      (ap unmarshal_addr behind ∙ unmarshal-write_addr n.addr ip port)
    ∙ ap (λ i. some (record { id = i; addr = n.addr })) front

abbrev Reads : ℕ → Node → Type 0
Reads = ReadsBack write_node unmarshal_node

-- The nodes that have an IPv4 address, with that address.
abbrev pub nodes_v4 : List Node → List Node
nodes_v4 [] = []
nodes_v4 (n ∷ cns) =
    if length (to4 n.addr.ip) == 0 then nodes_v4 cns else with_ip n (to4 n.addr.ip) ∷ nodes_v4 cns

-- The nodes with their addresses in the IPv6 form.
abbrev pub nodes_v6 : List Node → List Node
nodes_v6 [] = []
nodes_v6 (n ∷ cns) = with_ip n (to16 n.addr.ip) ∷ nodes_v6 cns

reads4 :
    (n : Node)
    → IsNode n
    → ((length (to4 n.addr.ip) == 0) ≡ false)
    → Reads 26 (with_ip n (to4 n.addr.ip))
reads4 n h e =
    let four = length-to4 n.addr.ip e in
    let sized = with_ip n (to4 n.addr.ip) in
    (
      length-write_node sized ∙ omega (arith, h.0, four),
      unmarshal-write_node sized (h.0, inl four, h.2),
    )

to16-sixteen : (ip : Bytes) → (length ip ≡ 4) ⊎ (length ip ≡ 16) → length (to16 ip) ≡ 16
unfolding to16
to16-sixteen ip h = ground (arith, length-append v4_prefix ip)

reads6 : (n : Node) → IsNode n → Reads 38 (with_ip n (to16 n.addr.ip))
reads6 n h =
    let size = to16-sixteen n.addr.ip h.1 in
    let sized = with_ip n (to16 n.addr.ip) in
    (
      length-write_node sized ∙ omega (arith, h.0, size),
      unmarshal-write_node sized (h.0, inr size, h.2),
    )

nodes_v4-Reads : (cns : List Node) → All IsNode cns → All (Reads 26) (nodes_v4 cns)
nodes_v4-Reads [] h = tt
nodes_v4-Reads (n ∷ cns) h = elim (Bool-cases (length (to4 n.addr.ip) == 0)) [
  | inl e ↦ rw e (nodes_v4-Reads cns h.1)
  | inr e ↦ rw e (reads4 n h.0 e, nodes_v4-Reads cns h.1)
]

nodes_v6-Reads : (cns : List Node) → All IsNode cns → All (Reads 38) (nodes_v6 cns)
nodes_v6-Reads [] h = tt
nodes_v6-Reads (n ∷ cns) h = (reads6 n h.0, nodes_v6-Reads cns h.1)

nodes4-step :
    (n : Node) (cns : List Node) (more : Bytes)
    → ((length (to4 n.addr.ip) == 0) ≡ false)
    → length (write_node (with_ip n (to4 n.addr.ip))) ≡ 26
    → marshal_nodes4 cns ≡ some more
    → marshal_nodes4 (n ∷ cns) ≡ some (write_node (with_ip n (to4 n.addr.ip)) ++ more)
unfolding marshal_nodes4
nodes4-step n cns more z e f = ground arith

marshal_nodes4-write :
    (cns : List Node)
    → All IsNode cns
    → marshal_nodes4 cns ≡ some (write_chunks write_node (nodes_v4 cns))
unfolding marshal_nodes4
marshal_nodes4-write [] h = refl
marshal_nodes4-write (n ∷ cns) h = elim (Bool-cases (length (to4 n.addr.ip) == 0)) [
  | inl e ↦ rw e (marshal_nodes4-write cns h.1)
  | inr e ↦
      nodes4-step n cns (write_chunks write_node (nodes_v4 cns)) e (reads4 n h.0 e).0
        (marshal_nodes4-write cns h.1)
      ∙ rw e refl
]

nodes6-step :
    (n : Node) (cns : List Node) (more : Bytes)
    → length (write_node (with_ip n (to16 n.addr.ip))) ≡ 38
    → marshal_nodes6 cns ≡ some more
    → marshal_nodes6 (n ∷ cns) ≡ some (write_node (with_ip n (to16 n.addr.ip)) ++ more)
unfolding marshal_nodes6
nodes6-step n cns more e f = ground arith

marshal_nodes6-write :
    (cns : List Node)
    → All IsNode cns
    → marshal_nodes6 cns ≡ some (write_chunks write_node (nodes_v6 cns))
unfolding marshal_nodes6
marshal_nodes6-write [] h = refl
marshal_nodes6-write (n ∷ cns) h =
    nodes6-step n cns (write_chunks write_node (nodes_v6 cns)) (reads6 n h.0).0
      (marshal_nodes6-write cns h.1)

length-Reads :
    (size : ℕ) (xs : List Node) → All (Reads size) xs → All (λ n. length (write_node n) ≡ size) xs
length-Reads size [] h = tt
length-Reads size (x ∷ xs) h = (h.0.0, length-Reads size xs h.1)

whole4 :
    (xs : List Node) → All (Reads 26) xs → unmarshal_nodes4 (write_chunks write_node xs) ≡ some xs
unfolding unmarshal_nodes4
whole4 xs h =
    let b : Bytes = write_chunks write_node xs in
    let size : length b ≡ length xs * 26 =
      length-write_chunks write_node unmarshal_node 26 xs (length-Reads 26 xs h) in
    let fits : (length b % 26 == 0) ≡ true = ground arith in
    let rounds : length b / 26 ≡ length xs = omega arith in
    rw (fits, rounds)
      (ap (read_chunks unmarshal_node 26 (length xs)) (sym (append-nil b))
        ∙ read_chunks-write write_node unmarshal_node 26 xs [] h)

whole6 :
    (xs : List Node) → All (Reads 38) xs → unmarshal_nodes6 (write_chunks write_node xs) ≡ some xs
unfolding unmarshal_nodes6
whole6 xs h =
    let b : Bytes = write_chunks write_node xs in
    let size : length b ≡ length xs * 38 =
      length-write_chunks write_node unmarshal_node 38 xs (length-Reads 38 xs h) in
    let fits : (length b % 38 == 0) ≡ true = ground arith in
    let rounds : length b / 38 ≡ length xs = omega arith in
    rw (fits, rounds)
      (ap (read_chunks unmarshal_node 38 (length xs)) (sym (append-nil b))
        ∙ read_chunks-write write_node unmarshal_node 38 xs [] h)

-- `CompactIPv4Nodes` writes nodes with identifiers of 20 bytes, addresses of 4 or 16 bytes and ports
-- of 16 bits without a panic, and reads back those that have an IPv4 address, in order.
pub unmarshal-marshal_nodes4 :
    (cns : List Node)
    → All IsNode cns
    → (b : Bytes) × (marshal_nodes4 cns ≡ some b) × (unmarshal_nodes4 b ≡ some (nodes_v4 cns))
unmarshal-marshal_nodes4 cns h = (
  write_chunks write_node (nodes_v4 cns),
  marshal_nodes4-write cns h,
  whole4 (nodes_v4 cns) (nodes_v4-Reads cns h),
)

-- `CompactIPv6Nodes` writes nodes with identifiers of 20 bytes, addresses of 4 or 16 bytes and ports
-- of 16 bits without a panic, and reads all of them back with their addresses in the IPv6 form.
pub unmarshal-marshal_nodes6 :
    (cns : List Node)
    → All IsNode cns
    → (b : Bytes) × (marshal_nodes6 cns ≡ some b) × (unmarshal_nodes6 b ≡ some (nodes_v6 cns))
unmarshal-marshal_nodes6 cns h = (
  write_chunks write_node (nodes_v6 cns),
  marshal_nodes6-write cns h,
  whole6 (nodes_v6 cns) (nodes_v6-Reads cns h),
)
