-- ===== src/Krpc/Tests.antt =====
-- The theorems about krpc at concrete inputs.
use go_bt.Prelude.{◌≡◌, inl, refl, some, [], ◌∷◌, replicate, Bytes, arith}
use go_bt.Prelude.Ip.{to4}
use go_bt.Dht.Node.{Addr, Node}
use go_bt.Krpc.Addr.{marshal_v6}
use go_bt.Krpc.Addr.RoundTrip.{marshal_v6-lem}
use go_bt.Krpc.Node.{marshal_nodes4, unmarshal_nodes4}
use go_bt.Krpc.Node.RoundTrip.{unmarshal-marshal_nodes4}

abbrev here : Addr
here = record { ip = 10 ∷ 0 ∷ 0 ∷ 1 ∷ []; port = 6881 }

abbrev node : Node
node = record { id = replicate 20 7; addr = here }

abbrev six : Addr
six = record { ip = replicate 16 1; port = 6881 }

marshal_v6-lem_example : marshal_v6 (six ∷ six ∷ []) ≡ some []
unfolding to4
marshal_v6-lem_example = marshal_v6-lem (six ∷ six ∷ [])

unmarshal-marshal_nodes4_example :
    (b : Bytes) × (marshal_nodes4 (node ∷ []) ≡ some b) × (unmarshal_nodes4 b ≡ some (node ∷ []))
unfolding to4
unmarshal-marshal_nodes4_example =
    unmarshal-marshal_nodes4 (node ∷ []) ((refl, inl refl, omega arith), tt)
