-- ===== src/Peer/Pieces.antt =====
-- `Pieces` of peerprotocol/message.go: a list of piece indexes, without repetition and in order.
pub mod Sorted
use go_bt.Prelude.{ℕ, Bool, true, false, List, [], ◌∷◌, ◌++◌, contains, ltb, ◌==◌, if◌then◌else◌}

-- `sort.Sort` on numbers: there is one list in order with the same entries.
unfoldable pub insert_sorted : ℕ → List ℕ → List ℕ
insert_sorted a [] = a ∷ []
insert_sorted a (x ∷ xs) = let rest = insert_sorted a xs in if ltb x a then x ∷ rest else a ∷ x ∷ xs

unfoldable pub sort : List ℕ → List ℕ
sort [] = []
sort (x ∷ xs) = insert_sorted x (sort xs)

-- `Append(index)`.
unfoldable pub append : List ℕ → ℕ → List ℕ
append ps index = if contains ps index then ps else sort (ps ++ (index ∷ []))

-- `Remove(index)`.
unfoldable pub remove : List ℕ → ℕ → List ℕ
remove [] index = []
remove (p ∷ ps) index = let rest = remove ps index in if p == index then ps else p ∷ rest
