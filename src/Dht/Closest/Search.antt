-- ===== src/Dht/Closest/Search.antt =====
-- The binary search of `sort.Search` finds the border of a test that changes once.
use go_bt.Prelude.{ℕ, zero, suc, ◌+◌, ◌/◌, ◌<◌, ◌≤◌, ◌≡◌, Bool, true, false, arith}
use go_bt.Dht.Closest.{search_loop, sort_search}

-- The test fails below `r`, and holds from `r` up to `n`.
pub record IsBorder (f : ℕ → Bool) (r n : ℕ) : Type 0 where
  pub below : (h : ℕ) → h < r → f h ≡ false
  pub above : (h : ℕ) → r ≤ h → h < n → f h ≡ true

search_loop-border :
    (fuel : ℕ) (f : ℕ → Bool) (r n i j : ℕ)
    → IsBorder f r n
    → i ≤ r
    → r ≤ j
    → j ≤ n
    → j ≤ i + fuel
    → search_loop fuel f i j ≡ r
unfolding search_loop
search_loop-border zero f r n i j b hi hj hn hf = omega arith
search_loop-border (suc fuel) f r n i j b hi hj hn hf = ground (
  arith,
  b.below ((i + j) / 2),
  b.above ((i + j) / 2),
  search_loop-border fuel f r n ((i + j) / 2 + 1) j b,
  search_loop-border fuel f r n i ((i + j) / 2) b,
)

-- The fuel of one round for each index is enough: the search ends at the border.
pub sort_search-border : (f : ℕ → Bool) (r n : ℕ) → IsBorder f r n → r ≤ n → sort_search n f ≡ r
unfolding sort_search
sort_search-border f r n b h =
    search_loop-border n f r n 0 n b (omega arith) h (omega arith) (omega arith)
