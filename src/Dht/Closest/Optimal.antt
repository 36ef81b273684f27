-- ===== src/Dht/Closest/Optimal.antt =====
-- `Closest` of dht/routing_table.go returns the nodes nearest to the target.
use mathlib.Core.List.{Perm}
use go_bt.Prelude.{
  ℕ, zero, suc, ◌<◌, ◌≤◌, ◌≡◌, refl, ap, sym, subst, ◌∙◌, Bool, true, false, Bool-cases, inl, inr,
  List, [], ◌∷◌, flatten, All-take, ◌++◌, append-nil, length, min, length-append, length-take, take,
  drop, take-append-drop, take_of_length-le, All, ltb, arith,
}
use go_bt.Dht.Node.{Hash, Node, IsHash}
use go_bt.Dht.Distance.{cmp_of, distance, distcmp-distance}
use go_bt.Dht.Closest.{farther, after, push, push_all, push_buckets, closest, sort_search}
use go_bt.Dht.Closest.Search.{sort_search-border}
use go_bt.Dht.Closest.Insert.{
  insert_by, insert_by-SortedBy, SortedBy, rank, rank-le, slide_at_length, length-insert_by,
  length-insert_all, All-insert_by_any, All-insert_all_any, slide-rank_grown, slide-rank_full,
  take-insert_by, insert_all, insert_all-SortedBy, insert_all-perm, insert_all-append,
  SortedBy-split,
}

-- The test agrees with a key on every entry.
abbrev Agrees {ℓ} : {A : Type ℓ} → (A → ℕ) → (A → Bool) → A → A → Type 0
Agrees d f n x = f x ≡ ltb (d n) (d x)

module _ (d : Node → ℕ) (f : Node → Bool) (n : Node) where
  All-farther :
      (xs : List Node) (h : ℕ)
      → All (λ y. d n < d y) xs
      → All (Agrees d f n) xs
      → h < length xs
      → after f xs h ≡ true
  unfolding after
  All-farther [] h p a l = absurd (omega arith)
  All-farther (x ∷ xs) zero p a l = ground arith
  All-farther (x ∷ xs) (suc h) p a l = All-farther xs h p.1 a.1 (omega arith)

  All-lt : (k : ℕ) (xs : List Node) → d n < k → All (λ y. k ≤ d y) xs → All (λ y. d n < d y) xs
  All-lt k [] h a = tt
  All-lt k (x ∷ xs) h a = (omega arith, All-lt k xs h a.1)

  rank-below :
      (xs : List Node) (h : ℕ) → All (Agrees d f n) xs → h < rank d n xs → after f xs h ≡ false
  unfolding rank after
  rank-below [] h a l = absurd (omega arith)
  rank-below (x ∷ xs) zero a l = ground arith
  rank-below (x ∷ xs) (suc h) a l = rank-below xs h a.1 (ground arith)

  rank-above :
      (xs : List Node) (h : ℕ)
      → SortedBy d xs
      → All (Agrees d f n) xs
      → rank d n xs ≤ h
      → h < length xs
      → after f xs h ≡ true
  unfolding rank after
  rank-above [] h s a r l = absurd (omega arith)
  rank-above (x ∷ xs) zero s a r l = ground arith
  rank-above (x ∷ xs) (suc h) s a r l = elim (Bool-cases (ltb (d n) (d x))) [
    | inl e ↦ All-farther xs h (All-lt (d x) xs (ground arith) s.0) a.1 (omega arith)
    | inr e ↦ rank-above xs h s.1 a.1 (ground arith) (omega arith)
  ]

  search-rank :
      (xs : List Node)
      → SortedBy d xs
      → All (Agrees d f n) xs
      → sort_search (length xs) (after f xs) ≡ rank d n xs
  search-rank xs s a =
      sort_search-border (after f xs) (rank d n xs) (length xs)
        (record { below = λ h l. rank-below xs h a l; above = λ h r l. rank-above xs h s a r l })
        (rank-le d n xs)

module _ (target : Hash) (ht : IsHash target) (maxnum : ℕ) where
  -- The key: the distance to the target.
  abbrev key : Node → ℕ
  key n = distance target n.id

  abbrev HasHash : Node → Type 0
  HasHash n = IsHash n.id

  farther-key : (n x : Node) → HasHash n → HasHash x → farther target x n ≡ ltb (key n) (key x)
  unfolding farther cmp_of
  farther-key n x hn hx = ground (
    arith,
    distcmp-distance target x.id n.id (ht.size ∙ sym hx.size) (ht.size ∙ sym hn.size) ht.bytes
        hx.bytes hn.bytes,
  )

  agree-All :
      (n : Node) (xs : List Node)
      → HasHash n
      → All HasHash xs
      → All (Agrees key (λ x. farther target x n) n) xs
  agree-All n [] hn h = tt
  agree-All n (x ∷ xs) hn h = (farther-key n x hn h.0, agree-All n xs hn h.1)

  push-insert :
      (n : Node) (s : List Node)
      → HasHash n
      → All HasHash s
      → SortedBy key s
      → length s ≤ maxnum
      → push target maxnum s n ≡ take maxnum (insert_by key n s)
  unfolding push
  push-insert n s hn hs sorted l =
      let at = search-rank key (λ x. farther target x n) n s sorted (agree-All n s hn hs) in
      rw at (
        ground (
          arith,
          length-append s (n ∷ []),
          slide-rank_grown key n s,
          slide-rank_full key n s,
          slide_at_length key n s,
          rank-le key n s,
          take_of_length-le maxnum (insert_by key n s),
          length-insert_by key n s,
        ))

  -- The nodes kept so far are the first `maxnum` of all that were seen, in order of distance.
  push_all-insert :
      (seen ns : List Node)
      → All HasHash seen
      → All HasHash ns
      → SortedBy key seen
      → push_all target maxnum (take maxnum seen) ns ≡ take maxnum (insert_all key seen ns)
  unfolding push_all insert_all
  push_all-insert seen [] hs hn sorted = refl
  push_all-insert seen (n ∷ ns) hs hn sorted =
      let split = SortedBy-split key maxnum seen sorted in
      ap (λ s. push_all target maxnum s ns)
        (push-insert n (take maxnum seen) hn.0 (All-take HasHash maxnum seen hs) split.0
            (omega (arith, length-take maxnum seen))
          ∙ take-insert_by key maxnum n seen)
      ∙ push_all-insert (insert_by key n seen) ns (All-insert_by_any key HasHash n seen hn.0 hs)
          hn.1 (insert_by-SortedBy key n seen sorted)

  push_buckets-insert :
      (seen : List Node) (bs : List (List Node))
      → All HasHash seen
      → All (All HasHash) bs
      → SortedBy key seen
      → push_buckets target maxnum (take maxnum seen) bs
        ≡ take maxnum (insert_all key seen (flatten bs))
  unfolding push_buckets
  push_buckets-insert seen [] hs hb sorted = unfold insert_all in refl
  push_buckets-insert seen (b ∷ bs) hs hb sorted =
      ap (λ s. push_buckets target maxnum s bs) (push_all-insert seen b hs hb.0 sorted)
      ∙ push_buckets-insert (insert_all key seen b) bs
          (All-insert_all_any key HasHash seen b hs hb.0) hb.1
          (insert_all-SortedBy key seen b sorted)
      ∙ ap (take maxnum) (sym (insert_all-append key seen b (flatten bs)))

closest-push :
    (buckets : List (List Node)) (target : Hash) (maxnum : ℕ)
    → closest buckets target maxnum ≡ push_buckets target maxnum (take maxnum []) buckets
unfolding closest
closest-push buckets target maxnum =
    ap (λ s. push_buckets target maxnum s buckets) (sym (take_of_length-le maxnum [] (omega arith)))

-- What `Closest` promises of its result over the nodes `all` of the table: with the nodes left out
-- it makes up all of them, it is sorted by the distance to the target, no node left out is nearer
-- than one returned, and as many are returned as there are, up to `maxnum`.
pub record IsClosest (target : Hash) (maxnum : ℕ) (all result : List Node) : Type 0 where
  pub left_out : List Node
  pub together : Perm (result ++ left_out) all
  pub sorted : SortedBy (λ n. distance target n.id) result
  pub nearest : All (λ n. All (λ o. distance target n.id ≤ distance target o.id) left_out) result
  pub count : length result ≡ min maxnum (length all)

-- `Closest(target, maxnum)` returns the `maxnum` nodes of the buckets that are nearest to the
-- target, nearest first, where all identifiers are hashes.
pub closest-IsClosest :
    (buckets : List (List Node)) (target : Hash) (maxnum : ℕ)
    → IsHash target
    → All (All (λ n. IsHash n.id)) buckets
    → IsClosest target maxnum (flatten buckets) (closest buckets target maxnum)
closest-IsClosest buckets target maxnum ht hb =
    subst (IsClosest target maxnum (flatten buckets)) (sym at) (record {
      left_out = drop maxnum sorted;
      together = rw (take-append-drop maxnum sorted) (rw append-nil at perm);
      sorted = split.0;
      nearest = split.1;
      count =
          length-take maxnum sorted
          ∙ ap (min maxnum) (omega (arith, length-insert_all d [] (flatten buckets)));
    })
  where
    d : Node → ℕ
    d n = distance target n.id

    sorted : List Node
    sorted = insert_all d [] (flatten buckets)

    perm : Perm sorted (flatten buckets ++ [])
    perm = insert_all-perm d [] (flatten buckets)

    split :
        SortedBy d (take maxnum sorted)
        × All (λ x. All (λ y. d x ≤ d y) (drop maxnum sorted)) (take maxnum sorted)
    split = SortedBy-split d maxnum sorted (insert_all-SortedBy d [] (flatten buckets) tt)

    at : closest buckets target maxnum ≡ take maxnum sorted
    at =
        closest-push buckets target maxnum
        ∙ push_buckets-insert target ht maxnum [] buckets tt hb tt
