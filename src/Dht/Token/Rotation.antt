-- ===== src/Dht/Token/Rotation.antt =====
-- How long a token of dht/token_manager.go is good for.
use go_bt.Prelude.{
  ℕ, suc, ◌-◌, ◌<◌, ◌≤◌, ◌≡◌, ◌≢◌, ◌⊎◌, inl, inr, refl, Bool, true, false, Bool-cases, some, List,
  [], ◌∷◌, All, Bytes, leb, bytes_beq, bytes_beq_iff, Bytes_eq, arith,
}
use go_bt.Prelude.Map.{Map, lookup, delete_if, lookup-insert}
use go_bt.Dht.Token.{
  TokenManager, update_token, clear, token, check, Event, updates, clears, issues, step, run,
}

-- The address is stored with a time that is not before `since`.
abbrev pub StoredSince : ℕ → Bytes → Map Bytes ℕ → Type 0
StoredSince since key m = (t : ℕ) × (lookup key m ≡ some t) × (since ≤ t)

abbrev pub how_many_updates : List Event → ℕ
how_many_updates [] = 0
how_many_updates (updates _ ∷ es) = suc (how_many_updates es)
how_many_updates (_ ∷ es) = how_many_updates es

-- The times of the events, seen from a token given out at `since`: a clearing comes before the
-- token's time is up, and no address is stored with an earlier time.
abbrev pub InTime : ℕ → Event → Type 0
InTime since (updates _) = Unit
InTime since (clears now expired) = now - since < expired
InTime since (issues _ now) = since ≤ now

lookup-delete_if :
    (d : ℕ → Bool) (key : Bytes) (m : Map Bytes ℕ) (t : ℕ)
    → lookup key m ≡ some t
    → d t ≡ false
    → lookup key (delete_if d m) ≡ some t
unfolding lookup delete_if
lookup-delete_if d key [] t e h = e
lookup-delete_if d key ((j, w) ∷ m) t e h =
    ground (arith, bytes_beq_iff j key, lookup-delete_if d key m t)

stored-clear :
    (since : ℕ) (key : Bytes) (tm : TokenManager) (now expired : ℕ)
    → now - since < expired
    → StoredSince since key tm.addrs
    → StoredSince since key (clear tm now expired).addrs
unfolding clear
stored-clear since key tm now expired h (t, found, late) =
    let young : leb expired (now - t) ≡ false = ground arith in
    (t, lookup-delete_if (λ t. leb expired (now - t)) key tm.addrs t found young, late)

stored-token :
    (since : ℕ) (key k : Bytes) (tm : TokenManager) (now : ℕ)
    → since ≤ now
    → (k ≡ key) ⊎ StoredSince since key tm.addrs
    → StoredSince since key (token tm k now).0.addrs
unfolding token
stored-token since key k tm now h w = elim (Bool-cases (bytes_beq k key)) [
  | inl e ↦ (now, ground (arith, lookup-insert k key now tm.addrs), h)
  | inr e ↦ elim w [
    | inl same ↦ absurd (ground (arith, bytes_beq_iff k key))
    | inr (t, found, late) ↦ (t, ground (arith, lookup-insert k key now tm.addrs), late)
  ]
]

stored-step :
    (since : ℕ) (key : Bytes) (tm : TokenManager) (e : Event)
    → InTime since e
    → StoredSince since key tm.addrs
    → StoredSince since key (step tm e).addrs
unfolding step update_token
stored-step since key tm (updates r) h w = w
stored-step since key tm (clears now expired) h w = stored-clear since key tm now expired h w
stored-step since key tm (issues k now) h w = stored-token since key k tm now h (inr w)

-- The manager holds the token in a place that outlives `n` updates.
data Outlives (tm : TokenManager) (tok : Bytes) (n : ℕ) : Type 0 where
  as_new : tm.new ≡ tok → n ≤ 1 → Outlives tm tok n
  as_last : tm.last ≡ tok → n ≡ 0 → Outlives tm tok n

Outlives-step :
    (tm : TokenManager) (tok : Bytes) (e : Event) (es : List Event)
    → Outlives tm tok (how_many_updates (e ∷ es))
    → Outlives (step tm e) tok (how_many_updates es)
unfolding step update_token clear token
Outlives-step tm tok (updates r) es (as_new e l) = as_last e (omega arith)
Outlives-step tm tok (updates r) es (as_last e l) = absurd (omega arith)
Outlives-step tm tok (clears now expired) es (as_new e l) = as_new e l
Outlives-step tm tok (clears now expired) es (as_last e l) = as_last e l
Outlives-step tm tok (issues k now) es (as_new e l) = as_new e l
Outlives-step tm tok (issues k now) es (as_last e l) = as_last e l

check-Outlives :
    (since : ℕ) (tm : TokenManager) (key tok : Bytes) (n : ℕ)
    → Outlives tm tok n
    → StoredSince since key tm.addrs
    → check tm key tok ≡ true
unfolding check
check-Outlives since tm key tok n (as_new e l) (t, found, late) =
    ground (arith, bytes_beq_iff tm.new tok)
check-Outlives since tm key tok n (as_last e l) (t, found, late) =
    ground (arith, bytes_beq_iff tm.last tok)

run-Outlives :
    (since : ℕ) (tm : TokenManager) (key tok : Bytes) (es : List Event)
    → Outlives tm tok (how_many_updates es)
    → StoredSince since key tm.addrs
    → All (InTime since) es
    → check (run tm es) key tok ≡ true
unfolding run
run-Outlives since tm key tok [] o w h = check-Outlives since tm key tok 0 o w
run-Outlives since tm key tok (e ∷ es) o w h =
    run-Outlives since (step tm e) key tok es (Outlives-step tm tok e es o)
      (stored-step since key tm e h.0 w) h.1

-- A token that `Token` hands to an address at the time `since` passes `Check` for that address after
-- any sequence of events with at most one update, where each clearing comes before `expired` has
-- gone by since then, and addresses are stored at `since` or later.
pub token_lasts :
    (tm : TokenManager) (key : Bytes) (since : ℕ) (es : List Event)
    → how_many_updates es ≤ 1
    → All (InTime since) es
    → check (run (token tm key since).0 es) key (token tm key since).1 ≡ true
unfolding token
token_lasts tm key since es l h =
    run-Outlives since (token tm key since).0 key tm.new es (as_new refl l)
      (stored-token since key key tm since (omega arith) (inl refl)) h

-- No update draws the token anew.
abbrev pub Differs : Bytes → Event → Type 0
Differs tok (updates random) = random ≢ tok
Differs tok _ = Unit

-- The manager lacks the token, or will after `n` more updates.
data Lacks (tm : TokenManager) (tok : Bytes) (n : ℕ) : Type 0 where
  in_two : 2 ≤ n → Lacks tm tok n
  in_one : tm.new ≢ tok → 1 ≤ n → Lacks tm tok n
  at_once : tm.new ≢ tok → tm.last ≢ tok → Lacks tm tok n

Lacks-step :
    (tm : TokenManager) (tok : Bytes) (e : Event) (es : List Event)
    → Differs tok e
    → Lacks tm tok (how_many_updates (e ∷ es))
    → Lacks (step tm e) tok (how_many_updates es)
unfolding step update_token clear token
Lacks-step tm tok (updates r) es d (in_two l) = in_one d (omega arith)
Lacks-step tm tok (updates r) es d (in_one e l) = at_once d e
Lacks-step tm tok (updates r) es d (at_once e f) = at_once d e
Lacks-step tm tok (clears now expired) es d (in_two l) = in_two l
Lacks-step tm tok (clears now expired) es d (in_one e l) = in_one e l
Lacks-step tm tok (clears now expired) es d (at_once e f) = at_once e f
Lacks-step tm tok (issues k now) es d (in_two l) = in_two l
Lacks-step tm tok (issues k now) es d (in_one e l) = in_one e l
Lacks-step tm tok (issues k now) es d (at_once e f) = at_once e f

check-Lacks : (tm : TokenManager) (key tok : Bytes) → Lacks tm tok 0 → check tm key tok ≡ false
unfolding check
check-Lacks tm key tok (in_two l) = absurd (omega arith)
check-Lacks tm key tok (in_one e l) = absurd (omega arith)
check-Lacks tm key tok (at_once e f) =
    ground (arith, bytes_beq_iff tm.new tok, bytes_beq_iff tm.last tok)

run-Lacks :
    (tm : TokenManager) (key tok : Bytes) (es : List Event)
    → Lacks tm tok (how_many_updates es)
    → All (Differs tok) es
    → check (run tm es) key tok ≡ false
unfolding run
run-Lacks tm key tok [] o h = check-Lacks tm key tok o
run-Lacks tm key tok (e ∷ es) o h =
    run-Lacks (step tm e) key tok es (Lacks-step tm tok e es h.0 o) h.1

-- After two updates that draw other tokens, a token passes `Check` for no address, whatever else
-- happens in between.
pub token_expires :
    (tm : TokenManager) (key tok : Bytes) (es : List Event)
    → 2 ≤ how_many_updates es
    → All (Differs tok) es
    → check (run tm es) key tok ≡ false
token_expires tm key tok es l h = run-Lacks tm key tok es (in_two l) h
