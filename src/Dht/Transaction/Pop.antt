-- ===== src/Dht/Transaction/Pop.antt =====
-- How answers find their transactions (dht/transaction_manager.go).
use native.Mathlib.Decide.{dec_lt}
use go_bt.Prelude.{
  ℕ, zero, suc, ◌+◌, ◌-◌, ◌^◌, ◌%◌, ◌<◌, ◌≤◌, ◌≡◌, ◌≢◌, inl, inr, refl, ap, sym, All, ◌∙◌, true,
  none, some, Option-cases, [], ◌∷◌, length, Bytes, ltb, if◌then◌else◌, arith,
}
use go_bt.Prelude.Map.{Map, lookup, delete, delete_if, lookup-insert, lookup-delete}
use go_bt.Dht.Transaction.{
  TransactionKey, Transaction, at, key_beq_iff, key_beq, Key_eq, TransactionManager, key_of,
  get_transaction_id, add_transaction, pop_transaction, timed_out, sweep,
}

pop-answer :
    (tm : TransactionManager) (id addr : Bytes)
    → (pop_transaction tm id addr).1 ≡ lookup (at id addr) tm.trans
unfolding pop_transaction
pop-answer tm id addr = elim (Option-cases (lookup (at id addr) tm.trans)) [
  | inl e ↦ ground arith
  | inr (t, e) ↦ ground arith
]

pop-absent :
    (tm : TransactionManager) (id addr : Bytes)
    → lookup (at id addr) tm.trans ≡ none
    → (pop_transaction tm id addr).0.trans ≡ tm.trans
unfolding pop_transaction
pop-absent tm id addr e = ground arith

pop-present :
    (tm : TransactionManager) (id addr : Bytes) (t : Transaction)
    → lookup (at id addr) tm.trans ≡ some t
    → (pop_transaction tm id addr).0.trans ≡ delete (at id addr) tm.trans
unfolding pop_transaction
pop-present tm id addr t e = ground arith

-- After `PopTransaction` nothing is stored under the id and address, and all else as before.
pub lookup-pop :
    (tm : TransactionManager) (id addr : Bytes) (key : TransactionKey)
    → lookup key (pop_transaction tm id addr).0.trans
      ≡ (if key_beq (at id addr) key then none else lookup key tm.trans)
lookup-pop tm id addr key = elim (Option-cases (lookup (at id addr) tm.trans)) [
  | inl e ↦
      ap (λ m. lookup key m) (pop-absent tm id addr e)
      ∙ ground (arith, key_beq_iff (at id addr) key)
  | inr (t, e) ↦
      ap (λ m. lookup key m) (pop-present tm id addr t e) ∙ lookup-delete (at id addr) key tm.trans
]

lookup-add :
    (tm : TransactionManager) (t : Transaction) (key : TransactionKey)
    → lookup key (add_transaction tm t).trans
      ≡ (if key_beq (key_of t) key then some t else lookup key tm.trans)
unfolding add_transaction
lookup-add tm t key = lookup-insert (key_of t) key t tm.trans

-- The answer with the id and the address of a transaction that was added finds this transaction, and
-- a second answer with them finds none, unless it is added anew.
pub pop-add :
    (tm : TransactionManager) (t : Transaction)
    → let popped = pop_transaction (add_transaction tm t) t.id t.addr in
      (popped.1 ≡ some t) × ((pop_transaction popped.0 t.id t.addr).1 ≡ none)
pop-add tm t =
    let same : key_beq (key_of t) (key_of t) ≡ true = (key_beq_iff (key_of t) (key_of t)).1 refl in
    (
      pop-answer (add_transaction tm t) t.id t.addr ∙ ground (arith, lookup-add tm t (key_of t)),
      pop-answer (pop_transaction (add_transaction tm t) t.id t.addr).0 t.id t.addr
          ∙ ground (arith, lookup-pop (add_transaction tm t) t.id t.addr (key_of t)),
    )

-- An answer with another id or from another address leaves the transaction to be found.
pub pop-other :
    (tm : TransactionManager) (id addr : Bytes) (t : Transaction)
    → at id addr ≢ key_of t
    → let after = (pop_transaction (add_transaction tm t) id addr).0 in
      (pop_transaction after t.id t.addr).1 ≡ some t
pop-other tm id addr t other =
    let same : key_beq (key_of t) (key_of t) ≡ true = (key_beq_iff (key_of t) (key_of t)).1 refl in
    let after : TransactionManager = (pop_transaction (add_transaction tm t) id addr).0 in
    pop-answer after t.id t.addr
    ∙ ground (
      arith,
      key_beq_iff (at id addr) (key_of t),
      lookup-pop (add_transaction tm t) id addr (key_of t),
      lookup-add tm t (key_of t),
    )

-- The counter after `n` more calls of `GetTransactionID`.
abbrev pub calls : (ℕ → Bytes) → ℕ → TransactionManager → TransactionManager
calls format zero tm = tm
calls format (suc n) tm = calls format n (get_transaction_id format tm).0

tid-calls :
    (format : ℕ → Bytes) (n : ℕ) (tm : TransactionManager)
    → tm.tid < 2 ^ 32
    → (calls format n tm).tid ≡ (tm.tid + n) % 2 ^ 32
unfolding get_transaction_id
tid-calls format zero tm h = omega arith
tid-calls format (suc n) tm h =
    tid-calls format n (get_transaction_id format tm).0 (omega arith) ∙ omega arith

answer-id :
    (format : ℕ → Bytes) (tm : TransactionManager)
    → (get_transaction_id format tm).1 ≡ format ((tm.tid + 1) % 2 ^ 32)
unfolding get_transaction_id
answer-id format tm = refl

-- Two calls of `GetTransactionID` that are less than 2^32 calls apart give different ids, given that
-- the formatting gives different texts for different 32-bit numbers.
pub ids_differ :
    (format : ℕ → Bytes) (n : ℕ) (tm : TransactionManager)
    → ((a b : ℕ) → a < 2 ^ 32 → b < 2 ^ 32 → format a ≡ format b → a ≡ b)
    → tm.tid < 2 ^ 32
    → 0 < n
    → n < 2 ^ 32
    → (get_transaction_id format tm).1 ≢ (get_transaction_id format (calls format n tm)).1
ids_differ format n tm inj h lo hi e =
    let q =
      inj ((tm.tid + 1) % 2 ^ 32) (((calls format n tm).tid + 1) % 2 ^ 32) (omega arith)
        (omega arith) (sym (answer-id format tm) ∙ e ∙ answer-id format (calls format n tm)) in
    omega (arith, tid-calls format n tm h)

-- The entry's transaction is within the interval, or out of it.
abbrev pub IsYoung : ℕ → ℕ → TransactionKey × Transaction → Type 0
IsYoung now interval (k, t) = now ≤ t.time + interval

abbrev pub IsOld : ℕ → ℕ → Transaction → Type 0
IsOld now interval t = t.time + interval < now

module _ (now interval : ℕ) where
  kept : Map TransactionKey Transaction → Map TransactionKey Transaction
  kept = delete_if (λ t. ltb interval (now - t.time))

  kept-old :
      (k : TransactionKey) (t : Transaction) (m : Map TransactionKey Transaction)
      → IsOld now interval t
      → (kept ((k, t) ∷ m) ≡ kept m)
        × (timed_out ((k, t) ∷ m) now interval ≡ t ∷ timed_out m now interval)
  unfolding kept delete_if timed_out
  kept-old k t m h = (ground arith, ground arith)

  kept-young :
      (k : TransactionKey) (t : Transaction) (m : Map TransactionKey Transaction)
      → IsYoung now interval (k, t)
      → (kept ((k, t) ∷ m) ≡ (k, t) ∷ kept m)
        × (timed_out ((k, t) ∷ m) now interval ≡ timed_out m now interval)
  unfolding kept delete_if timed_out
  kept-young k t m h = (ground arith, ground arith)

  Splits : Map TransactionKey Transaction → Type 0
  Splits m =
      All (IsYoung now interval) (kept m)
      × All (IsOld now interval) (timed_out m now interval)
      × (length (kept m) + length (timed_out m now interval) ≡ length m)

  Splits-nil : Splits []
  unfolding Splits kept delete_if timed_out
  Splits-nil = (tt, tt, refl)

  splits : (m : Map TransactionKey Transaction) → Splits m
  unfolding Splits
  splits [] = Splits-nil
  splits ((k, t) ∷ m) =
      let (young, old, count) = splits m in
      elim (dec_lt (t.time + interval) now) [
        | yes h ↦ let (e, f) = kept-old k t m h in rw (e, f) (young, (h, old), omega arith)
        | no h ↦
            let y : IsYoung now interval (k, t) = omega arith in
            let (e, f) = kept-young k t m y in rw (e, f) ((y, young), old, omega arith)
      ]

  -- A tick splits the transactions: those within the interval stay, those out of it are handed to
  -- `OnTimeout`, and none is lost or handed over twice.
  pub sweep-splits :
      (tm : TransactionManager)
      → All (IsYoung now interval) (sweep tm now interval).0.trans
        × All (IsOld now interval) (sweep tm now interval).1
        × (length (sweep tm now interval).0.trans + length (sweep tm now interval).1
            ≡ length tm.trans)
  unfolding sweep Splits kept
  sweep-splits tm = splits tm.trans
