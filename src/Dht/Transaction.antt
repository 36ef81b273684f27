-- ===== src/Dht/Transaction.antt =====
-- The transaction manager of dht/transaction_manager.go. The address of a transaction is held as
-- the text that `Addr.String()` gives; the callbacks are not held, and the sweep returns the
-- transactions whose `OnTimeout` it calls.
pub mod Pop
use go_bt.Prelude.{
  ℕ, suc, ◌+◌, ◌-◌, ◌^◌, ◌%◌, ◌≡◌, ◌↔◌, refl, ap, ap₂, Bool, true, ◌&&◌, Option, none, some, List,
  [], ◌∷◌, Bytes, ltb, Eq, bytes_beq, bytes_beq_iff, if◌then◌else◌, arith,
}
use go_bt.Prelude.Map.{Map, lookup, insert, delete, delete_if}

pub record TransactionKey : Type 0 where
  pub id : Bytes
  pub addr : Bytes

pub record Transaction : Type 0 where
  pub id : Bytes
  pub addr : Bytes
  pub query : Bytes
  pub time : ℕ

abbrev pub at : Bytes → Bytes → TransactionKey
at id addr = record { id = id; addr = addr }

abbrev pub key_beq : TransactionKey → TransactionKey → Bool
key_beq a b = bytes_beq a.id b.id && bytes_beq a.addr b.addr

pub key_beq_iff : (a b : TransactionKey) → (key_beq a b ≡ true) ↔ (a ≡ b)
key_beq_iff a b = (
  (λ e.
      let ids : a.id ≡ b.id = ground (arith, bytes_beq_iff a.id b.id) in
      let addrs : a.addr ≡ b.addr = ground (arith, bytes_beq_iff a.addr b.addr) in
      ap₂ (λ i d. at i d) ids addrs),
  λ e. ground (arith, bytes_beq_iff a.id b.id, bytes_beq_iff a.addr b.addr),
)

instance abbrev pub Key_eq : Eq TransactionKey
Key_eq = record { beq = key_beq; beq_iff = key_beq_iff }

-- `transactionManager` without its lock and channel.
pub record TransactionManager : Type 0 where
  pub trans : Map TransactionKey Transaction
  pub tid : ℕ

abbrev pub key_of : Transaction → TransactionKey
key_of t = at t.id t.addr

-- `GetTransactionID()`, where `format` is `strconv.FormatUint(_, 36)`.
unfoldable pub get_transaction_id : (ℕ → Bytes) → TransactionManager → TransactionManager × Bytes
get_transaction_id format tm =
    let tid = (tm.tid + 1) % 2 ^ 32 in (record tm { tid = tid }, format tid)

-- `AddTransaction(t)`.
unfoldable pub add_transaction : TransactionManager → Transaction → TransactionManager
add_transaction tm t = record tm { trans = insert (key_of t) t tm.trans }

-- `DeleteTransaction(t)`.
unfoldable pub delete_transaction : TransactionManager → Transaction → TransactionManager
delete_transaction tm t = record tm { trans = delete (key_of t) tm.trans }

-- `PopTransaction(tid, addr)`.
unfoldable pub pop_transaction :
    TransactionManager → Bytes → Bytes → TransactionManager × Option Transaction
pop_transaction tm id addr =
    let key = at id addr in
    elim (lookup key tm.trans) [
      | none ↦ (tm, none)
      | some t ↦ (record tm { trans = delete key tm.trans }, some t)
    ]

-- The transactions that a tick of `Start` finds to be older than the interval.
unfoldable pub timed_out : Map TransactionKey Transaction → ℕ → ℕ → List Transaction
timed_out [] now interval = []
timed_out ((k, t) ∷ m) now interval =
    let rest = timed_out m now interval in if ltb interval (now - t.time) then t ∷ rest else rest

-- A tick of `Start(s, interval)` at the time `now`.
unfoldable pub sweep : TransactionManager → ℕ → ℕ → TransactionManager × List Transaction
sweep tm now interval = (
  record tm { trans = delete_if (λ t. ltb interval (now - t.time)) tm.trans },
  timed_out tm.trans now interval,
)
