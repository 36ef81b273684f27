-- ===== src/Dht/Token.antt =====
-- The token manager of dht/token_manager.go. The argument `key` is what `addr.String()` gives, `now`
-- what `time.Now()` gives, and `random` what `helper.RandomString(8)` gives.
pub mod Rotation
use go_bt.Prelude.{
  ℕ, ◌-◌, Bool, true, false, ◌||◌, Option, none, some, List, [], ◌∷◌, Bytes, leb, bytes_beq,
  Bytes_eq, if◌then◌else◌,
}
use go_bt.Prelude.Map.{Map, lookup, insert, delete_if}

pub record TokenManager : Type 0 where
  pub last : Bytes
  pub new : Bytes
  pub addrs : Map Bytes ℕ

-- `newTokenManager()`.
abbrev pub new_token_manager : Bytes → TokenManager
new_token_manager random = record { last = random; new = random; addrs = [] }

-- `updateToken()`.
unfoldable pub update_token : TokenManager → Bytes → TokenManager
update_token tm random = record tm { last = tm.new; new = random }

-- `clear(now, expired)`: the addresses that are `expired` old go.
unfoldable pub clear : TokenManager → ℕ → ℕ → TokenManager
clear tm now expired = record tm { addrs = delete_if (λ t. leb expired (now - t)) tm.addrs }

-- `Token(addr)`.
unfoldable pub token : TokenManager → Bytes → ℕ → TokenManager × Bytes
token tm key now = (record tm { addrs = insert key now tm.addrs }, tm.new)

-- `Check(addr, token)`.
unfoldable pub check : TokenManager → Bytes → Bytes → Bool
check tm key tok =
    if bytes_beq tm.last tok || bytes_beq tm.new tok
    then elim (lookup key tm.addrs) [ none ↦ false | some _ ↦ true ]
    else false

-- What the loop of `Start` and the handlers do to the manager, one after the other.
pub data Event : Type 0 where
  updates : Bytes → Event
  clears : ℕ → ℕ → Event
  issues : Bytes → ℕ → Event

unfoldable pub step : TokenManager → Event → TokenManager
step tm (updates random) = update_token tm random
step tm (clears now expired) = clear tm now expired
step tm (issues key now) = (token tm key now).0

unfoldable pub run : TokenManager → List Event → TokenManager
run tm [] = tm
run tm (e ∷ es) = run (step tm e) es
