-- ===== src/Peer/Extension.antt =====
-- `ExtensionBits` of peerprotocol/handshake.go: eight bytes, the bits counted from the last one.
use go_bt.Prelude.{
  ℕ, ◌-◌, ◌/◌, ◌%◌, Bool, false, Option, none, some, Bytes, ltb, get_elem?, set as set_elem,
  if◌then◌else◌,
}
use go_bt.Prelude.Bits.{set_bit, test_bit}

abbrev pub extension_dht : ℕ
extension_dht = 0

abbrev pub extension_fast : ℕ
extension_fast = 2

abbrev pub extension_extended : ℕ
extension_extended = 20

-- `Set(bit)`. A bit outside the eight bytes panics, shown as `none`.
unfoldable pub set_extension : Bytes → ℕ → Option Bytes
set_extension eb bit = if ltb 7 (bit / 8) then none else elim (get_elem? eb (7 - bit / 8)) [
  | none ↦ none
  | some b ↦ some (set_elem eb (7 - bit / 8) (set_bit b (bit % 8)))
]

-- `IsSet(bit)`, for a bit below 64.
unfoldable pub has_extension : Bytes → ℕ → Bool
has_extension eb bit = elim (get_elem? eb (7 - bit / 8)) [
  | none ↦ false
  | some b ↦ test_bit b (bit % 8)
]
