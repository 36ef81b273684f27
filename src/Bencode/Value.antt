-- ===== src/Bencode/Value.antt =====
-- The values that the decoder makes for an `interface{}`.
use go_bt.Prelude.{
  ◌<◌, ◌^◌, ◌≡◌, Bool, true, false, ◌&&◌, ◌||◌, [], ◌∷◌, Bytes, ltb, ◌==◌, bytes_beq, length,
}
use go_bt.Bencode.Number.{ℤ}
use go_bt.Bencode.Number.RoundTrip.{IsInt64}

-- `int64`, `string`, `[]interface{}` and `map[string]interface{}`. The entries of a map are in any
-- order, and their keys differ.
mutual
  pub data Value : Type 0 where
    integer : ℤ → Value
    text : Bytes → Value
    list : Items → Value
    dict : Fields → Value

  pub data Items : Type 0 where
    no_items : Items
    item : Value → Items → Items

  pub data Fields : Type 0 where
    no_fields : Fields
    field : Bytes → Value → Fields → Fields

-- The order of Go's strings.
abbrev pub bytes_ltb : Bytes → Bytes → Bool
bytes_ltb [] [] = false
bytes_ltb [] (y ∷ ys) = true
bytes_ltb (x ∷ xs) [] = false
bytes_ltb (x ∷ xs) (y ∷ ys) = ltb x y || x == y && bytes_ltb xs ys

abbrev pub has_key : Bytes → Fields → Bool
has_key key no_fields = false
has_key key (field k v fs) = bytes_beq k key || has_key key fs

-- The length of a string that the decoder takes.
abbrev pub IsText : Bytes → Type 0
IsText s = length s < 2 ^ 31

-- The key is smaller than all the keys of the entries.
abbrev pub Below : Bytes → Fields → Type 0
Below key no_fields = Unit
Below key (field k v fs) = (bytes_ltb key k ≡ true) × Below key fs

-- Integers in the range of an int64, strings of fewer than 2 ^ 31 bytes, and the entries of each map
-- listed by their keys.
abbrev mutual
  pub IsValue : Value → Type 0
  IsValue (integer i) = IsInt64 i
  IsValue (text s) = IsText s
  IsValue (list vs) = AreItems vs
  IsValue (dict fs) = AreFields fs

  pub AreItems : Items → Type 0
  AreItems no_items = Unit
  AreItems (item v vs) = IsValue v × AreItems vs

  pub AreFields : Fields → Type 0
  AreFields no_fields = Unit
  AreFields (field k v fs) = IsText k × Below k fs × IsValue v × AreFields fs
