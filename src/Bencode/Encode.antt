-- ===== src/Bencode/Encode.antt =====
-- The encoder (bencode/encode.go).
use go_bt.Prelude.{List, [], ◌∷◌, ◌++◌, Bytes, length, if◌then◌else◌}
use go_bt.Bencode.Number.{format_nat, format_int}
use go_bt.Bencode.Value.{
  Value, integer, text, list, dict, Items, no_items, item, Fields, no_fields, field, bytes_ltb,
}

-- The format "%d:%s" of a string.
unfoldable pub encode_text : Bytes → Bytes
encode_text s = format_nat (length s) ++ (58 ∷ s)

-- `sort.Sort(keys)`, with what each entry is written as.
unfoldable pub insert_entry : Bytes × Bytes → List (Bytes × Bytes) → List (Bytes × Bytes)
insert_entry e [] = e ∷ []
insert_entry e (d ∷ entries) =
    let rest = insert_entry e entries in if bytes_ltb d.0 e.0 then d ∷ rest else e ∷ d ∷ entries

unfoldable pub sort_entries : List (Bytes × Bytes) → List (Bytes × Bytes)
sort_entries [] = []
sort_entries (e ∷ entries) = insert_entry e (sort_entries entries)

-- The loop over the keys.
unfoldable pub write_entries : List (Bytes × Bytes) → Bytes
write_entries [] = []
write_entries (e ∷ entries) = encode_text e.0 ++ (e.1 ++ write_entries entries)

-- `encodeValue` and `EncodeBytes`.
unfoldable mutual
  pub encode_value : Value → Bytes
  encode_value (integer i) = 105 ∷ (format_int i ++ (101 ∷ []))
  encode_value (text s) = encode_text s
  encode_value (list vs) = 108 ∷ (encode_items vs ++ (101 ∷ []))
  encode_value (dict fs) = 100 ∷ (write_entries (sort_entries (entries fs)) ++ (101 ∷ []))

  pub encode_items : Items → Bytes
  encode_items no_items = []
  encode_items (item v vs) = encode_value v ++ encode_items vs

  pub entries : Fields → List (Bytes × Bytes)
  entries no_fields = []
  entries (field k v fs) = (k, encode_value v) ∷ entries fs
