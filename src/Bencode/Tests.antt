-- ===== src/Bencode/Tests.antt =====
-- The theorems about bencode at concrete inputs.
use go_bt.Prelude.{◌≡◌, refl, true, false, Option, some, [], ◌∷◌, ◌++◌, Bytes, arith}
use go_bt.Bencode.Number.{pos, negsuc, parse_int, parse_nat, parse_digits, negated}
use go_bt.Bencode.Value.{
  Value, integer, text, list, dict, no_items, item, no_fields, field, IsValue,
}
use go_bt.Bencode.Encode.{encode_value}
use go_bt.Bencode.Decode.{read_bytes, decode_int, decode_string, decode_list, decode_into, decode}
use go_bt.Bencode.Evaluation.{Reads}
use go_bt.Bencode.Evaluation.Sound.{decode_into-ends}
use go_bt.Bencode.RoundTrip.{decode-encode_value}
use go_bt.Bencode.Raw.{raw_int, raw_string, raw_list, raw_into}
use go_bt.Bencode.Raw.Exact.{raw_into-exact}
use go_bt.Bencode.Raw.Accepts.{raw_into-decodes}

-- A map with a negative number, a list and a string.
abbrev tree : Value
tree = dict (
    field (97 ∷ []) (integer (negsuc 6)) (
      field (98 ∷ []) (list (item (integer (pos 40)) (item (text []) no_items)))
        (field (98 ∷ 99 ∷ []) (dict no_fields) no_fields)))

tree-IsValue : IsValue tree
tree-IsValue = (
  omega arith,
  (refl, (refl, tt)),
  omega arith,
  (omega arith, (refl, tt), (omega arith, (omega arith, tt)), (omega arith, tt, tt, tt)),
)

decode-encode_value_example : decode true (encode_value tree ++ (101 ∷ [])) ≡ some (tree, 101 ∷ [])
decode-encode_value_example = decode-encode_value true tree (101 ∷ []) tree-IsValue

-- "l2:abi-7ee3"
abbrev input : Bytes
input = 108 ∷ 50 ∷ 58 ∷ 97 ∷ 98 ∷ 105 ∷ 45 ∷ 55 ∷ 101 ∷ 101 ∷ 51 ∷ []

abbrev parsed : Value
parsed = list (item (text (97 ∷ 98 ∷ [])) (item (integer (negsuc 6)) no_items))

reads_input : decode_into false 12 input ≡ some (parsed, 51 ∷ [])
unfolding decode_into decode_list decode_int decode_string read_bytes parse_int parse_nat
    parse_digits negated
reads_input = refl

raw_input :
    raw_into 12 input ≡ some (108 ∷ 50 ∷ 58 ∷ 97 ∷ 98 ∷ 105 ∷ 45 ∷ 55 ∷ 101 ∷ 101 ∷ [], 51 ∷ [])
unfolding raw_into raw_list raw_int raw_string read_bytes parse_int parse_nat parse_digits
raw_input = refl

decode_into-ends_example :
    Reads false input (decode_into false 40 input)
    × ((r : Option (Value × Bytes)) → Reads false input r → r ≡ decode_into false 40 input)
decode_into-ends_example = decode_into-ends false 40 input (omega arith)

raw_into-exact_example :
    (108 ∷ 50 ∷ 58 ∷ 97 ∷ 98 ∷ 105 ∷ 45 ∷ 55 ∷ 101 ∷ 101 ∷ []) ++ (51 ∷ []) ≡ input
raw_into-exact_example =
    raw_into-exact 12 input (108 ∷ 50 ∷ 58 ∷ 97 ∷ 98 ∷ 105 ∷ 45 ∷ 55 ∷ 101 ∷ 101 ∷ [], 51 ∷ [])
      raw_input

raw_into-decodes_example : (x : Bytes) × (raw_into 12 input ≡ some (x, 51 ∷ []))
raw_into-decodes_example = raw_into-decodes false 12 input (parsed, 51 ∷ []) reads_input
