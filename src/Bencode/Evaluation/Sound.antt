-- ===== src/Bencode/Evaluation/Sound.antt =====
-- What the rules of the decoder (bencode/decode.go) derive, it computes.
use mathlib.Core.Option
use go_bt.Prelude.{ℕ, zero, suc, ◌<◌, ◌≡◌, ap, ◌∙◌, sym, Bool, Option, ◌∷◌, length, Bytes, arith}
use go_bt.Bencode.Value.{Value, Items, Fields}
use go_bt.Bencode.Decode.{decode_list, decode_dict, decode_into}
use go_bt.Bencode.Decode.Fuel.{decode_string-less, decode_into-Takes}
use go_bt.Bencode.Evaluation.{
  Reads, reads_end, reads_int, reads_text, reads_list, reads_dict, reads_unknown, ReadsItems,
  items_cut, items_end, items_fail, items_next, ReadsFields, fields_cut, fields_end, fields_bad_key,
  fields_unordered, fields_fail, fields_next, as_list, as_dict, add_item, add_field,
}
use go_bt.Bencode.Evaluation.Rounds.{
  decode_into-nil, decode_list-nil, decode_dict-nil, decode_list-end, decode_list-fail,
  decode_list-next, decode_dict-end, decode_dict-bad_key, decode_dict-unordered, decode_dict-fail,
  decode_dict-next, decode_into-int, decode_into-digit, decode_into-list, decode_into-dict,
  decode_into-unknown,
}
use go_bt.Bencode.Evaluation.Complete.{decode_into-Reads}

mutual
  Reads-decode_into :
      {fail : Bool} {b : Bytes} {r : Option (Value × Bytes)} (d : Reads fail b r) (f : ℕ)
      → length b < f
      → r ≡ decode_into fail f b
  Reads-decode_into d zero h = absurd (omega (arith, h))
  Reads-decode_into {fail} reads_end (suc f) h = decode_into-nil fail f
  Reads-decode_into {fail} (reads_int {c} {b} e) (suc f) h = decode_into-int fail f c b e
  Reads-decode_into {fail} (reads_text {c} {b} e) (suc f) h = decode_into-digit fail f c b e
  Reads-decode_into {fail} (reads_list {c} {b} e d) (suc f) h =
      ap (Option.map as_list) (ReadsItems-decode_list d f f (omega arith) (omega arith))
      ∙ decode_into-list fail f c b e
  Reads-decode_into {fail} (reads_dict {c} {b} e d) (suc f) h =
      ap (Option.map as_dict) (ReadsFields-decode_dict d f f (omega arith) (omega arith))
      ∙ decode_into-dict fail f c b e
  Reads-decode_into {fail} (reads_unknown {c} {b} i d l m) (suc f) h =
      decode_into-unknown fail f c b i d l m

  ReadsItems-decode_list :
      {fail : Bool} {b : Bytes} {r : Option (Items × Bytes)} (d : ReadsItems fail b r) (f g : ℕ)
      → length b < f
      → length b < g
      → r ≡ decode_list (decode_into fail f) g b
  ReadsItems-decode_list d f zero h m = absurd (omega (arith, m))
  ReadsItems-decode_list {fail} items_cut f (suc g) h m = decode_list-nil (decode_into fail f) g
  ReadsItems-decode_list {fail} (items_end {c} {b} e) f (suc g) h m =
      decode_list-end (decode_into fail f) g c b e
  ReadsItems-decode_list {fail} (items_fail {c} {b} e d) f (suc g) h m =
      decode_list-fail (decode_into fail f) g c b e (sym (Reads-decode_into d f h))
  ReadsItems-decode_list {fail} (items_next {c} {b} {v} {r} e d ds) f (suc g) h m =
      let read = sym (Reads-decode_into d f h) in
      let less = decode_into-Takes fail f (c ∷ b) v read in
      ap (Option.map (add_item v.0)) (ReadsItems-decode_list ds f g (omega arith) (omega arith))
      ∙ decode_list-next (decode_into fail f) g c b v e read

  ReadsFields-decode_dict :
      {fail : Bool} {last : Option Bytes} {b : Bytes} {r : Option (Fields × Bytes)}
      (d : ReadsFields fail last b r) (f g : ℕ)
      → length b < f
      → length b < g
      → r ≡ decode_dict (decode_into fail f) fail g last b
  ReadsFields-decode_dict d f zero h m = absurd (omega (arith, m))
  ReadsFields-decode_dict {fail} (fields_cut {last}) f (suc g) h m =
      decode_dict-nil (decode_into fail f) fail g last
  ReadsFields-decode_dict {fail} (fields_end {last} {c} {b} e) f (suc g) h m =
      decode_dict-end (decode_into fail f) fail g c last b e
  ReadsFields-decode_dict {fail} (fields_bad_key {last} {c} {b} e k) f (suc g) h m =
      decode_dict-bad_key (decode_into fail f) fail g c last b e k
  ReadsFields-decode_dict {fail} (fields_unordered {last} {c} {b} {key} e k u) f (suc g) h m =
      decode_dict-unordered (decode_into fail f) fail g c last b key e k u
  ReadsFields-decode_dict {fail} (fields_fail {last} {c} {b} {key} e k u d) f (suc g) h m =
      let shorter = decode_string-less (c ∷ b) key k in
      decode_dict-fail (decode_into fail f) fail g c last b key e k u
        (sym (Reads-decode_into d f (omega arith)))
  ReadsFields-decode_dict {fail} (fields_next {last} {c} {b} {key} {v} {r} e k u d ds) f (suc g) h
        m =
      let shorter = decode_string-less (c ∷ b) key k in
      let read = sym (Reads-decode_into d f (omega arith)) in
      let less = decode_into-Takes fail f key.1 v read in
      ap (Option.map (add_field key.0 v.0))
        (ReadsFields-decode_dict ds f g (omega arith) (omega arith))
      ∙ decode_dict-next (decode_into fail f) fail g c last b key v e k u read

-- The decoder ends on every input. The rules without fuel, whose loops have to end and whose errors
-- are their own, derive exactly one result for it, and that is the decoder's, with any fuel for more
-- than the number of bytes.
pub decode_into-ends :
    (fail : Bool) (fuel : ℕ) (b : Bytes)
    → length b < fuel
    → Reads fail b (decode_into fail fuel b)
      × ((r : Option (Value × Bytes)) → Reads fail b r → r ≡ decode_into fail fuel b)
decode_into-ends fail fuel b h =
    (decode_into-Reads fail fuel b h, λ r d. Reads-decode_into d fuel h)
