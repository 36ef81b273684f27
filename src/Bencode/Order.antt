-- ===== src/Bencode/Order.antt =====
-- Entries that are listed by their keys: sorting them and putting them into a map changes nothing.
use go_bt.Prelude.{◌≡◌, refl, ap, ◌∙◌, true, false, [], ◌∷◌, Bytes, bytes_beq, arith}
use go_bt.Bencode.Value.{Fields, no_fields, field, bytes_ltb, has_key, Below, AreFields}
use go_bt.Bencode.Encode.{insert_entry, sort_entries, entries, encode_value}
use go_bt.Bencode.Decode.{to_map}

pub bytes_ltb_asym : (xs ys : Bytes) → bytes_ltb xs ys ≡ true → bytes_ltb ys xs ≡ false
bytes_ltb_asym [] [] h = refl
bytes_ltb_asym [] (y ∷ ys) h = refl
bytes_ltb_asym (x ∷ xs) [] h = ground arith
bytes_ltb_asym (x ∷ xs) (y ∷ ys) h = ground (arith, bytes_ltb_asym xs ys)

bytes_ltb_ne : (xs ys : Bytes) → bytes_ltb xs ys ≡ true → bytes_beq ys xs ≡ false
bytes_ltb_ne [] [] h = ground arith
bytes_ltb_ne [] (y ∷ ys) h = refl
bytes_ltb_ne (x ∷ xs) [] h = refl
bytes_ltb_ne (x ∷ xs) (y ∷ ys) h = ground (arith, bytes_ltb_ne xs ys)

has_key-Below : (key : Bytes) (fs : Fields) → Below key fs → has_key key fs ≡ false
has_key-Below key no_fields h = refl
has_key-Below key (field k v fs) h = rw (bytes_ltb_ne key k h.0) (has_key-Below key fs h.1)

pub to_map-AreFields : (fs : Fields) → AreFields fs → to_map fs ≡ fs
unfolding to_map
to_map-AreFields no_fields h = refl
to_map-AreFields (field k v fs) h =
    rw (has_key-Below k fs h.1) (ap (field k v) (to_map-AreFields fs h.3))

insert-Below :
    (k : Bytes) (b : Bytes) (fs : Fields)
    → Below k fs
    → insert_entry (k, b) (entries fs) ≡ (k, b) ∷ entries fs
unfolding insert_entry entries encode_value
insert-Below k b no_fields h = refl
insert-Below k b (field j v fs) h = rw (bytes_ltb_asym k j h.0) refl

pub sort_entries-AreFields : (fs : Fields) → AreFields fs → sort_entries (entries fs) ≡ entries fs
unfolding sort_entries entries encode_value
sort_entries-AreFields no_fields h = refl
sort_entries-AreFields (field k v fs) h =
    ap (insert_entry (k, encode_value v)) (sort_entries-AreFields fs h.3)
    ∙ insert-Below k (encode_value v) fs h.1
