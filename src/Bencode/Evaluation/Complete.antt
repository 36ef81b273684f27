-- ===== src/Bencode/Evaluation/Complete.antt =====
-- The decoder (bencode/decode.go) ends, with a result that the rules give.
use go_bt.Prelude.{
  ℕ, zero, suc, ◌<◌, ◌≡◌, ◌≢◌, subst, Bool, Bool-cases, Option, none, some, Option-cases, [], ◌∷◌,
  length, Bytes, ◌==◌, inl, inr, arith,
}
use go_bt.Bencode.Number.{is_digit}
use go_bt.Bencode.Value.{Value}
use go_bt.Bencode.Decode.{decode_string, unordered, decode_list, decode_dict, decode_into}
use go_bt.Bencode.Decode.Fuel.{Takes, decode_string-less, decode_into-Takes}
use go_bt.Bencode.Evaluation.{
  Reads, reads_end, reads_int, reads_text, reads_list, reads_dict, reads_unknown, ReadsItems,
  items_cut, items_end, items_fail, items_next, ReadsFields, fields_cut, fields_end, fields_bad_key,
  fields_unordered, fields_fail, fields_next,
}
use go_bt.Bencode.Evaluation.Rounds.{
  decode_list-end, decode_list-fail, decode_list-next, decode_dict-end, decode_dict-bad_key,
  decode_dict-unordered, decode_dict-fail, decode_dict-next, decode_into-int, decode_into-digit,
  decode_into-list, decode_into-dict, decode_into-unknown,
}

module _ (fail : Bool) (size : ℕ) (read : Bytes → Option (Value × Bytes)) (takes : Takes read)
    (reads : (b : Bytes) → length b < size → Reads fail b (read b)) where
  decode_list-ReadsItems :
      (g : ℕ) (b : Bytes)
      → length b < size
      → length b < g
      → ReadsItems fail b (decode_list read g b)
  unfolding decode_list
  decode_list-ReadsItems zero b h m = absurd (omega (arith, m))
  decode_list-ReadsItems (suc g) [] h m = items_cut
  decode_list-ReadsItems (suc g) (c ∷ b) h m = elim (Bool-cases (c == 101)) [
    | inl e ↦
        let last : c ≡ 101 = ground arith in
        subst (ReadsItems fail (c ∷ b)) (decode_list-end read g c b last) (items_end last)
    | inr e ↦
        let open_end : c ≢ 101 = ground arith in
        elim (Option-cases (read (c ∷ b))) [
          | inl n ↦
              subst (ReadsItems fail (c ∷ b)) (decode_list-fail read g c b open_end n)
                (items_fail open_end (subst (Reads fail (c ∷ b)) n (reads (c ∷ b) h)))
          | inr (v, n) ↦
              let less = takes (c ∷ b) v n in
              subst (ReadsItems fail (c ∷ b)) (decode_list-next read g c b v open_end n) (
                items_next open_end (subst (Reads fail (c ∷ b)) n (reads (c ∷ b) h))
                  (decode_list-ReadsItems g v.1 (omega arith) (omega arith)))
        ]
  ]

  decode_dict-ReadsFields :
      (g : ℕ) (last : Option Bytes) (b : Bytes)
      → length b < size
      → length b < g
      → ReadsFields fail last b (decode_dict read fail g last b)
  unfolding decode_dict
  decode_dict-ReadsFields zero last b h m = absurd (omega (arith, m))
  decode_dict-ReadsFields (suc g) last [] h m = fields_cut
  decode_dict-ReadsFields (suc g) last (c ∷ b) h m = elim (Bool-cases (c == 101)) [
    | inl e ↦
        let closed : c ≡ 101 = ground arith in
        subst (ReadsFields fail last (c ∷ b)) (decode_dict-end read fail g c last b closed)
          (fields_end closed)
    | inr e ↦
        let open_end : c ≢ 101 = ground arith in
        elim (Option-cases (decode_string (c ∷ b))) [
          | inl k ↦
              subst (ReadsFields fail last (c ∷ b))
                (decode_dict-bad_key read fail g c last b open_end k) (fields_bad_key open_end k)
          | inr (key, k) ↦
              let shorter = decode_string-less (c ∷ b) key k in
              elim (Bool-cases (unordered fail last key.0)) [
                | inl u ↦
                    subst (ReadsFields fail last (c ∷ b))
                      (decode_dict-unordered read fail g c last b key open_end k u)
                      (fields_unordered open_end k u)
                | inr u ↦ elim (Option-cases (read key.1)) [
                  | inl n ↦
                      subst (ReadsFields fail last (c ∷ b))
                        (decode_dict-fail read fail g c last b key open_end k u n)
                        (fields_fail open_end k u
                          (subst (Reads fail key.1) n (reads key.1 (omega arith))))
                  | inr (v, n) ↦
                      let less = takes key.1 v n in
                      subst (ReadsFields fail last (c ∷ b))
                        (decode_dict-next read fail g c last b key v open_end k u n)
                        (fields_next open_end k u
                          (subst (Reads fail key.1) n (reads key.1 (omega arith)))
                          (decode_dict-ReadsFields g (some key.0) v.1 (omega arith) (omega arith)))
                ]
              ]
        ]
  ]

pub decode_into-Reads :
    (fail : Bool) (fuel : ℕ) (b : Bytes) → length b < fuel → Reads fail b (decode_into fail fuel b)
unfolding decode_into
decode_into-Reads fail zero b h = absurd (omega (arith, h))
decode_into-Reads fail (suc f) [] h = reads_end
decode_into-Reads fail (suc f) (c ∷ b) h =
    let reads = λ (d : Bytes) (less : length d < f). decode_into-Reads fail f d less in
    let takes = decode_into-Takes fail f in
    let small : length b < f = omega arith in
    elim (Bool-cases (c == 105)) [
      | inl i ↦
          let e : c ≡ 105 = ground arith in
          subst (Reads fail (c ∷ b)) (decode_into-int fail f c b e) (reads_int e)
      | inr i ↦ elim (Bool-cases (is_digit c)) [
        | inl d ↦ subst (Reads fail (c ∷ b)) (decode_into-digit fail f c b d) (reads_text d)
        | inr d ↦ elim (Bool-cases (c == 108)) [
          | inl l ↦
              let e : c ≡ 108 = ground arith in
              subst (Reads fail (c ∷ b)) (decode_into-list fail f c b e) (
                reads_list e
                  (decode_list-ReadsItems fail f (decode_into fail f) takes reads f b small small))
          | inr l ↦ elim (Bool-cases (c == 100)) [
            | inl m ↦
                let e : c ≡ 100 = ground arith in
                subst (Reads fail (c ∷ b)) (decode_into-dict fail f c b e) (
                  reads_dict e (
                    decode_dict-ReadsFields fail f (decode_into fail f) takes reads f none b small
                      small))
            | inr m ↦
                subst (Reads fail (c ∷ b))
                  (decode_into-unknown fail f c b (ground arith) d (ground arith) (ground arith))
                  (reads_unknown (ground arith) d (ground arith) (ground arith))
          ]
        ]
      ]
    ]
