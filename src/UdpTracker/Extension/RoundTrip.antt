-- ===== src/UdpTracker/Extension/RoundTrip.antt =====
-- Extensions are read back, and the loop that reads them ends.
use go_bt.Prelude.{
  ℕ, zero, suc, ◌+◌, ◌-◌, ◌<◌, ◌≤◌, ◌≡◌, ◌⊎◌, inl, inr, refl, ap, ◌∙◌, some, Option-cases, List, [],
  ◌∷◌, ◌++◌, length, length-append, length-drop, take, drop, All, Bytes, arith,
}
use go_bt.Prelude.Slices.{slice, drop_front, take_front}
use go_bt.UdpTracker.Extension.{Extension, encode_ext, decode_ext, encode_exts, decode_exts}

-- An extension whose data fits its length, which is the field's or is left at zero.
abbrev pub IsExt : Extension → Type 0
IsExt e = (length e.payload < 256) × ((e.size ≡ length e.payload) ⊎ (e.size ≡ 0))

-- The extension with its length filled in.
abbrev pub sized : Extension → Extension
sized e = record e { size = length e.payload }

abbrev pub all_sized : List Extension → List Extension
all_sized [] = []
all_sized (e ∷ es) = sized e ∷ all_sized es

encode_ext-sized :
    (e : Extension) → IsExt e → encode_ext e ≡ some (e.kind ∷ length e.payload ∷ e.payload)
unfolding encode_ext
encode_ext-sized e h = ground arith

nil_of_length : (xs : Bytes) → length xs ≡ 0 → xs ≡ []
nil_of_length [] h = refl
nil_of_length (x ∷ xs) h = absurd (omega (arith, h))

decode_ext-step :
    (kind size : ℕ) (payload rest : Bytes)
    → length payload ≡ size
    → decode_ext (kind ∷ size ∷ (payload ++ rest))
      ≡ some (record { kind = kind; size = size; payload = payload }, 2 + size)
unfolding decode_ext slice
decode_ext-step kind size payload rest h =
    let count : 2 + size - 2 ≡ size = omega arith in
    let front : take (2 + size - 2) (payload ++ rest) ≡ payload =
      ap (λ k. take k (payload ++ rest)) count ∙ take_front payload rest size h in
    ground (arith, nil_of_length payload, length-append payload rest)

-- A round of the loop takes a byte at least.
decode_ext-progress :
    (x : ℕ) (b : Bytes) (found : Extension × ℕ) → decode_ext (x ∷ b) ≡ some found → 0 < found.1
unfolding decode_ext
decode_ext-progress x [] found h = ground arith
decode_ext-progress x (y ∷ b) found h = ground arith

fuels_agree :
    (m n : ℕ) (b : Bytes) → length b ≤ m → length b ≤ n → decode_exts m b ≡ decode_exts n b
unfolding decode_exts
fuels_agree m n [] h k = refl
fuels_agree zero n (x ∷ b) h k = absurd (omega (arith, h))
fuels_agree (suc m) zero (x ∷ b) h k = absurd (omega (arith, k))
fuels_agree (suc m) (suc n) (x ∷ b) h k = elim (Option-cases (decode_ext (x ∷ b))) [
  | inl e ↦ ground arith
  | inr found ↦
      let some_taken = decode_ext-progress x b found.0 found.1 in
      let left = length-drop found.0.1 (x ∷ b) in
      let rest = fuels_agree m n (drop found.0.1 (x ∷ b)) (omega arith) (omega arith) in
      let taken = found.1 in ground arith
]

-- The loop ends: fuel of the length of the bytes is enough, since more of it gives the same.
pub decode_exts-fuel :
    (fuel : ℕ) (b : Bytes) → length b ≤ fuel → decode_exts fuel b ≡ decode_exts (length b) b
decode_exts-fuel fuel b h = fuels_agree fuel (length b) b h (omega arith)

decode_exts-step :
    (fuel x : ℕ) (b : Bytes) (found : Extension × ℕ) (es : List Extension)
    → decode_ext (x ∷ b) ≡ some found
    → decode_exts fuel (drop found.1 (x ∷ b)) ≡ some es
    → decode_exts (suc fuel) (x ∷ b) ≡ some (found.0 ∷ es)
unfolding decode_exts
decode_exts-step fuel x b found es e f = ground arith

encode_exts-step :
    (e : Extension) (es : List Extension) (b more : Bytes)
    → encode_ext e ≡ some b
    → encode_exts es ≡ some more
    → encode_exts (e ∷ es) ≡ some (b ++ more)
unfolding encode_exts
encode_exts-step e es b more f g = ground arith

ext_found :
    (e : Extension) (rest : Bytes)
    → decode_ext (e.kind ∷ length e.payload ∷ (e.payload ++ rest))
      ≡ some (sized e, 2 + length e.payload)
ext_found e rest = decode_ext-step e.kind (length e.payload) e.payload rest refl

ext_left :
    (e : Extension) (rest : Bytes)
    → drop (2 + length e.payload) (e.kind ∷ length e.payload ∷ (e.payload ++ rest)) ≡ rest
ext_left e rest =
    drop_front (e.kind ∷ length e.payload ∷ e.payload) rest (2 + length e.payload) (omega arith)

-- Extensions whose data fits their lengths are written without a panic and read back, with their
-- lengths filled in, by fuel of the number of their bytes.
pub decode-encode_exts :
    (es : List Extension)
    → All IsExt es
    → (b : Bytes) × (encode_exts es ≡ some b) × (decode_exts (length b) b ≡ some (all_sized es))
unfolding encode_exts decode_exts
decode-encode_exts [] h = ([], refl, refl)
decode-encode_exts (e ∷ es) h =
    let (more, written, read) = decode-encode_exts es h.1 in
    let b : Bytes = e.kind ∷ length e.payload ∷ (e.payload ++ more) in
    let enough : length more ≤ suc (length (e.payload ++ more)) =
      omega (arith, length-append e.payload more) in
    (
      b,
      encode_exts-step e es (e.kind ∷ length e.payload ∷ e.payload) more (encode_ext-sized e h.0)
          written,
      decode_exts-step (suc (length (e.payload ++ more))) e.kind
          (length e.payload ∷ (e.payload ++ more)) (sized e, 2 + length e.payload) (all_sized es)
          (ext_found e more)
          (ap (decode_exts (suc (length (e.payload ++ more)))) (ext_left e more)
            ∙ decode_exts-fuel (suc (length (e.payload ++ more))) more enough
            ∙ read),
    )
