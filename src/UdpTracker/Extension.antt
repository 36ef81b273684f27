-- ===== src/UdpTracker/Extension.antt =====
-- The extensions of an announce request (tracker/udptracker/udp.go).
pub mod RoundTrip
use go_bt.Prelude.{
  ℕ, zero, suc, ◌+◌, ◌%◌, Bool, true, false, not, ◌&&◌, Option, none, some, List, [], ◌∷◌, ◌++◌,
  length, take, drop, Bytes, ltb, ◌==◌, if◌then◌else◌,
}
use go_bt.Prelude.Slices.{slice}

-- `Extension`; the fields `Type`, `Length` and `Data` are `kind`, `size` and `payload`.
pub record Extension : Type 0 where
  pub kind : ℕ
  pub size : ℕ
  pub payload : Bytes

abbrev pub end_of_options : ℕ
end_of_options = 0

abbrev pub nop : ℕ
nop = 1

abbrev pub url_data : ℕ
url_data = 2

-- `NewURLData(payload)`: the conversion to uint8 wraps around.
unfoldable pub new_url_data : Bytes → Extension
new_url_data payload = record { kind = url_data; size = length payload % 256; payload = payload }

-- `EncodeTo`: what is written; `none` is the panic.
unfoldable pub encode_ext : Extension → Option Bytes
encode_ext e =
    let len = length e.payload % 256 in
    if e.size == 0 && not (len == 0)
    then some (e.kind ∷ len ∷ e.payload)
    else if len == e.size
    then some (e.kind ∷ e.size ∷ e.payload)
    else none

-- `DecodeFrom(b)`: the extension and the number of bytes it takes. The fields that it leaves alone
-- are zero, as in the only caller. A length past the end of `b` panics, here or at the slice
-- `b[parsed:]` of the caller: `none`.
unfoldable pub decode_ext : Bytes → Option (Extension × ℕ)
decode_ext [] = some (record { kind = 0; size = 0; payload = [] }, 0)
decode_ext (kind ∷ []) = some (record { kind = kind; size = 0; payload = [] }, 1)
decode_ext (kind ∷ size ∷ b) =
    if size == 0
    then some (record { kind = kind; size = size; payload = [] }, 2)
    else if ltb (length b) size
    then none
    else some (
      record { kind = kind; size = size; payload = slice 2 (2 + size) (kind ∷ size ∷ b) },
      2 + size,
    )

-- The loop over the extensions of a request, in `EncodeTo` and in `DecodeFrom`.
unfoldable pub encode_exts : List Extension → Option Bytes
encode_exts [] = some []
encode_exts (e ∷ es) =
    let rest = encode_exts es in
    elim (encode_ext e) [
      | none ↦ none
      | some b ↦ elim rest [ none ↦ none | some more ↦ some (b ++ more) ]
    ]

-- Every round takes a byte at least, so that fuel of the length of `b` is enough.
unfoldable pub decode_exts : ℕ → Bytes → Option (List Extension)
decode_exts fuel [] = some []
decode_exts zero (x ∷ b) = none
decode_exts (suc fuel) (x ∷ b) = elim (decode_ext (x ∷ b)) [
  | none ↦ none
  | some found ↦ elim (decode_exts fuel (drop found.1 (x ∷ b))) [
    | none ↦ none
    | some es ↦ some (found.0 ∷ es)
  ]
]
