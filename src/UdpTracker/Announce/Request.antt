-- ===== src/UdpTracker/Announce/Request.antt =====
-- An announce request is read back.
use go_bt.Prelude.{
  ℕ, suc, ◌+◌, ◌<◌, ◌≤◌, ◌≡◌, refl, ap, ◌∙◌, false, none, some, List, ◌∷◌, ◌++◌, length,
  length-append, take, drop, All, Bytes, IsU16, IsU32, IsU64, be16, be32, be64, of_be, of_be-be16,
  of_be-be32, of_be-be64, ltb, arith,
}
use go_bt.Prelude.Slices.{slice, drop-behind, take_front}
use go_bt.UdpTracker.Extension.{Extension, encode_exts, decode_ext, decode_exts}
use go_bt.UdpTracker.Extension.RoundTrip.{IsExt, all_sized, decode-encode_exts}
use go_bt.UdpTracker.Announce.{
  AnnounceRequest, wanted, not_positive, encode_request, decode_request,
}

-- A request whose fields have the widths of the source's types, with extensions that do not panic.
pub record IsRequest (r : AnnounceRequest) : Type 0 where
  pub info_hash-size : length r.info_hash ≡ 20
  pub peer_id-size : length r.peer_id ≡ 20
  pub downloaded-word : IsU64 r.downloaded
  pub left-word : IsU64 r.left
  pub uploaded-word : IsU64 r.uploaded
  pub event-word : IsU32 r.event
  pub key-word : IsU32 r.key
  pub num_want-word : IsU32 r.num_want
  pub port-word : IsU16 r.port
  pub exts-sized : All IsExt r.exts

wanted-IsU32 : (w : ℕ) → IsU32 w → IsU32 (wanted w)
unfolding wanted not_positive
wanted-IsU32 w h = ground arith

-- What follows the two hashes.
abbrev pub words : AnnounceRequest → Bytes → Bytes
words r more =
    be64 r.downloaded
    ++ (be64 r.left
        ++ (be64 r.uploaded
            ++ (be32 r.event
                ++ (be32 0
                    ++ (be32 r.key ++ (be32 (wanted r.num_want) ++ (be16 r.port ++ more)))))))

abbrev pub whole : AnnounceRequest → Bytes → Bytes
whole r more = r.info_hash ++ (r.peer_id ++ words r more)

-- Past the two hashes.
past :
    (r : AnnounceRequest)
    → IsRequest r
    → (more : Bytes) (n : ℕ) → drop (20 + (20 + n)) (whole r more) ≡ drop n (words r more)
past r h more n =
    drop-behind r.info_hash (r.peer_id ++ words r more) 20 (20 + n) h.info_hash-size
    ∙ drop-behind r.peer_id (words r more) 20 n h.peer_id-size

pub length-whole :
    (r : AnnounceRequest) → IsRequest r → (more : Bytes) → length (whole r more) ≡ 82 + length more
unfolding be64 be32 be16
length-whole r h more = omega (
  arith,
  length-append r.info_hash (r.peer_id ++ words r more),
  length-append r.peer_id (words r more),
  h.info_hash-size,
  h.peer_id-size,
)

abbrev sliced : Bytes → List Extension → AnnounceRequest
sliced b es = record {
  info_hash = slice 0 20 b;
  peer_id = slice 20 40 b;
  downloaded = of_be (slice 40 48 b);
  left = of_be (slice 48 56 b);
  uploaded = of_be (slice 56 64 b);
  event = of_be (slice 64 68 b);
  key = of_be (slice 72 76 b);
  num_want = of_be (slice 76 80 b);
  port = of_be (slice 80 82 b);
  exts = es;
}

ltb_of_le : (a b : ℕ) → a ≤ b → ltb b a ≡ false
ltb_of_le a b h = ground arith

decode_request-parts :
    (b : Bytes) (es : List Extension)
    → 82 ≤ length b
    → decode_exts (length (drop 82 b)) (drop 82 b) ≡ some es
    → decode_request b ≡ some (sliced b es)
unfolding decode_request
decode_request-parts b es h e = rw (ltb_of_le 82 (length b) h, e) refl

sliced-whole :
    (r : AnnounceRequest)
    → IsRequest r
    → (more : Bytes) (es : List Extension)
    → sliced (whole r more) es ≡ record r { num_want = wanted r.num_want; exts = es }
unfolding slice be64 be32 be16
sliced-whole r h more es =
    let info : take 20 (whole r more) ≡ r.info_hash =
      take_front r.info_hash (r.peer_id ++ words r more) 20 h.info_hash-size in
    let behind : drop 20 (whole r more) ≡ r.peer_id ++ words r more =
      drop-behind r.info_hash (r.peer_id ++ words r more) 20 0 h.info_hash-size in
    let peer : take 20 (drop 20 (whole r more)) ≡ r.peer_id =
      ap (take 20) behind ∙ take_front r.peer_id (words r more) 20 h.peer_id-size in
    rw
      (
        info,
        peer,
        past r h more 0,
        past r h more 8,
        past r h more 16,
        past r h more 24,
        past r h more 32,
        past r h more 36,
        past r h more 40,
      )
      (rw
        (
          of_be-be64 r.downloaded h.downloaded-word,
          of_be-be64 r.left h.left-word,
          of_be-be64 r.uploaded h.uploaded-word,
          of_be-be32 r.event h.event-word,
          of_be-be32 r.key h.key-word,
          of_be-be32 (wanted r.num_want) (wanted-IsU32 r.num_want h.num_want-word),
          of_be-be16 r.port h.port-word,
        )
        refl)

encode_request-whole :
    (r : AnnounceRequest) (more : Bytes)
    → encode_exts r.exts ≡ some more
    → encode_request r ≡ some (whole r more)
unfolding encode_request
encode_request-whole r more e = rw (encode_request, e) refl

-- A request whose fields have their widths is written without a panic and read back, with -1 for a
-- number of peers that is not positive, and with the lengths of its extensions filled in.
pub decode-encode_request :
    (r : AnnounceRequest)
    → IsRequest r
    → (b : Bytes) × (encode_request r ≡ some b)
      × (decode_request b
          ≡ some (record r { num_want = wanted r.num_want; exts = all_sized r.exts }))
unfolding be64 be32 be16
decode-encode_request r h =
    let (more, written, read) = decode-encode_exts r.exts h.exts-sized in
    let behind : drop 82 (whole r more) ≡ more = past r h more 42 in
    let long = length-whole r h more in
    (
      whole r more,
      encode_request-whole r more written,
      decode_request-parts (whole r more) (all_sized r.exts) (omega arith)
            (ap (λ b. decode_exts (length b) b) behind ∙ read)
          ∙ ap some (sliced-whole r h more (all_sized r.exts)),
    )

past_end :
    (kind size : ℕ) (payload : Bytes)
    → length payload < size
    → decode_ext (kind ∷ size ∷ payload) ≡ none
unfolding decode_ext
past_end kind size payload h = ground arith

truncated :
    (kind size : ℕ) (payload : Bytes) (fuel : ℕ)
    → length payload < size
    → decode_exts (suc fuel) (kind ∷ size ∷ payload) ≡ none
unfolding decode_exts
truncated kind size payload fuel h = let e = past_end kind size payload h in ground arith

decode_request-stops :
    (b : Bytes)
    → 82 ≤ length b
    → decode_exts (length (drop 82 b)) (drop 82 b) ≡ none
    → decode_request b ≡ none
unfolding decode_request
decode_request-stops b h e = rw (decode_request, ltb_of_le 82 (length b) h, e) refl

-- A request whose fields have their widths, and that ends in an extension whose length goes past its
-- end.
pub decode_request-truncated :
    (r : AnnounceRequest) (kind size : ℕ) (payload : Bytes)
    → IsRequest r
    → length payload < size
    → decode_request (whole r (kind ∷ size ∷ payload)) ≡ none
unfolding be64 be32 be16
decode_request-truncated r kind size payload h short =
    let more : Bytes = kind ∷ size ∷ payload in
    let behind : drop 82 (whole r more) ≡ more = past r h more 42 in
    let long = length-whole r h more in
    decode_request-stops (whole r more) (omega arith) (
      ap (λ b. decode_exts (length b) b) behind
      ∙ truncated kind size payload (suc (length payload)) short)
