-- ===== src/Peer/Message/RoundTrip.antt =====
-- What `Encode` writes, `Decode` reads back (peerprotocol/message.go).
use go_bt.Prelude.{
  ℕ, suc, ◌<◌, ◌^◌, ◌≡◌, refl, ap, ◌∙◌, true, false, ◌⊎◌, none, some, [], ◌∷◌, ◌++◌, append_assoc,
  length as len, take-append_length, Bytes, be32, of_be32, of_be32-be32, arith,
}
use go_bt.Prelude.Io.{eof}
use go_bt.Peer.Message.{
  Message, zero_message, marshal_binary_type, Limited, going, stopped, io, decode_payload,
  decode_body, check_used, advance, finish, decode_sized, Decoded, decode_to_message, encode,
  decode, u32_from, read_u32, set_index,
}
use go_bt.Peer.Message.Spec.{relevant, IsEncodable, is_fast_index}
use go_bt.Peer.Message.Payload.{exact, decode_payload-marshal}

relevant-mtype : (m : Message) → (relevant m).mtype ≡ m.mtype
unfolding relevant
relevant-mtype m = ground arith

zero_or_pos : (n : ℕ) → (n ≡ 0) ⊎ (0 < n)
zero_or_pos n = ground arith

advance-exact : (t : ℕ) (p more : Bytes) → advance 1 (exact (t ∷ p) more) ≡ exact p more
advance-exact t p more = ground arith

decode_body-marshal :
    (m : Message) (more : Bytes)
    → IsEncodable m
    → is_fast_index m.mtype ≡ false
    → decode_body zero_message
        (exact (m.mtype ∷ marshal_binary_type m) more)
        (m.mtype ∷ marshal_binary_type m)
      ≡ going (relevant m) (exact [] more)
decode_body-marshal m more v h =
    unfold decode_body in
    rw (advance-exact m.mtype (marshal_binary_type m) more)
      (rw (decode_payload-marshal more m v h) (unfold check_used in refl))

-- Decoding after the length of `n` bytes that are there.
decode-be32 :
    (n : ℕ) (p more : Bytes) (max_length : ℕ)
    → n < 2 ^ 32
    → decode_to_message (be32 n ++ (p ++ more)) max_length
      ≡ decode_sized zero_message n (p ++ more) max_length
unfolding decode_to_message decode be32
decode-be32 n p more max_length h = rw (of_be32-be32 n h) refl

abbrev pub decoded : Message → Bytes → Decoded
decoded m more = record { message = m; rest = more; error = none }

finish_going : (m : Message) (more : Bytes) → finish (going m (exact [] more)) ≡ decoded m more
unfolding finish
finish_going m more = refl

decode_sized-marshal :
    (m : Message) (more : Bytes) (max_length : ℕ)
    → IsEncodable m
    → is_fast_index m.mtype ≡ false
    → (max_length ≡ 0) ⊎ (len (marshal_binary_type m) < max_length)
    → decode_sized zero_message
        (suc (len (marshal_binary_type m)))
        (m.mtype ∷ (marshal_binary_type m ++ more))
        max_length
      ≡ decoded (relevant m) more
unfolding decode_sized
decode_sized-marshal m more max_length v h limit = ground (
  arith,
  take-append_length (m.mtype ∷ marshal_binary_type m) more,
  decode_body-marshal m more v h,
  ap finish (decode_body-marshal m more v h),
  finish_going (relevant m) more,
)

encode-append :
    (m : Message) (more : Bytes)
    → m.keepalive ≡ false
    → encode m ++ more
      ≡ be32 (suc (len (marshal_binary_type m))) ++ (m.mtype ∷ (marshal_binary_type m ++ more))
unfolding encode
encode-append m more k =
    simp k (
      append_assoc (be32 (suc (len (marshal_binary_type m)))) (m.mtype ∷ marshal_binary_type m)
        more)

-- A message other than a keepalive, whose fields lie within their types, with a type other than the
-- two that carry an index which the encoder drops, is decoded from its encoding under any limit that its payload meets.
-- The fields that its type uses come back, all others are zero, and what follows is left unread.
pub decode-encode :
    (m : Message) (more : Bytes) (max_length : ℕ)
    → IsEncodable m
    → m.keepalive ≡ false
    → is_fast_index m.mtype ≡ false
    → (max_length ≡ 0) ⊎ (len (marshal_binary_type m) < max_length)
    → decode_to_message (encode m ++ more) max_length ≡ decoded (relevant m) more
decode-encode m more max_length v k h limit =
    let p : Bytes = m.mtype ∷ marshal_binary_type m in
    ap (λ b. decode_to_message b max_length) (encode-append m more k)
    ∙ decode-be32 (len p) p more max_length (omega (arith, v.size))
    ∙ decode_sized-marshal m more max_length v h limit

fast_index_marshal :
    (m : Message) → is_fast_index m.mtype ≡ true → marshal_binary_type m ≡ m.unknown_type_payload
unfolding marshal_binary_type
fast_index_marshal m f = ground arith

fast_index_payload :
    (m : Message) (l : Limited)
    → is_fast_index m.mtype ≡ true
    → decode_payload m l ≡ read_u32 set_index m l
unfolding decode_payload
fast_index_payload m l f = ground arith

fast_index_body :
    (t : ℕ) (more : Bytes)
    → is_fast_index t ≡ true
    → decode_body zero_message (exact (t ∷ []) more) (t ∷ [])
      ≡ stopped (record zero_message { mtype = t }) (exact [] more) (io eof)
unfolding decode_body check_used
fast_index_body t more f =
    rw
      (
        advance-exact t [] more,
        fast_index_payload (record zero_message { mtype = t }) (exact [] more) f,
      )
      (unfold u32_from in refl)

fast_index_sized :
    (t : ℕ) (more : Bytes) (max_length : ℕ)
    → is_fast_index t ≡ true
    → (max_length ≡ 0) ⊎ (0 < max_length)
    → (decode_sized zero_message 1 (t ∷ more) max_length).error ≡ some (io eof)
unfolding decode_sized finish
fast_index_sized t more max_length f limit = ground (arith, fast_index_body t more f)

-- The two messages of BEP 6 that carry a piece index, `Suggest` and `AllowedFast`, do not survive:
-- the encoder writes no index, and the decoder then meets the end of the message, whatever the
-- index is and whatever follows the message. The message is no keepalive, and its field
-- `UnknownTypePayload` is empty, as the `Send` methods leave it.
pub decode-encode_fast_index :
    (m : Message) (more : Bytes) (max_length : ℕ)
    → m.keepalive ≡ false
    → is_fast_index m.mtype ≡ true
    → m.unknown_type_payload ≡ []
    → (decode_to_message (encode m ++ more) max_length).error ≡ some (io eof)
decode-encode_fast_index m more max_length k f u =
    let e : marshal_binary_type m ≡ [] = fast_index_marshal m f ∙ u in
    let w : encode m ++ more ≡ be32 1 ++ (m.mtype ∷ more) =
      encode-append m more k
      ∙ ap (λ (b : Bytes). be32 (suc (len b)) ++ (m.mtype ∷ (b ++ more))) e in
    let d = decode-be32 1 (m.mtype ∷ []) more max_length (omega arith) in
    ap (λ b. (decode_to_message b max_length).error) w
    ∙ ap (λ (x : Decoded). x.error) d
    ∙ fast_index_sized m.mtype more max_length f (zero_or_pos max_length)

-- A keepalive message is four zero bytes, and is read back under every limit.
pub decode-encode_keepalive :
    (m : Message) (more : Bytes) (max_length : ℕ)
    → m.keepalive ≡ true
    → decode_to_message (encode m ++ more) max_length
      ≡ decoded (record zero_message { keepalive = true }) more
unfolding decode_to_message encode decode decode_sized of_be32 be32
decode-encode_keepalive m more max_length k = ground arith
