-- ===== src/Peer/Message/Payload.antt =====
-- Each reader of peerprotocol/message.go on bytes that the encoder wrote.
use go_bt.Prelude.{
  ℕ, ◌≡◌, refl, false, [], ◌∷◌, ◌++◌, append-nil, length as len, take, take-append_length,
  take-length, drop-append_length, Bytes, IsU16, IsU32, be16, be32, of_be16-be16, of_be32-be32,
  arith,
}
use go_bt.Prelude.Io.{IoError}
use go_bt.Peer.Message.{
  Message, zero_message, marshal_binary_type, Limited, going, u32_from, u16_from, byte_from,
  set_index, set_begin, set_length, read_bit_field, read_piece, full_from, Error, read_u32,
  read_u16, read_byte, read_all, decode_payload, decode_triple, decode_piece, decode_extended,
}
use go_bt.Peer.Message.Spec.{relevant, IsEncodable, is_fast_index}

-- A reader limited to the bytes `p`, with `more` behind them.
abbrev pub exact : Bytes → Bytes → Limited
exact p more = record { r = p ++ more; n = len p }

module _ (more : Bytes) where
  take-exact : (p : Bytes) → take (exact p more).n (exact p more).r ≡ p
  take-exact p = take-append_length p more

  pub read_u32-exact :
      (store : ℕ → Message → Message) (m : Message) (v : ℕ) (p : Bytes)
      → IsU32 v
      → read_u32 store m (exact (be32 v ++ p) more) ≡ going (store v m) (exact p more)
  unfolding u32_from be32
  read_u32-exact store m v p h = rw (of_be32-be32 v h) (ground arith)

  pub read_u16-exact :
      (store : ℕ → Message → Message) (m : Message) (v : ℕ)
      → IsU16 v
      → read_u16 store m (exact (be16 v) more) ≡ going (store v m) (exact [] more)
  unfolding u16_from be16
  read_u16-exact store m v h = rw (of_be16-be16 v h) (ground arith)

  pub read_all-exact :
      (store : Bytes → Message → Message) (m : Message) (p : Bytes)
      → read_all store m (exact p more) ≡ going (store p m) (exact [] more)
  read_all-exact store m p = rw (take-exact p, drop-append_length p more) (ground arith)

  full_from-exact :
      (full part : Message) (wrap : IoError → Error) (p : Bytes)
      → full_from full part wrap (len p) (exact p more) ≡ going full (exact [] more)
  unfolding full_from
  full_from-exact full part wrap p =
      rw (take-exact p, take-length p, drop-append_length p more) (ground arith)

  pub read_bit_field-exact :
      (m : Message) (p : Bytes)
      → read_bit_field m (exact p more) ≡ going (record m { bit_field = p }) (exact [] more)
  read_bit_field-exact m p =
      unfold read_bit_field in rw (full_from-exact _ _ _ p, take-exact p) refl

  pub read_piece-exact :
      (m : Message) (p : Bytes)
      → read_piece m (exact p more) ≡ going (record m { piece = p }) (exact [] more)
  read_piece-exact m p = unfold read_piece in rw (full_from-exact _ _ _ p, take-exact p) refl

  read_u32-end :
      (store : ℕ → Message → Message) (m : Message) (v : ℕ)
      → IsU32 v
      → read_u32 store m (exact (be32 v) more) ≡ going (store v m) (exact [] more)
  read_u32-end store m v h = rw append-nil at (read_u32-exact store m v [] h)

  decode_triple-exact :
      (m : Message) (i b k : ℕ)
      → IsU32 i
      → IsU32 b
      → IsU32 k
      → decode_triple m (exact (be32 i ++ (be32 b ++ be32 k)) more)
        ≡ going (record m { index = i; begin = b; length = k }) (exact [] more)
  decode_triple-exact m i b k hi hb hk =
      unfold decode_triple in
      rw (read_u32-exact set_index m i (be32 b ++ be32 k) hi)
        (rw (read_u32-exact set_begin _ b (be32 k) hb) (read_u32-end set_length _ k hk))

  decode_piece-exact :
      (m : Message) (i b : ℕ) (p : Bytes)
      → IsU32 i
      → IsU32 b
      → decode_piece m (exact (be32 i ++ (be32 b ++ p)) more)
        ≡ going (record m { index = i; begin = b; piece = p }) (exact [] more)
  decode_piece-exact m i b p hi hb =
      unfold decode_piece in
      rw (read_u32-exact set_index m i (be32 b ++ p) hi) (
        rw (read_u32-exact set_begin _ b p hb)
          (read_piece-exact (record m { index = i; begin = b }) p))

  read_byte-exact :
      (store : ℕ → Message → Message) (m : Message) (i : ℕ) (p : Bytes)
      → read_byte store m (exact (i ∷ p) more) ≡ going (store i m) (exact p more)
  unfolding byte_from
  read_byte-exact store m i p = ground arith

  decode_extended-exact :
      (m : Message) (i : ℕ) (p : Bytes)
      → decode_extended m (exact (i ∷ p) more)
        ≡ going (record m { extended_id = i; extended_payload = p }) (exact [] more)
  decode_extended-exact m i p =
      unfold decode_extended in
      rw (read_byte-exact (λ v x. record x { extended_id = v }) m i p) (
        read_all-exact (λ bs x. record x { extended_payload = bs }) (record m { extended_id = i })
          p)

  -- The payload that `marshalBinaryType` writes is read back into the fields that the type uses.
  pub decode_payload-marshal :
      (m : Message)
      → IsEncodable m
      → is_fast_index m.mtype ≡ false
      → decode_payload
          (record zero_message { mtype = m.mtype })
          (exact (marshal_binary_type m) more)
        ≡ going (relevant m) (exact [] more)
  unfolding decode_payload marshal_binary_type relevant
  decode_payload-marshal m v h =
      let z : Message = record zero_message { mtype = m.mtype } in
      ground (
        arith,
        read_u32-end set_index z m.index,
        decode_triple-exact z m.index m.begin m.length,
        read_bit_field-exact z m.bit_field,
        decode_piece-exact z m.index m.begin m.piece,
        decode_extended-exact z m.extended_id m.extended_payload,
        read_u16-exact (λ (v : ℕ) (x : Message). record x { port = v }) z m.port,
        read_all-exact (λ (bs : Bytes) (x : Message). record x { unknown_type_payload = bs }) z
            m.unknown_type_payload,
      )
