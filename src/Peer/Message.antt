-- ===== src/Peer/Message.antt =====
-- The peer messages of peerprotocol/message.go: their encoding and decoding.
-- A reader is the list of bytes that it delivers before its end. `bytes.Buffer` never fails.
pub mod Spec
pub mod Payload
pub mod RoundTrip
pub mod Consume
use go_bt.Prelude.{
  ℕ, ◌+◌, ◌-◌, Bool, true, false, ◌&&◌, ◌||◌, Option, none, some, [], ◌∷◌, ◌++◌, length as len,
  take, drop, replicate, Bytes, be16, be32, of_be16, of_be32, ltb, leb, ◌==◌, if◌then◌else◌,
}
use go_bt.Prelude.Io.{IoError, eof, unexpected_eof}
use go_bt.Peer.MType

pub record Message : Type 0 where
  pub keepalive : Bool
  pub mtype : ℕ
  pub index : ℕ
  pub begin : ℕ
  pub length : ℕ
  pub piece : Bytes
  pub bit_field : Bytes
  pub extended_id : ℕ
  pub extended_payload : Bytes
  pub port : ℕ
  pub unknown_type_payload : Bytes

-- The zero value, `var m Message`.
abbrev pub zero_message : Message
zero_message = record {
  keepalive = false;
  mtype = 0;
  index = 0;
  begin = 0;
  length = 0;
  piece = [];
  bit_field = [];
  extended_id = 0;
  extended_payload = [];
  port = 0;
  unknown_type_payload = [];
}

-- The types without a payload, and those with an index and two more words.
abbrev pub is_plain : ℕ → Bool
is_plain t =
    t == MType.choke
    || t == MType.unchoke
    || t == MType.interested
    || t == MType.not_interested
    || t == MType.have_all
    || t == MType.have_none

abbrev pub is_triple : ℕ → Bool
is_triple t = t == MType.request || t == MType.cancel || t == MType.reject

unfoldable pub marshal_binary_type : Message → Bytes
marshal_binary_type m =
    if is_plain m.mtype
    then []
    else if m.mtype == MType.have
    then be32 m.index
    else if is_triple m.mtype
    then be32 m.index ++ (be32 m.begin ++ be32 m.length)
    else if m.mtype == MType.bit_field
    then m.bit_field
    else if m.mtype == MType.piece
    then be32 m.index ++ (be32 m.begin ++ m.piece)
    else if m.mtype == MType.extended
    then m.extended_id ∷ m.extended_payload
    else if m.mtype == MType.port
    then be16 m.port
    else m.unknown_type_payload

-- The four bytes of the length come first; `be32` cuts the length to 32 bits as `uint32(…)` does.
-- The payload has a byte at least, so the source's `payloadLen > 0` holds.
unfoldable pub encode : Message → Bytes
encode m =
    if m.keepalive
    then 0 ∷ 0 ∷ 0 ∷ 0 ∷ []
    else let payload = m.mtype ∷ marshal_binary_type m in be32 (len payload) ++ payload

pub data Error : Type 0 where
  io : IoError → Error
  reading_length : IoError → Error
  too_long : Error
  piece_data : IoError → Error
  -- bytes unused, and the message type
  unused : ℕ → ℕ → Error

-- `io.LimitedReader`: what `r` still delivers, and how many bytes may still be read.
pub record Limited : Type 0 where
  pub r : Bytes
  pub n : ℕ

-- A decoding under way: the message as it stands, the reader, and the error that ended it.
pub data Decoding : Type 0 where
  going : Message → Limited → Decoding
  stopped : Message → Limited → Error → Decoding

infixl 5 ◌>>=◌
abbrev pub ◌>>=◌ : Decoding → (Message × Limited → Decoding) → Decoding
going m l >>= f = f (m, l)
stopped m l e >>= f = stopped m l e

abbrev pub advance : ℕ → Limited → Limited
advance k l = record { r = drop k l.r; n = l.n - k }

-- What `binary.Read` into a word does with the bytes within the limit, by `io.ReadFull`.
unfoldable pub u32_from : (ℕ → Message → Message) → Message → Limited → Bytes → Decoding
u32_from store m l [] = stopped m l (io eof)
u32_from store m l (a ∷ b ∷ c ∷ d ∷ bs) = going (store (of_be32 a b c d) m) (advance 4 l)
u32_from store m l bs = stopped m (advance (len bs) l) (io unexpected_eof)

unfoldable pub u16_from : (ℕ → Message → Message) → Message → Limited → Bytes → Decoding
u16_from store m l [] = stopped m l (io eof)
u16_from store m l (a ∷ b ∷ bs) = going (store (of_be16 a b) m) (advance 2 l)
u16_from store m l bs = stopped m (advance (len bs) l) (io unexpected_eof)

-- `binary.Read(lr, binary.BigEndian, &field)`, where `store` writes the field.
abbrev pub read_u32 : (ℕ → Message → Message) → Message → Limited → Decoding
read_u32 store m l = u32_from store m l (take l.n l.r)

abbrev pub read_u16 : (ℕ → Message → Message) → Message → Limited → Decoding
read_u16 store m l = u16_from store m l (take l.n l.r)

-- `m.field, err = readByte(lr)`: the field is written on an error too.
unfoldable pub byte_from : (ℕ → Message → Message) → Message → Limited → Bytes → Decoding
byte_from store m l [] = stopped (store 0 m) l (io eof)
byte_from store m l (b ∷ bs) = going (store b m) (advance 1 l)

abbrev pub read_byte : (ℕ → Message → Message) → Message → Limited → Decoding
read_byte store m l = byte_from store m l (take l.n l.r)

abbrev pub set_index : ℕ → Message → Message
set_index v m = record m { index = v }

abbrev pub set_begin : ℕ → Message → Message
set_begin v m = record m { begin = v }

abbrev pub set_length : ℕ → Message → Message
set_length v m = record m { length = v }

-- A field read by `io.ReadFull` into `k` bytes: `full` on success, `part` on an error.
unfoldable pub full_from : Message → Message → (IoError → Error) → ℕ → Limited → Decoding
full_from full part wrap k l =
    let got = len (take k (take l.n l.r)) in
    if leb k got
    then going full (advance k l)
    else stopped part (advance got l) (wrap (if got == 0 then eof else unexpected_eof))

-- `make([]byte, _len)` filled by `io.ReadFull`; the field is written on success only.
unfoldable pub read_bit_field : Message → Limited → Decoding
read_bit_field m l = full_from (record m { bit_field = take l.n l.r }) m io l.n l

-- `m.Piece` is made with `lr.N` zeros and keeps what was read of them.
unfoldable pub read_piece : Message → Limited → Decoding
read_piece m l =
    let got = take l.n l.r in
    full_from (record m { piece = got }) (record m { piece = got ++ replicate (l.n - len got) 0 })
      piece_data l.n l

-- `ioutil.ReadAll(lr)` stops at the end of the reader without an error.
abbrev pub read_all : (Bytes → Message → Message) → Message → Limited → Decoding
read_all store m l = let got = take l.n l.r in going (store got m) (advance (len got) l)

unfoldable pub decode_triple : Message → Limited → Decoding
decode_triple m l = do
  (m₁, l₁) ← read_u32 set_index m l
  (m₂, l₂) ← read_u32 set_begin m₁ l₁
  read_u32 set_length m₂ l₂

unfoldable pub decode_piece : Message → Limited → Decoding
decode_piece m l = do
  (m₁, l₁) ← read_u32 set_index m l
  (m₂, l₂) ← read_u32 set_begin m₁ l₁
  read_piece m₂ l₂

unfoldable pub decode_extended : Message → Limited → Decoding
decode_extended m l = do
  (m₁, l₁) ← read_byte (λ v x. record x { extended_id = v }) m l
  read_all (λ bs x. record x { extended_payload = bs }) m₁ l₁

unfoldable pub decode_payload : Message → Limited → Decoding
decode_payload m l =
    if is_plain m.mtype
    then going m l
    else if m.mtype == MType.have || m.mtype == MType.allowed_fast || m.mtype == MType.suggest
    then read_u32 set_index m l
    else if is_triple m.mtype
    then decode_triple m l
    else if m.mtype == MType.bit_field
    then read_bit_field m l
    else if m.mtype == MType.piece
    then decode_piece m l
    else if m.mtype == MType.extended
    then decode_extended m l
    else if m.mtype == MType.port
    then read_u16 (λ v x. record x { port = v }) m l
    else read_all (λ bs x. record x { unknown_type_payload = bs }) m l

-- The deferred check that all of the reader was used.
unfoldable pub check_used : Decoding → Decoding
check_used (going m l) = if l.n == 0 then going m l else stopped m l (unused l.n m.mtype)
check_used (stopped m l e) = stopped m l e

-- What `Decode` does after the length: `readByte` here leaves the message alone on an error.
unfoldable pub decode_body : Message → Limited → Bytes → Decoding
decode_body m l [] = stopped m l (io eof)
decode_body m l (t ∷ bs) = check_used (decode_payload (record m { mtype = t }) (advance 1 l))

-- Where `Decode` ends: the message, what the reader still delivers, and the error.
pub record Decoded : Type 0 where
  pub message : Message
  pub rest : Bytes
  pub error : Option Error

unfoldable pub finish : Decoding → Decoded
finish (going m l) = record { message = m; rest = l.r; error = none }
finish (stopped m l e) = record { message = m; rest = l.r; error = some e }

-- The tests that follow the reading of the length.
unfoldable pub decode_sized : Message → ℕ → Bytes → ℕ → Decoded
decode_sized m length r max_length =
    if length == 0
    then record { message = record m { keepalive = true }; rest = r; error = none }
    else if ltb 0 max_length && ltb max_length length
    then record { message = m; rest = r; error = some too_long }
    else finish (
        decode_body (record m { keepalive = false }) (record { r = r; n = length }) (take length r))

-- `m.Decode(r, maxLength)`.
unfoldable pub decode : Message → Bytes → ℕ → Decoded
decode m (a ∷ b ∷ c ∷ d ∷ r) max_length = decode_sized m (of_be32 a b c d) r max_length
decode m [] max_length = record { message = m; rest = []; error = some (io eof) }
decode m short max_length = record {
  message = m;
  rest = [];
  error = some (reading_length unexpected_eof);
}

-- `DecodeToMessage(r, maxLength)`, and `UnmarshalBinary`, which sets no limit.
unfoldable pub decode_to_message : Bytes → ℕ → Decoded
decode_to_message r max_length = decode zero_message r max_length
