-- ===== src/Peer/Message/Spec.antt =====
-- An independent description of the messages of peerprotocol/message.go: which fields a type uses.
use go_bt.Prelude.{
  ℕ, ◌+◌, ◌<◌, ◌^◌, Bool, ◌||◌, length as len, IsByte, IsU16, IsU32, ◌==◌, if◌then◌else◌,
}
use go_bt.Peer.MType
use go_bt.Peer.Message.{Message, zero_message, is_plain, is_triple, marshal_binary_type}

-- The message with the fields that its type uses, and all others zero. The comments on the fields
-- of `Message` list the types that use each.
unfoldable pub relevant : Message → Message
relevant m =
    let z = record zero_message { mtype = m.mtype } in
    if is_plain m.mtype
    then z
    else if m.mtype == MType.have
    then record z { index = m.index }
    else if is_triple m.mtype
    then record z { index = m.index; begin = m.begin; length = m.length }
    else if m.mtype == MType.bit_field
    then record z { bit_field = m.bit_field }
    else if m.mtype == MType.piece
    then record z { index = m.index; begin = m.begin; piece = m.piece }
    else if m.mtype == MType.extended
    then record z { extended_id = m.extended_id; extended_payload = m.extended_payload }
    else if m.mtype == MType.port
    then record z { port = m.port }
    else record z { unknown_type_payload = m.unknown_type_payload }

-- The fields lie within their Go types, and the payload's length within 32 bits.
pub record IsEncodable (m : Message) : Type 0 where
  pub type_range : IsByte m.mtype
  pub index_range : IsU32 m.index
  pub begin_range : IsU32 m.begin
  pub length_range : IsU32 m.length
  pub port_range : IsU16 m.port
  pub size : len (marshal_binary_type m) + 1 < 2 ^ 32

-- The two messages of BEP 6 that carry an index which `marshalBinaryType` does not write.
abbrev pub is_fast_index : ℕ → Bool
is_fast_index t = t == MType.suggest || t == MType.allowed_fast
