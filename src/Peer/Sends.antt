-- ===== src/Peer/Sends.antt =====
-- The messages that the `Send` methods of peerprotocol/peerconn.go hand to `WriteMsg`, but for the
-- extended handshake, whose payload bencode makes.
use go_bt.Prelude.{ℕ, Bool, true, false, Bytes, length as len}
use go_bt.Peer.MType
use go_bt.Peer.Conn.Methods.{
  MethodCall, no_call, on_choke, on_unchoke, on_interested, on_not_interested, on_have,
  on_bit_field, on_request, on_piece, on_cancel, on_port, on_have_all, on_have_none, on_reject,
  on_suggest, on_allowed_fast, on_ext_message,
}
use go_bt.Peer.Message.{Message, zero_message}

pub data Call : Type 0 where
  send_keepalive send_choke send_unchoke send_interested send_not_interested : Call
  send_bitfield : Bytes → Call
  send_have : ℕ → Call
  send_request send_cancel send_reject : ℕ → ℕ → ℕ → Call
  send_piece : ℕ → ℕ → Bytes → Call
  send_port : ℕ → Call
  send_have_all send_have_none : Call
  send_suggest send_allowed_fast : ℕ → Call
  send_ext_msg : ℕ → Bytes → Call

abbrev of_type : ℕ → Message
of_type t = record zero_message { mtype = t }

abbrev triple : ℕ → ℕ → ℕ → ℕ → Message
triple t index begin length = record (of_type t) { index = index; begin = begin; length = length }

unfoldable pub message_of : Call → Message
message_of send_keepalive = record zero_message { keepalive = true }
message_of send_choke = of_type MType.choke
message_of send_unchoke = of_type MType.unchoke
message_of send_interested = of_type MType.interested
message_of send_not_interested = of_type MType.not_interested
message_of (send_bitfield bits) = record (of_type MType.bit_field) { bit_field = bits }
message_of (send_have index) = record (of_type MType.have) { index = index }
message_of (send_request index begin length) = triple MType.request index begin length
message_of (send_cancel index begin length) = triple MType.cancel index begin length
message_of (send_reject index begin length) = triple MType.reject index begin length
message_of (send_piece index begin piece) = record (of_type MType.piece) {
  index = index;
  begin = begin;
  piece = piece;
}
message_of (send_port port) = record (of_type MType.port) { port = port }
message_of send_have_all = of_type MType.have_all
message_of send_have_none = of_type MType.have_none
message_of (send_suggest index) = record (of_type MType.suggest) { index = index }
message_of (send_allowed_fast index) = record (of_type MType.allowed_fast) { index = index }
message_of (send_ext_msg ext_id payload) = record (of_type MType.extended) {
  extended_id = ext_id;
  extended_payload = payload;
}

-- The calls whose message carries a piece index that the encoder drops.
abbrev pub drops_index : Call → Bool
drops_index (send_suggest index) = true
drops_index (send_allowed_fast index) = true
drops_index _ = false

-- The method that each `Send` method is for on the other side, by the names of both.
abbrev pub meant : Call → MethodCall
meant send_keepalive = no_call
meant send_choke = on_choke
meant send_unchoke = on_unchoke
meant send_interested = on_interested
meant send_not_interested = on_not_interested
meant (send_bitfield bits) = on_bit_field bits
meant (send_have index) = on_have index
meant (send_request index begin length) = on_request index begin length
meant (send_cancel index begin length) = on_cancel index begin length
meant (send_reject index begin length) = on_reject index begin length
meant (send_piece index begin piece) = on_piece index begin piece
meant (send_port port) = on_port port
meant send_have_all = on_have_all
meant send_have_none = on_have_none
meant (send_suggest index) = on_suggest index
meant (send_allowed_fast index) = on_allowed_fast index
meant (send_ext_msg ext_id payload) = on_ext_message ext_id payload
