-- ===== src/Peer/Tests.antt =====
-- The theorems about peerprotocol at concrete inputs.
use go_bt.Prelude.{
  ℕ, ◌≡◌, ◌≤◌, ◌⊎◌, refl, inl, Bool, true, false, none, some, List, [], ◌∷◌, ◌++◌, Bytes, be32,
  drop, of_be32, All, ◌==◌, if◌then◌else◌, arith,
}
use go_bt.Prelude.Io.{eof}
use go_bt.Peer.Message.{
  Message, zero_message, marshal_binary_type, encode, decode, decode_to_message, io, decode_sized,
  finish, decode_body, decode_payload, check_used, u32_from, u16_from, byte_from, read_bit_field,
  read_piece, full_from, decode_triple, decode_piece, decode_extended,
}
use go_bt.Peer.Message.Spec.{relevant, IsEncodable}
use go_bt.Peer.Message.RoundTrip.{decoded, decode-encode, decode-encode_fast_index}
use go_bt.Peer.Message.Consume.{decode_consumes}
use go_bt.Peer.BitField.{is_set, can_set, new_bit_field_from_bools}
use go_bt.Peer.BitField.Lists.{is_set-from_bools}
use go_bt.Peer.Conn.{
  PeerConn, stage_connected, stage_handshook, zero_hash, HandshakeMsg, Handler, handle_message,
  peer_has_piece,
}
use go_bt.Peer.Link.{
  Link, unchokes, apply, write_msg, send, receive, sends, receives, rests, goes_on,
}
use go_bt.Peer.Link.Agree.{peer_view, own_view, Steps-agree}
use go_bt.Peer.Handshake.{handshake_over}
use go_bt.Peer.Handshake.Meeting.{handshake_over-both}
use go_bt.Peer.Conn.{set_unchoked, read_msg}
use go_bt.Prelude.{◌≢◌, ap, length as len}
use go_bt.Peer.Conn.Stage.{accepted, IsLater, accepted-handshook}
use go_bt.Peer.Conn.Handling.{handle_message-have}

abbrev request_message : Message
request_message = record zero_message { mtype = 6; index = 1; begin = 16384; length = 16384 }

abbrev have_message : Message
have_message = record zero_message { mtype = 4; index = 9 }

abbrev suggest_message : Message
suggest_message = record zero_message { mtype = 13; index = 3 }

abbrev bits_message : Message
bits_message = record zero_message { mtype = 5; bit_field = 0x80 ∷ [] }

request-IsEncodable : IsEncodable request_message
unfolding marshal_binary_type be32
request-IsEncodable = record {
  type_range = omega arith;
  index_range = omega arith;
  begin_range = omega arith;
  length_range = omega arith;
  port_range = omega arith;
  size = omega arith;
}

decode-encode_example :
    decode_to_message (encode request_message ++ (7 ∷ [])) 0
    ≡ decoded (relevant request_message) (7 ∷ [])
decode-encode_example =
    decode-encode request_message (7 ∷ []) 0 request-IsEncodable refl refl (inl refl)

decode-encode_fast_index_example :
    (decode_to_message (encode suggest_message ++ []) 0).error ≡ some (io eof)
decode-encode_fast_index_example = decode-encode_fast_index suggest_message [] 0 refl refl refl

abbrev no_limit : ℕ
no_limit = 0

have_decodes :
    (decode zero_message (0 ∷ 0 ∷ 0 ∷ 5 ∷ 4 ∷ 0 ∷ 0 ∷ 0 ∷ 9 ∷ 1 ∷ []) no_limit).error ≡ none
unfolding decode decode_sized finish decode_body decode_payload check_used u32_from u16_from
    byte_from read_bit_field read_piece full_from decode_triple decode_piece decode_extended of_be32
have_decodes = refl

decode_consumes_example :
    (of_be32 0 0 0 5 ≤ 6)
    × ((decode zero_message (0 ∷ 0 ∷ 0 ∷ 5 ∷ 4 ∷ 0 ∷ 0 ∷ 0 ∷ 9 ∷ 1 ∷ []) no_limit).rest
        ≡ drop (of_be32 0 0 0 5) (4 ∷ 0 ∷ 0 ∷ 0 ∷ 9 ∷ 1 ∷ []))
    × ((no_limit ≡ 0) ⊎ (of_be32 0 0 0 5 ≤ no_limit))
decode_consumes_example =
    decode_consumes zero_message 0 0 0 5 (4 ∷ 0 ∷ 0 ∷ 0 ∷ 9 ∷ 1 ∷ []) no_limit have_decodes

is_set-from_bools_example : is_set (new_bit_field_from_bools (false ∷ true ∷ true ∷ [])) 2 ≡ true
is_set-from_bools_example = is_set-from_bools (false ∷ true ∷ true ∷ []) 2 true refl

abbrev hash_of : ℕ → Bytes
hash_of b = b ∷ 0 ∷ 0 ∷ 0 ∷ 0 ∷ 0 ∷ 0 ∷ 0 ∷ 0 ∷ 0 ∷ 0 ∷ 0 ∷ 0 ∷ 0 ∷ 0 ∷ 0 ∷ 0 ∷ 0 ∷ 0 ∷ 0 ∷ []

abbrev fresh_conn : PeerConn
fresh_conn = record {
  info_hash = zero_hash;
  id = hash_of 1;
  ext_bits = 0 ∷ 0 ∷ 0 ∷ 0 ∷ 0 ∷ 16 ∷ 0 ∷ 5 ∷ [];
  peer_id = zero_hash;
  peer_ext_bits = [];
  peer_stage = stage_connected;
  choked = true;
  interested = false;
  peer_choked = true;
  peer_interested = false;
  fasts = [];
  suggests = 1 ∷ 4 ∷ [];
  bit_field = 0 ∷ 0 ∷ [];
  ext_names = [];
}

abbrev shaken_conn : PeerConn
shaken_conn = record fresh_conn { peer_stage = stage_handshook }

abbrev answer : HandshakeMsg
answer = record {
  extension_bits = 0 ∷ 0 ∷ 0 ∷ 0 ∷ 0 ∷ 0 ∷ 0 ∷ 0 ∷ [];
  peer_id = hash_of 2;
  info_hash = hash_of 3;
}

accepted-handshook_example :
    (rest : List Message) × (accepted shaken_conn (bits_message ∷ have_message ∷ bits_message ∷ [])
      ≡ bits_message ∷ rest)
    × All IsLater rest
accepted-handshook_example =
    accepted-handshook shaken_conn bits_message (have_message ∷ bits_message ∷ []) refl

abbrev decode_none : Bytes → List (Bytes × ℕ) × Bool
decode_none _ = ([], true)

abbrev plain_handler : Handler
plain_handler = record { bep3 = true; bep5 = false; bep6 = true; bep10 = false }

handle_message-have_example :
    peer_has_piece (handle_message decode_none plain_handler shaken_conn have_message).0 9
    ≡ (if 9 == 9 then can_set (0 ∷ 0 ∷ []) 9 else peer_has_piece shaken_conn 9)
handle_message-have_example =
    handle_message-have decode_none plain_handler shaken_conn have_message 9 refl refl
      (omega arith, (omega arith, tt))

-- The local side unchokes its peer, which reads that.
abbrev joined : Link
joined = record { local = shaken_conn; stream = []; remote = shaken_conn; max_length = 0 }

abbrev told : Link
told = send joined unchokes

told_something : told.stream ≢ []
unfolding send apply set_unchoked write_msg encode be32
told_something e = absurd (omega (arith, ap len e))

Steps-agree_example :
    peer_view (receive decode_none plain_handler told).remote
    ≡ own_view (receive decode_none plain_handler told).local
unfolding receive send apply set_unchoked write_msg encode be32 marshal_binary_type
    decode_to_message decode decode_sized of_be32 finish decode_body decode_payload check_used
    read_msg handle_message
Steps-agree_example =
    Steps-agree decode_none plain_handler joined (receive decode_none plain_handler told)
      (goes_on joined told (receive decode_none plain_handler told) (sends joined unchokes) (
        goes_on told (receive decode_none plain_handler told)
          (receive decode_none plain_handler told) (receives told told_something)
          (rests (receive decode_none plain_handler told))))
      refl refl refl

abbrev knowing : PeerConn
knowing = record fresh_conn { info_hash = hash_of 3 }

abbrev learning : PeerConn
learning = record fresh_conn { id = hash_of 2 }

handshake_over-both_example :
    (to_b : Bytes) × (to_a : Bytes) × (handshake_over (to_a ++ (7 ∷ [])) knowing ≡ (
      to_b,
      (
        record knowing {
          peer_id = hash_of 2;
          peer_ext_bits = learning.ext_bits;
          peer_stage = stage_handshook;
        },
        none,
      ),
    ))
    × (handshake_over (to_b ++ []) learning ≡ (
      to_a,
      (
        record learning {
          peer_id = hash_of 1;
          peer_ext_bits = knowing.ext_bits;
          info_hash = hash_of 3;
          peer_stage = stage_handshook;
        },
        none,
      ),
    ))
handshake_over-both_example =
    handshake_over-both knowing learning
      (record { bits-size = refl; hash-size = refl; id-size = refl })
      (record { bits-size = refl; hash-size = refl; id-size = refl }) (7 ∷ []) [] refl refl refl
      (inl refl)
