-- ===== src/Peer/Conn.antt =====
-- The connection to a peer (peerprotocol/peerconn.go): its stage, the states of both sides, and what
-- the messages do to them. The socket, the timeouts and the callbacks' own work are left out.
pub mod Stage
pub mod Handling
pub mod Methods
use go_bt.Prelude.{
  ℕ, Bool, true, false, ◌&&◌, ◌||◌, not, Option, none, some, List, [], ◌∷◌, Bytes, length as len,
  ◌==◌, bytes_beq, if◌then◌else◌,
}
use go_bt.Peer.MType
use go_bt.Peer.Message.{Message}
use go_bt.Peer.BitField.{set, is_set}
use go_bt.Peer.Pieces.{append}
use go_bt.Peer.Extension.{extension_dht, extension_fast, extension_extended, has_extension}

pub data ConnStage : Type 0 where
  stage_connected stage_handshook stage_message : ConnStage

-- `PeerConn`. Of the extended handshake message the code tests whether `M` has entries; `ext_names`
-- is `M`.
pub record PeerConn : Type 0 where
  pub info_hash : Bytes
  pub id : Bytes
  pub ext_bits : Bytes
  pub peer_id : Bytes
  pub peer_ext_bits : Bytes
  pub peer_stage : ConnStage
  pub choked : Bool
  pub interested : Bool
  pub peer_choked : Bool
  pub peer_interested : Bool
  pub fasts : List ℕ
  pub suggests : List ℕ
  pub bit_field : Bytes
  pub ext_names : List (Bytes × ℕ)

abbrev pub is_handshook : ConnStage → Bool
is_handshook stage_handshook = true
is_handshook _ = false

-- The types that `ReadMsg` takes only as the first message.
abbrev pub is_first_only : ℕ → Bool
is_first_only t = t == MType.bit_field || t == MType.have_all || t == MType.have_none

-- `ReadMsg` behind the decoding of the message: the connection and whether it returns an error.
unfoldable pub read_msg : PeerConn → Message → PeerConn × Bool
read_msg pc m =
    if is_first_only m.mtype && not (is_handshook pc.peer_stage)
    then (pc, true)
    else if is_handshook pc.peer_stage
    then (record pc { peer_stage = stage_message }, false)
    else (pc, false)

-- What `Handshake` of the package returns for the remote peer.
pub record HandshakeMsg : Type 0 where
  pub extension_bits : Bytes
  pub peer_id : Bytes
  pub info_hash : Bytes

pub data HandshakeError : Type 0 where
  not_connected exchange_failed inconsistent_infohash : HandshakeError

abbrev pub zero_hash : Bytes
zero_hash = 0 ∷ 0 ∷ 0 ∷ 0 ∷ 0 ∷ 0 ∷ 0 ∷ 0 ∷ 0 ∷ 0 ∷ 0 ∷ 0 ∷ 0 ∷ 0 ∷ 0 ∷ 0 ∷ 0 ∷ 0 ∷ 0 ∷ 0 ∷ []

abbrev pub is_connected : ConnStage → Bool
is_connected stage_connected = true
is_connected _ = false

-- `Handshake()`, where `answer` is what the exchange over the socket gives.
unfoldable pub handshake : PeerConn → Option HandshakeMsg → PeerConn × Option HandshakeError
handshake pc none =
    (pc, some (if is_connected pc.peer_stage then exchange_failed else not_connected))
handshake pc (some rhm) =
    let met = record pc { peer_id = rhm.peer_id; peer_ext_bits = rhm.extension_bits } in
    if not (is_connected pc.peer_stage)
    then (pc, some not_connected)
    else if bytes_beq pc.info_hash zero_hash
    then (record met { info_hash = rhm.info_hash; peer_stage = stage_handshook }, none)
    else if bytes_beq pc.info_hash rhm.info_hash
    then (record met { peer_stage = stage_handshook }, none)
    else (met, some inconsistent_infohash)

-- The setters of the local state: the connection, and the type of the message that is sent. The
-- argument `ok` tells whether sending succeeds.
unfoldable pub set_choked : PeerConn → Bool → PeerConn × Option ℕ
set_choked pc ok =
    if pc.choked
    then (pc, none)
    else ((if ok then record pc { choked = true } else pc), some MType.choke)

unfoldable pub set_unchoked : PeerConn → Bool → PeerConn × Option ℕ
set_unchoked pc ok =
    if pc.choked
    then ((if ok then record pc { choked = false } else pc), some MType.unchoke)
    else (pc, none)

unfoldable pub set_interested : PeerConn → Bool → PeerConn × Option ℕ
set_interested pc ok =
    if pc.interested
    then (pc, none)
    else ((if ok then record pc { interested = true } else pc), some MType.interested)

unfoldable pub set_not_interested : PeerConn → Bool → PeerConn × Option ℕ
set_not_interested pc ok =
    if pc.interested
    then ((if ok then record pc { interested = false } else pc), some MType.not_interested)
    else (pc, none)

-- `PeerHasPiece(index)`.
unfoldable pub peer_has_piece : PeerConn → ℕ → Bool
peer_has_piece pc index = is_set pc.bit_field index

-- Which of the optional interfaces the handler has.
pub record Handler : Type 0 where
  pub bep3 : Bool
  pub bep5 : Bool
  pub bep6 : Bool
  pub bep10 : Bool

pub data MessageError : Type 0 where
  not_support_dht not_support_fast not_support_extended : MessageError
  second_ext_handshake no_ext_message_id no_ext_handshake bad_ext_handshake : MessageError

-- What `HandleMessage` does last: it returns nil or an error of its own, or returns what a method of
-- the handler does, one of an optional interface or `OnMessage`.
pub data Action : Type 0 where
  nothing : Action
  fails : MessageError → Action
  bep3_method bep5_method bep6_method ext_handshake ext_payload on_message : Action

abbrev pub call_bep3 : Handler → Action
call_bep3 h = if h.bep3 then bep3_method else on_message

abbrev pub call_bep6 : Handler → Action
call_bep6 h = if h.bep6 then bep6_method else on_message

abbrev pub has_fast : PeerConn → Bool
has_fast pc = has_extension pc.ext_bits extension_fast

-- `handleExtMsg`, where `decode` is `bencode.DecodeBytes` into the extended handshake message: the
-- entries of `M` after it, and whether it failed.
unfoldable pub handle_ext_msg :
    (Bytes → List (Bytes × ℕ) × Bool) → PeerConn → Message → PeerConn × Action
handle_ext_msg decode pc m =
    let r = decode m.extended_payload in
    let pc' = record pc { ext_names = r.0 } in
    if m.extended_id == 0
    then if not (len pc.ext_names == 0)
      then (pc, fails second_ext_handshake)
      else if r.1
      then (pc', fails bad_ext_handshake)
      else if len r.0 == 0
      then (pc', fails no_ext_message_id)
      else (pc', ext_handshake)
    else if len pc.ext_names == 0
    then (pc, fails no_ext_handshake)
    else (pc, ext_payload)

-- The cases of BEP 3 and BEP 5 that change no state.
unfoldable pub handle_passive : Handler → PeerConn → Message → Action
handle_passive h pc m =
    if m.mtype == MType.request || m.mtype == MType.piece || m.mtype == MType.cancel
    then call_bep3 h
    else if m.mtype == MType.port
    then if not (has_extension pc.ext_bits extension_dht)
      then fails not_support_dht
      else if h.bep5
      then bep5_method
      else on_message
    else on_message

-- The cases of BEP 6.
unfoldable pub handle_fast : Handler → PeerConn → Message → PeerConn × Action
handle_fast h pc m =
    if not (has_fast pc)
    then (pc, fails not_support_fast)
    else if m.mtype == MType.suggest
    then (record pc { suggests = append pc.suggests m.index }, call_bep6 h)
    else if m.mtype == MType.allowed_fast
    then (record pc { fasts = append pc.fasts m.index }, call_bep6 h)
    else (pc, call_bep6 h)

-- The case of BEP 10.
unfoldable pub handle_extended :
    (Bytes → List (Bytes × ℕ) × Bool) → Handler → PeerConn → Message → PeerConn × Action
handle_extended decode h pc m =
    if not (has_extension pc.ext_bits extension_extended)
    then (pc, fails not_support_extended)
    else if h.bep10
    then handle_ext_msg decode pc m
    else (pc, on_message)

-- `HandleMessage(msg, handler)`.
unfoldable pub handle_message :
    (Bytes → List (Bytes × ℕ) × Bool) → Handler → PeerConn → Message → PeerConn × Action
handle_message decode h pc m =
    if m.keepalive
    then (pc, nothing)
    else if m.mtype == MType.choke
    then (record pc { peer_choked = true }, call_bep3 h)
    else if m.mtype == MType.unchoke
    then (record pc { peer_choked = false }, call_bep3 h)
    else if m.mtype == MType.interested
    then (record pc { peer_interested = true }, call_bep3 h)
    else if m.mtype == MType.not_interested
    then (record pc { peer_interested = false }, call_bep3 h)
    else if m.mtype == MType.have
    then (record pc { bit_field = (set pc.bit_field m.index).0 }, call_bep3 h)
    else if m.mtype == MType.bit_field
    then (record pc { bit_field = m.bit_field }, call_bep3 h)
    else if MType.fast_extension m.mtype
    then handle_fast h pc m
    else if m.mtype == MType.extended
    then handle_extended decode h pc m
    else (pc, handle_passive h pc m)
