-- ===== src/Peer/Conn/Methods.antt =====
-- Which method of the handler `HandleMessage` (peerprotocol/peerconn.go) calls for a message, with its
-- arguments, where the handler has all the optional interfaces and the local side all extensions.
-- `on_ext_message` is the call of `handleExtMsg`, which looks at the handshake first.
use go_bt.Prelude.{ℕ, ◌≡◌, Bool, true, false, List, Bytes, ◌==◌, if◌then◌else◌, arith}
use go_bt.Peer.MType
use go_bt.Peer.Message.{Message}
use go_bt.Peer.Extension.{extension_dht, has_extension}
use go_bt.Peer.Conn.{
  PeerConn, Handler, Action, nothing, bep3_method, bep5_method, bep6_method, ext_payload,
  on_message as to_handler, has_fast, handle_fast, handle_passive, handle_message,
}

pub data MethodCall : Type 0 where
  no_call on_choke on_unchoke on_interested on_not_interested : MethodCall
  on_have : ℕ → MethodCall
  on_bit_field : Bytes → MethodCall
  on_request : ℕ → ℕ → ℕ → MethodCall
  on_piece : ℕ → ℕ → Bytes → MethodCall
  on_cancel : ℕ → ℕ → ℕ → MethodCall
  on_port : ℕ → MethodCall
  on_have_all on_have_none : MethodCall
  on_reject : ℕ → ℕ → ℕ → MethodCall
  on_suggest on_allowed_fast : ℕ → MethodCall
  on_ext_message : ℕ → Bytes → MethodCall
  on_message : Message → MethodCall

unfoldable pub method_call : Message → MethodCall
method_call m =
    if m.keepalive
    then no_call
    else if m.mtype == MType.choke
    then on_choke
    else if m.mtype == MType.unchoke
    then on_unchoke
    else if m.mtype == MType.interested
    then on_interested
    else if m.mtype == MType.not_interested
    then on_not_interested
    else if m.mtype == MType.have
    then on_have m.index
    else if m.mtype == MType.bit_field
    then on_bit_field m.bit_field
    else if m.mtype == MType.request
    then on_request m.index m.begin m.length
    else if m.mtype == MType.piece
    then on_piece m.index m.begin m.piece
    else if m.mtype == MType.cancel
    then on_cancel m.index m.begin m.length
    else if m.mtype == MType.port
    then on_port m.port
    else if m.mtype == MType.suggest
    then on_suggest m.index
    else if m.mtype == MType.have_all
    then on_have_all
    else if m.mtype == MType.have_none
    then on_have_none
    else if m.mtype == MType.reject
    then on_reject m.index m.begin m.length
    else if m.mtype == MType.allowed_fast
    then on_allowed_fast m.index
    else if m.mtype == MType.extended
    then on_ext_message m.extended_id m.extended_payload
    else on_message m

abbrev full_handler : Handler
full_handler = record { bep3 = true; bep5 = true; bep6 = true; bep10 = true }

-- The interface that a method is of. What the call of `handleExtMsg` comes to is left out.
abbrev interface : MethodCall → Action
interface no_call = nothing
interface (on_port _) = bep5_method
interface (on_suggest _) = bep6_method
interface (on_allowed_fast _) = bep6_method
interface on_have_all = bep6_method
interface on_have_none = bep6_method
interface (on_reject _ _ _) = bep6_method
interface (on_ext_message _ _) = ext_payload
interface (on_message _) = to_handler
interface _ = bep3_method

-- The two readings of `HandleMessage` agree on the interface that it calls.
handle_message-method_call :
    (decode : Bytes → List (Bytes × ℕ) × Bool) (pc : PeerConn) (m : Message)
    → has_extension pc.ext_bits extension_dht ≡ true
    → has_fast pc ≡ true
    → (m.mtype == MType.extended) ≡ false
    → (handle_message decode full_handler pc m).1 ≡ interface (method_call m)
unfolding handle_message handle_fast handle_passive method_call MType.fast_extension
handle_message-method_call decode pc m d f e = ground arith
