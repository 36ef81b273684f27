-- ===== src/Peer/Link.antt =====
-- Two connections of peerprotocol/peerconn.go joined by the bytes that one has written and the other
-- has not read yet: `SetChoked` and its kin with what `WriteMsg` writes on one side, `ReadMsg` and
-- `HandleMessage` on the other. Writing succeeds.
pub mod Agree
use go_bt.Prelude.{
  ℕ, Bool, true, false, Option, none, some, List, [], ◌∷◌, ◌++◌, Bytes, ◌≡◌, ◌≢◌, if◌then◌else◌,
}
use go_bt.Peer.MType
use go_bt.Peer.Message.{Message, zero_message, encode, decode_to_message}
use go_bt.Peer.Conn.{
  PeerConn, Handler, read_msg, set_choked, set_unchoked, set_interested, set_not_interested,
  handle_message,
}

-- What the local side may do to its state.
pub data Change : Type 0 where
  chokes unchokes takes_interest loses_interest : Change

unfoldable pub apply : Change → PeerConn → PeerConn × Option ℕ
apply chokes pc = set_choked pc true
apply unchokes pc = set_unchoked pc true
apply takes_interest pc = set_interested pc true
apply loses_interest pc = set_not_interested pc true

-- The message of `SendChoke`, `SendUnchoke`, `SendInterested` and `SendNotInterested`.
abbrev pub plain_message : ℕ → Message
plain_message t = record zero_message { mtype = t }

-- What `WriteMsg` writes.
unfoldable pub write_msg : Option ℕ → Bytes
write_msg none = []
write_msg (some t) = encode (plain_message t)

-- The connections of both sides, the bytes between them, and the reader's `MaxLength`.
pub record Link : Type 0 where
  pub local : PeerConn
  pub stream : Bytes
  pub remote : PeerConn
  pub max_length : ℕ

unfoldable pub send : Link → Change → Link
send l c = let r = apply c l.local in record l { local = r.0; stream = l.stream ++ write_msg r.1 }

-- A round of the remote side's loop; it stops where `ReadMsg` fails.
unfoldable pub receive : (Bytes → List (Bytes × ℕ) × Bool) → Handler → Link → Link
receive decode h l =
    let d = decode_to_message l.stream l.max_length in
    let (pc, refused) = read_msg l.remote d.message in
    elim d.error [
      | some e ↦ l
      | none ↦
          if refused
          then record l { stream = d.rest }
          else record l { stream = d.rest; remote = (handle_message decode h pc d.message).0 }
    ]

-- What can happen next, and what can happen in the end.
pub data Step (decode : Bytes → List (Bytes × ℕ) × Bool) (h : Handler) : Link → Link → Type 0 where
  sends : (l : Link) (c : Change) → Step decode h l (send l c)
  receives : (l : Link) → l.stream ≢ [] → Step decode h l (receive decode h l)

pub data Steps (decode : Bytes → List (Bytes × ℕ) × Bool) (h : Handler) : Link → Link → Type 0 where
  rests : (l : Link) → Steps decode h l l
  goes_on : (l m n : Link) → Step decode h l m → Steps decode h m n → Steps decode h l n
