-- ===== src/Peer/Conn/Stage.antt =====
-- The stages of a connection (peerprotocol/peerconn.go).
use go_bt.Prelude.{
  ◌≡◌, ◌≢◌, ◌⊎◌, inl, inr, refl, ap, sym, subst, true, false, Bool-cases, Option, none, some, List,
  [], ◌∷◌, All, bytes_beq, bytes_beq_iff, if◌then◌else◌, arith,
}
use go_bt.Peer.Message.{Message}
use go_bt.Peer.Conn.{
  stage_handshook, stage_message, PeerConn, is_handshook, is_connected, is_first_only, zero_hash,
  read_msg, HandshakeMsg, handshake,
}

-- The messages that `ReadMsg` takes, one call for each message that comes in.
unfoldable pub accepted : PeerConn → List Message → List Message
accepted pc [] = []
accepted pc (m ∷ ms) =
    let rest = accepted (read_msg pc m).0 ms in if (read_msg pc m).1 then rest else m ∷ rest

-- The message may come at any time.
abbrev pub IsLater : Message → Type 0
IsLater m = is_first_only m.mtype ≡ false

read_first :
    (pc : PeerConn) (m : Message)
    → pc.peer_stage ≡ stage_handshook
    → ((read_msg pc m).0.peer_stage ≡ stage_message) × ((read_msg pc m).1 ≡ false)
unfolding read_msg
read_first pc m h = (ground arith, ground arith)

read_late :
    (pc : PeerConn) (m : Message)
    → is_handshook pc.peer_stage ≡ false
    → ((read_msg pc m).0 ≡ pc) × ((read_msg pc m).1 ≡ is_first_only m.mtype)
unfolding read_msg
read_late pc m h = (ground arith, ground arith)

accepted_late :
    (pc : PeerConn) (ms : List Message)
    → is_handshook pc.peer_stage ≡ false
    → All IsLater (accepted pc ms)
unfolding accepted
accepted_late pc [] h = tt
accepted_late pc (m ∷ ms) h =
    let (same, fails) = read_late pc m h in
    let rest : All IsLater (accepted (read_msg pc m).0 ms) =
      subst (λ c. All IsLater (accepted c ms)) (sym same) (accepted_late pc ms h) in
    elim (Bool-cases (is_first_only m.mtype)) [
      | inl e ↦ rw (fails, e) rest
      | inr e ↦ rw (fails, e) (e, rest)
    ]

-- After the handshake the first message is taken, whatever its type, and from then on no message of
-- the types BitField, HaveAll and HaveNone.
pub accepted-handshook :
    (pc : PeerConn) (m : Message) (ms : List Message)
    → pc.peer_stage ≡ stage_handshook
    → (rest : List Message) × (accepted pc (m ∷ ms) ≡ m ∷ rest) × All IsLater rest
unfolding accepted
accepted-handshook pc m ms h =
    let (stage, takes) = read_first pc m h in
    let late : is_handshook (read_msg pc m).0.peer_stage ≡ false = ap is_handshook stage in
    (accepted (read_msg pc m).0 ms, rw takes refl, accepted_late (read_msg pc m).0 ms late)

-- What a handshake that succeeds says of the connection before and after, and of the answer.
pub record Shaken (pc pc' : PeerConn) (r : Option HandshakeMsg) : Type 0 where
  pub remote : HandshakeMsg
  pub answered : r ≡ some remote
  pub was_connected : is_connected pc.peer_stage ≡ true
  pub stage : pc'.peer_stage ≡ stage_handshook
  pub same_hash : pc'.info_hash ≡ remote.info_hash
  pub same_peer : pc'.peer_id ≡ remote.peer_id
  pub same_bits : pc'.peer_ext_bits ≡ remote.extension_bits
  pub kept_hash : (pc.info_hash ≡ zero_hash) ⊎ (pc'.info_hash ≡ pc.info_hash)

handshake_silent : (pc : PeerConn) → (handshake pc none).1 ≢ none
unfolding handshake
handshake_silent pc e = ground arith

handshake_connected :
    (pc : PeerConn) (m : HandshakeMsg)
    → (handshake pc (some m)).1 ≡ none
    → is_connected pc.peer_stage ≡ true
unfolding handshake
handshake_connected pc m h = ground arith

handshake_fresh :
    (pc : PeerConn) (m : HandshakeMsg)
    → is_connected pc.peer_stage ≡ true
    → bytes_beq pc.info_hash zero_hash ≡ true
    → (handshake pc (some m)).0 ≡ record pc {
      peer_id = m.peer_id;
      peer_ext_bits = m.extension_bits;
      info_hash = m.info_hash;
      peer_stage = stage_handshook;
    }
unfolding handshake
handshake_fresh pc m c z = simp (c, z)

handshake_known :
    (pc : PeerConn) (m : HandshakeMsg)
    → is_connected pc.peer_stage ≡ true
    → bytes_beq pc.info_hash zero_hash ≡ false
    → (handshake pc (some m)).1 ≡ none
    → (bytes_beq pc.info_hash m.info_hash ≡ true)
      × ((handshake pc (some m)).0 ≡ record pc {
        peer_id = m.peer_id;
        peer_ext_bits = m.extension_bits;
        peer_stage = stage_handshook;
      })
unfolding handshake
handshake_known pc m c z h =
    let b : bytes_beq pc.info_hash m.info_hash ≡ true = ground arith in (b, simp (c, z, b))

-- `Handshake` succeeds only on a connection in its first stage and with the remote peer's message;
-- then the connection has the remote peer's infohash, identifier and extension bits, and is ready
-- for messages. It changes a local infohash only where that is zero.
pub handshake-Shaken :
    (pc : PeerConn) (r : Option HandshakeMsg)
    → (handshake pc r).1 ≡ none
    → Shaken pc (handshake pc r).0 r
handshake-Shaken pc none h = absurd (handshake_silent pc h)
handshake-Shaken pc (some m) h =
    let c = handshake_connected pc m h in
    elim (Bool-cases (bytes_beq pc.info_hash zero_hash)) [
      | inl z ↦ rw (handshake_fresh pc m c z) (record {
        remote = m;
        answered = refl;
        was_connected = c;
        stage = refl;
        same_hash = refl;
        same_peer = refl;
        same_bits = refl;
        kept_hash = inl ((bytes_beq_iff pc.info_hash zero_hash).0 z);
      })
      | inr z ↦
          let (b, e) = handshake_known pc m c z h in
          rw e (record {
            remote = m;
            answered = refl;
            was_connected = c;
            stage = refl;
            same_hash = (bytes_beq_iff pc.info_hash m.info_hash).0 b;
            same_peer = refl;
            same_bits = refl;
            kept_hash = inr refl;
          })
    ]
