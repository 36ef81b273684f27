-- ===== src/Peer/Handshake/Meeting.antt =====
-- Two peers that shake hands.
use go_bt.Prelude.{
  ℕ, ◌≤◌, ◌≡◌, ◌⊎◌, inl, inr, refl, ap, sym, ◌∙◌, true, false, Option, none, some, ◌++◌,
  append_assoc, take, drop, Bytes, length as len, length-append, ltb, bytes_beq, bytes_beq_refl,
  arith,
}
use go_bt.Prelude.Slices.{slice, drop-behind, take_front}
use go_bt.Peer.Conn.{
  stage_connected, stage_handshook, HandshakeMsg, HandshakeError, zero_hash, handshake, PeerConn,
}
use go_bt.Peer.Handshake.{
  protocol_header, handshake_bytes, get_peer_handshake_msg, exchange, own_message, handshake_over,
}

-- A message whose fields have the sizes of the source's types.
pub record IsMessage (m : HandshakeMsg) : Type 0 where
  pub bits-size : len m.extension_bits ≡ 8
  pub hash-size : len m.info_hash ≡ 20
  pub id-size : len m.peer_id ≡ 20

abbrev behind : HandshakeMsg → Bytes → Bytes
behind m more = m.extension_bits ++ (m.info_hash ++ (m.peer_id ++ more))

abbrev whole : HandshakeMsg → Bytes → Bytes
whole m more = protocol_header ++ behind m more

handshake_bytes-whole : (m : HandshakeMsg) (more : Bytes) → handshake_bytes m ++ more ≡ whole m more
unfolding handshake_bytes
handshake_bytes-whole m more =
    ap (λ b. protocol_header ++ b)
      (append_assoc m.extension_bits (m.info_hash ++ m.peer_id) more
        ∙ ap (λ b. m.extension_bits ++ b) (append_assoc m.info_hash m.peer_id more))

length-whole : (m : HandshakeMsg) (more : Bytes) → IsMessage m → 68 ≤ len (whole m more)
length-whole m more h = omega (
  arith,
  length-append m.extension_bits (m.info_hash ++ (m.peer_id ++ more)),
  length-append m.info_hash (m.peer_id ++ more),
  length-append m.peer_id more,
  h.bits-size,
  h.hash-size,
  h.id-size,
)

not_below : (n : ℕ) → 68 ≤ n → ltb n 68 ≡ false
not_below n h = ground arith

get_peer-whole :
    (m : HandshakeMsg) (more : Bytes) → IsMessage m → get_peer_handshake_msg (whole m more) ≡ some m
unfolding get_peer_handshake_msg slice
get_peer-whole m more h =
    let b = whole m more in
    let long : ltb (len b) 68 ≡ false = not_below (len b) (length-whole m more h) in
    let bits : take 8 (behind m more) ≡ m.extension_bits =
      take_front m.extension_bits (m.info_hash ++ (m.peer_id ++ more)) 8 h.bits-size in
    let past_bits : drop 8 (behind m more) ≡ m.info_hash ++ (m.peer_id ++ more) =
      drop-behind m.extension_bits (m.info_hash ++ (m.peer_id ++ more)) 8 0 h.bits-size in
    let hash : take 20 (drop 8 (behind m more)) ≡ m.info_hash =
      ap (take 20) past_bits ∙ take_front m.info_hash (m.peer_id ++ more) 20 h.hash-size in
    let past_hash : drop 28 (behind m more) ≡ m.peer_id ++ more =
      drop-behind m.extension_bits (m.info_hash ++ (m.peer_id ++ more)) 8 20 h.bits-size
      ∙ drop-behind m.info_hash (m.peer_id ++ more) 20 0 h.hash-size in
    let id : take 20 (drop 28 (behind m more)) ≡ m.peer_id =
      ap (take 20) past_hash ∙ take_front m.peer_id more 20 h.id-size in
    rw (long, bits, hash, id) refl

-- A message that is written is read back from the front of what the socket gives.
pub get_peer-handshake_bytes :
    (m : HandshakeMsg) (more : Bytes)
    → IsMessage m
    → get_peer_handshake_msg (handshake_bytes m ++ more) ≡ some m
get_peer-handshake_bytes m more h =
    ap get_peer_handshake_msg (handshake_bytes-whole m more) ∙ get_peer-whole m more h

module _ (a b : PeerConn) (ma : IsMessage (own_message a)) (mb : IsMessage (own_message b)) where
  -- What the peer that knows the torrent writes, and what the other one answers.
  abbrev first : Bytes
  first = handshake_bytes (own_message a)

  abbrev second : Bytes
  second = handshake_bytes (record (own_message b) { info_hash = a.info_hash })

  first-read : (more : Bytes) → get_peer_handshake_msg (first ++ more) ≡ some (own_message a)
  first-read more = get_peer-handshake_bytes (own_message a) more ma

  second-read :
      (more : Bytes)
      → get_peer_handshake_msg (second ++ more)
        ≡ some (record (own_message b) { info_hash = a.info_hash })
  second-read more =
      get_peer-handshake_bytes (record (own_message b) { info_hash = a.info_hash }) more
        (record { bits-size = mb.bits-size; hash-size = ma.hash-size; id-size = mb.id-size })

  abbrev pub met_a : PeerConn
  met_a = record a { peer_id = b.id; peer_ext_bits = b.ext_bits; peer_stage = stage_handshook }

  abbrev pub met_b : PeerConn
  met_b = record b {
    peer_id = a.id;
    peer_ext_bits = a.ext_bits;
    info_hash = a.info_hash;
    peer_stage = stage_handshook;
  }

  knows-handshake :
      a.peer_stage ≡ stage_connected
      → bytes_beq a.info_hash zero_hash ≡ false
      → handshake a (some (record (own_message b) { info_hash = a.info_hash })) ≡ (met_a, none)
  unfolding handshake
  knows-handshake stage known = simp (stage, known, bytes_beq_refl a.info_hash)

  knows :
      (more : Bytes)
      → a.peer_stage ≡ stage_connected
      → bytes_beq a.info_hash zero_hash ≡ false
      → handshake_over (second ++ more) a ≡ (first, (met_a, none))
  unfolding handshake_over exchange
  knows more stage known =
      let met : exchange (second ++ more) (own_message a)
          ≡ (first, some (record (own_message b) { info_hash = a.info_hash })) =
        rw (exchange, known, second-read more) refl in
      ap (λ (r : Bytes × Option HandshakeMsg). (r.0, handshake a r.1)) met
      ∙ ap (λ (r : PeerConn × Option HandshakeError). (first, r)) (knows-handshake stage known)

  fresh-handshake :
      b.peer_stage ≡ stage_connected
      → bytes_beq b.info_hash zero_hash ≡ true
      → handshake b (some (own_message a)) ≡ (met_b, none)
  unfolding handshake
  fresh-handshake stage zeros = simp (stage, zeros)

  same-handshake :
      b.peer_stage ≡ stage_connected
      → bytes_beq b.info_hash zero_hash ≡ false
      → b.info_hash ≡ a.info_hash
      → handshake b (some (own_message a)) ≡ (met_b, none)
  unfolding handshake
  same-handshake stage known e =
      let equal : bytes_beq b.info_hash a.info_hash ≡ true =
        ap (bytes_beq b.info_hash) (sym e) ∙ bytes_beq_refl b.info_hash in
      let kept : PeerConn = record b {
        peer_id = a.id;
        peer_ext_bits = a.ext_bits;
        peer_stage = stage_handshook;
      } in
      let succeeds : handshake b (some (own_message a)) ≡ (kept, none) =
        simp (stage, known, equal) in
      succeeds ∙ ap (λ (h : Bytes). (record kept { info_hash = h }, none)) e

  learns :
      (more : Bytes)
      → b.peer_stage ≡ stage_connected
      → bytes_beq a.info_hash zero_hash ≡ false
      → (b.info_hash ≡ zero_hash) ⊎ (b.info_hash ≡ a.info_hash)
      → handshake_over (first ++ more) b ≡ (second, (met_b, none))
  unfolding handshake_over exchange
  learns more stage known (inl e) =
      let zeros : bytes_beq b.info_hash zero_hash ≡ true =
        ap (λ h. bytes_beq h zero_hash) e ∙ bytes_beq_refl zero_hash in
      let met : exchange (first ++ more) (own_message b) ≡ (second, some (own_message a)) =
        rw (exchange, zeros, first-read more) refl in
      ap (λ (r : Bytes × Option HandshakeMsg). (r.0, handshake b r.1)) met
      ∙ ap (λ (r : PeerConn × Option HandshakeError). (second, r)) (fresh-handshake stage zeros)
  learns more stage known (inr e) =
      let other : bytes_beq b.info_hash zero_hash ≡ false =
        ap (λ h. bytes_beq h zero_hash) e ∙ known in
      let met : exchange (first ++ more) (own_message b)
          ≡ (handshake_bytes (own_message b), some (own_message a)) =
        rw (exchange, other, first-read more) refl in
      let sent : handshake_bytes (own_message b) ≡ second =
        ap (λ h. handshake_bytes (record (own_message b) { info_hash = h })) e in
      ap (λ (r : Bytes × Option HandshakeMsg). (r.0, handshake b r.1)) met
      ∙ ap (λ s. (s, handshake b (some (own_message a)))) sent
      ∙ ap (λ (r : PeerConn × Option HandshakeError). (second, r)) (same-handshake stage other e)

  -- Two connections in their first stage shake hands: one knows the torrent, the other has its
  -- infohash or none yet. Whatever follows on the sockets, each writes the bytes that the other reads,
  -- neither fails, and both are ready for messages with the peer's identifier, its extension bits and
  -- the same infohash. The fields have the sizes of their types.
  pub handshake_over-both :
      (more more' : Bytes)
      → a.peer_stage ≡ stage_connected
      → b.peer_stage ≡ stage_connected
      → bytes_beq a.info_hash zero_hash ≡ false
      → (b.info_hash ≡ zero_hash) ⊎ (b.info_hash ≡ a.info_hash)
      → (to_b : Bytes) × (to_a : Bytes) × (handshake_over (to_a ++ more) a ≡ (to_b, (met_a, none)))
        × (handshake_over (to_b ++ more') b ≡ (to_a, (met_b, none)))
  handshake_over-both more more' stage stage' known same =
      (first, second, knows more stage known, learns more' stage' known same)
