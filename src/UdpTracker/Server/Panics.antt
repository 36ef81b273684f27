-- ===== src/UdpTracker/Server/Panics.antt =====
-- Packets that stop the server, and responses that stop the client.
use go_bt.Prelude.{
  ℕ, ◌+◌, ◌<◌, ◌≤◌, ◌≡◌, refl, sym, subst, ◌∙◌, Bool, true, false, ◌&&◌, none, ◌∷◌, length,
  length-drop, drop, take_of_length-le, Bytes, IsU32, IsU64, of_be, ltb, ◌==◌, ==_refl,
  if◌then◌else◌, arith,
}
use go_bt.Prelude.Slices.{slice}
use go_bt.UdpTracker.Announce.{
  AnnounceRequest, decode_request, decode_response, protocol_id, action_connect, action_announce,
}
use go_bt.UdpTracker.Announce.Request.{IsRequest, whole, length-whole, decode_request-truncated}
use go_bt.UdpTracker.Client.{request, panicked, on_action, announce_reply}
use go_bt.UdpTracker.Server.{
  UdpAddr, ServerHandler, Server, is_v4, check_connection, handle_announce, handle_action,
  handle_packet, receive,
}
use go_bt.UdpTracker.Server.Connections.{length-request, request-head}

not_below : (n size : ℕ) → size ≤ n → ltb n size ≡ false
not_below n size h = ground arith

decode_response-short : (b : Bytes) (ipv4 : Bool) → length b < 12 → decode_response b ipv4 ≡ none
unfolding decode_response
decode_response-short b ipv4 h =
    let short : ltb (length b) 12 ≡ true = ground arith in rw (decode_response, short) refl

handle_action-stops :
    (handler : ServerHandler) (raddr : UdpAddr) (tid : ℕ) (b : Bytes)
    → (if is_v4 raddr then 82 else 94) ≤ length b
    → decode_request b ≡ none
    → handle_action handler raddr action_announce tid b ≡ none
unfolding handle_action handle_announce
handle_action-stops handler raddr tid b h e =
    let long : ltb (length b) (if is_v4 raddr then 82 else 94) ≡ false = ground arith in
    rw (long, e) refl

handle_packet-stops :
    (handler : ServerHandler) (raddr : UdpAddr) (now : ℕ) (uts : Server) (cid tid : ℕ) (b : Bytes)
    → IsU64 cid
    → IsU32 tid
    → check_connection uts cid raddr ≡ true
    → handle_action handler raddr action_announce tid b ≡ none
    → handle_packet handler raddr now uts (request cid action_announce tid b) ≡ none
unfolding handle_packet
handle_packet-stops handler raddr now uts cid tid b c t known e =
    let (is_cid, is_action, is_tid, is_rest) =
      request-head cid action_announce tid b c (omega arith) t in
    let second : (cid == protocol_id && action_announce == action_connect) ≡ false = ground arith in
    rw (is_cid, is_action, is_tid, is_rest, second, known, e) refl

-- A connected client stops the server by an announce request that ends in an extension whose length
-- goes past the end of the packet: the packet is long enough for its family and fits the buffer.
pub receive-panics :
    (handler : ServerHandler) (raddr : UdpAddr) (now : ℕ) (uts : Server) (cid tid : ℕ)
    (r : AnnounceRequest) (kind size : ℕ) (payload : Bytes)
    → IsU64 cid
    → IsU32 tid
    → check_connection uts cid raddr ≡ true
    → IsRequest r
    → length payload < size
    → (if is_v4 raddr then 82 else 94) ≤ 84 + length payload
    → 100 + length payload ≤ uts.buf_size
    → receive handler raddr now uts
        (request cid action_announce tid (whole r (kind ∷ size ∷ payload)))
      ≡ none
unfolding receive
receive-panics handler raddr now uts cid tid r kind size payload c t known h short enough room =
    let body = whole r (kind ∷ size ∷ payload) in
    let body_size : length body ≡ 82 + (2 + length payload) =
      length-whole r h (kind ∷ size ∷ payload) ∙ omega arith in
    let sums : 84 + length payload ≡ 82 + (2 + length payload) = omega arith in
    let packet = request cid action_announce tid body in
    let packet_size : length packet ≡ 16 + length body =
      length-request cid action_announce tid body in
    let fits : length packet ≤ uts.buf_size = omega (arith, packet_size, body_size, room) in
    let long : ltb (length packet) 16 ≡ false =
      not_below (length packet) 16 (omega (arith, packet_size)) in
    rw
      (
        take_of_length-le uts.buf_size packet fits,
        long,
        handle_packet-stops handler raddr now uts cid tid body c t known (
            handle_action-stops handler raddr tid body
              (subst (λ n. (if is_v4 raddr then 82 else 94) ≤ n) (sums ∙ sym body_size) enough)
              (decode_request-truncated r kind size payload h short)),
      )
      refl

-- An announce response of 16 to 19 bytes, with the action and the transaction that the client waits
-- for, stops the client.
pub announce_reply-panics :
    (ipv4 : Bool) (tid : ℕ) (b : Bytes)
    → 16 ≤ length b
    → length b < 20
    → of_be (slice 0 4 b) ≡ action_announce
    → of_be (slice 4 8 b) ≡ tid
    → announce_reply ipv4 tid b ≡ panicked
unfolding announce_reply on_action
announce_reply-panics ipv4 tid b low high is_action is_tid =
    let short : ltb (length b) 8 ≡ false = not_below (length b) 8 (omega arith) in
    let long : ltb (length b) 16 ≡ false = not_below (length b) 16 low in
    let stops : decode_response (drop 8 b) ipv4 ≡ none =
      decode_response-short (drop 8 b) ipv4 (omega (arith, length-drop 8 b)) in
    rw (short, is_action, long, is_tid, ==_refl tid, stops) refl
