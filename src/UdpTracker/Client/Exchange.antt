-- ===== src/UdpTracker/Client/Exchange.antt =====
-- What a client gets from the server over a network that loses nothing.
use go_bt.Prelude.{
  ℕ, ◌+◌, ◌-◌, ◌<◌, ◌≤◌, ◌≡◌, inr, refl, ap, sym, subst, ◌∙◌, Bool, true, false, none, some, length,
  drop, take_of_length-le, drop-drop, Bytes, IsU32, IsU64, be32, of_be, of_be-be32, ltb, ==_refl,
  if◌then◌else◌, arith,
}
use go_bt.Prelude.Slices.{slice}
use go_bt.UdpTracker.Extension.RoundTrip.{all_sized}
use go_bt.UdpTracker.Announce.{
  AnnounceRequest, AnnounceResponse, wanted, encode_request, decode_request, action_announce,
  action_error,
}
use go_bt.UdpTracker.Announce.Request.{IsRequest, decode-encode_request}
use go_bt.UdpTracker.Announce.Response.{
  IsResponse, all_in_family, response_bytes, length-response_bytes, encode_response-bytes,
  decode-response_bytes,
}
use go_bt.UdpTracker.Client.{
  Client, tracker_error, Outcome, returned, failed, Network, get_tran_id, request, on_action,
  announce_reply, parse_error, minute, buf_size, ask, get_connection_id, announce,
}
use go_bt.UdpTracker.Server.{
  UdpAddr, ServerHandler, Server, response, error_packet, announce_packet, is_v4, check_connection,
  handle_announce, handle_action, receive, invalid_announce,
}
use go_bt.UdpTracker.Server.Connections.{length-request, handle_packet-connected, receive-whole}

-- The network from a client at `raddr` to the server; where the server panics, nothing comes back.
unfoldable pub to_server : ServerHandler → UdpAddr → ℕ → Network Server
to_server handler raddr now uts b = elim (receive handler raddr now uts b) [
  | none ↦ (uts, none)
  | some after ↦ after
]

-- The head of a response, as the client reads it.
pub response-head :
    (action tid : ℕ) (rest : Bytes)
    → IsU32 action
    → IsU32 tid
    → (of_be (slice 0 4 (response action tid rest)) ≡ action)
      × (of_be (slice 4 8 (response action tid rest)) ≡ tid)
      × (drop 8 (response action tid rest) ≡ rest)
      × (length (response action tid rest) ≡ 8 + length rest)
unfolding response slice be32
response-head action tid rest a t = (of_be-be32 action a, of_be-be32 tid t, refl, omega arith)

-- The client reads the response that the server writes.
announce_reply-response :
    (ipv4 : Bool) (tid : ℕ) (r : AnnounceResponse)
    → IsU32 tid
    → IsResponse ipv4 r
    → announce_reply ipv4 tid (response action_announce tid (response_bytes r ipv4))
      ≡ returned (record r { addresses = all_in_family ipv4 r.addresses })
unfolding announce_reply on_action
announce_reply-response ipv4 tid r t h =
    let (is_action, is_tid, is_rest, size) =
      response-head action_announce tid (response_bytes r ipv4) (omega arith) t in
    let body = length-response_bytes r ipv4 h in
    let short : ltb (length (response action_announce tid (response_bytes r ipv4))) 8 ≡ false =
      ground arith in
    let long : ltb (length (response action_announce tid (response_bytes r ipv4))) 16 ≡ false =
      ground arith in
    rw (short, is_action, long, is_tid, ==_refl tid, is_rest, decode-response_bytes r ipv4 h) refl

-- The client gets the text of an error.
announce_reply-error :
    (ipv4 : Bool) (tid : ℕ) (reason : Bytes)
    → IsU32 tid
    → announce_reply ipv4 tid (error_packet tid reason) ≡ failed (tracker_error reason)
unfolding announce_reply on_action error_packet parse_error
announce_reply-error ipv4 tid reason t =
    let (is_action, is_tid, is_rest, size) =
      response-head action_error tid reason (omega arith) t in
    let short : ltb (length (response action_error tid reason)) 8 ≡ false = ground arith in
    rw (short, is_action, drop-drop 4 4 (response action_error tid reason), is_rest) refl

-- What the server makes of the body of an announce request.
handle_announce-decoded :
    (handler : ServerHandler) (raddr : UdpAddr) (tid : ℕ) (b : Bytes) (req : AnnounceRequest)
    (resp : AnnounceResponse)
    → ((if is_v4 raddr then 82 else 94) ≤ length b)
    → decode_request b ≡ some req
    → handler.on_announce raddr req ≡ inr resp
    → IsResponse (is_v4 raddr) resp
    → handle_announce handler raddr tid b
      ≡ some (response action_announce tid (response_bytes resp (is_v4 raddr)))
unfolding handle_announce announce_packet
handle_announce-decoded handler raddr tid b req resp enough e f h =
    let long : ltb (length b) (if is_v4 raddr then 82 else 94) ≡ false = ground arith in
    rw (long, e, f, announce_packet, encode_response-bytes resp (is_v4 raddr) h) refl

-- The packet that goes over the network and the one that comes back.
pub ask-answered :
    (handler : ServerHandler) (raddr : UdpAddr) (now : ℕ) (uts after : Server) (size : ℕ)
    (b sent : Bytes) {A : Type 0} (read : Bytes → Outcome A)
    → receive handler raddr now uts b ≡ some (after, some sent)
    → length sent ≤ size
    → ask (to_server handler raddr now) uts size b read ≡ (after, read sent)
unfolding to_server
ask-answered handler raddr now uts after size b sent read e h =
    let met : to_server handler raddr now uts b ≡ (after, some sent) = rw (to_server, e) refl in
    rw (ask, met, met, take_of_length-le size sent h) refl

-- A client whose connection is fresh keeps it.
pub get_connection_id-fresh :
    {S : Type 0} (net : Network S) (now : ℕ) (s : S) (utc : Client)
    → now ≤ utc.last + minute
    → get_connection_id net now s utc ≡ ((s, utc), returned utc.cid)
unfolding get_connection_id
get_connection_id-fresh net now s utc h =
    let fresh : ltb minute (now - utc.last) ≡ false = ground arith in rw fresh refl

pub tid-IsU32 : (utc : Client) → IsU32 (get_tran_id utc).1
unfolding get_tran_id
tid-IsU32 utc = omega arith

announce-asked :
    {S : Type 0} (net : Network S) (now : ℕ) (s after : S) (utc : Client) (req : AnnounceRequest)
    (b : Bytes) (out : Outcome AnnounceResponse)
    → now ≤ utc.last + minute
    → encode_request req ≡ some b
    → ask net s
        (buf_size utc)
        (request utc.cid action_announce (get_tran_id utc).1 b)
        (announce_reply utc.ipv4 (get_tran_id utc).1)
      ≡ (after, out)
    → announce net now s utc req ≡ ((after, (get_tran_id utc).0), out)
unfolding announce
announce-asked net now s after utc req b out h e f =
    let kept = get_connection_id-fresh net now s utc h in rw (announce, kept, e, kept, f) refl

-- A client that the server at the other end knows, whose connection is fresh.
pub record IsConnected (raddr : UdpAddr) (now : ℕ) (uts : Server) (utc : Client) : Type 0 where
  pub fresh : now ≤ utc.last + minute
  pub known : check_connection uts utc.cid raddr ≡ true
  pub cid-word : IsU64 utc.cid
  pub family : utc.ipv4 ≡ is_v4 raddr

-- The request as the server's handler gets it.
abbrev pub seen : AnnounceRequest → AnnounceRequest
seen req = record req { num_want = wanted req.num_want; exts = all_sized req.exts }

decode_request-seen :
    (req : AnnounceRequest) (b : Bytes)
    → IsRequest req
    → encode_request req ≡ some b
    → decode_request b ≡ some (seen req)
decode_request-seen req b h e =
    let (written, encoded, read) = decode-encode_request req h in
    let same : written ≡ b = cc in ap decode_request (sym same) ∙ read

module _ (handler : ServerHandler) (raddr : UdpAddr) (now : ℕ) (uts : Server) (utc : Client) where
  -- A packet of a connected client, and what the server answers to it.
  announce-answered :
      (req : AnnounceRequest) (b sent : Bytes)
      → IsConnected raddr now uts utc
      → encode_request req ≡ some b
      → 16 + length b ≤ uts.buf_size
      → handle_announce handler raddr (get_tran_id utc).1 b ≡ some sent
      → length sent ≤ buf_size utc
      → announce (to_server handler raddr now) now uts utc req
        ≡ ((uts, (get_tran_id utc).0), announce_reply utc.ipv4 (get_tran_id utc).1 sent)
  unfolding handle_action
  announce-answered req b sent c e room answer fits =
      let tid = (get_tran_id utc).1 in
      let packet = request utc.cid action_announce tid b in
      let size = length-request utc.cid action_announce tid b in
      announce-asked (to_server handler raddr now) now uts uts utc req b
        (announce_reply utc.ipv4 tid sent) c.fresh e
        (ask-answered handler raddr now uts uts (buf_size utc) packet sent
          (announce_reply utc.ipv4 tid)
          (receive-whole handler raddr now uts packet (uts, sent) (omega arith) (omega arith)
            (handle_packet-connected handler raddr now uts utc.cid action_announce tid b sent
              c.cid-word (omega arith) (tid-IsU32 utc) (omega arith) c.known answer))
          fits)

  -- A connected client that announces a request whose fields have their widths gets what the server's
  -- handler gives for that request, with the addresses in the form of the client's family, and no
  -- other state changes than the client's count of transactions. The request has the size that the
  -- server asks of the family, and both packets fit their buffers.
  pub announce-served :
      (req : AnnounceRequest) (b : Bytes) (resp : AnnounceResponse)
      → IsConnected raddr now uts utc
      → IsRequest req
      → encode_request req ≡ some b
      → (if is_v4 raddr then 82 else 94) ≤ length b
      → 16 + length b ≤ uts.buf_size
      → handler.on_announce raddr (seen req) ≡ inr resp
      → IsResponse (is_v4 raddr) resp
      → 8 + length (response_bytes resp (is_v4 raddr)) ≤ buf_size utc
      → announce (to_server handler raddr now) now uts utc req ≡ (
        (uts, (get_tran_id utc).0),
        returned (record resp { addresses = all_in_family (is_v4 raddr) resp.addresses }),
      )
  announce-served req b resp c h e enough room given r fits =
      let tid = (get_tran_id utc).1 in
      let body = response_bytes resp (is_v4 raddr) in
      announce-answered req b (response action_announce tid body) c e room
        (handle_announce-decoded handler raddr tid b (seen req) resp enough
          (decode_request-seen req b h e) given r)
        (subst (λ n. n ≤ buf_size utc)
          (sym (response-head action_announce tid body (omega arith) (tid-IsU32 utc)).3) fits)
      ∙ ap (λ out. ((uts, (get_tran_id utc).0), out))
          (ap (λ ipv4. announce_reply ipv4 tid (response action_announce tid body)) c.family
            ∙ announce_reply-response (is_v4 raddr) tid resp (tid-IsU32 utc) r)

  refusal :
      (b : Bytes) (tid : ℕ)
      → length b < (if is_v4 raddr then 82 else 94)
      → handle_announce handler raddr tid b ≡ some (error_packet tid invalid_announce)
  unfolding handle_announce
  refusal b tid h =
      let short : ltb (length b) (if is_v4 raddr then 82 else 94) ≡ true = ground arith in
      rw short refl

  -- A connected client whose request is shorter than what the server asks of its family gets an
  -- error, whatever the request is. The server asks 82 bytes over IPv4 and 94 over IPv6. The
  -- client's count of transactions goes on, no other state changes. Both packets fit their buffers.
  pub announce-refused :
      (req : AnnounceRequest) (b : Bytes)
      → IsConnected raddr now uts utc
      → encode_request req ≡ some b
      → length b < (if is_v4 raddr then 82 else 94)
      → 16 + length b ≤ uts.buf_size
      → 32 ≤ buf_size utc
      → announce (to_server handler raddr now) now uts utc req
        ≡ ((uts, (get_tran_id utc).0), failed (tracker_error invalid_announce))
  unfolding error_packet
  announce-refused req b c e small room fits =
      let tid = (get_tran_id utc).1 in
      let size =
        (response-head action_error tid invalid_announce (omega arith) (tid-IsU32 utc)).3 in
      announce-answered req b (error_packet tid invalid_announce) c e room (refusal b tid small)
        (subst (λ n. n ≤ buf_size utc) (sym size) fits)
      ∙ ap (λ out. ((uts, (get_tran_id utc).0), out))
          (announce_reply-error utc.ipv4 tid invalid_announce (tid-IsU32 utc))
