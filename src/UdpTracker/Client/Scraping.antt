-- ===== src/UdpTracker/Client/Scraping.antt =====
-- What a client that scrapes gets from the server.
use go_bt.Prelude.{
  ℕ, ◌+◌, ◌*◌, ◌<◌, ◌≤◌, ◌≡◌, inr, refl, ap, ◌∙◌, false, some, List, length, All, Bytes, IsU32, ltb,
  ◌==◌, ==_refl, arith,
}
use go_bt.UdpTracker.Announce.{action_scrape}
use go_bt.UdpTracker.Scrape.{ScrapeResponse, encode_hashes, encode_scrapes}
use go_bt.UdpTracker.Scrape.RoundTrip.{
  IsScrape, IsHash, length-encode_scrapes, decode-encode_scrapes, decode-encode_hashes,
}
use go_bt.UdpTracker.Client.{
  Client, Outcome, returned, Network, get_tran_id, request, on_action, scrape_reply, minute,
  buf_size, ask, scrape,
}
use go_bt.UdpTracker.Client.Exchange.{
  to_server, response-head, ask-answered, tid-IsU32, get_connection_id-fresh, IsConnected,
}
use go_bt.UdpTracker.Server.{
  UdpAddr, ServerHandler, Server, response, scrap_packet, handle_scrape, handle_action,
}
use go_bt.UdpTracker.Server.Connections.{length-request, handle_packet-connected, receive-whole}

scrape_reply-packet :
    (tid : ℕ) (rs : List ScrapeResponse)
    → IsU32 tid
    → All IsScrape rs
    → scrape_reply tid (scrap_packet tid rs) ≡ returned rs
unfolding scrape_reply on_action scrap_packet
scrape_reply-packet tid rs t h =
    let (is_action, is_tid, is_rest, size) =
      response-head action_scrape tid (encode_scrapes rs) (omega arith) t in
    let short : ltb (length (response action_scrape tid (encode_scrapes rs))) 8 ≡ false =
      ground arith in
    rw (short, is_action, is_tid, ==_refl tid, is_rest, decode-encode_scrapes rs h) refl

handle_scrape-given :
    (handler : ServerHandler) (raddr : UdpAddr) (tid : ℕ) (ihs : List Bytes)
    (rs : List ScrapeResponse)
    → All IsHash ihs
    → 0 < length ihs
    → handler.on_scrap raddr ihs ≡ inr rs
    → handle_action handler raddr action_scrape tid (encode_hashes ihs) ≡ some (scrap_packet tid rs)
unfolding handle_action handle_scrape
handle_scrape-given handler raddr tid ihs rs h some_hash e =
    let asked : (length ihs == 0) ≡ false = ground arith in
    rw (decode-encode_hashes ihs h, handle_scrape, asked, e) refl

scrape-asked :
    {S : Type 0} (net : Network S) (now : ℕ) (s after : S) (utc : Client) (ihs : List Bytes)
    (out : Outcome (List ScrapeResponse))
    → now ≤ utc.last + minute
    → ask net s
        (buf_size utc)
        (request utc.cid action_scrape (get_tran_id utc).1 (encode_hashes ihs))
        (scrape_reply (get_tran_id utc).1)
      ≡ (after, out)
    → scrape net now s utc ihs ≡ ((after, (get_tran_id utc).0), out)
unfolding scrape
scrape-asked net now s after utc ihs out h f =
    let kept = get_connection_id-fresh net now s utc h in rw (scrape, kept, kept, f) refl

-- A connected client that scrapes one hash at least gets what the server's handler gives for these
-- hashes, in order, and no other state changes than the client's count of transactions. The
-- hashes have 20 bytes, the counts are 32-bit words, and both packets fit their buffers.
pub scrape-served :
    (handler : ServerHandler) (raddr : UdpAddr) (now : ℕ) (uts : Server) (utc : Client)
    (ihs : List Bytes) (rs : List ScrapeResponse)
    → IsConnected raddr now uts utc
    → All IsHash ihs
    → 0 < length ihs
    → 16 + length (encode_hashes ihs) ≤ uts.buf_size
    → handler.on_scrap raddr ihs ≡ inr rs
    → All IsScrape rs
    → 8 + length rs * 12 ≤ buf_size utc
    → scrape (to_server handler raddr now) now uts utc ihs
      ≡ ((uts, (get_tran_id utc).0), returned rs)
unfolding scrap_packet
scrape-served handler raddr now uts utc ihs rs c h some_hash room e r fits =
    let tid = (get_tran_id utc).1 in
    let packet = request utc.cid action_scrape tid (encode_hashes ihs) in
    let size = length-request utc.cid action_scrape tid (encode_hashes ihs) in
    let sent =
      (response-head action_scrape tid (encode_scrapes rs) (omega arith) (tid-IsU32 utc)).3 in
    let body = length-encode_scrapes rs in
    scrape-asked (to_server handler raddr now) now uts uts utc ihs (returned rs) c.fresh (
      ask-answered handler raddr now uts uts (buf_size utc) packet (scrap_packet tid rs)
        (scrape_reply tid)
        (receive-whole handler raddr now uts packet (uts, scrap_packet tid rs) (omega (arith, size))
          (omega (arith, size, room))
          (handle_packet-connected handler raddr now uts utc.cid action_scrape tid
            (encode_hashes ihs) (scrap_packet tid rs) c.cid-word (omega arith) (tid-IsU32 utc)
            (omega arith) c.known (handle_scrape-given handler raddr tid ihs rs h some_hash e)))
        (omega (arith, sent, body, fits))
      ∙ ap (λ out. (uts, out)) (scrape_reply-packet tid rs (tid-IsU32 utc) r))
