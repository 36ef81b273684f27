-- ===== src/UdpTracker/Client.antt =====
-- The UDP tracker's client (tracker/udptracker/udp_client.go). The network is a parameter: what comes
-- back for a packet, `none` where sending or reading fails.
pub mod Exchange
pub mod Connecting
pub mod Scraping
use go_bt.Prelude.{
  ℕ, suc, ◌+◌, ◌-◌, ◌*◌, ◌%◌, ◌^◌, Bool, true, false, ◌&&◌, Option, none, some, List, [], ◌∷◌, ◌++◌,
  length, take, drop, Bytes, be32, be64, of_be, ltb, ◌==◌, if◌then◌else◌,
}
use go_bt.Prelude.Slices.{slice}
use go_bt.UdpTracker.Announce.{
  protocol_id, action_connect, action_announce, action_scrape, action_error, AnnounceRequest,
  AnnounceResponse, encode_request, decode_response,
}
use go_bt.UdpTracker.Scrape.{ScrapeResponse, encode_hashes, decode_scrapes}

pub record Client : Type 0 where
  pub max_buf_size : ℕ
  pub id : Bytes
  pub last : ℕ
  pub cid : ℕ
  pub tid : ℕ
  pub ipv4 : Bool

-- The errors that a call returns.
pub data ClientError : Type 0 where
  network_failed : ClientError
  short_buffer : ClientError
  tracker_error : Bytes → ClientError
  wrong_action : ℕ → ClientError
  wrong_tid : ℕ → ClientError

-- How a call ends.
pub data Outcome {ℓ} (A : Type ℓ) : Type ℓ where
  returned : A → Outcome A
  failed : ClientError → Outcome A
  panicked : Outcome A

abbrev pub Network : Type 0 → Type 0
Network S = S → Bytes → S × Option Bytes

-- `getTranID()`: the count wraps around.
unfoldable pub get_tran_id : Client → Client × ℕ
get_tran_id utc = let tid = (utc.tid + 1) % 2 ^ 32 in (record utc { tid = tid }, tid)

-- The reason that `parseError` gives of the bytes after the action.
unfoldable pub parse_error : Bytes → Bytes
parse_error b = drop 4 b

-- The head of every request: connection, action and transaction.
unfoldable pub request : ℕ → ℕ → ℕ → Bytes → Bytes
request cid action tid rest = be64 cid ++ (be32 action ++ (be32 tid ++ rest))

-- The switch on the action of a response, with what follows it for the expected action.
unfoldable pub on_action {ℓ} : {A : Type ℓ} → ℕ → Bytes → Outcome A → Outcome A
on_action expected b next =
    if ltb (length b) 8
    then failed short_buffer
    else if of_be (slice 0 4 b) == expected
    then next
    else if of_be (slice 0 4 b) == action_error
    then failed (tracker_error (parse_error (drop 4 b)))
    else failed (wrong_action (of_be (slice 0 4 b)))

-- What `connect` makes of a response.
unfoldable pub connect_reply : ℕ → Bytes → Outcome ℕ
connect_reply tid b = on_action action_connect b (
    if ltb (length b) 16
    then failed short_buffer
    else if of_be (slice 4 8 b) == tid
    then returned (of_be (slice 8 16 b))
    else failed (wrong_tid (of_be (slice 4 8 b))))

-- What `announce` makes of a response. The decoding panics on a response of 16 to 19 bytes.
unfoldable pub announce_reply : Bool → ℕ → Bytes → Outcome AnnounceResponse
announce_reply ipv4 tid b = on_action action_announce b (
    if ltb (length b) 16
    then failed short_buffer
    else if of_be (slice 4 8 b) == tid
    then elim (decode_response (drop 8 b) ipv4) [ none ↦ panicked | some r ↦ returned r ]
    else failed (wrong_tid (of_be (slice 4 8 b))))

-- What `scrape` makes of a response.
unfoldable pub scrape_reply : ℕ → Bytes → Outcome (List ScrapeResponse)
scrape_reply tid b = on_action action_scrape b (
    if of_be (slice 4 8 b) == tid
    then elim (decode_scrapes (drop 8 b)) [ none ↦ panicked | some rs ↦ returned rs ]
    else failed (wrong_tid (of_be (slice 4 8 b))))

-- `Hash.IsZero`.
unfoldable pub is_zero : Bytes → Bool
is_zero [] = true
is_zero (b ∷ h) = b == 0 && is_zero h

-- `time.Minute`, in nanoseconds.
abbrev pub minute : ℕ
minute = 60 * 10 ^ 9

-- The size of the buffer for a response.
unfoldable pub buf_size : Client → ℕ
buf_size utc = if utc.max_buf_size == 0 then 2048 else utc.max_buf_size

-- A round over the network: the response is cut to the buffer.
abbrev pub ask : {S A : Type 0} → Network S → S → ℕ → Bytes → (Bytes → Outcome A) → S × Outcome A
ask net s size b read =
    let (after, answer) = net s b in
    elim answer [ none ↦ (after, failed network_failed) | some d ↦ (after, read (take size d)) ]

module _ {S : Type 0} (net : Network S) (now : ℕ) where
  -- `connect(ctx)`.
  unfoldable pub connect : S → Client → (S × Client) × Outcome ℕ
  connect s utc =
      let (counted, tid) = get_tran_id utc in
      let (after, out) =
        ask net s 32 (request protocol_id action_connect tid []) (connect_reply tid) in
      elim out [
        | returned cid ↦ ((after, record counted { cid = cid; last = now }), returned cid)
        | failed e ↦ ((after, counted), failed e)
        | panicked ↦ ((after, counted), panicked)
      ]

  -- `getConnectionID(ctx)`.
  unfoldable pub get_connection_id : S → Client → (S × Client) × Outcome ℕ
  get_connection_id s utc =
      let connected = connect s utc in
      if ltb minute (now - utc.last) then connected else ((s, utc), returned utc.cid)

  -- `announce(ctx, req)`.
  unfoldable pub announce : S → Client → AnnounceRequest → (S × Client) × Outcome AnnounceResponse
  announce s utc req =
      let ((s1, utc1), connected) = get_connection_id s utc in
      let (counted, tid) = get_tran_id utc1 in
      elim connected [
        | failed e ↦ ((s1, utc1), failed e)
        | panicked ↦ ((s1, utc1), panicked)
        | returned cid ↦ elim (encode_request req) [
          | none ↦ ((s1, counted), panicked)
          | some b ↦
              let (s2, out) =
                ask net s1 (buf_size utc1) (request cid action_announce tid b)
                  (announce_reply utc1.ipv4 tid) in
              ((s2, counted), out)
        ]
      ]

  -- `Announce(c, r)`: a hash of zeros panics.
  unfoldable pub announce_as :
      S → Client → AnnounceRequest → (S × Client) × Outcome AnnounceResponse
  announce_as s utc r =
      let out = announce s utc (record r { peer_id = utc.id }) in
      if is_zero r.info_hash then ((s, utc), panicked) else out

  -- `scrape(c, ihs)` and `Scrape(c, hs)`.
  unfoldable pub scrape : S → Client → List Bytes → (S × Client) × Outcome (List ScrapeResponse)
  scrape s utc ihs =
      let ((s1, utc1), connected) = get_connection_id s utc in
      let (counted, tid) = get_tran_id utc1 in
      elim connected [
        | failed e ↦ ((s1, utc1), failed e)
        | panicked ↦ ((s1, utc1), panicked)
        | returned cid ↦
            let (s2, out) =
              ask net s1 (buf_size utc1) (request cid action_scrape tid (encode_hashes ihs))
                (scrape_reply tid) in
            ((s2, counted), out)
      ]
