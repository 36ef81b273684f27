-- ===== src/UdpTracker/Tests.antt =====
-- The theorems about the UDP tracker at concrete inputs.
use go_bt.Prelude.{
  ℕ, ◌-◌, ◌^◌, ◌≡◌, inr, refl, Bool, true, false, none, some, [], ◌∷◌, ◌++◌, replicate, Bytes, be16,
  be32, be64, arith,
}
use go_bt.Prelude.Map.{lookup}
use go_bt.Prelude.Ip.{to4}
use go_bt.Metainfo.Addr.{write_addr}
use go_bt.UdpTracker.Extension.{Extension, url_data, encode_ext, encode_exts, decode_exts}
use go_bt.UdpTracker.Extension.RoundTrip.{decode_exts-fuel}
use go_bt.UdpTracker.Announce.{
  AnnounceRequest, AnnounceResponse, wanted, not_positive, encode_request,
}
use go_bt.UdpTracker.Announce.Request.{IsRequest}
use go_bt.UdpTracker.Scrape.{ScrapeResponse, encode_hashes}
use go_bt.UdpTracker.Server.{
  UdpAddr, ServerHandler, Server, check_connection, is_v4, invalid_announce,
}
use go_bt.UdpTracker.Server.Panics.{receive-panics, announce_reply-panics}
use go_bt.UdpTracker.Announce.{action_announce}
use go_bt.UdpTracker.Announce.Request.{whole}
use go_bt.Prelude.Slices.{slice}
use go_bt.Prelude.{of_be, of_be_from}
use go_bt.UdpTracker.Client.{request, announce_reply, panicked}
use go_bt.UdpTracker.Server.{receive}
use go_bt.UdpTracker.Client.{
  Client, tracker_error, returned, failed, get_tran_id, buf_size, announce, scrape,
}
use go_bt.UdpTracker.Client.Exchange.{to_server, IsConnected, announce-served, announce-refused}
use go_bt.UdpTracker.Client.Scraping.{scrape-served}

abbrev options : Bytes
options = 2 ∷ 3 ∷ 7 ∷ 8 ∷ 9 ∷ 0 ∷ 0 ∷ []

decode_exts-fuel_example : decode_exts 20 options ≡ decode_exts 7 options
decode_exts-fuel_example = decode_exts-fuel 20 options (omega arith)

abbrev hash : ℕ → Bytes
hash n = replicate 20 n

abbrev path : Extension
path = record { kind = url_data; size = 0; payload = 47 ∷ 97 ∷ [] }

abbrev wish : AnnounceRequest
wish = record {
  info_hash = hash 1;
  peer_id = hash 2;
  downloaded = 100;
  left = 200;
  uploaded = 300;
  event = 2;
  key = 7;
  num_want = 0;
  port = 6881;
  exts = path ∷ [];
}

wish-IsRequest : IsRequest wish
wish-IsRequest = record {
  info_hash-size = refl;
  peer_id-size = refl;
  downloaded-word = omega arith;
  left-word = omega arith;
  uploaded-word = omega arith;
  event-word = omega arith;
  key-word = omega arith;
  num_want-word = omega arith;
  port-word = omega arith;
  exts-sized = ((omega arith, inr refl), tt);
}

abbrev wish_bytes : Bytes
wish_bytes =
    hash 1
    ++ (hash 2
        ++ (be64 100
            ++ (be64 200
                ++ (be64 300
                    ++ (be32 2
                        ++ (be32 0
                            ++ (be32 7
                                ++ (be32 (2 ^ 32 - 1)
                                    ++ (be16 6881 ++ (2 ∷ 2 ∷ 47 ∷ 97 ∷ []))))))))))

encoded : encode_request wish ≡ some wish_bytes
unfolding encode_request encode_exts encode_ext wanted not_positive
encoded = refl

abbrev answer : AnnounceResponse
answer = record {
  interval = 1800;
  leechers = 1;
  seeders = 2;
  addresses = record { ip = 10 ∷ 0 ∷ 0 ∷ 5 ∷ []; port = 6882 } ∷ [];
}

abbrev counts : ScrapeResponse
counts = record { seeders = 5; leechers = 6; completed = 7 }

abbrev handler : ServerHandler
handler = record {
  on_connect = λ raddr. none;
  on_announce = λ raddr req. inr answer;
  on_scrap = λ raddr ihs. inr (counts ∷ []);
}

abbrev at : UdpAddr
at = record { ip = 10 ∷ 0 ∷ 0 ∷ 9 ∷ []; port = 4000 }

abbrev at6 : UdpAddr
at6 = record { ip = replicate 16 9; port = 4000 }

abbrev tracker : UdpAddr → Server
tracker raddr = record {
  buf_size = 2048;
  cid = 12;
  conns = (12, record { addr = raddr; time = 5 }) ∷ [];
}

abbrev peer : Bool → Client
peer ipv4 = record { max_buf_size = 2048; id = hash 2; last = 5; cid = 12; tid = 3; ipv4 = ipv4 }

connected : IsConnected at 6 (tracker at) (peer true)
unfolding check_connection lookup is_v4 to4
connected = record { fresh = omega arith; known = refl; cid-word = omega arith; family = refl }

connected6 : IsConnected at6 6 (tracker at6) (peer false)
unfolding check_connection lookup is_v4 to4
connected6 = record { fresh = omega arith; known = refl; cid-word = omega arith; family = refl }

announce-served_example :
    announce (to_server handler at 6) 6 (tracker at) (peer true) wish
    ≡ ((tracker at, (get_tran_id (peer true)).0), returned answer)
unfolding is_v4 to4 buf_size be64 be32 be16 write_addr
announce-served_example =
    announce-served handler at 6 (tracker at) (peer true) wish wish_bytes answer connected
      wish-IsRequest encoded (omega arith) (omega arith) refl
      (omega arith, omega arith, omega arith, ((refl, omega arith), tt)) (omega arith)

announce-refused_example :
    announce (to_server handler at6 6) 6 (tracker at6) (peer false) wish
    ≡ ((tracker at6, (get_tran_id (peer false)).0), failed (tracker_error invalid_announce))
unfolding is_v4 to4 buf_size be64 be32 be16
announce-refused_example =
    announce-refused handler at6 6 (tracker at6) (peer false) wish wish_bytes connected6 encoded
      (omega arith) (omega arith) (omega arith)

scrape-served_example :
    scrape (to_server handler at 6) 6 (tracker at) (peer true) (hash 1 ∷ [])
    ≡ ((tracker at, (get_tran_id (peer true)).0), returned (counts ∷ []))
unfolding encode_hashes buf_size
scrape-served_example =
    scrape-served handler at 6 (tracker at) (peer true) (hash 1 ∷ []) (counts ∷ []) connected
      (refl, tt) (omega arith) (omega arith) refl ((omega arith, omega arith, omega arith), tt)
      (omega arith)

wish-bare : IsRequest (record wish { exts = [] })
wish-bare = record {
  info_hash-size = refl;
  peer_id-size = refl;
  downloaded-word = omega arith;
  left-word = omega arith;
  uploaded-word = omega arith;
  event-word = omega arith;
  key-word = omega arith;
  num_want-word = omega arith;
  port-word = omega arith;
  exts-sized = tt;
}

receive-panics_example :
    receive handler at 6
      (tracker at)
      (request 12 action_announce 4 (whole (record wish { exts = [] }) (2 ∷ 9 ∷ 47 ∷ [])))
    ≡ none
unfolding check_connection lookup is_v4 to4
receive-panics_example =
    receive-panics handler at 6 (tracker at) 12 4 (record wish { exts = [] }) 2 9 (47 ∷ [])
      (omega arith) (omega arith) refl wish-bare (omega arith) (omega arith) (omega arith)

abbrev short_response : Bytes
short_response = 0 ∷ 0 ∷ 0 ∷ 1 ∷ 0 ∷ 0 ∷ 0 ∷ 4 ∷ 0 ∷ 0 ∷ 7 ∷ 8 ∷ 0 ∷ 0 ∷ 0 ∷ 1 ∷ []

announce_reply-panics_example : announce_reply true 4 short_response ≡ panicked
unfolding slice of_be of_be_from
announce_reply-panics_example =
    announce_reply-panics true 4 short_response (omega arith) (omega arith) refl refl
