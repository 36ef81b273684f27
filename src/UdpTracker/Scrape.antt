-- ===== src/UdpTracker/Scrape.antt =====
-- The scrape messages (tracker/udptracker/udp.go) and the loops over them in the server and the client.
pub mod RoundTrip
use go_bt.Prelude.{
  ℕ, ◌/◌, Bool, Option, none, some, List, ◌++◌, length, take, drop, flatten, Bytes, be32, of_be,
  ltb, if◌then◌else◌,
}
use go_bt.Prelude.Chunks.{read_chunks, write_chunks}
use go_bt.Prelude.Slices.{slice}

pub record ScrapeResponse : Type 0 where
  pub seeders : ℕ
  pub leechers : ℕ
  pub completed : ℕ

-- `ScrapeResponse.EncodeTo`.
unfoldable pub encode_scrape : ScrapeResponse → Bytes
encode_scrape r = be32 r.seeders ++ (be32 r.completed ++ be32 r.leechers)

-- `ScrapeResponse.DecodeFrom(b)`; a slice past the end of `b` panics, `none`.
unfoldable pub decode_scrape : Bytes → Option ScrapeResponse
decode_scrape b =
    if ltb (length b) 12
    then none
    else some (record {
      seeders = of_be (slice 0 4 b);
      leechers = of_be (slice 8 12 b);
      completed = of_be (slice 4 8 b);
    })

-- The loop of `sendScrapResp`, and the loop of `scrape` that reads what it writes.
unfoldable pub encode_scrapes : List ScrapeResponse → Bytes
encode_scrapes rs = write_chunks encode_scrape rs

unfoldable pub decode_scrapes : Bytes → Option (List ScrapeResponse)
decode_scrapes b = read_chunks decode_scrape 12 (length b / 12) b

-- The loop of `scrape` that writes the hashes, and the one of `handlePacket` that reads them. The slices
-- have the length that `NewHash` takes.
unfoldable pub encode_hashes : List Bytes → Bytes
encode_hashes hs = flatten hs

unfoldable pub decode_hashes : Bytes → Option (List Bytes)
decode_hashes b = read_chunks some 20 (length b / 20) b
