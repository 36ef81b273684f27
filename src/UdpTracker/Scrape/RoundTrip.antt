-- ===== src/UdpTracker/Scrape/RoundTrip.antt =====
-- Scrape requests and responses are read back.
use go_bt.Prelude.{
  ◌*◌, ◌/◌, ◌≡◌, refl, ap, sym, ◌∙◌, some, List, [], ◌∷◌, ◌++◌, append-nil, map, length, flatten,
  All, Bytes, IsU32, be32, of_be-be32, arith,
}
use go_bt.Prelude.Chunks.{
  read_chunks, write_chunks, ReadsBack, length-write_chunks, read_chunks-write,
}
use go_bt.Prelude.Slices.{slice}
use go_bt.UdpTracker.Scrape.{
  ScrapeResponse, encode_scrape, decode_scrape, encode_scrapes, decode_scrapes, encode_hashes,
  decode_hashes,
}

-- Counts that are 32-bit words.
abbrev pub IsScrape : ScrapeResponse → Type 0
IsScrape r = IsU32 r.seeders × IsU32 r.leechers × IsU32 r.completed

decode-encode_scrape : (r : ScrapeResponse) → IsScrape r → decode_scrape (encode_scrape r) ≡ some r
unfolding decode_scrape encode_scrape slice be32
decode-encode_scrape r h =
    rw (of_be-be32 r.seeders h.0, of_be-be32 r.leechers h.1, of_be-be32 r.completed h.2) refl

length-encode_scrape : (r : ScrapeResponse) → length (encode_scrape r) ≡ 12
unfolding encode_scrape be32
length-encode_scrape r = refl

all_read :
    (rs : List ScrapeResponse) → All IsScrape rs → All (ReadsBack encode_scrape decode_scrape 12) rs
all_read [] h = tt
all_read (r ∷ rs) h = ((length-encode_scrape r, decode-encode_scrape r h.0), all_read rs h.1)

all_sized : (rs : List ScrapeResponse) → All (λ r. length (encode_scrape r) ≡ 12) rs
all_sized [] = tt
all_sized (r ∷ rs) = (length-encode_scrape r, all_sized rs)

pub length-encode_scrapes : (rs : List ScrapeResponse) → length (encode_scrapes rs) ≡ length rs * 12
unfolding encode_scrapes
length-encode_scrapes rs = length-write_chunks encode_scrape decode_scrape 12 rs (all_sized rs)

-- Scrape responses whose counts are 32-bit words are read back, in order.
pub decode-encode_scrapes :
    (rs : List ScrapeResponse) → All IsScrape rs → decode_scrapes (encode_scrapes rs) ≡ some rs
unfolding decode_scrapes encode_scrapes
decode-encode_scrapes rs h =
    let b : Bytes = write_chunks encode_scrape rs in
    let size : length b ≡ length rs * 12 =
      length-write_chunks encode_scrape decode_scrape 12 rs (all_sized rs) in
    let rounds : length b / 12 ≡ length rs = omega arith in
    rw rounds (
      ap (read_chunks decode_scrape 12 (length rs)) (sym (append-nil b))
      ∙ read_chunks-write encode_scrape decode_scrape 12 rs [] (all_read rs h))

abbrev pub IsHash : Bytes → Type 0
IsHash h = length h ≡ 20

abbrev itself : Bytes → Bytes
itself h = h

map-itself : (hs : List Bytes) → map itself hs ≡ hs
map-itself [] = refl
map-itself (h ∷ hs) = ap (λ rest. h ∷ rest) (map-itself hs)

hashes_read : (hs : List Bytes) → All IsHash hs → All (ReadsBack itself some 20) hs
hashes_read [] k = tt
hashes_read (h ∷ hs) k = ((k.0, refl), hashes_read hs k.1)

-- The hashes of a scrape request, of 20 bytes each, are read back, in order.
pub decode-encode_hashes :
    (hs : List Bytes) → All IsHash hs → decode_hashes (encode_hashes hs) ≡ some hs
unfolding decode_hashes encode_hashes
decode-encode_hashes hs k =
    let same : write_chunks itself hs ≡ flatten hs = ap flatten (map-itself hs) in
    let b : Bytes = flatten hs in
    let size : length b ≡ length hs * 20 =
      ap length (sym same) ∙ length-write_chunks itself some 20 hs k in
    let rounds : length b / 20 ≡ length hs = omega arith in
    rw rounds (
      ap (read_chunks some 20 (length hs)) (sym (append-nil b) ∙ ap (λ d. d ++ []) (sym same))
      ∙ read_chunks-write itself some 20 hs [] (hashes_read hs k))
