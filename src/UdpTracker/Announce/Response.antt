-- ===== src/UdpTracker/Announce/Response.antt =====
-- An announce response is read back.
use go_bt.Prelude.{
  ℕ, ◌+◌, ◌*◌, ◌/◌, ◌≡◌, inl, inr, refl, ap, sym, ◌∙◌, Bool, true, false, some, List, [], ◌∷◌, ◌++◌,
  append-nil, length, drop, All, Bytes, IsU16, IsU32, be32, of_be, of_be-be32, ltb, ◌==◌, arith,
}
use go_bt.Prelude.Chunks.{
  read_chunks, write_chunks, ReadsBack, length-write_chunks, read_chunks-write,
}
use go_bt.Prelude.Ip.{length-to4, length-to16}
use go_bt.Prelude.Slices.{slice}
use go_bt.Metainfo.Addr.{CompactAddr, write_addr, unmarshal_addr}
use go_bt.Metainfo.Addr.RoundTrip.{length-write_addr, unmarshal-write_addr}
use go_bt.UdpTracker.Announce.{
  AnnounceResponse, family_ip, encode_addresses, encode_response, step, decode_response,
}

-- An address that has a form in the family, and a port of 16 bits.
abbrev pub HasForm : Bool → CompactAddr → Type 0
HasForm ipv4 a = ((length (family_ip ipv4 a.ip) == 0) ≡ false) × IsU16 a.port

abbrev pub in_family : Bool → CompactAddr → CompactAddr
in_family ipv4 a = record a { ip = family_ip ipv4 a.ip }

abbrev pub all_in_family : Bool → List CompactAddr → List CompactAddr
all_in_family ipv4 [] = []
all_in_family ipv4 (a ∷ addresses) = in_family ipv4 a ∷ all_in_family ipv4 addresses

-- A response whose counts are 32-bit words, with addresses of the family.
abbrev pub IsResponse : Bool → AnnounceResponse → Type 0
IsResponse ipv4 r =
    IsU32 r.interval × IsU32 r.leechers × IsU32 r.seeders × All (HasForm ipv4) r.addresses

reads :
    (ipv4 : Bool) (a : CompactAddr)
    → HasForm ipv4 a
    → ReadsBack write_addr unmarshal_addr (step ipv4) (in_family ipv4 a)
reads true a h =
    let four = length-to4 a.ip h.0 in
    (
      length-write_addr (in_family true a) ∙ omega (arith, four),
      unmarshal-write_addr (in_family true a) (inl four) h.1,
    )
reads false a h =
    let sixteen = length-to16 a.ip h.0 in
    (
      length-write_addr (in_family false a) ∙ omega (arith, sixteen),
      unmarshal-write_addr (in_family false a) (inr sixteen) h.1,
    )

all_reads :
    (ipv4 : Bool) (addresses : List CompactAddr)
    → All (HasForm ipv4) addresses
    → All (ReadsBack write_addr unmarshal_addr (step ipv4)) (all_in_family ipv4 addresses)
all_reads ipv4 [] h = tt
all_reads ipv4 (a ∷ addresses) h = (reads ipv4 a h.0, all_reads ipv4 addresses h.1)

all_sizes :
    (size : ℕ) (xs : List CompactAddr)
    → All (ReadsBack write_addr unmarshal_addr size) xs
    → All (λ a. length (write_addr a) ≡ size) xs
all_sizes size [] h = tt
all_sizes size (x ∷ xs) h = (h.0.0, all_sizes size xs h.1)

encode_addresses-step :
    (ipv4 : Bool) (a : CompactAddr) (addresses : List CompactAddr) (more : Bytes)
    → ((length (family_ip ipv4 a.ip) == 0) ≡ false)
    → encode_addresses ipv4 addresses ≡ some more
    → encode_addresses ipv4 (a ∷ addresses) ≡ some (write_addr (in_family ipv4 a) ++ more)
unfolding encode_addresses
encode_addresses-step ipv4 a addresses more e f = rw (e, f) refl

encode_addresses-write :
    (ipv4 : Bool) (addresses : List CompactAddr)
    → All (HasForm ipv4) addresses
    → encode_addresses ipv4 addresses
      ≡ some (write_chunks write_addr (all_in_family ipv4 addresses))
unfolding encode_addresses
encode_addresses-write ipv4 [] h = refl
encode_addresses-write ipv4 (a ∷ addresses) h =
    encode_addresses-step ipv4 a addresses (write_chunks write_addr (all_in_family ipv4 addresses))
      h.0.0 (encode_addresses-write ipv4 addresses h.1)

-- The number of rounds of the loop that reads the addresses.
rounds : (ipv4 : Bool) (n m : ℕ) → n ≡ m * step ipv4 → n / step ipv4 ≡ m
rounds true n m e = omega (arith, e)
rounds false n m e = omega (arith, e)

pub length-chunks :
    (ipv4 : Bool) (addresses : List CompactAddr)
    → All (HasForm ipv4) addresses
    → length (write_chunks write_addr (all_in_family ipv4 addresses))
      ≡ length (all_in_family ipv4 addresses) * step ipv4
length-chunks ipv4 addresses h =
    length-write_chunks write_addr unmarshal_addr (step ipv4) (all_in_family ipv4 addresses)
      (all_sizes (step ipv4) (all_in_family ipv4 addresses) (all_reads ipv4 addresses h))

read-addresses :
    (ipv4 : Bool) (addresses : List CompactAddr) (b : Bytes)
    → All (HasForm ipv4) addresses
    → b ≡ write_chunks write_addr (all_in_family ipv4 addresses)
    → read_chunks unmarshal_addr (step ipv4) (length b / step ipv4) b
      ≡ some (all_in_family ipv4 addresses)
read-addresses ipv4 addresses b h e =
    let xs = all_in_family ipv4 addresses in
    let written : Bytes = write_chunks write_addr xs in
    ap (λ d. read_chunks unmarshal_addr (step ipv4) (length d / step ipv4) d) e
    ∙ ap (λ n. read_chunks unmarshal_addr (step ipv4) n written)
        (rounds ipv4 (length written) (length xs) (length-chunks ipv4 addresses h))
    ∙ ap (read_chunks unmarshal_addr (step ipv4) (length xs)) (sym (append-nil written))
    ∙ read_chunks-write write_addr unmarshal_addr (step ipv4) xs [] (all_reads ipv4 addresses h)

decode_response-step :
    (b : Bytes) (ipv4 : Bool) (addresses : List CompactAddr)
    → ltb (length b) 12 ≡ false
    → read_chunks unmarshal_addr (step ipv4) (length (drop 12 b) / step ipv4) (drop 12 b)
      ≡ some addresses
    → decode_response b ipv4
      ≡ some (record {
        interval = of_be (slice 0 4 b);
        leechers = of_be (slice 4 8 b);
        seeders = of_be (slice 8 12 b);
        addresses = addresses;
      })
unfolding decode_response
decode_response-step b ipv4 addresses e f = rw (e, f) refl

abbrev pub response_bytes : AnnounceResponse → Bool → Bytes
response_bytes r ipv4 =
    be32 r.interval
    ++ (be32 r.leechers
        ++ (be32 r.seeders ++ write_chunks write_addr (all_in_family ipv4 r.addresses)))

pub length-response_bytes :
    (r : AnnounceResponse) (ipv4 : Bool)
    → IsResponse ipv4 r
    → length (response_bytes r ipv4) ≡ 12 + length (all_in_family ipv4 r.addresses) * step ipv4
unfolding be32
length-response_bytes r ipv4 h = grind (arith, length-chunks ipv4 r.addresses h.3)

pub encode_response-bytes :
    (r : AnnounceResponse) (ipv4 : Bool)
    → IsResponse ipv4 r
    → encode_response r ipv4 ≡ some (response_bytes r ipv4)
unfolding encode_response
encode_response-bytes r ipv4 h =
    rw (encode_response, encode_addresses-write ipv4 r.addresses h.3) refl

long_enough : (r : AnnounceResponse) (ipv4 : Bool) → ltb (length (response_bytes r ipv4)) 12 ≡ false
unfolding be32
long_enough r ipv4 = ground arith

-- A response whose counts are 32-bit words and whose addresses have a form in the client's family is
-- read back, with its addresses in that form.
pub decode-response_bytes :
    (r : AnnounceResponse) (ipv4 : Bool)
    → IsResponse ipv4 r
    → decode_response (response_bytes r ipv4) ipv4
      ≡ some (record r { addresses = all_in_family ipv4 r.addresses })
unfolding slice be32
decode-response_bytes r ipv4 h =
    decode_response-step (response_bytes r ipv4) ipv4 (all_in_family ipv4 r.addresses)
      (long_enough r ipv4)
      (read-addresses ipv4 r.addresses (drop 12 (response_bytes r ipv4)) h.3 refl)
    ∙ rw (of_be-be32 r.interval h.0, of_be-be32 r.leechers h.1, of_be-be32 r.seeders h.2) refl
