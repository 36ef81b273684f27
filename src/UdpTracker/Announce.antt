-- ===== src/UdpTracker/Announce.antt =====
-- The announce messages (tracker/udptracker/udp.go). A signed integer is held as its word in two's
-- complement, as it goes over the wire.
pub mod Request
pub mod Response
use go_bt.Prelude.{
  ℕ, ◌+◌, ◌-◌, ◌/◌, ◌^◌, Bool, true, false, ◌||◌, Option, none, some, List, [], ◌∷◌, ◌++◌, length,
  take, drop, Bytes, be16, be32, be64, of_be, ltb, leb, ◌==◌, if◌then◌else◌,
}
use go_bt.Prelude.Chunks.{read_chunks}
use go_bt.Prelude.Ip.{to4, to16}
use go_bt.Prelude.Slices.{slice}
use go_bt.Metainfo.Addr.{CompactAddr, write_addr, unmarshal_addr}
use go_bt.UdpTracker.Extension.{Extension, encode_exts, decode_exts}

-- `ProtocolID` and the actions.
abbrev pub protocol_id : ℕ
protocol_id = 4497486125440

abbrev pub action_connect : ℕ
action_connect = 0

abbrev pub action_announce : ℕ
action_announce = 1

abbrev pub action_scrape : ℕ
action_scrape = 2

abbrev pub action_error : ℕ
action_error = 3

pub record AnnounceRequest : Type 0 where
  pub info_hash : Bytes
  pub peer_id : Bytes
  pub downloaded : ℕ
  pub left : ℕ
  pub uploaded : ℕ
  pub event : ℕ
  pub key : ℕ
  pub num_want : ℕ
  pub port : ℕ
  pub exts : List Extension

-- `NumWant <= 0` of an int32 held as its word.
unfoldable pub not_positive : ℕ → Bool
not_positive w = w == 0 || leb (2 ^ 31) w

-- `NumWant` as `EncodeTo` writes it: -1 where it is not positive.
unfoldable pub wanted : ℕ → ℕ
wanted w = if not_positive w then 2 ^ 32 - 1 else w

-- `AnnounceRequest.EncodeTo`: what is written; an extension may panic, `none`.
unfoldable pub encode_request : AnnounceRequest → Option Bytes
encode_request r = elim (encode_exts r.exts) [
  | none ↦ none
  | some more ↦ some (
      r.info_hash
      ++ (r.peer_id
          ++ (be64 r.downloaded
              ++ (be64 r.left
                  ++ (be64 r.uploaded
                      ++ (be32 r.event
                          ++ (be32 0
                              ++ (be32 r.key
                                  ++ (be32 (wanted r.num_want) ++ (be16 r.port ++ more))))))))))
]

-- `AnnounceRequest.DecodeFrom(b)` of an empty request; a slice past the end of `b` panics, `none`.
unfoldable pub decode_request : Bytes → Option AnnounceRequest
decode_request b =
    if ltb (length b) 82 then none else elim (decode_exts (length (drop 82 b)) (drop 82 b)) [
      | none ↦ none
      | some es ↦ some (record {
        info_hash = slice 0 20 b;
        peer_id = slice 20 40 b;
        downloaded = of_be (slice 40 48 b);
        left = of_be (slice 48 56 b);
        uploaded = of_be (slice 56 64 b);
        event = of_be (slice 64 68 b);
        key = of_be (slice 72 76 b);
        num_want = of_be (slice 76 80 b);
        port = of_be (slice 80 82 b);
        exts = es;
      })
    ]

pub record AnnounceResponse : Type 0 where
  pub interval : ℕ
  pub leechers : ℕ
  pub seeders : ℕ
  pub addresses : List CompactAddr

-- The address in the form that the client of that family reads.
abbrev pub family_ip : Bool → Bytes → Bytes
family_ip ipv4 ip = if ipv4 then to4 ip else to16 ip

-- The loop of `AnnounceResponse.EncodeTo`; an address without that form panics, `none`.
unfoldable pub encode_addresses : Bool → List CompactAddr → Option Bytes
encode_addresses ipv4 [] = some []
encode_addresses ipv4 (a ∷ addresses) =
    let rest = encode_addresses ipv4 addresses in
    let ip = family_ip ipv4 a.ip in
    if length ip == 0
    then none
    else elim rest [ none ↦ none | some more ↦ some (write_addr (record a { ip = ip }) ++ more) ]

-- `AnnounceResponse.EncodeTo(buf, ipv4)`.
unfoldable pub encode_response : AnnounceResponse → Bool → Option Bytes
encode_response r ipv4 = elim (encode_addresses ipv4 r.addresses) [
  | none ↦ none
  | some more ↦ some (be32 r.interval ++ (be32 r.leechers ++ (be32 r.seeders ++ more)))
]

-- The number of bytes of an address with its port.
abbrev pub step : Bool → ℕ
step ipv4 = if ipv4 then 6 else 18

-- `AnnounceResponse.DecodeFrom(b, ipv4)` of an empty response; `b[12:]` panics where `b` is shorter,
-- `none`. Bytes left after the last whole address are passed over.
unfoldable pub decode_response : Bytes → Bool → Option AnnounceResponse
decode_response b ipv4 =
    if ltb (length b) 12
    then none
    else elim (read_chunks unmarshal_addr (step ipv4) (length (drop 12 b) / step ipv4)
        (drop 12 b)) [
          | none ↦ none
          | some addresses ↦ some (record {
            interval = of_be (slice 0 4 b);
            leechers = of_be (slice 4 8 b);
            seeders = of_be (slice 8 12 b);
            addresses = addresses;
          })
        ]
