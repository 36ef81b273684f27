-- ===== src/Metainfo/Addr/RoundTrip.antt =====
-- Compact addresses are read back (metainfo/addr_compact.go).
use go_bt.Prelude.{
  ℕ, ◌+◌, ◌-◌, ◌*◌, ◌/◌, ◌%◌, ◌≡◌, ◌⊎◌, inl, inr, refl, ap, ap₂, sym, ◌∙◌, true, Bool-cases, some,
  List, [], ◌∷◌, ◌++◌, append-nil, length, length-append, take, drop, take-append_length,
  drop-append_length, All, Bytes, IsU16, be16, of_be, of_be-be16, ◌==◌, if◌then◌else◌, arith,
}
use go_bt.Prelude.Chunks.{
  read_chunks, write_chunks, ReadsBack, length-write_chunks, read_chunks-write,
}
use go_bt.Prelude.Ip.{to4, to16, length-to4, v4_prefix}
use go_bt.Metainfo.Addr.{
  CompactAddr, write_addr, unmarshal_addr, marshal_v4, marshal_v6, unmarshal_v4, unmarshal_v6,
}

length-be16 : (v : ℕ) → length (be16 v) ≡ 2
unfolding be16
length-be16 v = refl

pub length-write_addr : (a : CompactAddr) → length (write_addr a) ≡ length a.ip + 2
unfolding write_addr
length-write_addr a = omega (arith, length-append a.ip (be16 a.port), length-be16 a.port)

unmarshal-sized :
    (b : Bytes) (size : ℕ)
    → length b - 2 ≡ size
    → (size ≡ 4) ⊎ (size ≡ 16)
    → unmarshal_addr b ≡ some (record { ip = take size b; port = of_be (drop size b) })
unfolding unmarshal_addr
unmarshal-sized b size e h = ground arith

addr_parts :
    (a : CompactAddr)
    → IsU16 a.port
    → ◌≡◌ {A = CompactAddr}
        (record {
          ip = take (length a.ip) (write_addr a);
          port = of_be (drop (length a.ip) (write_addr a));
        })
        a
unfolding write_addr
addr_parts a p =
    ap₂ (λ (i : Bytes) (q : ℕ). record { ip = i; port = q }) (take-append_length a.ip (be16 a.port))
      (ap of_be (drop-append_length a.ip (be16 a.port)) ∙ of_be-be16 a.port p)

-- An address of 4 or 16 bytes, with its port, is read back from its compact form.
pub unmarshal-write_addr :
    (a : CompactAddr)
    → (length a.ip ≡ 4) ⊎ (length a.ip ≡ 16)
    → IsU16 a.port
    → unmarshal_addr (write_addr a) ≡ some a
unmarshal-write_addr a h p =
    let size : length (write_addr a) - 2 ≡ length a.ip = omega (arith, length-write_addr a) in
    unmarshal-sized (write_addr a) (length a.ip) size h ∙ ap some (addr_parts a p)

-- The addresses that have an IPv4 form, in that form.
abbrev pub as_v4 : List CompactAddr → List CompactAddr
as_v4 [] = []
as_v4 (a ∷ cas) =
    if length (to4 a.ip) == 0 then as_v4 cas else record a { ip = to4 a.ip } ∷ as_v4 cas

marshal_v4-write : (cas : List CompactAddr) → marshal_v4 cas ≡ write_chunks write_addr (as_v4 cas)
unfolding marshal_v4
marshal_v4-write [] = refl
marshal_v4-write (a ∷ cas) = elim (Bool-cases (length (to4 a.ip) == 0)) [
  | inl e ↦ rw e (marshal_v4-write cas)
  | inr e ↦ rw e (ap (λ b. write_addr (record a { ip = to4 a.ip }) ++ b) (marshal_v4-write cas))
]

abbrev Reads : ℕ → CompactAddr → Type 0
Reads = ReadsBack write_addr unmarshal_addr

reads :
    (a : CompactAddr) (size : ℕ)
    → length a.ip + 2 ≡ size
    → (length a.ip ≡ 4) ⊎ (length a.ip ≡ 16)
    → IsU16 a.port
    → Reads size a
reads a size e h p = (length-write_addr a ∙ e, unmarshal-write_addr a h p)

as_v4-Reads : (cas : List CompactAddr) → All (λ a. IsU16 a.port) cas → All (Reads 6) (as_v4 cas)
as_v4-Reads [] h = tt
as_v4-Reads (a ∷ cas) h = elim (Bool-cases (length (to4 a.ip) == 0)) [
  | inl e ↦ rw e (as_v4-Reads cas h.1)
  | inr e ↦
      let four = length-to4 a.ip e in
      rw e (
        reads (record a { ip = to4 a.ip }) 6 (omega (arith, four)) (inl four) h.0,
        as_v4-Reads cas h.1,
      )
]

length-Reads :
    (size : ℕ) (xs : List CompactAddr)
    → All (Reads size) xs
    → All (λ a. length (write_addr a) ≡ size) xs
length-Reads size [] h = tt
length-Reads size (x ∷ xs) h = (h.0.0, length-Reads size xs h.1)

-- What `read_chunks` makes of a whole slice of entries.
whole_v4 :
    (xs : List CompactAddr) → All (Reads 6) xs → unmarshal_v4 (write_chunks write_addr xs) ≡ some xs
unfolding unmarshal_v4
whole_v4 xs h =
    let b : Bytes = write_chunks write_addr xs in
    let size : length b ≡ length xs * 6 =
      length-write_chunks write_addr unmarshal_addr 6 xs (length-Reads 6 xs h) in
    let fits : (length b % 6 == 0) ≡ true = ground arith in
    let rounds : length b / 6 ≡ length xs = omega arith in
    let back = read_chunks-write write_addr unmarshal_addr 6 xs [] h in
    rw (fits, rounds) (ap (read_chunks unmarshal_addr 6 (length xs)) (sym (append-nil b)) ∙ back)

whole_v6 :
    (xs : List CompactAddr)
    → All (Reads 18) xs
    → unmarshal_v6 (write_chunks write_addr xs) ≡ some xs
unfolding unmarshal_v6
whole_v6 xs h =
    let b : Bytes = write_chunks write_addr xs in
    let size : length b ≡ length xs * 18 =
      length-write_chunks write_addr unmarshal_addr 18 xs (length-Reads 18 xs h) in
    let fits : (length b % 18 == 0) ≡ true = ground arith in
    let rounds : length b / 18 ≡ length xs = omega arith in
    let back = read_chunks-write write_addr unmarshal_addr 18 xs [] h in
    rw (fits, rounds) (ap (read_chunks unmarshal_addr 18 (length xs)) (sym (append-nil b)) ∙ back)

-- What `CompactIPv4Addrs` writes, it reads back: the addresses that have an IPv4 form, in that form,
-- in their order and with their ports.
pub unmarshal-marshal_v4 :
    (cas : List CompactAddr)
    → All (λ a. IsU16 a.port) cas
    → unmarshal_v4 (marshal_v4 cas) ≡ some (as_v4 cas)
unmarshal-marshal_v4 cas h =
    ap unmarshal_v4 (marshal_v4-write cas) ∙ whole_v4 (as_v4 cas) (as_v4-Reads cas h)

-- The addresses in their IPv6 form.
abbrev pub as_v6 : List CompactAddr → List CompactAddr
as_v6 [] = []
as_v6 (a ∷ cas) = record a { ip = to16 a.ip } ∷ as_v6 cas

-- An address of four or sixteen bytes, with a port of 16 bits.
abbrev pub IsAddr : CompactAddr → Type 0
IsAddr a = ((length a.ip ≡ 4) ⊎ (length a.ip ≡ 16)) × IsU16 a.port

to16-sixteen : (ip : Bytes) → (length ip ≡ 4) ⊎ (length ip ≡ 16) → length (to16 ip) ≡ 16
unfolding to16
to16-sixteen ip h = ground (arith, length-append v4_prefix ip)

marshal_v6-step :
    (a : CompactAddr) (cas : List CompactAddr) (more : Bytes)
    → length (write_addr (record a { ip = to16 a.ip })) ≡ 18
    → marshal_v6 cas ≡ some more
    → marshal_v6 (a ∷ cas) ≡ some (write_addr (record a { ip = to16 a.ip }) ++ more)
unfolding marshal_v6
marshal_v6-step a cas more e f = ground arith

as_v6-Reads : (cas : List CompactAddr) → All IsAddr cas → All (Reads 18) (as_v6 cas)
as_v6-Reads [] h = tt
as_v6-Reads (a ∷ cas) h =
    let size = to16-sixteen a.ip h.0.0 in
    (
      reads (record a { ip = to16 a.ip }) 18 (omega (arith, size)) (inr size) h.0.1,
      as_v6-Reads cas h.1,
    )

marshal_v6-write :
    (cas : List CompactAddr)
    → All IsAddr cas
    → marshal_v6 cas ≡ some (write_chunks write_addr (as_v6 cas))
unfolding marshal_v6
marshal_v6-write [] h = refl
marshal_v6-write (a ∷ cas) h =
    let size = to16-sixteen a.ip h.0.0 in
    marshal_v6-step a cas (write_chunks write_addr (as_v6 cas))
      (length-write_addr (record a { ip = to16 a.ip }) ∙ omega (arith, size))
      (marshal_v6-write cas h.1)

-- `CompactIPv6Addrs` writes addresses of four and sixteen bytes without a panic, and reads them back
-- in their IPv6 form.
pub unmarshal-marshal_v6 :
    (cas : List CompactAddr)
    → All IsAddr cas
    → (b : Bytes) × (marshal_v6 cas ≡ some b) × (unmarshal_v6 b ≡ some (as_v6 cas))
unmarshal-marshal_v6 cas h = (
  write_chunks write_addr (as_v6 cas),
  marshal_v6-write cas h,
  whole_v6 (as_v6 cas) (as_v6-Reads cas h),
)
