-- ===== src/Peer/Message/Consume.antt =====
-- How much of the reader `Decode` uses (peerprotocol/message.go).
use go_bt.Prelude.{
  ℕ, ◌+◌, ◌≤◌, ◌≡◌, refl, ap, ◌∙◌, Bool, true, false, ◌⊎◌, Bool-cases, inl, inr, none, [], ◌∷◌,
  length as len, length-drop, length-take, take, drop, drop-drop, Bytes, of_be32, leb, ◌==◌,
  if◌then◌else◌, arith,
}
use go_bt.Peer.Message.{
  Message, Limited, Decoding, going, stopped, io, Error, u32_from, u16_from, byte_from, set_index,
  set_begin, set_length, decode_payload, decode_triple, decode_piece, decode_extended, full_from,
  read_u32, read_byte, read_all, read_bit_field, read_piece, decode_body, check_used, advance,
  finish, decode_sized, decode, ◌>>=◌,
}
use go_bt.Prelude.Io.{IoError}

-- `l` is the reader `start` after some of the bytes within its limit.
pub record Follows (start l : Limited) : Type 0 where
  pub used : ℕ
  pub there : l.r ≡ drop used start.r
  pub counted : l.n + used ≡ start.n
  pub present : used ≤ len start.r

-- Where a decoding that has not failed stands.
data Within (start : Limited) : Decoding → Type 0 where
  within : {m : Message} {l : Limited} → Follows start l → Within start (going m l)
  failed : {m : Message} {l : Limited} {e : Error} → Within start (stopped m l e)

Follows-advance :
    (start l : Limited) (k : ℕ)
    → Follows start l
    → k ≤ len (take l.n l.r)
    → Follows start (advance k l)
Follows-advance start l k f h = record {
  used = f.used + k;
  there = rw f.there (drop-drop f.used k start.r);
  counted = omega (arith, length-take l.n l.r);
  present = omega (arith, length-take l.n l.r, ap len f.there, length-drop f.used start.r);
}

module _ (start : Limited) where
  u32_from-Within :
      (store : ℕ → Message → Message) (m : Message) (l : Limited) (bs : Bytes)
      → bs ≡ take l.n l.r
      → Follows start l
      → Within start (u32_from store m l bs)
  unfolding u32_from
  u32_from-Within store m l [] e f = failed
  u32_from-Within store m l (a ∷ b ∷ c ∷ d ∷ bs) e f =
      within (Follows-advance start l 4 f (omega (arith, ap len e)))
  u32_from-Within store m l _ e f = failed

  u16_from-Within :
      (store : ℕ → Message → Message) (m : Message) (l : Limited) (bs : Bytes)
      → bs ≡ take l.n l.r
      → Follows start l
      → Within start (u16_from store m l bs)
  unfolding u16_from
  u16_from-Within store m l [] e f = failed
  u16_from-Within store m l (a ∷ b ∷ bs) e f =
      within (Follows-advance start l 2 f (omega (arith, ap len e)))
  u16_from-Within store m l _ e f = failed

  byte_from-Within :
      (store : ℕ → Message → Message) (m : Message) (l : Limited) (bs : Bytes)
      → bs ≡ take l.n l.r
      → Follows start l
      → Within start (byte_from store m l bs)
  unfolding byte_from
  byte_from-Within store m l [] e f = failed
  byte_from-Within store m l (b ∷ bs) e f =
      within (Follows-advance start l 1 f (omega (arith, ap len e)))

  full_from-Within :
      (full part : Message) (wrap : IoError → Error) (k : ℕ) (l : Limited)
      → Follows start l
      → Within start (full_from full part wrap k l)
  unfolding full_from
  full_from-Within full part wrap k l f = elim (Bool-cases (leb k (len (take k (take l.n l.r))))) [
    | inl t ↦
        rw t (within (Follows-advance start l k f (ground (arith, length-take k (take l.n l.r)))))
    | inr t ↦ rw t failed
  ]

  read_all-Within :
      (store : Bytes → Message → Message) (m : Message) (l : Limited)
      → Follows start l
      → Within start (read_all store m l)
  read_all-Within store m l f = within (Follows-advance start l _ f (omega arith))

  bind-Within :
      (d : Decoding) (k : Message × Limited → Decoding)
      → Within start d
      → ((m : Message) (l : Limited) → Follows start l → Within start (k (m, l)))
      → Within start (d >>= k)
  bind-Within (going m l) k (within f) h = h m l f
  bind-Within (stopped m l e) k failed h = failed

  read_u32-Within :
      (store : ℕ → Message → Message) (m : Message) (l : Limited)
      → Follows start l
      → Within start (read_u32 store m l)
  read_u32-Within store m l f = u32_from-Within store m l _ refl f

  decode_triple-Within :
      (m : Message) (l : Limited) → Follows start l → Within start (decode_triple m l)
  unfolding decode_triple
  decode_triple-Within m l f =
      bind-Within (read_u32 set_index m l) _ (read_u32-Within set_index m l f) λ m₁ l₁ f₁.
        bind-Within (read_u32 set_begin m₁ l₁) _ (read_u32-Within set_begin m₁ l₁ f₁)
          (read_u32-Within set_length)

  decode_piece-Within :
      (m : Message) (l : Limited) → Follows start l → Within start (decode_piece m l)
  unfolding decode_piece read_piece
  decode_piece-Within m l f =
      bind-Within (read_u32 set_index m l) _ (read_u32-Within set_index m l f) λ m₁ l₁ f₁.
        bind-Within (read_u32 set_begin m₁ l₁) _ (read_u32-Within set_begin m₁ l₁ f₁)
          λ m₂ l₂ f₂. full_from-Within _ _ _ l₂.n l₂ f₂

  decode_extended-Within :
      (m : Message) (l : Limited) → Follows start l → Within start (decode_extended m l)
  unfolding decode_extended
  decode_extended-Within m l f =
      bind-Within (read_byte (λ v x. record x { extended_id = v }) m l) _
        (byte_from-Within (λ v x. record x { extended_id = v }) m l _ refl f)
        (read_all-Within (λ bs x. record x { extended_payload = bs }))

  decode_payload-Within :
      (m : Message) (l : Limited) → Follows start l → Within start (decode_payload m l)
  unfolding decode_payload read_bit_field
  decode_payload-Within m l f = Within-if _ (within f) (
      Within-if _ (read_u32-Within set_index m l f) (
        Within-if _ (decode_triple-Within m l f) (
          Within-if _ (full_from-Within _ m io l.n l f) (
            Within-if _ (decode_piece-Within m l f) (
              Within-if _ (decode_extended-Within m l f) (
                Within-if _ (u16_from-Within (λ v x. record x { port = v }) m l _ refl f)
                  (read_all-Within (λ bs x. record x { unknown_type_payload = bs }) m l f)))))))
    where
      Within-if :
          (b : Bool) {x y : Decoding}
          → Within start x
          → Within start y
          → Within start (if b then x else y)
      Within-if true hx hy = hx
      Within-if false hx hy = hy

-- A decoding that passed the check has used its reader up to the limit.
check_used-all :
    (start : Limited) (x : Decoding)
    → Within start x
    → (finish (check_used x)).error ≡ none
    → (start.n ≤ len start.r) × ((finish (check_used x)).rest ≡ drop start.n start.r)
unfolding check_used finish
check_used-all start (going m l) (within f) e = elim (Bool-cases (l.n == 0)) [
  | inl z ↦
      let u : f.used ≡ start.n = ground arith in
      (omega arith, rw z (f.there ∙ ap (λ k. drop k start.r) u))
  | inr z ↦ cc (rw z at e)
]
check_used-all start (stopped m l x) failed e = cc

Follows-self : (start : Limited) → Follows start start
Follows-self start = record { used = 0; there = refl; counted = omega arith; present = omega arith }

decode_body-all :
    (m : Message) (start : Limited) (bs : Bytes)
    → bs ≡ take start.n start.r
    → (finish (decode_body m start bs)).error ≡ none
    → (start.n ≤ len start.r) × ((finish (decode_body m start bs)).rest ≡ drop start.n start.r)
unfolding decode_body finish
decode_body-all m start [] e h = cc
decode_body-all m start (t ∷ bs) e h =
    check_used-all start _
      (decode_payload-Within start (record m { mtype = t }) (advance 1 start)
        (Follows-advance start start 1 (Follows-self start) (omega (arith, ap len e))))
      h

decode_sized-all :
    (m : Message) (n : ℕ) (r : Bytes) (max_length : ℕ)
    → (decode_sized m n r max_length).error ≡ none
    → (n ≤ len r)
      × ((decode_sized m n r max_length).rest ≡ drop n r)
      × ((max_length ≡ 0) ⊎ (n ≤ max_length))
unfolding decode_sized
decode_sized-all m n r max_length h = ground (
  arith,
  decode_body-all (record m { keepalive = false }) (record { r = r; n = n }) (take n r) refl,
)

-- When decoding succeeds, exactly the four bytes of the length and the bytes that it announces have
-- been read, no fewer and no more; a body is within the limit, if one is set.
pub decode_consumes :
    (m : Message) (a b c d : ℕ) (r : Bytes) (max_length : ℕ)
    → (decode m (a ∷ b ∷ c ∷ d ∷ r) max_length).error ≡ none
    → (of_be32 a b c d ≤ len r)
      × ((decode m (a ∷ b ∷ c ∷ d ∷ r) max_length).rest ≡ drop (of_be32 a b c d) r)
      × ((max_length ≡ 0) ⊎ (of_be32 a b c d ≤ max_length))
unfolding decode
decode_consumes m a b c d r max_length h = decode_sized-all m (of_be32 a b c d) r max_length h
