-- ===== src/Peer/Conn/Handling.antt =====
-- What `HandleMessage` (peerprotocol/peerconn.go) does to a connection.
use go_bt.Prelude.{
  ℕ, ◌≡◌, inl, inr, refl, ap, ◌∙◌, Bool, true, false, Bool-cases, List, length as len, All, IsByte,
  Bytes, ◌==◌, if◌then◌else◌,
}
use go_bt.Peer.MType
use go_bt.Peer.Message.{Message}
use go_bt.Peer.BitField.{set, is_set, can_set}
use go_bt.Peer.BitField.Laws.{is_set-set}
use go_bt.Peer.Pieces.{append}
use go_bt.Peer.Pieces.Sorted.{IsSorted, append-IsSorted}
use go_bt.Peer.Extension.{extension_extended, has_extension}
use go_bt.Peer.Conn.{
  ConnStage, PeerConn, peer_has_piece, Handler, has_fast, handle_ext_msg, handle_fast,
  handle_extended, handle_message,
}

-- What a connection has from the local side and from `Handshake`.
pub record Local : Type 0 where
  pub info_hash : Bytes
  pub id : Bytes
  pub ext_bits : Bytes
  pub peer_id : Bytes
  pub peer_stage : ConnStage
  pub choked : Bool
  pub interested : Bool

abbrev pub local_of : PeerConn → Local
local_of pc = record {
  info_hash = pc.info_hash;
  id = pc.id;
  ext_bits = pc.ext_bits;
  peer_id = pc.peer_id;
  peer_stage = pc.peer_stage;
  choked = pc.choked;
  interested = pc.interested;
}

-- The remote side's lists of pieces are in order and without repetition.
abbrev pub IsWell : PeerConn → Type 0
IsWell pc = IsSorted pc.fasts × IsSorted pc.suggests

module _ (decode : Bytes → List (Bytes × ℕ) × Bool) (h : Handler) (pc : PeerConn)
    (m : Message) where
  -- A statement about the connection after a message, from the statement on every change that a
  -- message can make.
  ext-cases {ℓ} :
      (P : PeerConn → Type ℓ)
      → P pc
      → P (record pc { ext_names = (decode m.extended_payload).0 })
      → P (handle_ext_msg decode pc m).0
  unfolding handle_ext_msg
  ext-cases P same names = elim (Bool-cases (m.extended_id == 0)) [
    | inl a ↦ elim (Bool-cases (len pc.ext_names == 0)) [
      | inr b ↦ rw (a, b) same
      | inl b ↦ elim (Bool-cases (decode m.extended_payload).1) [
        | inl c ↦ rw (a, b, c) names
        | inr c ↦ elim (Bool-cases (len (decode m.extended_payload).0 == 0)) [
          | inl d ↦ rw (a, b, c, d) names
          | inr d ↦ rw (a, b, c, d) names
        ]
      ]
    ]
    | inr a ↦ elim (Bool-cases (len pc.ext_names == 0)) [
      | inl b ↦ rw (a, b) same
      | inr b ↦ rw (a, b) same
    ]
  ]

  fast-cases {ℓ} :
      (P : PeerConn → Type ℓ)
      → P pc
      → (has_fast pc ≡ true → P (record pc { suggests = append pc.suggests m.index }))
      → (has_fast pc ≡ true → P (record pc { fasts = append pc.fasts m.index }))
      → P (handle_fast h pc m).0
  unfolding handle_fast
  fast-cases P same suggests fasts = elim (Bool-cases (has_fast pc)) [
    | inr a ↦ rw a same
    | inl a ↦ elim (Bool-cases (m.mtype == MType.suggest)) [
      | inl b ↦ rw (a, b) (suggests a)
      | inr b ↦ elim (Bool-cases (m.mtype == MType.allowed_fast)) [
        | inl c ↦ rw (a, b, c) (fasts a)
        | inr c ↦ rw (a, b, c) same
      ]
    ]
  ]

  extended-cases {ℓ} :
      (P : PeerConn → Type ℓ)
      → P pc
      → P (record pc { ext_names = (decode m.extended_payload).0 })
      → P (handle_extended decode h pc m).0
  unfolding handle_extended
  extended-cases P same names = elim (Bool-cases (has_extension pc.ext_bits extension_extended)) [
    | inr a ↦ rw a same
    | inl a ↦ elim (Bool-cases h.bep10) [
      | inl b ↦ rw (a, b) (ext-cases P same names)
      | inr b ↦ rw (a, b) same
    ]
  ]

  message-cases {ℓ} :
      (P : PeerConn → Type ℓ)
      → P pc
      → ((b : Bool) → P (record pc { peer_choked = b }))
      → ((b : Bool) → P (record pc { peer_interested = b }))
      → ((bf : Bytes) → P (record pc { bit_field = bf }))
      → (has_fast pc ≡ true → P (record pc { suggests = append pc.suggests m.index }))
      → (has_fast pc ≡ true → P (record pc { fasts = append pc.fasts m.index }))
      → P (record pc { ext_names = (decode m.extended_payload).0 })
      → P (handle_message decode h pc m).0
  unfolding handle_message
  message-cases P same choked interested bits suggests fasts names = elim (Bool-cases m.keepalive) [
    | inl a ↦ rw a same
    | inr k ↦ elim (Bool-cases (m.mtype == MType.choke)) [
      | inl a ↦ simp (k, a) (choked true)
      | inr a ↦ elim (Bool-cases (m.mtype == MType.unchoke)) [
        | inl b ↦ simp (k, a, b) (choked false)
        | inr b ↦ elim (Bool-cases (m.mtype == MType.interested)) [
          | inl c ↦ simp (k, a, b, c) (interested true)
          | inr c ↦ elim (Bool-cases (m.mtype == MType.not_interested)) [
            | inl d ↦ simp (k, a, b, c, d) (interested false)
            | inr d ↦ elim (Bool-cases (m.mtype == MType.have)) [
              | inl e ↦ simp (k, a, b, c, d, e) (bits (set pc.bit_field m.index).0)
              | inr e ↦ elim (Bool-cases (m.mtype == MType.bit_field)) [
                | inl f ↦ simp (k, a, b, c, d, e, f) (bits m.bit_field)
                | inr f ↦ elim (Bool-cases (MType.fast_extension m.mtype)) [
                  | inl g ↦ simp (k, a, b, c, d, e, f, g) (fast-cases P same suggests fasts)
                  | inr g ↦ elim (Bool-cases (m.mtype == MType.extended)) [
                    | inl i ↦ simp (k, a, b, c, d, e, f, g, i) (extended-cases P same names)
                    | inr i ↦ simp (k, a, b, c, d, e, f, g, i) same
                  ]
                ]
              ]
            ]
          ]
        ]
      ]
    ]
  ]

  -- No message, and no failure to handle it, changes the local side's choked and interested states,
  -- the identity of either side or the stage of the connection.
  pub local-handle_message : local_of (handle_message decode h pc m).0 ≡ local_of pc
  local-handle_message =
      message-cases (λ c. local_of c ≡ local_of pc) refl (λ b. refl) (λ b. refl) (λ bf. refl)
        (λ e. refl) (λ e. refl) refl

  -- Where the remote side's lists of fast and suggested pieces are in order and without repetition,
  -- they are so after every message.
  pub handle_message-IsWell : IsWell pc → IsWell (handle_message decode h pc m).0
  handle_message-IsWell (f, s) =
      message-cases IsWell (f, s) (λ b. (f, s)) (λ b. (f, s)) (λ bf. (f, s))
        (λ e. (f, append-IsSorted pc.suggests m.index s))
        (λ e. (append-IsSorted pc.fasts m.index f, s)) (f, s)

  -- Where the local side does not support the Fast extension, no message changes these lists.
  pub handle_message_no_fast :
      has_fast pc ≡ false
      → let pc' = (handle_message decode h pc m).0 in
        (pc'.fasts ≡ pc.fasts) × (pc'.suggests ≡ pc.suggests)
  handle_message_no_fast n =
      message-cases (λ c. (c.fasts ≡ pc.fasts) × (c.suggests ≡ pc.suggests)) (refl, refl)
        (λ b. (refl, refl)) (λ b. (refl, refl)) (λ bf. (refl, refl)) (λ e. absurd cc)
        (λ e. absurd cc) (refl, refl)

  handle_have :
      m.keepalive ≡ false
      → m.mtype ≡ MType.have
      → (handle_message decode h pc m).0.bit_field ≡ (set pc.bit_field m.index).0
  unfolding handle_message
  handle_have k t = simp (k, t)

  -- After a Have message the peer has the piece of its index, where that is within the bit field,
  -- and any other piece as before, given that the bit field holds bytes.
  pub handle_message-have :
      (j : ℕ)
      → m.keepalive ≡ false
      → m.mtype ≡ MType.have
      → All IsByte pc.bit_field
      → peer_has_piece (handle_message decode h pc m).0 j
        ≡ (if m.index == j then can_set pc.bit_field m.index else peer_has_piece pc j)
  unfolding peer_has_piece
  handle_message-have j k t b =
      ap (λ bf. is_set bf j) (handle_have k t) ∙ is_set-set pc.bit_field m.index j b
