-- ===== src/Dht/Blacklist/Membership.antt =====
-- What `Add` and `Del` (dht/blacklist.go) change for `In`.
use go_bt.Prelude.{
  ℕ, ◌<◌, ◌≤◌, ◌≡◌, ◌≢◌, ◌⊎◌, inl, inr, ap, ◌∙◌, Bool, true, false, not, ◌||◌, ◌&&◌, Bool-cases,
  Option, none, some, Option-cases, [], ◌∷◌, length, Bytes, ◌==◌, bytes_beq, bytes_beq_iff,
  Bytes_eq, ℕ_eq, if◌then◌else◌, arith,
}
use go_bt.Prelude.Map.{Map, lookup, insert, delete, lookup-insert, lookup-delete, length-insert}
use go_bt.Dht.Blacklist.{WrappedPort, Blacklist, is_in, add_port, fresh_port, is_full, add, del}

-- What an entry says of a port.
abbrev pub covers : Option WrappedPort → ℕ → Bool
covers none port = false
covers (some wp) port =
    if wp.enable then elim (lookup port wp.ports) [ none ↦ false | some _ ↦ true ] else true

is_in-covers :
    (bl : Blacklist) (ip : Bytes) (port : ℕ) → is_in bl ip port ≡ covers (lookup ip bl.ips) port
unfolding is_in
is_in-covers bl ip port = ground arith

covers-add :
    (wp : WrappedPort) (port now p : ℕ)
    → covers (some (add_port wp port now)) p ≡ (covers (some wp) p || (port == 0 || port == p))
unfolding add_port
covers-add wp port now p = ground (arith, lookup-insert port p tt wp.ports)

covers-fresh :
    (port now p : ℕ) → covers (some (add_port fresh_port port now)) p ≡ (port == 0 || port == p)
unfolding add_port insert lookup
covers-fresh port now p = ground arith

lookup-single : (p : ℕ) → lookup p ((p, tt) ∷ []) ≡ some tt
unfolding lookup
lookup-single p = ground arith

covers-del :
    (wp : WrappedPort) (port now p : ℕ)
    → wp.enable ≡ true
    → covers (some (record wp { time = now; ports = delete port wp.ports })) p
      ≡ (covers (some wp) p && not (port == p))
covers-del wp port now p h = ground (arith, lookup-delete port p wp.ports)

-- `Add` of a new address to a full list changes nothing.
pub add_full :
    (bl : Blacklist) (ip : Bytes) (port now : ℕ)
    → lookup ip bl.ips ≡ none
    → is_full bl ≡ true
    → add bl ip port now ≡ bl
unfolding add
add_full bl ip port now e h = ground arith

module _ (bl : Blacklist) (ip : Bytes) (port now : ℕ) where
  add_known :
      (wp : WrappedPort)
      → lookup ip bl.ips ≡ some wp
      → (add bl ip port now).ips ≡ insert ip (add_port wp port now) bl.ips
  unfolding add
  add_known wp e = ground arith

  add_new :
      lookup ip bl.ips ≡ none
      → is_full bl ≡ false
      → (add bl ip port now).ips ≡ insert ip (add_port fresh_port port now) bl.ips
  unfolding add
  add_new e h = ground arith

  covers-insert :
      (ips : Map Bytes WrappedPort) (wp : WrappedPort) (ip' : Bytes) (p : ℕ)
      → ips ≡ insert ip wp bl.ips
      → covers (lookup ip' ips) p
        ≡ (if bytes_beq ip ip' then covers (some wp) p else covers (lookup ip' bl.ips) p)
  covers-insert ips wp ip' p e =
      ap (λ m. covers (lookup ip' m) p) e ∙ (rw (lookup-insert ip ip' wp bl.ips) (ground arith))

  -- `Add`, unless the address is new and the list is full, adds the pair of address and port, or
  -- every port of the address where the port is 0, and changes nothing else.
  pub is_in-add :
      (ip' : Bytes) (p : ℕ)
      → (lookup ip bl.ips ≢ none) ⊎ (is_full bl ≡ false)
      → is_in (add bl ip port now) ip' p
        ≡ (is_in bl ip' p || (bytes_beq ip ip' && (port == 0 || port == p)))
  is_in-add ip' p h = elim (Option-cases (lookup ip bl.ips)) [
    | inr (wp, e) ↦
        is_in-covers (add bl ip port now) ip' p
        ∙ covers-insert (add bl ip port now).ips (add_port wp port now) ip' p (add_known wp e)
        ∙ ground (arith, covers-add wp port now p, is_in-covers bl ip' p, bytes_beq_iff ip ip')
    | inl e ↦ elim h [
      | inl there ↦ absurd (there e)
      | inr room ↦
          is_in-covers (add bl ip port now) ip' p
          ∙ covers-insert (add bl ip port now).ips (add_port fresh_port port now) ip' p
              (add_new e room)
          ∙ ground (arith, covers-fresh port now p, is_in-covers bl ip' p, bytes_beq_iff ip ip')
    ]
  ]

  -- A list with a limit that is within the limit stays within it under `Add`.
  pub add_bound : 0 < bl.num → length bl.ips ≤ bl.num → length (add bl ip port now).ips ≤ bl.num
  unfolding is_full
  add_bound h l = elim (Option-cases (lookup ip bl.ips)) [
    | inr (wp, e) ↦ ground (arith, add_known wp e, length-insert ip (add_port wp port now) bl.ips)
    | inl e ↦ elim (Bool-cases (is_full bl)) [
      | inl full ↦ ground (arith, add_full bl ip port now e full)
      | inr room ↦
          ground (arith, add_new e room, length-insert ip (add_port fresh_port port now) bl.ips)
    ]
  ]

  del_drops :
      (wp : WrappedPort)
      → lookup ip bl.ips ≡ some wp
      → (port ≡ 0) ⊎ ((wp.enable ≡ true) × (length wp.ports < 2))
      → (del bl ip port now).ips ≡ delete ip bl.ips
  unfolding del
  del_drops wp e h = ground arith

  del_keeps :
      (wp : WrappedPort)
      → lookup ip bl.ips ≡ some wp
      → 0 < port
      → wp.enable ≡ true
      → 2 ≤ length wp.ports
      → (del bl ip port now).ips
        ≡ insert ip (record wp { time = now; ports = delete port wp.ports }) bl.ips
  unfolding del
  del_keeps wp e h en l = ground arith

  del_absent : lookup ip bl.ips ≡ none → (del bl ip port now).ips ≡ bl.ips
  unfolding del
  del_absent e = ground arith

  covers-delete :
      (ips : Map Bytes WrappedPort) (ip' : Bytes) (p : ℕ)
      → ips ≡ delete ip bl.ips
      → covers (lookup ip' ips) p
        ≡ (if bytes_beq ip ip' then false else covers (lookup ip' bl.ips) p)
  covers-delete ips ip' p e =
      ap (λ m. covers (lookup ip' m) p) e ∙ (rw (lookup-delete ip ip' bl.ips) (ground arith))

  -- `Del` with the port 0 removes every port of the address and nothing else.
  pub is_in-del_address :
      (ip' : Bytes) (p : ℕ)
      → port ≡ 0
      → is_in (del bl ip port now) ip' p ≡ (is_in bl ip' p && not (bytes_beq ip ip'))
  is_in-del_address ip' p h = elim (Option-cases (lookup ip bl.ips)) [
    | inr (wp, e) ↦
        is_in-covers (del bl ip port now) ip' p
        ∙ covers-delete (del bl ip port now).ips ip' p (del_drops wp e (inl h))
        ∙ ground (arith, is_in-covers bl ip' p)
    | inl e ↦
        is_in-covers (del bl ip port now) ip' p
        ∙ ap (λ m. covers (lookup ip' m) p) (del_absent e)
        ∙ ground (arith, is_in-covers bl ip' p, bytes_beq_iff ip ip')
  ]

  -- `Del` with a port, for an address that is listed with two or more ports, removes this pair and
  -- nothing else.
  pub is_in-del_port :
      (wp : WrappedPort) (ip' : Bytes) (p : ℕ)
      → lookup ip bl.ips ≡ some wp
      → 0 < port
      → wp.enable ≡ true
      → 2 ≤ length wp.ports
      → is_in (del bl ip port now) ip' p ≡ (is_in bl ip' p && not (bytes_beq ip ip' && port == p))
  is_in-del_port wp ip' p e h en l =
      is_in-covers (del bl ip port now) ip' p
      ∙ covers-insert (del bl ip port now).ips
          (record wp { time = now; ports = delete port wp.ports }) ip' p (del_keeps wp e h en l)
      ∙ ground (arith, covers-del wp port now p en, is_in-covers bl ip' p, bytes_beq_iff ip ip')

  -- `Del` with a port, for an address that is listed with one port, removes the address, also where
  -- the port to delete is not the one listed: the listed pair is no longer found.
  pub is_in-del_other :
      (wp : WrappedPort) (p : ℕ)
      → lookup ip bl.ips ≡ some wp
      → 0 < port
      → wp.enable ≡ true
      → wp.ports ≡ (p, tt) ∷ []
      → port ≢ p
      → (is_in bl ip p ≡ true) × (is_in (del bl ip port now) ip p ≡ false)
  is_in-del_other wp p e h en one other = (
    ground (arith, is_in-covers bl ip p, ap (lookup p) one ∙ lookup-single p),
    is_in-covers (del bl ip port now) ip p
        ∙ covers-delete (del bl ip port now).ips ip p
            (del_drops wp e (inr (en, omega (arith, ap (λ m. length m) one))))
        ∙ ground (arith, bytes_beq_iff ip ip),
  )
