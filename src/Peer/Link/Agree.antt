-- ===== src/Peer/Link/Agree.antt =====
-- What the remote side holds of the local side.
use go_bt.Prelude.{
  ℕ, zero, suc, ◌+◌, ◌<◌, ◌^◌, Bool, true, false, Bool-cases, List, [], ◌∷◌, ◌++◌, append-nil,
  append_assoc, length as len, Bytes, ◌≡◌, ◌≢◌, ◌⊎◌, inl, inr, refl, ap, sym, subst, ◌∙◌, be32,
  arith,
}
use go_bt.Peer.MType
use go_bt.Peer.Message.{marshal_binary_type, encode, decode_to_message}
use go_bt.Peer.Message.Spec.{IsEncodable, relevant}
use go_bt.Peer.Message.RoundTrip.{decoded, decode-encode}
use go_bt.Peer.Conn.{
  PeerConn, Handler, is_handshook, is_first_only, read_msg, set_choked, set_unchoked,
  set_interested, set_not_interested, handle_message,
}
use go_bt.Peer.Link.{
  Change, chokes, unchokes, takes_interest, loses_interest, apply, plain_message, write_msg, Link,
  send, receive, Step, sends, receives, Steps, rests, goes_on,
}

-- Whether a side chokes, and whether it is interested.
pub record View : Type 0 where
  pub choked : Bool
  pub interested : Bool

abbrev pub own_view : PeerConn → View
own_view pc = record { choked = pc.choked; interested = pc.interested }

-- What a side holds of its peer.
abbrev pub peer_view : PeerConn → View
peer_view pc = record { choked = pc.peer_choked; interested = pc.peer_interested }

abbrev see : View → Change → View
see v chokes = record v { choked = true }
see v unchokes = record v { choked = false }
see v takes_interest = record v { interested = true }
see v loses_interest = record v { interested = false }

abbrev see_all : View → List Change → View
see_all v [] = v
see_all v (c ∷ cs) = see_all (see v c) cs

abbrev code : Change → ℕ
code chokes = MType.choke
code unchokes = MType.unchoke
code takes_interest = MType.interested
code loses_interest = MType.not_interested

see_all-append :
    (v : View) (cs : List Change) (c : Change) → see_all v (cs ++ (c ∷ [])) ≡ see (see_all v cs) c
see_all-append v [] c = refl
see_all-append v (d ∷ cs) c = see_all-append (see v d) cs c

abbrev bytes_of : Change → Bytes
bytes_of c = encode (plain_message (code c))

-- The bytes between the two sides.
abbrev written : List Change → Bytes
written [] = []
written (c ∷ cs) = bytes_of c ++ written cs

written-append :
    (cs : List Change) (c : Change) → written (cs ++ (c ∷ [])) ≡ written cs ++ bytes_of c
written-append [] c = append-nil (bytes_of c)
written-append (d ∷ cs) c =
    ap (λ b. bytes_of d ++ b) (written-append cs c)
    ∙ sym (append_assoc (bytes_of d) (written cs) (bytes_of c))

-- A setter writes nothing and changes nothing, or writes its message and changes the state to match.
abbrev IsWritten : Change → PeerConn → Type 0
IsWritten c pc =
    ((write_msg (apply c pc).1 ≡ []) × (own_view (apply c pc).0 ≡ own_view pc))
    ⊎ ((write_msg (apply c pc).1 ≡ bytes_of c) × (own_view (apply c pc).0 ≡ see (own_view pc) c))

apply-IsWritten : (c : Change) (pc : PeerConn) → IsWritten c pc
unfolding apply write_msg set_choked set_unchoked set_interested set_not_interested
apply-IsWritten chokes pc = elim (Bool-cases pc.choked) [
  | inl e ↦ inl (rw e refl, rw e refl)
  | inr e ↦ inr (rw e refl, rw e refl)
]
apply-IsWritten unchokes pc = elim (Bool-cases pc.choked) [
  | inl e ↦ inr (rw e refl, rw e refl)
  | inr e ↦ inl (rw e refl, rw e refl)
]
apply-IsWritten takes_interest pc = elim (Bool-cases pc.interested) [
  | inl e ↦ inl (rw e refl, rw e refl)
  | inr e ↦ inr (rw e refl, rw e refl)
]
apply-IsWritten loses_interest pc = elim (Bool-cases pc.interested) [
  | inl e ↦ inr (rw e refl, rw e refl)
  | inr e ↦ inl (rw e refl, rw e refl)
]

marshal-plain : (c : Change) → marshal_binary_type (plain_message (code c)) ≡ []
unfolding marshal_binary_type
marshal-plain chokes = refl
marshal-plain unchokes = refl
marshal-plain takes_interest = refl
marshal-plain loses_interest = refl

code-range : (c : Change) → code c < 4
code-range chokes = omega arith
code-range unchokes = omega arith
code-range takes_interest = omega arith
code-range loses_interest = omega arith

plain-IsEncodable : (c : Change) → IsEncodable (plain_message (code c))
plain-IsEncodable c = record {
  type_range = omega (arith, code-range c);
  index_range = omega arith;
  begin_range = omega arith;
  length_range = omega arith;
  port_range = omega arith;
  size = subst (λ (b : Bytes). len b + 1 < 2 ^ 32) (sym (marshal-plain c)) (omega arith);
}

plain-relevant : (c : Change) → relevant (plain_message (code c)) ≡ plain_message (code c)
unfolding relevant
plain-relevant chokes = refl
plain-relevant unchokes = refl
plain-relevant takes_interest = refl
plain-relevant loses_interest = refl

handle-see :
    (decode : Bytes → List (Bytes × ℕ) × Bool) (h : Handler) (pc : PeerConn) (c : Change)
    → peer_view (handle_message decode h pc (plain_message (code c))).0 ≡ see (peer_view pc) c
unfolding handle_message
handle-see decode h pc chokes = refl
handle-see decode h pc unchokes = refl
handle-see decode h pc takes_interest = refl
handle-see decode h pc loses_interest = refl

read-plain :
    (pc : PeerConn) (c : Change)
    → ((read_msg pc (plain_message (code c))).1 ≡ false)
      × (peer_view (read_msg pc (plain_message (code c))).0 ≡ peer_view pc)
unfolding read_msg
read-plain pc c =
    let small = code-range c in
    let later : is_first_only (code c) ≡ false = ground arith in
    elim (Bool-cases (is_handshook pc.peer_stage)) [
      | inl e ↦ (rw (later, e) refl, rw (later, e) refl)
      | inr e ↦ (rw (later, e) refl, rw (later, e) refl)
    ]

limit :
    (c : Change) (max_length : ℕ)
    → (max_length ≡ 0) ⊎ (len (marshal_binary_type (plain_message (code c))) < max_length)
limit c zero = inl refl
limit c (suc n) = inr (subst (λ (b : Bytes). len b < suc n) (sym (marshal-plain c)) (omega arith))

decode-plain :
    (c : Change) (more : Bytes) (max_length : ℕ)
    → decode_to_message (bytes_of c ++ more) max_length ≡ decoded (plain_message (code c)) more
decode-plain c more max_length =
    let small = code-range c in
    decode-encode (plain_message (code c)) more max_length (plain-IsEncodable c) refl (ground arith)
      (limit c max_length)
    ∙ ap (λ m. decoded m more) (plain-relevant c)

-- The bytes between the sides are changes that the remote side has not seen, in their order.
pub record InStep (l : Link) : Type 0 where
  pub pending : List Change
  pub bytes : l.stream ≡ written pending
  pub views : see_all (peer_view l.remote) pending ≡ own_view l.local

InStep-send : (l : Link) (c : Change) → InStep l → InStep (send l c)
unfolding send
InStep-send l c i = elim (apply-IsWritten c l.local) [
  | inl (quiet, same) ↦ record {
    pending = i.pending;
    bytes = ap (λ b. l.stream ++ b) quiet ∙ append-nil l.stream ∙ i.bytes;
    views = i.views ∙ sym same;
  }
  | inr (wrote, changed) ↦ record {
    pending = i.pending ++ (c ∷ []);
    bytes =
        ap (λ b. l.stream ++ b) wrote
        ∙ ap (λ b. b ++ bytes_of c) i.bytes
        ∙ sym (written-append i.pending c);
    views =
        see_all-append (peer_view l.remote) i.pending c ∙ ap (λ v. see v c) i.views ∙ sym changed;
  }
]

receive-plain :
    (decode : Bytes → List (Bytes × ℕ) × Bool) (h : Handler) (l : Link) (c : Change) (more : Bytes)
    → l.stream ≡ bytes_of c ++ more
    → receive decode h l ≡ record l {
      stream = more;
      remote =
          (handle_message decode h
            (read_msg l.remote (plain_message (code c))).0
            (plain_message (code c))).0;
    }
unfolding receive
receive-plain decode h l c more e =
    let d = ap (λ b. decode_to_message b l.max_length) e ∙ decode-plain c more l.max_length in
    rw (receive, d, d, (read-plain l.remote c).0) refl

InStep-receive :
    (decode : Bytes → List (Bytes × ℕ) × Bool) (h : Handler) (l : Link) (c : Change)
    (cs : List Change)
    → l.stream ≡ bytes_of c ++ written cs
    → see_all (peer_view l.remote) (c ∷ cs) ≡ own_view l.local
    → InStep (receive decode h l)
InStep-receive decode h l c cs e v =
    let pc = (read_msg l.remote (plain_message (code c))).0 in
    let seen : peer_view (handle_message decode h pc (plain_message (code c))).0
        ≡ see (peer_view l.remote) c =
      handle-see decode h pc c ∙ ap (λ w. see w c) (read-plain l.remote c).1 in
    subst InStep (sym (receive-plain decode h l c (written cs) e))
      (record { pending = cs; bytes = refl; views = ap (λ w. see_all w cs) seen ∙ v })

receives-InStep :
    (decode : Bytes → List (Bytes × ℕ) × Bool) (h : Handler) (l : Link) (cs : List Change)
    → l.stream ≡ written cs
    → see_all (peer_view l.remote) cs ≡ own_view l.local
    → l.stream ≢ []
    → InStep (receive decode h l)
receives-InStep decode h l [] e v n = absurd (n e)
receives-InStep decode h l (c ∷ cs) e v n = InStep-receive decode h l c cs e v

Step-InStep :
    (decode : Bytes → List (Bytes × ℕ) × Bool) (h : Handler) (l m : Link)
    → Step decode h l m
    → InStep l
    → InStep m
Step-InStep decode h _ _ (sends l c) i = InStep-send l c i
Step-InStep decode h _ _ (receives l n) i = receives-InStep decode h l i.pending i.bytes i.views n

-- After any sequence of changes on one side and of messages read on the other, the bytes between them
-- are the changes that the other side has still to see, and seeing these brings what it holds of its
-- peer to the state that the peer is in.
pub Steps-InStep :
    (decode : Bytes → List (Bytes × ℕ) × Bool) (h : Handler) (l m : Link)
    → Steps decode h l m
    → InStep l
    → InStep m
Steps-InStep decode h _ _ (rests l) i = i
Steps-InStep decode h _ _ (goes_on l m n s more) i =
    Steps-InStep decode h m n more (Step-InStep decode h l m s i)

nothing_left : (cs : List Change) (v : View) → written cs ≡ [] → see_all v cs ≡ v
unfolding encode be32
nothing_left [] v e = refl
nothing_left (c ∷ cs) v e =
    let none_left : len (written (c ∷ cs)) ≡ 0 = ap len e in absurd (omega arith)

-- Two sides that begin with the same states and nothing between them agree again whenever there is
-- nothing between them: the remote side holds of its peer whether it chokes and whether it is
-- interested, whatever changes were made and read in between.
pub Steps-agree :
    (decode : Bytes → List (Bytes × ℕ) × Bool) (h : Handler) (l m : Link)
    → Steps decode h l m
    → l.stream ≡ []
    → peer_view l.remote ≡ own_view l.local
    → m.stream ≡ []
    → peer_view m.remote ≡ own_view m.local
Steps-agree decode h l m s empty same drained =
    let i = Steps-InStep decode h l m s (record { pending = []; bytes = empty; views = same }) in
    sym (nothing_left i.pending (peer_view m.remote) (sym i.bytes ∙ drained)) ∙ i.views
