-- ===== src/Dht/Query/Tokens.antt =====
-- What becomes of the tokens that the answers to `get_peers` carry.
use go_bt.Prelude.{ℕ, ◌≡◌, ◌≤◌, refl, true, List, [], All, Bytes}
use go_bt.Dht.Token.{check, Event, run}
use go_bt.Dht.Token.Rotation.{how_many_updates, InTime, token_lasts}
use go_bt.Dht.Server.{Sender}
use go_bt.Dht.Query.{
  Answering, get_peers, announce_peer, Query, Answer, no_answer, reply, send_error, handle_query,
}

-- The token that an answer carries.
abbrev pub token_of : Answer → Bytes
token_of no_answer = []
token_of (reply r) = r.token
token_of (send_error code) = []

-- The events at the token manager between two queries.
abbrev pub after_events : Answering → List Event → Answering
after_events s es = record s { tokens = run s.tokens es }

announce_peer-checked :
    (s : Answering) (raddr : Sender) (m : Query) (now : ℕ)
    → check s.tokens raddr.text m.token ≡ true
    → handle_query s raddr (record m { method = announce_peer }) now ≡ (s, no_answer)
unfolding handle_query
announce_peer-checked s raddr m now e = rw e refl

-- A node that asks for peers and announces itself with the token it was answered gets no answer, as
-- long as the token is good: after any sequence of events with at most one update, in which each
-- clearing comes in time and addresses are stored at `now` or later.
pub announce_peer-unanswered :
    (s : Answering) (raddr : Sender) (m a : Query) (now later : ℕ) (es : List Event)
    → how_many_updates es ≤ 1
    → All (InTime now) es
    → let asked = handle_query s raddr (record m { method = get_peers }) now in
      handle_query
        (after_events asked.0 es)
        raddr
        (record a { method = announce_peer; token = token_of asked.1 })
        later
      ≡ (after_events asked.0 es, no_answer)
unfolding handle_query
announce_peer-unanswered s raddr m a now later es l h =
    let asked = handle_query s raddr (record m { method = get_peers }) now in
    announce_peer-checked (after_events asked.0 es) raddr (record a { token = token_of asked.1 })
      later (token_lasts s.tokens raddr.text now es l h)
