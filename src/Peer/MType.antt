-- ===== src/Peer/MType.antt =====
-- The message types of peerprotocol/protocol.go: `MessageType` is a byte.
use go_bt.Prelude.{ℕ, Bool, ◌&&◌, leb}

abbrev pub choke : ℕ
choke = 0

abbrev pub unchoke : ℕ
unchoke = 1

abbrev pub interested : ℕ
interested = 2

abbrev pub not_interested : ℕ
not_interested = 3

abbrev pub have : ℕ
have = 4

abbrev pub bit_field : ℕ
bit_field = 5

abbrev pub request : ℕ
request = 6

abbrev pub piece : ℕ
piece = 7

abbrev pub cancel : ℕ
cancel = 8

abbrev pub port : ℕ
port = 9

abbrev pub suggest : ℕ
suggest = 13

abbrev pub have_all : ℕ
have_all = 14

abbrev pub have_none : ℕ
have_none = 15

abbrev pub reject : ℕ
reject = 16

abbrev pub allowed_fast : ℕ
allowed_fast = 17

abbrev pub extended : ℕ
extended = 20

-- `FastExtension` reports whether the type belongs to BEP 6.
unfoldable pub fast_extension : ℕ → Bool
fast_extension t = leb suggest t && leb t allowed_fast
