-- ===== src/Lib.antt =====
-- A verification library for go-bt, a Go implementation of BitTorrent.
--
-- The repository has the peer wire protocol (peerprotocol), the DHT (dht, krpc), the torrent files
-- (metainfo), the trackers (tracker), bencode and a small downloader. The parts meet as follows. A
-- peer connection reads messages with the decoder, keeps the remote side's pieces in a bit field and
-- in two lists, and calls a handler. The DHT server keeps a routing table, tokens, transactions and
-- a blacklist, and works on them as queries and answers come in. The torrent's description says
-- which bytes of which file a piece and its blocks hold.
--
-- Which file models which part:
--   Peer/MType, Peer/Message: the message types and the codec, peerprotocol/protocol.go and
--     peerprotocol/message.go. `encode` is Encode, `decode` is Decode, with the reader as the list of
--     bytes that it delivers, and errors as values. Spec says independently which fields a type uses.
--   Peer/BitField, Peer/Pieces: BitField and Pieces of peerprotocol/message.go.
--   Peer/Extension: ExtensionBits of peerprotocol/handshake.go.
--   Peer/Conn: PeerConn of peerprotocol/peerconn.go: stages, handshake, setters and HandleMessage.
--     Methods has the arguments with which HandleMessage calls the handler.
--   Peer/Sends, Peer/Handshake, Peer/Link: the Send methods of peerprotocol/peerconn.go, the exchange
--     of peerprotocol/handshake.go, and two connections with the bytes between them.
--   Dht/Node, Dht/Distance, Dht/Closest, Dht/BucketId, Dht/Bucket, Dht/Table: the routing table of
--     dht/routing_table.go, from a node up to the table with its 160 buckets.
--   Dht/Token, Dht/Transaction, Dht/PeerManager, Dht/Blacklist: the managers of
--     dht/token_manager.go, dht/transaction_manager.go, dht/peer_manager.go and dht/blacklist.go.
--   Dht/Server: handlePacket, handleMessage and addNode of dht/dht_server.go, on the routing tables,
--     the blacklist and the transactions, up to the call of handleQuery or of a transaction's callback.
--     A packet is handled before the next one comes, and the callback HandleInMessage leaves the
--     message as it is.
--   Dht/Query, Dht/Search: handleQuery, and GetPeers, FindNode and their responses, of the same file.
--   Metainfo/Files, Metainfo/Piece: info.go, file.go and piece.go of metainfo.
--   Metainfo/Addr, Krpc/Addr, Krpc/Node: the compact forms of addresses and nodes of
--     metainfo/addr_compact.go, krpc/addr.go and krpc/node.go.
--   UdpTracker: tracker/udptracker. Extension, Announce and Scrape are the messages of udp.go, Server
--     is udp_server.go with the user's handler as a record, and Client is udp_client.go over a network
--     that is an argument; Client/Exchange joins the two.
--   Bencode: bencode/encode.go and bencode/decode.go on the values of an interface{}. Number has the
--     decimal integers of fmt and strconv, Raw is the decoder into a RawMessage, and Evaluation has the
--     decoder's loops as rules without fuel.
--   Prelude: lists, bytes, bits and maps that these share. Tests modules hold concrete runs.
--
-- Conventions. Bytes, words and times are natural numbers; where Go cuts a number to its width, the
-- definition has the remainder written out. A method that changes its receiver returns the new
-- state. A panic is `none`. Locks, tickers and goroutines are left out: an operation that holds the
-- lock is one step, and `Dht.Token.Event` lists the steps where their order matters. Times come in as
-- arguments, as do random strings, `addr.String()` and the formatting of numbers.
--
-- Fuel. `Dht.Closest.search_loop` has a round for each entry searched: a round that goes on makes
-- the interval smaller. `Metainfo.Piece.blocks_loop` has a round for each byte of the piece, and a
-- round takes a byte at least. `Bencode.Decode.decode_into` and
-- `UdpTracker.Extension.decode_exts` have fuel for every byte of the input, and a value or an extension
-- takes one at least. None runs out.
--
-- Not modelled: sockets, files and HTTP, bencode of structs and of types with methods of their own,
-- which reflection drives, the HTTP tracker, the downloader, and what the DHT server does to send a
-- query. `bencode.DecodeBytes` is an argument of `Peer.Conn.handle_message`, and its result one of
-- `Dht.Server.handle_packet`.
pub mod Prelude
pub mod Peer
pub mod Dht
pub mod Metainfo
pub mod Krpc
pub mod UdpTracker
pub mod Bencode
