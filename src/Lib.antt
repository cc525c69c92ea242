-- ===== src/Lib.antt =====
-- A model of lunnel, a tunnel between a server with public addresses and clients behind a NAT, and
-- what it keeps to.
--
-- A client opens a control connection (server/serControl.go, client/clientControl.go), on which both
-- ends send framed messages (msg/msg.go). The ends agree on a secret (crypto/keyExchange.go); the
-- pipes, multiplexed sessions that carry the users' connections, are encrypted with a key made from it
-- (crypto/conn.go). The server keeps the pipes of a control in two lists, hands them out and closes
-- those that it does not need, and keeps the map from public addresses to tunnels by which it
-- routes users: those of HTTP by the host of their request, those of HTTPS by the server name in their
-- first message (vhost/vhost.go).
--
-- The files:
-- Base and its children: texts, lists, maps, bytes, results of calls that may fail or panic.
-- Msg: the messages of msg/msg.go, with Msg/Conn (a connection as a list of what its reads return),
-- Msg/Write (WriteMsg), Msg/Read (readInSize, readMsg), and the proofs in Msg/Framing,
-- Msg/RoundTrip and Msg/Typed (the types of the bodies). encoding/json is a pair of parameters.
-- Crypto/Cfb: encrypt and decrypt of crypto/conn.go, with a block cipher as parameter; proofs in
-- Cfb/Laws and Cfb/Blocks. Crypto/Stream: cryptoStream, with Read and Write; proofs in Stream/Duplex.
-- Crypto/KeyExchange: ProcessKeyExchange and GenerateKeyExChange of crypto/keyExchange.go, with a
-- curve as parameter; proofs in KeyExchange/Agreement. Crypto/Prf: pHash and prf12; proofs in
-- Prf/Laws.
-- Handshake: ServerHandShake of server/serControl.go and clientHandShake of client/clientControl.go on a
-- connection, up to the server's answer, and the cipher stream of a pipe; proofs in Handshake/Agreement
-- (with Parts, Quiet and Secrets), Handshake/Safety and Handshake/Pipe.
-- Vhost/Handshake: readHandshake of vhost/vhost.go; proofs in Handshake/Safety and
-- Handshake/ServerName (with Handshake/Skips), against the encoding of RFC 5246 and RFC 6066 in
-- Handshake/Encoding.
-- Server/Pipes: the pool of pipes of server/serControl.go, as nodes in a heap; proofs in its children:
-- Segment and Unlink (linked lists), Pool (the invariant), Sweep (clean on plain lists), Clean and
-- CleanIdle (the two loops of clean), Tidy, Take (getIdleFast), Shut (closePipes).
-- Server/Tunnels: ServerAddTunnels, Tunnel.Close and closeTunnels; proofs in Routing, Isolation, Served,
-- Queue (the write channel) and Shutdown.
-- Server/Manage: pipeManage, with the cases of its two select statements as events; proofs in
-- Manage/Invariant.
-- Server/Https and Server/Http: handleHttpsConn and handleHttpConn of server/server.go, up to the copying
-- of bytes. Server/Query: tunnelQuery.
-- Server/Loops: recvLoop, writeLoop and Serve of server/serControl.go; proofs in Sound, Invariant, Ends (how the
-- loops end), Pings and Receipt (what a read leads to). Health: the tests on times of both ends.
-- Server/Registry: ControlMap, the end of ServerHandShake, PipeHandShake and the client's pipeHandShake;
-- proofs in TakeOver and Pipes.
-- Hello: handleConn of server/server.go and dialAndRun of client/client.go up to the control's stream;
-- proofs in Taken, Piped, Agreement and Greeting.
-- Transport: CreateConn of transport/transport.go.
-- Vhost/Shared: sharedConn of vhost/vhost.go. Vhost/Rewrite: parseRequest, parseRequestLine and
-- changeHostName; proofs in Search, Headers and Requests. Vhost/Request: GetHttpRequestInfo,
-- HttpHostNameRewrite and hostNameRewrite.
-- Client/Loops: recvLoop, writeLoop, AddTunnel, serveHttp and Run of client/clientControl.go; proofs in
-- Invariant, Order, Ends and Receipt.
-- Relay: proxyConn of server/serControl.go and the streams of createPipe of client/clientControl.go; proofs
-- in Same and Answer (what the server's answer leaves of the client's tunnels), Local and Reach.
-- Server/Config: LoadConfig of server/serConfig.go, and the limits that Main of server/server.go
-- parses; proofs in Config/Complete.
-- Client/Config: LoadConfig of client/clientConfig.go; proofs in Config/Ready. Client/Switch: the loop
-- of Main in client/client.go that dials the server. Client/Tunnels: the making of tunnels in Main,
-- and SyncTunnels and the local addresses of client/clientControl.go.
-- Util: Int2Short of util/util.go; proofs in Util/Short. Util/Addr: ParseAddr. Util/Pool: util/pool.go.
-- The modules named Examples run the theorems on small inputs.
--
-- Pointers are addresses in a heap that is a function, and maps with texts as keys are functions. A
-- map that a loop ranges over is the list of its entries in the order of that traversal, which is
-- arbitrary. Unsigned counters wrap; totalPipes, an int64 that changes by
-- one for a pipe, is an unbounded integer. A loop over a linked list has one round of fuel more than there
-- have been allocations, and the loops of readHandshake one round more than there are bytes; the
-- theorems hold with that fuel, so it is enough. A call on the network, a listener, a clock or a
-- library is a parameter or a value that the model is given. Whether a session is closed, and how many
-- streams it has, does not change while one operation of the pool runs, except by the operation
-- itself. The select statements on writeChan are calls on a queue of 64 requests.
--
-- The goroutines of a control are a step relation whose events are the rounds of its loops, in any
-- order. A round of a loop reads and writes each shared field once. A run of ServerAddTunnels is one
-- round: it holds the lock of the tunnels, but the code lets writeLoop take requests from the channel
-- between its sends, so that more of them can find room than here. A round
-- of a select statement is possible when one of its cases is; which case the runtime chooses is the
-- choice of the event. The parsers of requests and URLs, the bytes that are left in a pooled buffer, the
-- number of bytes that a read returns, and the success of the calls on TLS, compression and smux are
-- parameters.
--
-- Not modelled: the copying of bytes between users and pipes, the listeners and their accept loops,
-- start-up, the file that keeps the client's identity, the page of vhost/http.go, compression and kcp,
-- logging, notifications, and third-party code. They are I/O, or calls of libraries without state of
-- their own.
pub mod Base
pub mod Client
pub mod Crypto
pub mod Handshake
pub mod Health
pub mod Hello
pub mod Msg
pub mod Relay
pub mod Server
pub mod Transport
pub mod Util
pub mod Vhost
