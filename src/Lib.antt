-- ===== src/Lib.antt =====
-- Verification of Unknowntunnel, a tunnel between two peers over TCP or UDP.
--
-- A side of the tunnel (internal/app/app.go) turns local TCP connections, UDP clients and IP packets
-- into messages (internal/protocol/message.go), and hands them to the manager
-- (internal/transport/manager.go), which sends each over one authenticated session of TCP
-- (internal/transport/tcp.go) or UDP (internal/transport/udp.go). The peer decodes a message, drops
-- one it has seen, and dispatches it to a TCP flow, the reassembly of UDP datagrams, or the device.
--
-- Files, and what they model:
--   Prelude       shared helpers: tests on numbers, lists, byte slices, maps, results
--   Message       internal/protocol/message.go: `Encode`, `Decode`
--   Reorder       the receive window of `tcpState.writeOrdered` (internal/app/app.go) and
--                 `udpSession.acceptOrdered` (internal/transport/udp.go)
--   Writer        `writeAll` (internal/transport/tcp.go), `writeConnAll` (internal/app/app.go)
--   Flow          internal/app/app.go: `tcpState`, ordering into a local connection
--   Dedupe        internal/app/app.go: `isDuplicate`
--   PacketFilter  internal/tun/tun_linux.go: `PacketAllowed`
--   Fragment      internal/app/app.go: `sendUDPDatagram`, `handleUDPChunk`
--   Keys          internal/transport/crypto.go: key derivation, nonces
--   Handshake     internal/transport/handshake.go, and the exchange in internal/transport/tcp.go
--   TcpSession    internal/transport/tcp.go: `Send`, `readLoop`, `writeBlob`, `readBlob`
--   UdpSession    internal/transport/udp.go: `udpSession`
--   UdpServer     internal/transport/udp.go: `udpServer`, its tables and its events
--   Manager       internal/transport/manager.go: `Send`, `addSession`, `removeSession`, `Close`
--   Config        internal/config/config.go: `Validate`
--   Tunnel        internal/app/app.go: `send`
--   TcpTable      internal/app/app.go: `openLocalTCP`, `handleOpenTCP`, `handleTCPStatus`,
--                 `handleTCPData`, `closeTCP`
--   UdpFlows      internal/app/app.go: `getEntryUDPFlow`, `handleUDPDatagram`, `cleanup`
--   Incoming      internal/app/app.go: `incomingLoop`, `handleMessage`, `cleanup`
--   Site          internal/config/config.go: `Load`, `Save`, `WriteSecret`, `ReadSecret`, and the
--                 machine on which the console of internal/admin/admin.go runs
--   Console       internal/admin/admin.go: the prompts
--   Instances     internal/admin/admin.go: names, paths and selection of instances
--   Dialogue      internal/admin/admin.go: `configureTransport`, `configureL3`, `configureServices`,
--                 `configureForwards`, `configureSecret`
--   Wizard        internal/admin/admin.go: `wizard`
--   Admin         internal/admin/admin.go: `Setup`, `Edit`, `Service`, `Delete`, `Menu` and the like,
--                 and two commands of cmd/unknowntunnel/main.go
--   Tests         the theorems at concrete inputs, here and in the children of that name
--
-- A method is a function from a state to a state with its result; a call of another part is a call
-- of its function, or a parameter where that part is outside the repository. Bytes, text and
-- sequence numbers are natural numbers, and a number of the program that wraps is reduced modulo
-- 2^64. Maps are association lists. Time, random identifiers and whether a write to a socket
-- succeeds are arguments. Go's crypto, text and network functions are parameters (`Crypto`, `Text`,
-- `Conn`), with their documented behaviour as hypotheses where a theorem needs it.
--
-- Fuel: the drain of the receive window gets as much as there are held payloads, each round
-- deleting one; the write loop as much as there are bytes; the expansion of keys as much as bytes
-- are asked for. The read loop of a TCP session gets one round more than there are bytes on the
-- stream, each round taking at least twelve. A prompt gets one round more than there are lines, and
-- reads one in each; at the end of the input every round is the same, so that a prompt that has not
-- returned then never does, which is the answer `forever`. The IPv6 walk is bounded by 16 rounds in
-- the program itself, as are ten attempts to find a free identifier.
--
-- The console is a function of the lines that are typed: an answer is a value with the machine that
-- is left, an error with that machine, or `forever`. Files are kept by what `filepath.Clean` makes of
-- their path, so that there are no symbolic links among them, and written as a whole,
-- and the commands that are run are listed.
--
-- Not modelled: goroutines, locks and channels as such (a call is one step, and handlers run one
-- after the other; a goroutine of the UDP server is an event), sockets and listeners, the TUN
-- device, the JSON codec (a parameter), what the console prints, flags, and the install scripts.
pub mod Prelude
pub mod Message
pub mod Reorder
pub mod Writer
pub mod Flow
pub mod Dedupe
pub mod PacketFilter
pub mod Fragment
pub mod Keys
pub mod Handshake
pub mod TcpSession
pub mod UdpSession
pub mod UdpServer
pub mod Manager
pub mod Config
pub mod Tunnel
pub mod TcpTable
pub mod UdpFlows
pub mod Incoming
pub mod Site
pub mod Console
pub mod Instances
pub mod Dialogue
pub mod Wizard
pub mod Admin
pub mod Tests
