-- ===== src/Lib.antt =====
-- iLeaf, a proxy in Rust: its configuration, the addresses it exchanges, the names it resolves, the
-- rules that pick an outbound and its handler, the protocols that carry a connection, the copy of
-- its bytes, and the table of its UDP sessions.
--
-- How the parts interact. A text of a configuration (leaf/src/config/conf/config.rs) comes to
-- outbounds and rules, from which the handlers and the router are built. An inbound reads an
-- address (leaf/src/session.rs), the FakeDns pool turns a fake address back into a name
-- (leaf/src/common/fake_dns.rs), and the router picks the tag of an outbound
-- (leaf/src/app/router.rs). The outbound sends the address on in a request, by the same writers:
-- Trojan, VLESS and Shadowsocks under leaf/src/proxy. Groups of outbounds try one after the other
-- (failover) or run one over the other (chain). Datagrams go through the NAT manager
-- (leaf/src/app/nat_manager.rs), which holds a session for each client. The dispatcher
-- (leaf/src/app/dispatcher.rs) looks for the name that a client asks for, takes the tag from the
-- router and the handler of the tag from the handler manager (leaf/src/app/handler_manager.rs), and
-- copies both directions.
--
-- Files and what they model:
--   Prelude      Boolean tests, lists measured by native numbers, outcomes (value, error, panic),
--                bytes and texts, byte streams that end (Stream), that are polled for reading (Polls,
--                Drain) and for writing (Writes), association lists, exclusive or.
--   Session      leaf/src/session.rs: SocksAddr, `write_buf`, `write_to`, `read_from` and `try_from`.
--   FakeDns      leaf/src/common/fake_dns.rs: `allocate_ip`, `query_domain`, `is_fake_ip`,
--                `generate_fake_response`.
--   Router       leaf/src/app/router.rs: the matchers, `Router::new` and `pick_route`.
--   Crypto       the nonce sequences of leaf/src/proxy/shadowsocks/crypto.rs and
--                leaf/src/proxy/vmess/crypto.rs, and the masked sizes of the latter.
--   Trojan       leaf/src/proxy/trojan/tcp.rs and udp.rs: the request and the datagram frames.
--   Vless        leaf/src/proxy/vless/tcp.rs, udp.rs and stream.rs: the request, the datagrams, and
--                `VLessAuthStream`.
--   Shadow       leaf/src/proxy/shadowsocks/shadow.rs with the ciphers of leaf/src/common/crypto.rs:
--                `poll_read` (Reader), `poll_write` (Writer), what chunks carry (Chunks), the proofs
--                for each end (Reading, Writing) and for both (Pipe); the halves of
--                datagrams (Datagram) and what one end gets from the other (Packets).
--   Vmess        leaf/src/proxy/vmess/stream.rs: `poll_read` (Reader) and `poll_write` (Writer) with masked
--                sizes and padding, what chunks carry (Chunks), and the proofs as for Shadow.
--   Failover     leaf/src/proxy/failover/tcp.rs: the schedule, the health check, `handle`.
--   Chain        leaf/src/proxy/chain/tcp.rs: the servers that the actors are asked for, `handle`.
--   Conf         leaf/src/config/conf/config.rs and leaf/src/config/external_rule.rs: `from_lines`
--                (Texts, Lines, Records, Sections, FromLines), `to_internal` (Settings, Outbounds, Rules,
--                ToInternal), the lines of sections (Headers, Blocks), what is read back (Items,
--                ProxyLine), panics (Safe, Panics), and the handlers that it comes to (Final, Managed, Reach,
--                Layers, Handlers).
--   NatManager   leaf/src/app/nat_manager.rs: the table (Table), its steps (Steps), sequences of calls
--                (Calls), and what one client sees of them (Client).
--   Socks        leaf/src/proxy/socks/inbound/tcp.rs: the handshake.
--   HandlerManager  leaf/src/app/handler_manager.rs: the handlers of the outbounds and of the groups
--                over them.
--   Dispatcher   leaf/src/app/dispatcher.rs: the sniffer of server names, the copy of one direction
--                (Transfer, Copy) and what it comes to for each outbound (Relay), the dispatch of a
--                session (Dispatch, Outbound), and the counters of sessions (Counters).
--
-- Conventions. A byte is a number below 256, a text the list of its bytes (in the configuration, of
-- its characters: as a tag or an address it is only compared and extended), an IP address the
-- number of its bits. A stream that is read to the end is the list of the bytes to come; a stream
-- that is polled is the list of the answers of its transport, which a theorem takes as arbitrary. A
-- panic is an outcome. Code of other packages is a parameter: sealing and opening of the ciphers,
-- key derivation, the writer and the parsers of settings, SHA-224, SHAKE-128, the UUID and IP
-- parsers, the path of the program, DNS messages, country databases, lists of sites, the random bytes of salts and paddings,
-- and the replacement of ill-formed text.
--
-- Fuel. Only the loops over polled streams (`drain`, `write_all`, `copy`) run on fuel: every call
-- uses up an answer of the transport or hands over a byte, so the number of answers and bytes bounds
-- the calls, and the theorems give that bound; and the loop over the extensions that the sniffer looks
-- through, on the length of their list, where no call panics (Bounds). All other loops are structural
-- recursion.
--
-- Not modelled: SOCKS datagrams, the request header and the datagrams of VMess, the address header
-- of Shadowsocks datagrams and the UDP handlers of the groups, which are written in the same style
-- and come next; the race of the two directions of a connection, whose result is only logged; the
-- JSON form of the configuration; generated code; the network stack in C; TLS, WebSocket and
-- HTTP/2, which are libraries; the programs.
pub mod Prelude
pub mod Session
pub mod FakeDns
pub mod Router
pub mod Crypto
pub mod Trojan
pub mod Vless
pub mod Shadow
pub mod Vmess
pub mod Failover
pub mod Chain
pub mod Conf
pub mod NatManager
pub mod Socks
pub mod HandlerManager
pub mod Dispatcher
