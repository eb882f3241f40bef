-- ===== src/Shadow.antt =====
-- leaf/src/proxy/shadowsocks/shadow.rs and leaf/src/common/crypto.rs: the encrypted stream, one
-- half that reads and one that writes, and the encrypted datagrams.
-- The algorithm is a parameter (`Algorithm`): sealing, opening and the key derivation of the crates
-- that the source calls. The transport is the list of its answers to the polls.
mod Cipher
mod Reader
mod Writer
pub mod Datagram
pub mod Chunks
pub mod Reading
pub mod Writing
pub mod Pipe
pub mod Packets
pub mod Tests
unfoldable pub use Cipher.*
unfoldable pub use Reader.*
unfoldable pub use Writer.*
