-- ===== src/Vmess.antt =====
-- leaf/src/proxy/vmess/stream.rs: the encrypted stream, one half that reads and one that writes.
-- Sealing and opening, the CFB cipher of the response header, the mask stream and the random bytes
-- are parameters. The transport is the list of its answers to the polls.
mod Cipher
mod Reader
mod Writer
pub mod Chunks
pub mod Reading
pub mod Writing
pub mod Pipe
mod Tests
unfoldable pub use Cipher.*
unfoldable pub use Reader.*
unfoldable pub use Writer.*
