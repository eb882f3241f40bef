-- ===== src/Session.antt =====
-- leaf/src/session.rs: addresses of a session and their two wire formats, written to a buffer
-- and to a stream, read from a stream and parsed from a slice.
-- An IP address is the number of its bits; its octets are the big-endian bytes. A domain is the
-- bytes of its text. A slice out of range and an index out of range are a panic.
mod Defs
mod Wire
mod Slice
pub mod RoundTrip
pub mod Parse
pub mod Sound
mod Tests
unfoldable pub use Defs.*
unfoldable pub use Wire.*
unfoldable pub use Slice.*
