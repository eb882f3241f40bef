-- ===== src/Conf.antt =====
-- leaf/src/config/conf/config.rs: the configuration in its text form, and what it comes to.
pub mod Texts
pub mod Lines
pub mod Records
pub mod Sections
pub mod FromLines
pub mod Settings
pub mod Outbounds
pub mod Rules
pub mod ToInternal
pub mod Headers
pub mod Blocks
pub mod Items
pub mod ProxyLine
pub mod Final
pub mod Managed
pub mod Reach
pub mod Layers
pub mod Handlers
pub mod Safe
pub mod Panics
pub mod Tests
mod PanicTests
mod LineTests
