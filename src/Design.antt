-- ===== src/Design.antt =====
-- include/dmn/design and src/design: the flags of design notes, and the design of a view with its
-- columns.
pub mod Flags
pub mod Strings
pub mod Column
pub mod Sorting
pub mod View
pub mod Columns
pub mod Format
pub mod Collation
pub mod Agent
pub mod Settings
pub mod AgentNote
pub mod ViewNote
mod Tests
pub mod Samples
mod ViewTests
mod AgentTests
