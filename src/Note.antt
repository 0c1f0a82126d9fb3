-- ===== src/Note.antt =====
-- include/dmn/note.hpp and src/note.cpp: the items of a note, its handle, and the walk over its items.
pub mod Items
pub mod Fields
pub mod Handles
pub mod Saved
pub mod Listing
pub mod Listed
pub mod Samples
mod Tests
