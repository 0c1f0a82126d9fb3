-- ===== src/Lib.antt =====
-- Verification of dmn-cpp, a C++ wrapper of the HCL Domino C API.
--
-- The library opens databases, reads and writes notes and the values of their items, walks views, renders
-- queries and edits access control lists; each operation is a few calls of the SDK with the library's own
-- checks, conversions and bookkeeping around them. The development models that logic. Paths are from
-- the repository's root.
--
-- Base: shared names, byte strings, lists over native numbers, the exceptions of include/dmn/error.hpp as
--   `Error`, with `Result` for what may throw.
-- Status: src/error.cpp, the tests of status codes (`is_error`, `is_not_found`, `is_locked`).
-- Message: src/error.cpp, the text of a native error.
-- Traced: code with the calls that it makes, which the modules below share.
-- Cast: include/dmn/detail/data_types.hpp, `checked_cast`.
-- Cursor: include/dmn/detail/cursor.hpp. The memory is a list of bytes and `Outcome` adds `fault` for an access
--   that C++ leaves undefined. Cursor.Bounds and Cursor.Transfer hold the laws of reads and writes,
--   Cursor.Held reads where the memory is known, Cursor.Chains sequences of writes.
-- Locker: src/detail/locker.cpp, over Cursor, with the calls to lock, unlock and free as a list.
-- Handle: include/dmn/detail/scoped_handle.hpp, with the calling thread as an argument and the cleanup
--   calls as a list.
-- ThreadContext: the threads that have a context, of src/detail/thread_context.cpp, `session` of
--   src/detail/runtime.cpp and include/dmn/thread.hpp.
-- Store: include/dmn/detail/thread_context.hpp, and `open_impl` and `get_handle` of src/database.cpp and
--   src/note.cpp, which look a handle up there or open one.
-- Lmbcs: src/lmbcs.cpp. Kind: include/dmn/type.hpp.
-- Value: src/value.cpp, include/dmn/value.hpp, src/detail/object_value.cpp and src/detail/note_value.cpp: what is
--   read from an item's memory and what is written to it, over Cursor, Kind and Lmbcs.
-- Note: src/note.cpp. Note.Items has the items, Note.Handles the handle of a note and `save`, over Handle and
--   Store, and Note.Listing the walk of `items`; the theorems are in Note.Fields, Note.Saved and
--   Note.Listed.
-- Formula: src/formula.cpp, the memory of a compiled formula over Cursor. Pools: the constructors of values, formulas
--   and lists (src/value.cpp, src/formula.cpp, src/list.cpp) and `decompile`, over Handle, Locker and Traced.
-- Dql: src/dql.cpp, the query expressions; a function of the class is a definition of the same name, except
--   `comparison_expr`, `contains_expr`, `all_of` and `any_of` for comparison, contains, all and any.
-- Query: `run_query` of src/database.cpp, over Dql. DatabasePath: `get_path` of the same file.
-- Unid: src/unid.cpp. TimeDate: src/time_date.cpp, a time point as the fields of a TIME.
-- ItemValue: the moves of an item_value in src/value.cpp.
-- Addin: src/addin/addin.cpp, the loop of an add-in and its log.
-- TextLists: src/list.cpp, over the SDK's list calls; TextLists.Iterator: the iterator of include/dmn/list.hpp.
-- Mime: src/messaging/mime.cpp, over Handle, with the lines of the stream.
-- RunAgent: src/agent.cpp, over Handle, Locker and Traced.
-- AttachedObject: src/detail/attached_object.cpp and `set_run_info` of src/design/agent.cpp, over Handle,
--   Locker and Traced.
-- Mail: src/messaging/mail.cpp, over TextLists, with the calls that the SDK accepted as a list; Mail.Sent
--   says who owns the recipients' lists then.
-- View: src/view.cpp, `iterate` and `iterate_entries`, with the parsing of the entries over Cursor;
--   View.Opened has `open` and `get_entries`.
-- Lock: src/note_lock.cpp.
-- Design: src/design. Design.Flags has the flags, Design.Column and Design.View the columns of a view,
--   Design.Format `build_view_format` and Design.Collation `build_collation`, both over Formula, Locker and
--   Cursor, and Design.Agent the action items of src/design/agent.cpp; their child modules and Design.Columns hold the theorems.
--   Design.Settings has the runs of `note.set` that Design.ViewNote (`create` and `save` of src/design/view.cpp)
--   and Design.AgentNote (src/design/agent.cpp) make, over Note.Items.
-- Acl: src/acl and include/dmn/acl. Acl.Access has access levels and flags, Acl.Role the names of roles,
--   Acl.RoleMap the slots that hold them, Acl.Manager the entries and Acl.Stored `read`, `create`,
--   `save` and `admin_server`; Acl.Names reads a names list. Acl.Slots and Acl.Privileges hold the theorems.
--
-- Parameters. What is not in the repository is an argument: the SDK's calls (`Native` in Acl, `read_entries`
-- and `find_by_name` in View, `Answer` in Store, OSTranslate in Lmbcs), its status codes and constants (`Codes`
-- in Status), the layout of its structures (`Layout` in View), std::to_string on doubles in Dql. The theorems
-- that need one of these to behave name that: `IsModest` for pages, `IsPrivileges` for privilege sets,
-- `IsList` for text lists, `Keeps`, `Erases` and `Attaches` for the items
-- of a note, `IsUnchanged` for their names, `Works`, `Grows`, `Images` and `Allocates` for what a view's design is written with.
-- The state of the SDK is threaded through where a call changes it.
--
-- Numbers are natural numbers; the offsets of a cursor wrap at 2 ^ 64, its bounds check at 2 ^ 32, and
-- the offset and count of a view query are 32-bit numbers whose arithmetic the code guards.
--
-- Fuel. The page loop of a view runs on the number of entries that remain, since each page that does
-- not end the loop takes one at least. The loops over role slots count the slots that are left, and a
-- range-for over them gets the capacity, since it stops at that slot. Decimal and hexadecimal printing run on the number of digits.
-- The loop over a text list runs on the number of entries.
-- The walk of a note's items runs on the number of items and one turn more.
--
-- The loop of an add-in runs on the number of turns; a theorem says which number is enough.
--
-- Not modelled: HTTP methods and LotusScript, which only hold what they are given; fonts and colors; the
-- compiler and decompiler of formulas; copying, removing and signing notes, which are single SDK calls; the messages of
-- exceptions but that of a native error; the table of ODS types; unique handles, which repeat the scoped
-- handle and are not used; the user's name and the end of the SDK.
pub mod Base
pub mod Status
pub mod Cast
pub mod Cursor
pub mod Traced
pub mod Locker
pub mod Handle
pub mod Store
pub mod Lmbcs
pub mod Message
pub mod Kind
pub mod Value
pub mod Note
pub mod TextLists
pub mod Formula
pub mod Dql
pub mod Query
pub mod Unid
pub mod View
pub mod Lock
pub mod AttachedObject
pub mod Design
pub mod Acl
pub mod Addin
pub mod DatabasePath
pub mod ItemValue
pub mod Mail
pub mod Mime
pub mod Pools
pub mod RunAgent
pub mod ThreadContext
pub mod TimeDate
