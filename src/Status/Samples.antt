-- ===== src/Status/Samples.antt =====
-- The status codes that the tests of the other modules use.
use dmn_cpp.Status.{Codes}

abbrev pub codes : Codes
codes = record {
  not_found = 0x404;
  noexist = 0x103;
  invalid_note = 0x21e;
  note_deleted = 0x225;
  item_not_found = 0x222;
  acl_noentry = 0x405;
  note_already_locked_by_locker = 0x2bd;
  note_locked = 0x2be;
  note_locked_bysomeone = 0x2bf;
  note_not_locked_by_locker = 0x2c0;
  mime_stream_io = 3;
  mime_stream_eos = 2;
}
