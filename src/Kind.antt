-- ===== src/Kind.antt =====
-- include/dmn/type.hpp: the data types of items, with the numbers that stand for them in memory.
mod Codes
use dmn_cpp.Base.{ℕ, ◌+◌, ◌*◌}

pub data Kind : Type 0 where
  error unavailable text text_list rfc822_text number number_range time time_range formula userid :
      Kind
  invalid_or_unknown composite collation object noteref_list view_format icon notelink_list
        signature :
      Kind
  seal sealdata seal_list highlights worksheet_data userdata query action assistant_info : Kind
  viewmap_dataset viewmap_layout lsobject html sched_list calendar_format mime_part seal2 : Kind

unfoldable pub to_underlying : Kind → ℕ
to_underlying error = 1 * 256
to_underlying unavailable = 2 * 256
to_underlying text = 5 * 256
to_underlying text_list = 5 * 256 + 1
to_underlying rfc822_text = 5 * 256 + 2
to_underlying number = 3 * 256
to_underlying number_range = 3 * 256 + 1
to_underlying time = 4 * 256
to_underlying time_range = 4 * 256 + 1
to_underlying formula = 6 * 256
to_underlying userid = 7 * 256
to_underlying invalid_or_unknown = 0
to_underlying composite = 1
to_underlying collation = 2
to_underlying object = 3
to_underlying noteref_list = 4
to_underlying view_format = 5
to_underlying icon = 6
to_underlying notelink_list = 7
to_underlying signature = 8
to_underlying seal = 9
to_underlying sealdata = 10
to_underlying seal_list = 11
to_underlying highlights = 12
to_underlying worksheet_data = 13
to_underlying userdata = 14
to_underlying query = 15
to_underlying action = 16
to_underlying assistant_info = 17
to_underlying viewmap_dataset = 18
to_underlying viewmap_layout = 19
to_underlying lsobject = 20
to_underlying html = 21
to_underlying sched_list = 22
to_underlying calendar_format = 24
to_underlying mime_part = 25
to_underlying seal2 = 31
