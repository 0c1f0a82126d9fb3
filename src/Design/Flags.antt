-- ===== src/Design/Flags.antt =====
-- include/dmn/design/flags.hpp and src/design/flags.cpp: the design flags of an element, a buffer of 64
-- characters that ends at the first zero.
use dmn_cpp.Base.{ℕ, zero, suc, Bool, true, false, [], ◌∷◌, Bytes, replicate}

pub data Language : Type 0 where
  formula lotusscript java : Language

pub data Flag : Type 0 where
  invalid add antifolder background_filter init_by_design_only no_compose calendar_view no_query :
      Flag
  default_design mail_filter public_antifolder folder_view v4_agent file javascript_library : Flag
  image_resource java_agent java_agent_source xsp_page lotusscript_agent deleted_docs new : Flag
  hide_from_notes preserve private_first_use replace_special propagate_no_change script_lib : Flag
  view_categorized database_script subform agent_run_as_web_user agent_run_as_invoker
        private_in_db :
      Flag
  image_well webpage hide_from_web no_menu shared_actions frameset java_resource
        stylesheet_resource :
      Flag
  webservice shared_column propfile hide_from_v3 readonly needs_refresh html_file query_view
        directory :
      Flag
  print_form hide_from_design_list composite_def xsp_cc js_server java_file : Flag

unfoldable pub to_char : Flag → ℕ
to_char invalid = 0
to_char add = 65
to_char antifolder = 97
to_char background_filter = 66
to_char init_by_design_only = 98
to_char no_compose = 67
to_char calendar_view = 99
to_char no_query = 68
to_char default_design = 100
to_char mail_filter = 69
to_char public_antifolder = 101
to_char folder_view = 70
to_char v4_agent = 102
to_char file = 103
to_char javascript_library = 104
to_char image_resource = 105
to_char java_agent = 74
to_char java_agent_source = 106
to_char xsp_page = 75
to_char lotusscript_agent = 76
to_char deleted_docs = 108
to_char new = 78
to_char hide_from_notes = 110
to_char preserve = 80
to_char private_first_use = 112
to_char replace_special = 82
to_char propagate_no_change = 114
to_char script_lib = 115
to_char view_categorized = 84
to_char database_script = 116
to_char subform = 85
to_char agent_run_as_web_user = 117
to_char agent_run_as_invoker = 117
to_char private_in_db = 86
to_char image_well = 118
to_char webpage = 87
to_char hide_from_web = 119
to_char no_menu = 89
to_char shared_actions = 121
to_char frameset = 35
to_char java_resource = 64
to_char stylesheet_resource = 61
to_char webservice = 123
to_char shared_column = 94
to_char propfile = 50
to_char hide_from_v3 = 51
to_char readonly = 38
to_char needs_refresh = 36
to_char html_file = 62
to_char query_view = 60
to_char directory = 47
to_char print_form = 63
to_char hide_from_design_list = 126
to_char composite_def = 58
to_char xsp_cc = 59
to_char js_server = 46
to_char java_file = 91

abbrev pub max_design_flags : ℕ
max_design_flags = 64

-- The flags of a new object.
abbrev pub no_flags : Bytes
no_flags = replicate max_design_flags 0

-- A character put in the place of the first zero, and whether there is one.
unfoldable pub place : ℕ → Bytes → Bool × Bytes
place c [] = (false, [])
place c (zero ∷ rest) = (true, c ∷ rest)
place c (suc d ∷ rest) = ((place c rest).0, suc d ∷ (place c rest).1)

unfoldable pub add_flag : Flag → Bytes → Bool × Bytes
add_flag fg buffer = place (to_char fg) buffer

unfoldable pub to_string : Bytes → Bytes
to_string [] = []
to_string (zero ∷ rest) = []
to_string (suc c ∷ rest) = suc c ∷ to_string rest

unfoldable pub language_flags : Language → Bytes → Bytes
language_flags lotusscript out = (add_flag lotusscript_agent out).1
language_flags java out = (add_flag java_agent out).1
language_flags formula out = out

unfoldable pub from_language : Language → Bytes
from_language lang = language_flags lang (add_flag hide_from_v3 (add_flag v4_agent no_flags).1).1
