-- ===== src/Design/Samples.antt =====
-- A view with one sorted column, against an SDK that keeps a formula's memory as bytes.
use dmn_cpp.Base.{
  ◌-◌, refl, true, false, if◌then◌else◌, [], ◌∷◌, ◌++◌, some, Bytes, codes, length, replicate,
  length-replicate, arith,
}
use dmn_cpp.Lmbcs.{Translate}
use dmn_cpp.Formula.{Native, Header, header_bytes}
use dmn_cpp.Formula.ItemName.{section}
use dmn_cpp.Design.Column.{Column}
use dmn_cpp.Design.View.{View}
use dmn_cpp.Design.Format.{Ods, Alloc, name_column}
use dmn_cpp.Design.Format.Filled.{Works}
use dmn_cpp.Design.Format.Tagged.{Grows, AllPlain}
use dmn_cpp.Design.Format.Built.{Images, Allocates}
use dmn_cpp.Design.Collation
use dmn_cpp.Design.Collation.Located
use dmn_cpp.Design.Collation.{sorted_columns, item_names_size, build_collation}
use dmn_cpp.Design.Collation.Located.{descriptors, names, AllLocated, build_collation_lem}

abbrev pub os : Translate
os = record { lmbcs_to_utf8 = λ b n. b; utf8_to_lmbcs = λ b n. b }

abbrev pub sdk : Native
sdk = record {
  get_size = λ memory. record { status = 0; handle = length memory };
  realloc = λ n memory. (0, memory ++ replicate (n - length memory) 0);
  summary_item = λ item_name memory. (0, memory ++ item_name);
  merge_call = λ other memory. (0, memory ++ other);
}

pub works : Works sdk
works = record {
  sized = λ memory. refl;
  summarizes = λ item_name memory. refl;
  merges = λ other memory. refl;
}

pub grows : Grows sdk
grows =
    λ n memory fits. (replicate (n - length memory) 0, length-replicate (n - length memory) 0, refl)

abbrev pub ods : Ods
ods = record {
  table_format = λ n sequence conflict flatindex. n ∷ sequence ∷ [];
  table_format2 = λ color. color ∷ [];
  column_format = λ col. col.title_size ∷ col.formula_size ∷ [];
  column_format2 = λ col. col.header_font_id ∷ [];
  table_format_size = 2;
  table_format2_size = 1;
  column_format_size = 2;
  column_format2_size = 1;
  conflict_item = codes "$Conflict";
  field_link = codes "$REF";
}

pub images : Images ods
images = record {
  table = λ n s c f. refl;
  table2 = λ color. refl;
  column = λ col. refl;
  column2 = λ col. refl;
}

abbrev pub alloc : Alloc
alloc n = (record { status = 0; handle = 7 }, some (replicate n 0))

pub allocates : Allocates alloc
allocates = λ n. (refl, (λ e. omega (arith, e)), (replicate n 0, refl, length-replicate n 0))

abbrev pub plain : Header
plain = record { length = 9; flags = 0; offset = 6 }

abbrev pub code : Bytes
code = 71 ∷ 72 ∷ 73 ∷ []

abbrev pub formula : Bytes
formula = 9 ∷ 0 ∷ 0 ∷ 0 ∷ 6 ∷ 0 ∷ 71 ∷ 72 ∷ 73 ∷ []

abbrev pub first : Column
first = record {
  flags1 = record { sort = true; sort_categorize = false; sort_descending = true };
  item_name_size = 0;
  title_size = 0;
  formula_size = 0;
  font_id = 1;
  header_font_id = 0;
  formula = formula;
  item_name = codes "N";
  title = codes "Name";
}

abbrev pub view : View
view = record {
  selection = [];
  sequence_number = 1;
  conflict = true;
  flatindex = false;
  background_color_ext = 1;
  columns = first ∷ [];
}

pub plain_columns : AllPlain 1 (first ∷ [])
unfolding name_column header_bytes section
plain_columns = (
  record {
    hdr = plain;
    code = code;
    formula = refl;
    plain = refl;
    consistent = refl;
    length_fits = omega arith;
    offset_fits = omega arith;
  },
  tt,
)

abbrev pub collation_ods : Collation.Ods
collation_ods = record {
  collation_image = λ size items. size ∷ items ∷ [];
  descriptor = λ desc cat offset size. (if desc then 1 else 0) ∷ offset ∷ size ∷ [];
  collation_size = 2;
  descriptor_size = 3;
}

pub Images-collation : Located.Images collation_ods
Images-collation = record { head = λ n k. refl; descriptor = λ a b c d. refl }
