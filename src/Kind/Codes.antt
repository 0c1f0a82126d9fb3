-- ===== src/Kind/Codes.antt =====
-- The codes of the data types of include/dmn/type.hpp are distinct.
use dmn_cpp.Base.{
  ℕ, ◌≡◌, refl, sym, ap, ◌∙◌, List, [], ◌∷◌, Option, none, some, ◌==◌, if◌then◌else◌,
}
use dmn_cpp.Kind.{
  Kind, to_underlying, error, unavailable, text, text_list, rfc822_text, number, number_range, time,
  time_range, formula, userid, invalid_or_unknown, composite, collation, object, noteref_list,
  view_format, icon, notelink_list, signature, seal, sealdata, seal_list, highlights,
  worksheet_data, userdata, query, action, assistant_info, viewmap_dataset, viewmap_layout,
  lsobject, html, sched_list, calendar_format, mime_part, seal2,
}

abbrev kinds : List Kind
kinds =
    error ∷ unavailable ∷ text ∷ text_list ∷ rfc822_text ∷ number ∷ number_range ∷ time ∷ time_range
    ∷ formula ∷ userid ∷ invalid_or_unknown ∷ composite ∷ collation ∷ object ∷ noteref_list
    ∷ view_format ∷ icon ∷ notelink_list ∷ signature ∷ seal ∷ sealdata ∷ seal_list ∷ highlights
    ∷ worksheet_data ∷ userdata ∷ query ∷ action ∷ assistant_info ∷ viewmap_dataset ∷ viewmap_layout
    ∷ lsobject ∷ html ∷ sched_list ∷ calendar_format ∷ mime_part ∷ seal2 ∷ []

-- The type in a list that has a code.
find_code : ℕ → List Kind → Option Kind
unfolding to_underlying
find_code n [] = none
find_code n (k ∷ ks) = if to_underlying k == n then some k else find_code n ks

find_code-to_underlying : (k : Kind) → find_code (to_underlying k) kinds ≡ some k
unfolding find_code
find_code-to_underlying error = refl
find_code-to_underlying unavailable = refl
find_code-to_underlying text = refl
find_code-to_underlying text_list = refl
find_code-to_underlying rfc822_text = refl
find_code-to_underlying number = refl
find_code-to_underlying number_range = refl
find_code-to_underlying time = refl
find_code-to_underlying time_range = refl
find_code-to_underlying formula = refl
find_code-to_underlying userid = refl
find_code-to_underlying invalid_or_unknown = refl
find_code-to_underlying composite = refl
find_code-to_underlying collation = refl
find_code-to_underlying object = refl
find_code-to_underlying noteref_list = refl
find_code-to_underlying view_format = refl
find_code-to_underlying icon = refl
find_code-to_underlying notelink_list = refl
find_code-to_underlying signature = refl
find_code-to_underlying seal = refl
find_code-to_underlying sealdata = refl
find_code-to_underlying seal_list = refl
find_code-to_underlying highlights = refl
find_code-to_underlying worksheet_data = refl
find_code-to_underlying userdata = refl
find_code-to_underlying query = refl
find_code-to_underlying action = refl
find_code-to_underlying assistant_info = refl
find_code-to_underlying viewmap_dataset = refl
find_code-to_underlying viewmap_layout = refl
find_code-to_underlying lsobject = refl
find_code-to_underlying html = refl
find_code-to_underlying sched_list = refl
find_code-to_underlying calendar_format = refl
find_code-to_underlying mime_part = refl
find_code-to_underlying seal2 = refl

some_eq : {a b : Kind} → some a ≡ some b → a ≡ b
some_eq e = cc

-- No two data types have the same number.
to_underlying_injective : (k l : Kind) → to_underlying k ≡ to_underlying l → k ≡ l
to_underlying_injective k l e =
    some_eq (
      sym (find_code-to_underlying k) ∙ (ap (λ n. find_code n kinds) e ∙ find_code-to_underlying l))
