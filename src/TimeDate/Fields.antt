-- ===== src/TimeDate/Fields.antt =====
-- The fields that a time point is split into.
use dmn_cpp.Base.{
  ℕ, suc, ◌+◌, ◌*◌, ◌<◌, ◌≡◌, ◌⊎◌, inl, inr, refl, sym, subst, Bytes, none, some, Option-cases, ok,
  err, out_of_range, conversion_error, ℤ, pos, negsuc, arith,
}
use dmn_cpp.TimeDate.{
  floor_div, floor_mod, Date, Time, make_time, Calendar, at_time, time_of, to_gm, from_time_point,
}

-- A whole number is so many times `k` and a rest.
abbrev pub Splits : ℕ → ℤ → ℤ → ℕ → Type 0
Splits k (pos n) (pos d) rest = n ≡ d * k + rest
Splits k (negsuc n) (negsuc d) rest = rest + suc n ≡ suc d * k
Splits k _ _ rest = ⊥

hundredths_lem :
    (tp : ℤ)
    → Splits 10_000_000 tp (floor_div tp 10_000_000) (floor_mod tp 10_000_000)
      × (floor_mod tp 10_000_000 < 10_000_000)
unfolding floor_div floor_mod
hundredths_lem (pos n) = (omega arith, omega arith)
hundredths_lem (negsuc n) = (omega arith, omega arith)

days_lem :
    (h : ℤ)
    → Splits 8_640_000 h (floor_div h 8_640_000) (floor_mod h 8_640_000)
      × (floor_mod h 8_640_000 < 8_640_000)
unfolding floor_div floor_mod
days_lem (pos n) = (omega arith, omega arith)
days_lem (negsuc n) = (omega arith, omega arith)

-- The hundredths of a day that a time stands for, and whether its fields are in their ranges.
abbrev pub hundredths_of : Time → ℕ
hundredths_of t = ((t.hour * 60 + t.minute) * 60 + t.second) * 100 + t.hundredth

pub record IsTime (t : Time) : Type 0 where
  pub hour : t.hour < 24
  pub minute : t.minute < 60
  pub second : t.second < 60
  pub hundredth : t.hundredth < 100

make_time_lem :
    (date : Date) (tod : ℕ)
    → tod < 8_640_000
    → IsTime (make_time date tod) × (hundredths_of (make_time date tod) ≡ tod)
unfolding make_time
make_time_lem date tod small = (
  record {
    hour = omega arith;
    minute = omega arith;
    second = omega arith;
    hundredth = omega arith;
  },
  omega arith,
)

-- A time point, also one before 1970, is a day, a time of that day and less than a hundredth of a
-- second: where the calendar has the day, the SDK gets its date with the fields of the time in their
-- ranges, and the result is what it makes of them, or a conversion_error; where the calendar has not,
-- an out_of_range is thrown.
pub from_time_point_lem :
    (cal : Calendar) (tp : ℤ)
    → (hundredths : ℤ) × (day : ℤ) × (below : ℕ) × (t : Time) × Splits 10_000_000 tp hundredths
        below
      × (below < 10_000_000)
      × Splits 8_640_000 hundredths day (hundredths_of t)
      × IsTime t
      × (((cal.date_of day ≡ none) × (from_time_point cal tp ≡ err out_of_range))
          ⊎ ((cal.date_of day ≡ some (t.date))
              × (((cal.local_to_gm t ≡ none) × (from_time_point cal tp ≡ err conversion_error))
                  ⊎ ((gm : Bytes) × (cal.local_to_gm t ≡ some gm)
                      × (from_time_point cal tp ≡ ok gm)))))
unfolding from_time_point time_of to_gm
from_time_point_lem cal tp =
    let h = floor_div tp 10_000_000 in
    let d = floor_div h 8_640_000 in
    let tod = floor_mod h 8_640_000 in
    let (split, below) = hundredths_lem tp in
    let (day_split, in_day) = days_lem h in
    elim (Option-cases (cal.date_of d)) [
      | inl e ↦
          let date : Date = record { year = pos 0; month = 1; day = 1 } in
          let (ranges, whole) = make_time_lem date tod in_day in
          (
            h,
            d,
            floor_mod tp 10_000_000,
            make_time date tod,
            split,
            below,
            subst (λ (v : ℕ). Splits 8_640_000 h d v) (sym whole) day_split,
            ranges,
            inl (e, rw (to_gm, at_time, e) refl),
          )
      | inr (date, e) ↦
          let (ranges, whole) = make_time_lem date tod in_day in
          let t = make_time date tod in
          (
            h,
            d,
            floor_mod tp 10_000_000,
            t,
            split,
            below,
            subst (λ (v : ℕ). Splits 8_640_000 h d v) (sym whole) day_split,
            ranges,
            inr (
              e,
              elim (Option-cases (cal.local_to_gm t)) [
                | inl f ↦ inl (f, rw (to_gm, at_time, e, f) refl)
                | inr (gm, f) ↦ inr (gm, f, rw (to_gm, at_time, e, f) refl)
              ],
            ),
          )
    ]
