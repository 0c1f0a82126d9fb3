-- ===== src/TimeDate/Tests.antt =====
-- One nanosecond before 1970, against a calendar of three days and a SDK that keeps the fields.
use dmn_cpp.Base.{
  ℕ, zero, ◌<◌, ◌≡◌, ◌⊎◌, refl, [], ◌∷◌, Bytes, Option, none, some, ok, err, out_of_range,
  conversion_error, ℤ, pos, negsuc,
}
use dmn_cpp.TimeDate.{Date, Time, Calendar, floor_div, floor_mod, from_time_point}
use dmn_cpp.TimeDate.Fields.{Splits, hundredths_of, IsTime, from_time_point_lem}

abbrev date_of : ℤ → Option Date
date_of (pos n) = some (record { year = pos 1970; month = 1; day = 1 })
date_of (negsuc zero) = some (record { year = pos 1969; month = 12; day = 31 })
date_of d = none

abbrev cal : Calendar
cal = record {
  date_of = date_of;
  local_to_gm = λ t. some (t.hour ∷ t.minute ∷ t.second ∷ t.hundredth ∷ []);
  difference = λ a b. pos 0;
}

before_lem : from_time_point cal (negsuc 0) ≡ ok (23 ∷ 59 ∷ 59 ∷ 99 ∷ [])
unfolding from_time_point floor_div floor_mod
before_lem = refl

from_time_point_lem_example :
    (hundredths : ℤ) × (day : ℤ) × (below : ℕ) × (t : Time) × Splits 10_000_000
      (negsuc 0)
      hundredths
      below
    × (below < 10_000_000)
    × Splits 8_640_000 hundredths day (hundredths_of t)
    × IsTime t
    × (((cal.date_of day ≡ none) × (from_time_point cal (negsuc 0) ≡ err out_of_range))
        ⊎ ((cal.date_of day ≡ some (t.date))
            × (((cal.local_to_gm t ≡ none)
                  × (from_time_point cal (negsuc 0) ≡ err conversion_error))
                ⊎ ((gm : Bytes) × (cal.local_to_gm t ≡ some gm)
                    × (from_time_point cal (negsuc 0) ≡ ok gm)))))
from_time_point_lem_example = from_time_point_lem cal (negsuc 0)
