-- ===== src/TimeDate.antt =====
-- src/time_date.cpp: a time point and the SDK's time. A time point is its nanoseconds since 1970, a whole
-- number. The calendar (std::chrono::year_month_day) and the SDK's conversions are parameters; a day that
-- the calendar does not hold has no date.
mod Fields
mod Tests
use dmn_cpp.Base.{
  ℕ, suc, ◌+◌, ◌-◌, ◌*◌, ◌/◌, ◌%◌, ◌^◌, Bool, Bytes, Option, none, some, Result, ok, err,
  out_of_range, conversion_error, ℤ, pos, negsuc,
}

-- `floor` to a coarser unit, and what is left.
unfoldable pub floor_div : ℤ → ℕ → ℤ
floor_div (pos n) k = pos (n / k)
floor_div (negsuc n) k = negsuc (n / k)

unfoldable pub floor_mod : ℤ → ℕ → ℕ
floor_mod (pos n) k = n % k
floor_mod (negsuc n) k = k - 1 - n % k

abbrev pub ns_per_hundredth : ℕ
ns_per_hundredth = 10_000_000

abbrev pub hundredths_per_day : ℕ
hundredths_per_day = 8_640_000

-- `year_month_day`.
pub record Date : Type 0 where
  pub year : ℤ
  pub month : ℕ
  pub day : ℕ

-- The fields of TIME that the code sets.
pub record Time : Type 0 where
  pub date : Date
  pub hour : ℕ
  pub minute : ℕ
  pub second : ℕ
  pub hundredth : ℕ

-- The time of day, in hundredths, split by `hh_mm_ss`.
unfoldable pub make_time : Date → ℕ → Time
make_time date time_of_day = record {
  date = date;
  hour = time_of_day / 360_000;
  minute = time_of_day / 6000 % 60;
  second = time_of_day / 100 % 60;
  hundredth = time_of_day % 100;
}

pub record Calendar : Type 0 where
  pub date_of : ℤ → Option Date
  pub local_to_gm : Time → Option Bytes
  pub difference : Bytes → Bytes → ℤ

unfoldable pub at_time : ℕ → Option Date → Option Time
unfolding make_time
at_time time_of_day none = none
at_time time_of_day (some date) = some (make_time date time_of_day)

unfoldable pub gm_or_throw : Option Bytes → Result Bytes
gm_or_throw none = err conversion_error
gm_or_throw (some gm) = ok gm

module _ (cal : Calendar) where
  unfoldable pub time_of : ℤ → Option Time
  unfolding at_time
  time_of tp =
      let hundredths = floor_div tp ns_per_hundredth in
      at_time (floor_mod hundredths hundredths_per_day)
        (cal.date_of (floor_div hundredths hundredths_per_day))

  unfoldable pub to_gm : Option Time → Result Bytes
  unfolding gm_or_throw
  to_gm none = err out_of_range
  to_gm (some time) = gm_or_throw (cal.local_to_gm time)

  unfoldable pub from_time_point : ℤ → Result Bytes
  unfolding time_of to_gm
  from_time_point tp = to_gm (time_of tp)

  -- Midnight of the first day of 1970, on the local clock.
  unfoldable pub epoch : Time
  epoch = record {
    date = record { year = pos 1970; month = 1; day = 1 };
    hour = 0;
    minute = 0;
    second = 0;
    hundredth = 0;
  }

  -- The seconds of the time point.
  unfoldable pub to_time_point : Bytes → Option ℤ
  unfolding epoch
  to_time_point gm = elim (cal.local_to_gm epoch) [
    | none ↦ none
    | some start ↦ some (cal.difference gm start)
  ]
