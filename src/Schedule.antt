-- ===== src/Schedule.antt =====
-- The off-peak schedules of internal/routing/policy.go. The time zone database is not code of the
-- repository: a `Location` is what `time.Location` gives at an instant, and `time.LoadLocation` is
-- the parameter `load_location`.
pub mod Windows
use Prim.Native.Char.{code}
use polytoken_quota.Prelude.{
  ℕ, ◌+◌, ◌-◌, ◌*◌, ◌<◌, ◌≡◌, Bool, true, false, not, ◌&&◌, ◌||◌, Option, none, some, List, [], ◌∷◌,
  String, if◌then◌else◌, ltb, leb, ◌==◌, str_eq, any_true, Result, ok, err,
}
use polytoken_quota.Clock.{Time}

pub data DayOfWeek : Type 0 where
  monday tuesday wednesday thursday friday saturday sunday : DayOfWeek
  other : String → DayOfWeek

-- The wall clock of a location: `weekday` is 0 on Sundays, and `day_before` is the weekday of the
-- calendar day before.
pub record Location : Type 0 where
  pub weekday : Time → ℕ
  pub day_before : Time → ℕ
  pub hour : Time → ℕ
  pub minute : Time → ℕ
  pub hour_bound : (t : Time) → hour t < 24
  pub minute_bound : (t : Time) → minute t < 60

pub record OffPeakWindow : Type 0 where
  pub days : List DayOfWeek
  pub start : String
  pub end : String

pub record Schedule : Type 0 where
  pub timezone : String
  pub off_peak : List OffPeakWindow
  pub loc : Option Location

-- `==` on the abbreviations
pub day_eq : DayOfWeek → DayOfWeek → Bool
day_eq monday monday = true
day_eq tuesday tuesday = true
day_eq wednesday wednesday = true
day_eq thursday thursday = true
day_eq friday friday = true
day_eq saturday saturday = true
day_eq sunday sunday = true
day_eq (other s) (other t) = str_eq s t
day_eq _ _ = false

unfoldable pub valid_day : DayOfWeek → Bool
valid_day monday = true
valid_day (other s) = false
valid_day _ = true

unfoldable pub day_from_weekday : ℕ → DayOfWeek
day_from_weekday w =
    if w == 0
    then sunday
    else if w == 1
    then monday
    else if w == 2
    then tuesday
    else if w == 3
    then wednesday
    else if w == 4
    then thursday
    else if w == 5
    then friday
    else saturday

abbrev pub minutes_per_day : ℕ
minutes_per_day = 24 * 60

abbrev pub end_of_day_minute : ℕ
end_of_day_minute = minutes_per_day

unfoldable pub two_digits : ℕ → ℕ → Option ℕ
two_digits a b =
    if ltb a b'0' || ltb b'9' a || ltb b b'0' || ltb b'9' b
    then none
    else some ((a - b'0') * 10 + (b - b'0'))

in_day : Option ℕ → Option ℕ → Option ℕ
in_day (some hh) (some mm) = if ltb 23 hh || ltb 59 mm then none else some (hh * 60 + mm)
in_day _ _ = none

-- `len(s) != 5 || s[2] != ':'` and the digits: a text of five bytes that passes has five characters
hours_minutes : String → Option ℕ
unfolding in_day
hours_minutes (String.◌∷◌ a (String.◌∷◌ b (String.◌∷◌ c (String.◌∷◌ d (String.◌∷◌ e String.[]))))) =
    if code c == b':'
    then in_day (two_digits (code a) (code b)) (two_digits (code d) (code e))
    else none
hours_minutes _ = none

unfoldable pub window_minute : String → Bool → Option ℕ
unfolding hours_minutes
window_minute s allow_end_sentinel =
    if str_eq s "24:00"
    then (if allow_end_sentinel then some end_of_day_minute else none)
    else hours_minutes s

pub data ScheduleError : Type 0 where
  invalid_timezone invalid_day invalid_start invalid_end : ScheduleError

-- one round of the loop over the windows
unfoldable pub check_window : OffPeakWindow → Option ScheduleError
check_window w =
    if any_true (λ d. not (valid_day d)) w.days
    then some invalid_day
    else elim (window_minute w.start false) [
      | none ↦ some invalid_start
      | some m ↦ elim (window_minute w.end true) [ none ↦ some invalid_end | some n ↦ none ]
    ]

unfoldable pub check_windows : List OffPeakWindow → Option ScheduleError
check_windows [] = none
check_windows (w ∷ ws) = elim (check_window w) [ some e ↦ some e | none ↦ check_windows ws ]

unfoldable pub parse_schedule :
    (String → Option Location) → String → List OffPeakWindow → Result ScheduleError Schedule
parse_schedule load_location tz windows = elim (load_location tz) [
  | none ↦ err invalid_timezone
  | some loc ↦ elim (check_windows windows) [
    | some e ↦ err e
    | none ↦ ok (record { timezone = tz; off_peak = windows; loc = some loc })
  ]
]

abbrev pub has_day : List DayOfWeek → DayOfWeek → Bool
has_day days d = any_true (λ x. day_eq x d) days

-- the two tests of the loop body, for the parsed ends of the window
unfoldable pub in_window : List DayOfWeek → DayOfWeek → DayOfWeek → ℕ → ℕ → ℕ → Bool
in_window days today prev_day minutes start end =
    if leb start end
    then has_day days today && leb start minutes && ltb minutes end
    else has_day days today && leb start minutes || has_day days prev_day && ltb minutes end

-- a window with an end that does not parse is passed over
unfoldable pub window_covers : OffPeakWindow → DayOfWeek → DayOfWeek → ℕ → Bool
window_covers w today prev_day minutes = elim (window_minute w.start false) [
  | none ↦ false
  | some start ↦ elim (window_minute w.end true) [
    | none ↦ false
    | some end ↦ in_window w.days today prev_day minutes start end
  ]
]

-- An empty schedule has no window that covers anything, so its early return is the empty loop.
unfoldable pub is_off_peak : Schedule → Time → Bool
is_off_peak s at = elim s.loc [
  | none ↦ false
  | some loc ↦
      any_true
        (λ w.
          window_covers w (day_from_weekday (loc.weekday at)) (day_from_weekday (loc.day_before at))
            (loc.hour at * 60 + loc.minute at))
        s.off_peak
]

unfoldable pub off_peak_at : Option Schedule → Time → Bool
off_peak_at none at = false
off_peak_at (some s) at = is_off_peak s at
