-- ===== src/Schedule/Windows.antt =====
-- Proofs about the off-peak windows of internal/routing/policy.go.
use polytoken_quota.Prelude.{
  ℕ, ◌+◌, ◌-◌, ◌*◌, ◌<◌, ◌≤◌, ◌≡◌, ◌↔◌, ◌⊎◌, Bool, true, false, not, Option, none, some, List, [],
  ◌∷◌, String, if◌then◌else◌, leb, any_true, ok, arith, inl, inr, All, Any, Bool-cases,
  Option-cases,
}
use Prim.Native.Char.{code}
use polytoken_quota.Clock.{Time}
use polytoken_quota.Schedule.{
  DayOfWeek, OffPeakWindow, Schedule, Location, two_digits, window_minute, has_day, in_window,
  window_covers, is_off_peak, check_window, check_windows, parse_schedule, day_from_weekday,
  minutes_per_day, hours_minutes, in_day, valid_day,
}

in_day_bound : (h m : Option ℕ) (r : ℕ) → in_day h m ≡ some r → r < minutes_per_day
unfolding in_day
in_day_bound (some h) (some m) r e = ground arith
in_day_bound none m r e = absurd (cc)
in_day_bound (some h) none r e = absurd (cc)

hours_minutes_bound : (s : String) (r : ℕ) → hours_minutes s ≡ some r → r < minutes_per_day
unfolding hours_minutes
hours_minutes_bound
      (String.◌∷◌ a (String.◌∷◌ b (String.◌∷◌ c (String.◌∷◌ d (String.◌∷◌ e String.[]))))) r h =
    ground (arith, in_day_bound (two_digits (code a) (code b)) (two_digits (code d) (code e)) r)
hours_minutes_bound _ r h = absurd (cc)

-- A time that parses is a minute of the day, or the end of the day where that is allowed.
window_minute_bound :
    (s : String) (r : ℕ)
    → ((window_minute s false ≡ some r) → r < minutes_per_day)
      × ((window_minute s true ≡ some r) → r ≤ minutes_per_day)
unfolding window_minute
window_minute_bound s r =
    (λ h. ground (arith, hours_minutes_bound s r), λ h. ground (arith, hours_minutes_bound s r))

-- The length of a window in minutes: one that ends before it starts runs past midnight.
abbrev pub window_length : ℕ → ℕ → ℕ
window_length start end = if leb start end then end - start else end + minutes_per_day - start

-- The instant, `minutes` after the midnight of `today`, lies in the window that starts on some day
-- of `days` at `start` and is `window_length` long, that day being today or the day before.
abbrev pub Covers : List DayOfWeek → ℕ → ℕ → DayOfWeek → DayOfWeek → ℕ → Type 0
Covers days start end today prev_day minutes =
    ((has_day days today ≡ true) × (start ≤ minutes) × (minutes < start + window_length start end))
    ⊎ ((has_day days prev_day ≡ true)
        × (start ≤ minutes + minutes_per_day)
        × (minutes + minutes_per_day < start + window_length start end))

in_window_iff :
    (days : List DayOfWeek) (today prev_day : DayOfWeek) (minutes start end : ℕ)
    → minutes < minutes_per_day
    → start < minutes_per_day
    → end ≤ minutes_per_day
    → (in_window days today prev_day minutes start end ≡ true)
      ↔ Covers days start end today prev_day minutes
unfolding in_window
in_window_iff days today prev_day minutes start end hm hs he =
    (λ h. ground arith, λ h. ground arith)

-- A window of a schedule: its ends parse, and it covers the instant.
abbrev pub CoversAt : Location → Time → OffPeakWindow → Type 0
CoversAt loc at w =
    (start : ℕ) × (end : ℕ) × (window_minute w.start false ≡ some start)
    × (window_minute w.end true ≡ some end)
    × Covers w.days start end (day_from_weekday (loc.weekday at))
        (day_from_weekday (loc.day_before at)) (loc.hour at * 60 + loc.minute at)

window_covers_iff :
    (loc : Location) (at : Time) (w : OffPeakWindow)
    → (window_covers w
          (day_from_weekday (loc.weekday at))
          (day_from_weekday (loc.day_before at))
          (loc.hour at * 60 + loc.minute at)
        ≡ true)
      ↔ CoversAt loc at w
unfolding window_covers
window_covers_iff loc at w = elim (Option-cases (window_minute w.start false)) [
  | inl e ↦ (λ h. absurd (ground arith), λ c. absurd (cc (e, c.2)))
  | inr s ↦ elim (Option-cases (window_minute w.end true)) [
    | inl e ↦ (λ h. absurd (ground arith), λ c. absurd (cc (e, c.3)))
    | inr e ↦
        let minutes : ℕ = loc.hour at * 60 + loc.minute at in
        let iff =
          in_window_iff w.days (day_from_weekday (loc.weekday at))
            (day_from_weekday (loc.day_before at)) minutes s.0 e.0
            (omega (arith, loc.hour_bound at, loc.minute_bound at))
            ((window_minute_bound w.start s.0).0 s.1) ((window_minute_bound w.end e.0).1 e.1) in
        (
          λ h. (s.0, e.0, s.1, e.1, iff.0 (ground arith)),
          λ c.
              let ss : s.0 ≡ c.0 = ground arith in
              let ee : e.0 ≡ c.1 = ground arith in
              let inside : in_window w.days (day_from_weekday (loc.weekday at))
                    (day_from_weekday (loc.day_before at)) minutes s.0 e.0
                  ≡ true =
                iff.1 (rw (ss, ee) c.4) in
              ground arith,
        )
  ]
]

Any-window_iff :
    {P : OffPeakWindow → Type 0} (test : OffPeakWindow → Bool) (ws : List OffPeakWindow)
    → ((w : OffPeakWindow) → (test w ≡ true) ↔ P w)
    → (any_true test ws ≡ true) ↔ Any P ws
Any-window_iff test [] iff = (λ h. absurd (cc), λ h. absurd h)
Any-window_iff test (w ∷ ws) iff =
    let (to, from) = Any-window_iff test ws iff in
    (
      λ h. elim (Bool-cases (test w)) [
        | inl e ↦ inl ((iff w).0 e)
        | inr e ↦ inr (to (ground arith))
      ],
      λ h. elim h [ inl p ↦ rw ((iff w).1 p) | inr q ↦ ground (arith, from q) ],
    )

-- A schedule with a location is off-peak at an instant exactly when some window, started today or
-- the day before on one of its days, still runs: midnight-crossing windows included.
pub is_off_peak_iff :
    (s : Schedule) (loc : Location) (at : Time)
    → s.loc ≡ some loc
    → (is_off_peak s at ≡ true) ↔ Any (CoversAt loc at) s.off_peak
unfolding is_off_peak
is_off_peak_iff s loc at e =
    rw (e, is_off_peak) (Any-window_iff _ s.off_peak (λ w. window_covers_iff loc at w))

-- What ParseSchedule accepts: every day of every window is known, and both its ends parse.
abbrev pub IsWellFormed : OffPeakWindow → Type 0
IsWellFormed w =
    (any_true (λ d. not (valid_day d)) w.days ≡ false)
    × ((m : ℕ) × (window_minute w.start false ≡ some m) × (m < minutes_per_day))
    × ((m : ℕ) × (window_minute w.end true ≡ some m) × (m ≤ minutes_per_day))

check_window_sound : (w : OffPeakWindow) → check_window w ≡ none → IsWellFormed w
unfolding check_window
check_window_sound w h = elim (Option-cases (window_minute w.start false)) [
  | inl e ↦ absurd (ground arith)
  | inr s ↦ elim (Option-cases (window_minute w.end true)) [
    | inl e ↦ absurd (ground arith)
    | inr e ↦ (
      ground arith,
      (s.0, s.1, (window_minute_bound w.start s.0).0 s.1),
      (e.0, e.1, (window_minute_bound w.end e.0).1 e.1),
    )
  ]
]

check_windows_sound : (ws : List OffPeakWindow) → check_windows ws ≡ none → All IsWellFormed ws
unfolding check_windows
check_windows_sound [] h = tt
check_windows_sound (w ∷ ws) h =
    (check_window_sound w (ground arith), check_windows_sound ws (ground arith))

-- A schedule that ParseSchedule returns is well formed: every day of a window is known, a start is
-- a minute of the day, an end is one or the end of the day, and the location is the loaded one.
pub parse_schedule-IsWellFormed :
    (load_location : String → Option Location) (tz : String) (ws : List OffPeakWindow)
    (s : Schedule)
    → parse_schedule load_location tz ws ≡ ok s
    → (s.off_peak ≡ ws) × (s.loc ≡ load_location tz) × All IsWellFormed s.off_peak
unfolding parse_schedule
parse_schedule-IsWellFormed load_location tz ws s h = elim (Option-cases (load_location tz)) [
  | inl e ↦ absurd (ground arith)
  | inr l ↦ elim (Option-cases (check_windows ws)) [
    | inr e ↦ absurd (ground arith)
    | inl good ↦
        let same : s.off_peak ≡ ws = ground arith in
        (same, ground arith, rw same (check_windows_sound ws good))
  ]
]
