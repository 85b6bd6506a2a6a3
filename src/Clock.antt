-- ===== src/Clock.antt =====
-- Go's `time` package as the program uses it. A `time.Time` is the number of nanoseconds since
-- Go's zero time (January 1 of year 1, UTC), so the zero value is 0 and no earlier instant is
-- represented; a `time.Duration` is a signed number of nanoseconds.
use polytoken_quota.Prelude.{
  ℕ, ◌-◌, ◌*◌, ◌^◌, ◌<◌, ◌+◌, Bool, ℤ, pos, neg_ℕ, ltb_ℤ, ltb, leb, ◌==◌, min, if◌then◌else◌, arith,
  ◌≡◌, true, ◌↔◌,
}

abbrev pub Time : Type 0
Time = ℕ

abbrev pub Duration : Type 0
Duration = ℤ

-- t.IsZero()
abbrev pub is_zero : Time → Bool
is_zero t = t == 0

-- a.After(b)
abbrev pub after : Time → Time → Bool
after a b = ltb b a

-- a.Before(b)
abbrev pub before : Time → Time → Bool
before a b = ltb a b

abbrev pub max_duration : ℕ
max_duration = 2 ^ 63 - 1

-- a.Sub(b), which saturates at the ends of `int64`.
abbrev pub sub : Time → Time → Duration
sub a b = if leb b a then pos (min (a - b) max_duration) else neg_ℕ (min (b - a) (2 ^ 63))

abbrev pub second : ℕ
second = 1000000000

abbrev pub minute : ℕ
minute = 60 * second

abbrev pub hour : ℕ
hour = 60 * minute

abbrev pub day : ℕ
day = 24 * hour

-- `now.Sub(t) > ttl`, for a time-to-live in range, says that more than `ttl` has passed.
pub sub_gt_iff :
    (now t ttl : ℕ) → ttl < max_duration → (ltb_ℤ (pos ttl) (sub now t) ≡ true) ↔ (t + ttl < now)
sub_gt_iff now t ttl h = (λ e. ground arith, λ e. ground arith)
