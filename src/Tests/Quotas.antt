-- ===== src/Tests/Quotas.antt =====
-- The theorems on quota observations, at concrete snapshots.
use polytoken_quota.Prelude.{
  ◌≡◌, refl, inl, inr, some, [], ◌∷◌, String, pos, All, Any, arith, ◌≤ℤ◌, ◌*◌,
}
use polytoken_quota.Clock.{Time, Duration, day}
use polytoken_quota.Quota.{
  clamp01, remaining, effective_remaining, min_loop, min_step, next_quota_reset_at, usable_count_at,
  count_unexpired,
}
use polytoken_quota.Quota.Remaining.{IsNumber, NotBelow, effective_remaining-minimum}
use polytoken_quota.Quota.Reset.{IsCycle, next_quota_reset_at-longest}
use polytoken_quota.Tests.Fixed.{fixed}
use polytoken_quota.Tests.Data.{weekly, session, snapshot, credits}

half : remaining (weekly 150) ≡ some (pos 150)
unfolding remaining clamp01
half = refl

numbers : All (λ w. IsNumber (remaining w)) (snapshot 150).windows
unfolding remaining clamp01
numbers = (λ r e. refl, (λ r e. refl, tt))

half_left : effective_remaining (snapshot 150) ≡ some (pos 150)
unfolding effective_remaining min_loop min_step remaining clamp01
half_left = refl

effective_remaining-minimum_example :
    Any (λ w. remaining w ≡ some (pos 150)) (snapshot 150).windows
    × All (λ w. NotBelow (pos 150) (remaining w)) (snapshot 150).windows
effective_remaining-minimum_example =
    effective_remaining-minimum (snapshot 150) (pos 150) numbers half_left

next_quota_reset_at-longest_example :
    (t : Time) × (p : Duration) × (next_quota_reset_at (session ∷ weekly 0 ∷ []) day ≡ some t)
    × Any (IsCycle day t p) (session ∷ weekly 0 ∷ [])
    × All (λ w. (u : Time) (q : Duration) → IsCycle day u q w → q ≤ℤ p) (session ∷ weekly 0 ∷ [])
next_quota_reset_at-longest_example =
    next_quota_reset_at-longest day (session ∷ weekly 0 ∷ []) (10 * day) (pos (7 * day))
      (inr (inl ((refl, inr (omega arith)), refl, omega arith)))

redact : String → String
redact s = "redacted"

two : usable_count_at credits 10 ≡ some 2
unfolding usable_count_at count_unexpired
two = refl

one : usable_count_at credits 60 ≡ some 1
unfolding usable_count_at count_unexpired
one = refl
