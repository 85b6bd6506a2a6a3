-- ===== src/Quota.antt =====
-- internal/quota/types.go: the normalized quota observations, what is derived from them, and the
-- reset-credit sub-observation. A pointer field is an `Option`; floats are those of `Floats`.
pub mod Remaining
pub mod Reset
pub mod Credits
pub mod Evidence
use polytoken_quota.Prelude.{
  ℕ, suc, zero, ◌≡◌, Bool, true, false, not, ◌&&◌, ◌||◌, Option, none, some, List, [], ◌∷◌, String,
  ℤ, pos, if◌then◌else◌, ltb_ℤ, leb_ℤ, is_some,
}
use polytoken_quota.Clock.{Time, Duration, is_zero, after, before, day}
use polytoken_quota.Floats.{Float, zero_f, one_f, leb_f}

-- The text of an enum that is none of the named ones is kept: a state file may hold anything.
pub data QuotaAvailability : Type 0 where
  available unavailable unknown : QuotaAvailability
  empty : QuotaAvailability
  other : String → QuotaAvailability

pub data SourceStatus : Type 0 where
  fresh partial failed : SourceStatus
  empty : SourceStatus
  other : String → SourceStatus

pub record QuotaWindow (F : Type 0) : Type 0 where
  pub name : String
  pub used : Option F
  pub limit : Option F
  pub usage_percent : Option F
  pub reset_at : Option Time
  pub period : Option Duration

pub record ResetCreditInventory : Type 0 where
  pub server_available_count : ℤ
  pub usable_count : ℤ
  pub available_expiries : List (Option Time)
  pub discrepancy_count : ℤ
  pub skipped_count : ℤ
  pub observed_at : Time

pub data CreditAttemptStatus : Type 0 where
  success partial failed skipped : CreditAttemptStatus
  other : String → CreditAttemptStatus

pub record ResetCreditAttempt : Type 0 where
  pub status : CreditAttemptStatus
  pub at : Time
  pub inventory : Option ResetCreditInventory
  pub error : String

pub record UsageCredits : Type 0 where
  pub has_credits : Option Bool
  pub unlimited : Option Bool
  pub balance : Option String

pub record SpendControl (F : Type 0) : Type 0 where
  pub limit : Option F
  pub used : Option F
  pub remaining : Option F
  pub reset_at : Option Time

pub record CodexUsageSummary (F : Type 0) : Type 0 where
  pub observed_at : Time
  pub credits : Option UsageCredits
  pub spend_control : Option (SpendControl F)

pub record ResetCreditState (F : Type 0) : Type 0 where
  pub last_success : Option ResetCreditInventory
  pub latest_attempt : Option ResetCreditAttempt
  pub usage_summary : Option (CodexUsageSummary F)

pub record QuotaSnapshot (F : Type 0) : Type 0 where
  pub mapping_id : String
  pub checked_at : Time
  pub windows : List (QuotaWindow F)
  pub availability : QuotaAvailability
  pub status : SourceStatus
  pub error : String
  pub condition : String
  pub usage_summary : Option (CodexUsageSummary F)
  pub reset_credits : Option ResetCreditAttempt

pub data QuotaClass : Type 0 where
  normal low exhausted unknown : QuotaClass

module _ {F : Type 0} ⦃fl : Float F⦄ where
  open fl use {ltb_f, sub_f, div_f, of_int, third}

  unfoldable pub clamp01 : F → F
  clamp01 v = let v = if ltb_f v zero_f then zero_f else v in if ltb_f one_f v then one_f else v

  -- the fallback on usage_percent
  remaining_of_percent : Option F → Option F
  remaining_of_percent none = none
  remaining_of_percent (some p) =
      some (clamp01 (div_f (sub_f (of_int (pos 100)) p) (of_int (pos 100))))

  remaining_of : Option F → Option F → Option F → Option F
  unfolding remaining_of_percent
  remaining_of (some used) (some limit) percent =
      if ltb_f zero_f limit
      then some (clamp01 (div_f (sub_f limit used) limit))
      else remaining_of_percent percent
  remaining_of _ _ percent = remaining_of_percent percent

  -- Go reads the three fields of `w`.
  unfoldable pub remaining : QuotaWindow F → Option F
  unfolding remaining_of
  remaining w = remaining_of w.used w.limit w.usage_percent

  -- the body of the loop: `min == nil || *rem < *min`
  unfoldable pub min_step : Option F → Option F → Option F
  min_step best none = best
  min_step none (some rem) = some rem
  min_step (some best) (some rem) = if ltb_f rem best then some rem else some best

  unfoldable pub min_loop : Option F → List (QuotaWindow F) → Option F
  min_loop best [] = best
  min_loop best (w ∷ ws) = min_loop (min_step best (remaining w)) ws

  unfoldable pub effective_remaining : QuotaSnapshot F → Option F
  effective_remaining s = min_loop none s.windows

  class_of : Option F → QuotaClass
  class_of none = unknown
  class_of (some rem) =
      if leb_f rem zero_f then exhausted else if ltb_f rem third then low else normal

  unfoldable pub class : QuotaSnapshot F → QuotaClass
  unfolding class_of
  class s = class_of (effective_remaining s)

abbrev pub min_quota_cycle_period : ℕ
min_quota_cycle_period = day

-- The variables of the loop in NextQuotaResetAt.
pub record Anchor : Type 0 where
  pub anchor_reset : Option Time
  pub anchor_period : Duration
  pub fallback : Option Time

-- `w.Period != nil && *w.Period >= MinQuotaCyclePeriod`
unfoldable pub is_cycle : Option Duration → Bool
is_cycle none = false
is_cycle (some p) = leb_ℤ (pos min_quota_cycle_period) p

period_or_zero : Option Duration → Duration
period_or_zero none = pos 0
period_or_zero (some p) = p

-- `anchorReset == nil || *w.Period > anchorPeriod`
is_longer : Option Time → Duration → Duration → Bool
is_longer none best p = true
is_longer (some t) best p = ltb_ℤ best p

-- `fallback == nil || rt.Before(*fallback)`
is_earlier : Option Time → Time → Bool
is_earlier none rt = true
is_earlier (some t) rt = before rt t

-- the loop body for a window that reports the reset `rt`
anchor_at : Option Duration → Time → Anchor → Time → Anchor
unfolding is_cycle period_or_zero is_longer is_earlier
anchor_at period as_of a rt =
    if not (is_zero as_of) && not (after rt as_of)
    then a
    else if is_cycle period
    then (if is_longer a.anchor_reset a.anchor_period (period_or_zero period)
        then record a { anchor_reset = some rt; anchor_period = period_or_zero period }
        else a)
    else if is_earlier a.fallback rt
    then record a { fallback = some rt }
    else a

unfoldable pub anchor_step : {F : Type 0} → Time → Anchor → QuotaWindow F → Anchor
unfolding anchor_at
anchor_step as_of a w = elim w.reset_at [ none ↦ a | some rt ↦ anchor_at w.period as_of a rt ]

unfoldable pub anchor_loop : {F : Type 0} → Time → Anchor → List (QuotaWindow F) → Anchor
anchor_loop as_of a [] = a
anchor_loop as_of a (w ∷ ws) = anchor_loop as_of (anchor_step as_of a w) ws

abbrev pub no_anchor : Anchor
no_anchor = record { anchor_reset = none; anchor_period = pos 0; fallback = none }

abbrev pub first_some : {A : Type 0} → Option A → Option A → Option A
first_some none b = b
first_some (some a) b = some a

unfoldable pub next_quota_reset_at : {F : Type 0} → List (QuotaWindow F) → Time → Option Time
next_quota_reset_at windows as_of =
    let a = anchor_loop as_of no_anchor windows in first_some a.anchor_reset a.fallback

unfoldable pub next_reset_at : {F : Type 0} → QuotaSnapshot F → Option Time
next_reset_at s = next_quota_reset_at s.windows s.checked_at

is_usable : CreditAttemptStatus → Bool
is_usable CreditAttemptStatus.success = true
is_usable CreditAttemptStatus.partial = true
is_usable _ = false

-- `SanitizeText` works on regular expressions of Go's `regexp`, and is the parameter `sanitize`.
unfoldable pub merge_reset_credit_observation :
    {F : Type 0} → (String → String) → ResetCreditState F → ResetCreditAttempt → ResetCreditState F
unfolding is_usable
merge_reset_credit_observation sanitize prior attempt =
    let attempt = record attempt { error = sanitize attempt.error } in
    let prior = record prior { latest_attempt = some attempt } in
    if is_usable attempt.status && is_some attempt.inventory
    then record prior { last_success = attempt.inventory }
    else prior

unfoldable pub merge_codex_usage_summary :
    {F : Type 0} → ResetCreditState F → Option (CodexUsageSummary F) → ResetCreditState F
merge_codex_usage_summary prior summary = record prior { usage_summary = summary }

-- `expiry == nil || expiry.After(asOf)`
abbrev pub is_unexpired : Time → Option Time → Bool
is_unexpired as_of none = true
is_unexpired as_of (some e) = after e as_of

unfoldable pub count_unexpired : Time → List (Option Time) → ℕ
count_unexpired as_of [] = 0
count_unexpired as_of (e ∷ es) =
    let rest = count_unexpired as_of es in if is_unexpired as_of e then suc rest else rest

unfoldable pub usable_count_at : {F : Type 0} → ResetCreditState F → Time → Option ℕ
usable_count_at s as_of = elim s.last_success [
  | none ↦ none
  | some inv ↦ some (count_unexpired as_of inv.available_expiries)
]
