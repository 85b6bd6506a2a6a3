-- ===== src/Routing.antt =====
-- internal/routing/policy.go and internal/routing/signal_gate.go: who may be ranked, the
-- use-it-or-lose-it signal of a quota snapshot, and the verdicts of the signal gate. The off-peak
-- schedule of the same package is `Schedule`. `fmt.Sprintf` on a float is the parameter `format`.
pub mod Rank
pub mod Eligible
pub mod Gate
use Prim.Native.String.{◌++◌}
use polytoken_quota.Prelude.{
  ℕ, ◌+◌, ◌-◌, ◌*◌, ◌/◌, ◌^◌, ◌≡◌, Bool, true, false, not, ◌&&◌, ◌||◌, Option, none, some, List, [],
  ◌∷◌, String, ℤ, pos, negsuc, neg_ℕ, pos_part, ltb_ℤ, leb_ℤ, eq_ℤ, ltb, if◌then◌else◌, str_eq,
  Dict, insert,
}
use polytoken_quota.Clock.{Time, Duration, sub, day, hour, minute}
use polytoken_quota.Floats.{Float, zero_f, one_f, leb_f}
use polytoken_quota.Quota.{
  QuotaAvailability, SourceStatus, QuotaWindow, QuotaSnapshot, remaining, effective_remaining,
  min_quota_cycle_period, is_cycle,
}
use polytoken_quota.Schedule.{Schedule}

abbrev pub default_fresh_ttl : ℕ
default_fresh_ttl = 30 * minute

pub record ProviderPolicy : Type 0 where
  pub mapping_id : String
  pub balance_group : String
  pub schedule : Option Schedule
  pub freshness_ttl : Duration
  pub weight : ℤ

pub record ProviderObs (F : Type 0) : Type 0 where
  pub mapping_id : String
  pub mode : String
  pub snapshot : Option (QuotaSnapshot F)

pub record Eligibility : Type 0 where
  pub rankable : Bool
  pub reason : String

-- a bound that is not positive selects the default: `freshness` and `signalFreshnessTTL`
unfoldable pub freshness : Duration → Duration
freshness ttl = if leb_ℤ ttl (pos 0) then pos default_fresh_ttl else ttl

unfoldable pub is_rankable_mode : String → Bool
is_rankable_mode mode = str_eq mode "normal" || str_eq mode "reserve"

unfoldable pub unrankable : String → Eligibility
unrankable reason = record { rankable = false; reason = reason }

-- The elapsed time of a window, rounded up to whole days: the sum wraps at 2 ^ 63 and the division
-- goes towards zero, as on `int64`.
unfoldable pub ceil_to_day : ℕ → ℤ
ceil_to_day elapsed =
    let n = elapsed + day - 1 in
    if ltb n (2 ^ 63) then pos (n / day * day) else neg_ℕ ((2 ^ 64 - n) / day * day)

-- ResetAt - now, kept between 0 and the period
unfoldable pub time_to_reset : Duration → Time → Time → Duration
time_to_reset period reset now =
    let d = sub reset now in if ltb_ℤ d (pos 0) then pos 0 else if ltb_ℤ period d then period else d

unfoldable pub elapsed_of : Duration → Duration → Duration
elapsed_of period left =
    let e = ceil_to_day (pos_part period - pos_part left) in if ltb_ℤ period e then period else e

pub record SignalGateInput (F : Type 0) : Type 0 where
  pub mapping_id : String
  pub snapshot : Option (QuotaSnapshot F)
  pub freshness_ttl : Duration
  pub threshold : F
  pub enabled : Bool

pub record SignalGateVerdict (F : Type 0) : Type 0 where
  pub mapping_id : String
  pub signal : Option F
  pub gated : Bool
  pub reason : String

-- the sums of the loop in computeSignal
pub record Sums (F : Type 0) : Type 0 where
  pub weighted : F
  pub total_period : F

unfoldable pub is_degraded : SourceStatus → Bool
is_degraded SourceStatus.failed = true
is_degraded SourceStatus.partial = true
is_degraded _ = false

module _ {F : Type 0} ⦃fl : Float F⦄ where
  open fl use {ltb_f, is_nan, is_inf, of_int, add_f, sub_f, mul_f, div_f, max_f, min_f}

  -- `rem == nil || *rem <= 0`
  unfoldable pub is_unusable : Option F → Bool
  is_unusable none = true
  is_unusable (some rem) = leb_f rem zero_f

  unfoldable pub by_remaining : Option F → Eligibility
  unfolding is_unusable unrankable
  by_remaining o =
      if is_unusable o
      then unrankable "no usable quota data"
      else record { rankable = true; reason = "" }

  unfoldable pub by_availability : QuotaSnapshot F → QuotaAvailability → Eligibility
  unfolding by_remaining
  by_availability snap QuotaAvailability.available = by_remaining (effective_remaining snap)
  by_availability snap QuotaAvailability.unavailable = unrankable "quota exhausted/unavailable"
  by_availability snap _ = unrankable "no usable quota data"

  unfoldable pub by_source : QuotaSnapshot F → SourceStatus → Eligibility
  unfolding by_availability
  by_source snap SourceStatus.failed = unrankable "authentication/configuration failure"
  by_source snap SourceStatus.partial = unrankable "partial quota data"
  by_source snap _ = by_availability snap snap.availability

  unfoldable pub by_snapshot : Duration → Time → Option (QuotaSnapshot F) → Eligibility
  unfolding by_source
  by_snapshot ttl now none = unrankable "no fresh snapshot"
  by_snapshot ttl now (some snap) =
      if ltb_ℤ ttl (sub now snap.checked_at)
      then unrankable "no fresh snapshot"
      else by_source snap snap.status

  unfoldable pub check_eligibility : ProviderPolicy → ProviderObs F → Time → Eligibility
  unfolding by_snapshot
  check_eligibility policy obs now =
      if not (is_rankable_mode obs.mode)
      then unrankable "disabled"
      else by_snapshot (freshness policy.freshness_ttl) now obs.snapshot

  -- the gap of a window, between what is left of the quota and what is left of the time
  unfoldable pub gap : Duration → Duration → F → F
  gap period left rem =
      let p = of_int period in
      let elapsed_frac =
        max_f (div_f (of_int (elapsed_of period left)) p) (div_f (of_int (pos (5 * minute))) p) in
      let left_frac = max_f (div_f (of_int left) p) (div_f (of_int (pos hour)) p) in
      sub_f (div_f rem left_frac) (div_f (sub_f one_f rem) elapsed_frac)

  unfoldable pub add_gap : Sums F → Duration → Time → Time → F → Sums F
  add_gap s period reset now rem =
      let p = of_int period in
      record {
        weighted = add_f s.weighted (mul_f (gap period (time_to_reset period reset now) rem) p);
        total_period = add_f s.total_period p;
      }

  -- the fields of a window that qualifies
  unfoldable pub window_sums : Sums F → Time → Option Duration → Option Time → Option F → Sums F
  unfolding add_gap
  window_sums s now (some period) (some reset) (some rem) =
      if ltb_ℤ period (pos min_quota_cycle_period) || is_nan rem
      then s
      else add_gap s period reset now rem
  window_sums s now _ _ _ = s

  unfoldable pub sums_loop : Sums F → Time → List (QuotaWindow F) → Sums F
  unfolding window_sums
  sums_loop s now [] = s
  sums_loop s now (w ∷ ws) = sums_loop (window_sums s now w.period w.reset_at (remaining w)) now ws

  -- `totalPeriod == 0`
  unfoldable pub is_zero_f : F → Bool
  is_zero_f x = not (ltb_f x zero_f) && not (ltb_f zero_f x) && not (is_nan x)

  abbrev pub signal_clamp : F
  signal_clamp = of_int (pos 100)

  -- `-signalClamp`
  abbrev pub minus_signal_clamp : F
  minus_signal_clamp = of_int (negsuc 99)

  unfoldable pub clamp_signal : F → F
  clamp_signal x = max_f minus_signal_clamp (min_f signal_clamp x)

  -- computeSignal on a snapshot: none for ok=false
  unfoldable pub compute_signal : QuotaSnapshot F → Time → Option F
  compute_signal snap now =
      let s = sums_loop (record { weighted = zero_f; total_period = zero_f }) now snap.windows in
      if is_zero_f s.total_period
      then none
      else some (clamp_signal (div_f s.weighted s.total_period))

  -- NaN, an infinity, or positive
  unfoldable pub is_invalid_threshold : F → Bool
  is_invalid_threshold t = is_nan t || is_inf t || ltb_f zero_f t

  module _ (format : F → String) where
    unfoldable pub not_gated : SignalGateInput F → String → SignalGateVerdict F
    not_gated i reason = record {
      mapping_id = i.mapping_id;
      signal = none;
      gated = false;
      reason = reason;
    }

    unfoldable pub compare_signal : SignalGateInput F → Option F → SignalGateVerdict F
    unfolding not_gated
    compare_signal i none = not_gated i "no qualifying quota window"
    compare_signal i (some s) =
        if leb_f s i.threshold
        then record {
          mapping_id = i.mapping_id;
          signal = some s;
          gated = true;
          reason = "signal " ++ format s ++ " <= threshold " ++ format i.threshold;
        }
        else record {
          mapping_id = i.mapping_id;
          signal = some s;
          gated = false;
          reason = "signal " ++ format s ++ " above threshold " ++ format i.threshold;
        }

    unfoldable pub gate_snapshot :
        SignalGateInput F → Time → Option (QuotaSnapshot F) → SignalGateVerdict F
    unfolding compare_signal
    gate_snapshot i now none = not_gated i "no quota snapshot"
    gate_snapshot i now (some snap) =
        if ltb_ℤ (freshness i.freshness_ttl) (sub now snap.checked_at)
        then not_gated i "stale quota snapshot"
        else if is_degraded snap.status
        then not_gated i "degraded quota source"
        else compare_signal i (compute_signal snap now)

    unfoldable pub signal_gate_verdict : SignalGateInput F → Time → SignalGateVerdict F
    unfolding gate_snapshot
    signal_gate_verdict i now =
        if not i.enabled
        then not_gated i "signal gate disabled"
        else if is_invalid_threshold i.threshold
        then not_gated i "invalid signal threshold"
        else gate_snapshot i now i.snapshot

    unfoldable pub verdict_loop :
        Time → Dict (SignalGateVerdict F) → List (SignalGateInput F) → Dict (SignalGateVerdict F)
    unfolding signal_gate_verdict
    verdict_loop now out [] = out
    verdict_loop now out (i ∷ inputs) =
        verdict_loop now (insert i.mapping_id (signal_gate_verdict i now) out) inputs

    unfoldable pub signal_gate_verdicts :
        List (SignalGateInput F) → Time → Dict (SignalGateVerdict F)
    unfolding verdict_loop
    signal_gate_verdicts inputs now = verdict_loop now [] inputs
