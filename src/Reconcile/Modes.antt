-- ===== src/Reconcile/Modes.antt =====
-- The effective mode of a mapping in internal/reconcile/reconcile.go, with the quota-gate
-- exemption.
pub mod Exempt
use polytoken_quota.Prelude.{
  ℕ, ◌≡◌, Bool, true, false, not, ◌&&◌, ◌||◌, Option, none, some, List, [], ◌∷◌, String,
  if◌then◌else◌, Dict, lookup,
}
use polytoken_quota.Floats.{Float, zero_f, leb_f}
use polytoken_quota.Quota.{QuotaSnapshot, QuotaAvailability, effective_remaining}
use polytoken_quota.State.{
  Mode, Quota, Availability, ProviderState, State, effective_mode, normalize_provider_axes,
  valid_quota, valid_availability, quota_eq, availability_eq,
}
use polytoken_quota.Policy.{Mapping, Desired, QuotaGateConfig}

unfoldable pub mode_rank : Mode → ℕ
mode_rank Mode.disabled = 2
mode_rank Mode.reserve = 1
mode_rank Mode.normal = 0

-- QuotaGateConfig.Resolved
abbrev pub resolved_gate : QuotaGateConfig → QuotaGateConfig
resolved_gate g = g

unfoldable pub quota_gate_exempt : {F : Type 0} → Mapping F → Bool
quota_gate_exempt m = elim m.quota [ none ↦ false | some q ↦ (resolved_gate q.gate).disabled ]

-- `snap.Availability == quota.QuotaAvailable`
unfoldable pub is_available : QuotaAvailability → Bool
is_available QuotaAvailability.available = true
is_available _ = false

module _ {F : Type 0} ⦃fl : Float F⦄ where
  -- `rem == nil || *rem <= 0`
  unfoldable pub no_allowance : Option F → Bool
  no_allowance none = true
  no_allowance (some rem) = leb_f rem zero_f

  unfoldable pub snapshot_quota_unavailable : ProviderState F → Bool
  unfolding is_available no_allowance
  snapshot_quota_unavailable ps = elim ps.quota_snapshot [
    | none ↦ false
    | some snap ↦ not (is_available snap.availability) || no_allowance (effective_remaining snap)
  ]

  unfoldable pub quota_gate_exempt_mode : ProviderState F → Mode
  unfolding normalize_provider_axes valid_quota valid_availability quota_eq availability_eq
  quota_gate_exempt_mode ps =
      let (q, av) = normalize_provider_axes ps in
      if ps.manual_disabled
      then Mode.disabled
      else if not (valid_quota q) || not (valid_availability av)
      then Mode.disabled
      else if snapshot_quota_unavailable ps
      then Mode.reserve
      else if availability_eq av Availability.unavailable
          || quota_eq q Quota.exhausted
          || quota_eq q Quota.low
      then Mode.reserve
      else Mode.normal

  -- the mode of a mapping that the policy enrolls and the state has seen
  unfoldable pub mode_of : Mapping F → ProviderState F → Mode
  mode_of m ps =
      if quota_gate_exempt m
      then quota_gate_exempt_mode ps
      else if snapshot_quota_unavailable ps
      then Mode.disabled
      else effective_mode ps

  unfoldable pub mapping_mode : Desired F → State F → String → Mode
  mapping_mode d s id = elim (lookup id d.providers) [
    | none ↦ Mode.normal
    | some m ↦ elim (lookup id s.providers) [ none ↦ Mode.normal | some ps ↦ mode_of m ps ]
  ]
