-- ===== src/State/Effective.antt =====
-- Proofs about `EffectiveMode` of internal/state/machine.go, against the table in its comment.
use polytoken_quota.Prelude.{◌≡◌, ◌↔◌, ◌⊎◌, Bool, true, false, String, arith}
use polytoken_quota.State.{Mode, Quota, Availability, ProviderState, effective_mode}

-- A text that is neither empty nor one of the levels.
abbrev pub IsCorruptQuota : Quota → Type 0
IsCorruptQuota q = (t : String) × (q ≡ Quota.other t)

abbrev pub IsCorruptAvailability : Availability → Type 0
IsCorruptAvailability a = (t : String) × (a ≡ Availability.other t)

-- The causes of the mode "disabled".
abbrev pub IsOff : Bool → Quota → Availability → Type 0
IsOff manual q a =
    (manual ≡ true)
    ⊎ (a ≡ Availability.unavailable)
    ⊎ (q ≡ Quota.exhausted)
    ⊎ IsCorruptQuota q
    ⊎ IsCorruptAvailability a

abbrev pub IsHealthy : Availability → Type 0
IsHealthy a = (a ≡ Availability.available) ⊎ (a ≡ Availability.empty)

module _ {F : Type 0} (ps : ProviderState F) where
  effective_mode_disabled :
      (effective_mode ps ≡ Mode.disabled) ↔ IsOff ps.manual_disabled ps.quota ps.availability
  unfolding effective_mode
  effective_mode_disabled = (λ h. ground arith, λ h. ground arith)

  effective_mode_reserve :
      (effective_mode ps ≡ Mode.reserve)
      ↔ ((ps.manual_disabled ≡ false) × (ps.quota ≡ Quota.low) × IsHealthy ps.availability)
  unfolding effective_mode
  effective_mode_reserve = (λ h. ground arith, λ h. ground arith)

  effective_mode_normal : (effective_mode ps ≡ Mode.normal) ↔ (
      (ps.manual_disabled ≡ false)
      × ((ps.quota ≡ Quota.normal) ⊎ (ps.quota ≡ Quota.empty))
      × IsHealthy ps.availability)
  unfolding effective_mode
  effective_mode_normal = (λ h. ground arith, λ h. ground arith)

  -- The effective mode is "disabled" exactly for a manual disable, an unavailable or exhausted
  -- axis or an axis with an unrecognized text, "reserve" exactly for low quota with a healthy
  -- availability, and "normal" exactly for normal quota with a healthy availability, where an
  -- empty axis counts as healthy.
  pub effective_mode_table :
      ((effective_mode ps ≡ Mode.disabled) ↔ IsOff ps.manual_disabled ps.quota ps.availability)
      × ((effective_mode ps ≡ Mode.reserve)
          ↔ ((ps.manual_disabled ≡ false) × (ps.quota ≡ Quota.low) × IsHealthy ps.availability))
      × ((effective_mode ps ≡ Mode.normal) ↔ (
          (ps.manual_disabled ≡ false)
          × ((ps.quota ≡ Quota.normal) ⊎ (ps.quota ≡ Quota.empty))
          × IsHealthy ps.availability))
  effective_mode_table = (effective_mode_disabled, effective_mode_reserve, effective_mode_normal)
