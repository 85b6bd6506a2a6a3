-- ===== src/Tests/States.antt =====
-- The theorems on the observed state, at a concrete state.
use polytoken_quota.Prelude.{
  ◌≡◌, ◌≢◌, refl, true, false, none, some, [], ◌∷◌, String, ℤ, lookup, member, if◌then◌else◌,
  str_eq,
}
use polytoken_quota.State.{
  Quota, Availability, ProviderState, State, or_normal, or_available, valid_quota,
  valid_availability, quota_eq, availability_eq, ProviderPatch,
}
use polytoken_quota.State.Machine.{
  set_provider, set_manual_disabled, manual_loop, set_changed, provider_or_zero, baseline,
}
use polytoken_quota.State.Override.{set_provider_axes}
use polytoken_quota.State.Manual.{set_manual_disabled-lookup}
use polytoken_quota.State.Ownership.{
  normalize_provider_ownership_axes, ownership_of, normalize_provider_ownership_axes_lem,
  IsNormalizedAt,
}
use polytoken_quota.Tests.Fixed.{fixed}
use polytoken_quota.Tests.Data.{state, provider, patch, ownership}

abbrev low : ProviderState ℤ
low = provider Quota.low 150

changed : (set_provider state "codex" patch 9).1 ≡ none
unfolding set_provider valid_quota valid_availability
changed = refl

set_provider_axes_example :
    let next = (set_provider state "codex" patch 9).0 in
    let old = baseline (lookup "codex" state.providers) in
    let new = provider_or_zero (lookup "codex" next.providers) in
    ((q : Quota) → patch.quota ≡ some q → (new.quota ≡ q) × (new.quota_at ≡ 9))
    × (patch.quota ≡ none → (new.quota ≡ old.quota) × (new.quota_at ≡ old.quota_at))
    × ((a : Availability)
        → patch.availability ≡ some a
        → (new.availability ≡ a) × (new.availability_at ≡ 9))
    × (patch.availability ≡ none
        → (new.availability ≡ old.availability) × (new.availability_at ≡ old.availability_at))
    × (record new {
      quota = old.quota;
      quota_at = old.quota_at;
      availability = old.availability;
      availability_at = old.availability_at;
    }
        ≡ old)
    × ((j : String) → "codex" ≢ j → lookup j next.providers ≡ lookup j state.providers)
set_provider_axes_example = set_provider_axes state "codex" patch 9 changed

-- a patch that repeats what the state says
abbrev same : ProviderPatch
same = record { quota = some Quota.normal; availability = some Availability.available }

unchanged : set_changed state "codex" same ≡ false
unfolding set_changed quota_eq availability_eq baseline lookup str_eq
unchanged = refl

accepted : (set_provider state "codex" same 9).1 ≡ none
unfolding set_provider valid_quota valid_availability
accepted = refl

tracked : lookup "codex" state.providers ≡ some (provider Quota.normal 150)
unfolding lookup str_eq
tracked = refl

listed : (set_manual_disabled state ("codex" ∷ []) true 9).1 ≡ none
unfolding set_manual_disabled manual_loop
listed = refl

set_manual_disabled-lookup_example :
    let next = (set_manual_disabled state ("codex" ∷ []) true 9).0 in
    let old = provider_or_zero (lookup "codex" state.providers) in
    (lookup "codex" next.providers ≡ (
      if member "codex" ("codex" ∷ [])
      then some (record old {
        quota = or_normal old.quota;
        availability = or_available old.availability;
        manual_disabled = true;
        manual_disabled_at = 9;
      })
      else lookup "codex" state.providers))
    × (record next { providers = state.providers } ≡ state)
set_manual_disabled-lookup_example =
    set_manual_disabled-lookup true 9 state ("codex" ∷ []) "codex" listed

abbrev owning : State ℤ
owning = record state { provider_ownership = some (("codex", ownership) ∷ []) }

normalize_provider_ownership_axes_lem_example :
    let next = normalize_provider_ownership_axes owning in
    IsNormalizedAt (ownership_of owning "codex") (ownership_of next "codex")
    × (normalize_provider_ownership_axes next ≡ next)
normalize_provider_ownership_axes_lem_example = normalize_provider_ownership_axes_lem owning "codex"
