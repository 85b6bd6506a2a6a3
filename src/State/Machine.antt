-- ===== src/State/Machine.antt =====
-- The transitions of internal/state/machine.go. A Go result `(State, error)` is a pair: on an
-- error the state that comes back is the one that was given.
use polytoken_quota.Prelude.{
  Bool, true, false, not, ◌&&◌, ◌||◌, Option, none, some, List, [], ◌∷◌, String, if◌then◌else◌,
  Dict, lookup, insert, map_entries, str_eq, is_empty, bool_eq, any_true,
}
use polytoken_quota.Clock.{Time}
use polytoken_quota.State.{
  Quota, Availability, ProviderState, ProviderPatch, Selector, State, zero_provider, valid_quota,
  valid_availability, quota_eq, availability_eq, or_normal, or_available,
}

pub data Error : Type 0 where
  no_provider empty_patch invalid_quota invalid_availability no_selector empty_mapping_id : Error

-- the value of a map at a key, the zero value where it is missing
unfoldable pub provider_or_zero : {F : Type 0} → Option (ProviderState F) → ProviderState F
provider_or_zero none = zero_provider
provider_or_zero (some ps) = ps

unfoldable pub baseline : {F : Type 0} → Option (ProviderState F) → ProviderState F
baseline none = record zero_provider { quota = Quota.normal; availability = Availability.available }
baseline (some ps) = ps

patch_quota : {F : Type 0} → Option Quota → Time → ProviderState F → ProviderState F
patch_quota none at ps = ps
patch_quota (some q) at ps = record ps { quota = q; quota_at = at }

patch_availability : {F : Type 0} → Option Availability → Time → ProviderState F → ProviderState F
patch_availability none at ps = ps
patch_availability (some a) at ps = record ps { availability = a; availability_at = at }

unfoldable pub patch_provider :
    {F : Type 0} → ProviderPatch → Time → ProviderState F → ProviderState F
unfolding patch_quota patch_availability
patch_provider patch at ps =
    patch_availability patch.availability at (patch_quota patch.quota at ps)

-- `patch.Quota != nil && !validQuota(*patch.Quota)`
bad_quota : Option Quota → Bool
bad_quota none = false
bad_quota (some q) = not (valid_quota q)

bad_availability : Option Availability → Bool
bad_availability none = false
bad_availability (some a) = not (valid_availability a)

is_nil : {A : Type 0} → Option A → Bool
is_nil none = true
is_nil (some a) = false

unfoldable pub set_provider :
    {F : Type 0} → State F → String → ProviderPatch → Time → State F × Option Error
unfolding bad_quota bad_availability is_nil
set_provider s provider patch at =
    if is_empty provider
    then (s, some no_provider)
    else if is_nil patch.quota && is_nil patch.availability
    then (s, some empty_patch)
    else if bad_quota patch.quota
    then (s, some invalid_quota)
    else if bad_availability patch.availability
    then (s, some invalid_availability)
    else let ps = baseline (lookup provider s.providers) in
      (record s { providers = insert provider (patch_provider patch at ps) s.providers }, none)

unfoldable pub manual_disable_changed : {F : Type 0} → State F → List String → Bool → Bool
unfolding provider_or_zero
manual_disable_changed s [] disabled = false
manual_disable_changed s (p ∷ ps) disabled =
    not (bool_eq (provider_or_zero (lookup p s.providers)).manual_disabled disabled)
    || manual_disable_changed s ps disabled

abbrev pub selects : Selector → String → Bool
selects sel provider = sel.all || str_eq provider sel.provider

unfoldable pub clear_changed : {F : Type 0} → State F → Selector → Bool
unfolding quota_eq availability_eq
clear_changed s sel =
    any_true
      (λ entry.
        selects sel entry.0
        && (not (quota_eq entry.1.quota Quota.normal)
            || not (availability_eq entry.1.availability Availability.available)))
      s.providers

differs_quota : Option Quota → Quota → Bool
differs_quota none q = false
differs_quota (some p) q = not (quota_eq q p)

differs_availability : Option Availability → Availability → Bool
differs_availability none a = false
differs_availability (some p) a = not (availability_eq a p)

unfoldable pub set_changed : {F : Type 0} → State F → String → ProviderPatch → Bool
unfolding provider_or_zero differs_quota differs_availability
set_changed s provider patch =
    let ps = provider_or_zero (lookup provider s.providers) in
    differs_quota patch.quota ps.quota || differs_availability patch.availability ps.availability

abbrev pub cleared : {F : Type 0} → Time → ProviderState F → ProviderState F
cleared at v = record v {
  quota = Quota.normal;
  availability = Availability.available;
  quota_at = at;
  availability_at = at;
}

unfoldable pub clear_provider : {F : Type 0} → State F → Selector → Time → State F × Option Error
clear_provider s sel at = if not sel.all && is_empty sel.provider then (s, some no_selector) else (
  record s {
    providers = map_entries (λ k v. if selects sel k then cleared at v else v) s.providers;
  },
  none,
)

-- the loop body of SetManualDisabled
unfoldable pub manual_entry : {F : Type 0} → Bool → Time → ProviderState F → ProviderState F
manual_entry disabled at ps = record ps {
  quota = or_normal ps.quota;
  availability = or_available ps.availability;
  manual_disabled = disabled;
  manual_disabled_at = at;
}

unfoldable pub manual_loop :
    {F : Type 0}
    → List String
    → Bool
    → Time
    → Dict (ProviderState F)
    → Option (Dict (ProviderState F))
unfolding provider_or_zero
manual_loop [] disabled at m = some m
manual_loop (p ∷ ps) disabled at m =
    let rest =
      manual_loop ps disabled at
        (insert p (manual_entry disabled at (provider_or_zero (lookup p m))) m) in
    if is_empty p then none else rest

unfoldable pub set_manual_disabled :
    {F : Type 0} → State F → List String → Bool → Time → State F × Option Error
set_manual_disabled s providers disabled at = elim (manual_loop providers disabled at s.providers) [
  | none ↦ (s, some empty_mapping_id)
  | some m ↦ (record s { providers = m }, none)
]

unfoldable pub disable_provider : {F : Type 0} → State F → String → Time → State F × Option Error
disable_provider s provider at =
    if is_empty provider
    then (s, some no_provider)
    else set_manual_disabled s (provider ∷ []) true at

unfoldable pub enable_provider : {F : Type 0} → State F → String → Time → State F × Option Error
enable_provider s provider at =
    if is_empty provider
    then (s, some no_provider)
    else set_manual_disabled s (provider ∷ []) false at

abbrev pub lift_disable : {F : Type 0} → Time → ProviderState F → ProviderState F
lift_disable at ps =
    if ps.manual_disabled
    then record ps { manual_disabled = false; manual_disabled_at = at }
    else ps

unfoldable pub reset_manual_disables : {F : Type 0} → State F → Time → State F × Option Error
reset_manual_disables s at =
    (record s { providers = map_entries (λ k ps. lift_disable at ps) s.providers }, none)
