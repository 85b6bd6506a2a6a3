-- ===== src/State/Override.antt =====
-- Proofs about `SetProvider`, `SetChanged`, `ClearProvider` and `ClearChanged` of
-- internal/state/machine.go.
use polytoken_quota.Prelude.{
  ◌≡◌, ◌≢◌, ◌↔◌, ◌⊎◌, ◌∙◌, refl, ap, true, false, not, Option, none, some, [], ◌∷◌, String, arith,
  inl, inr, Dict, lookup, insert, map_entries, lookup-insert, lookup-map_entries, map_option,
  str_eq_iff, str_eq_refl, str_eq_of_ne, is_empty, if◌then◌else◌, Option-cases, any_true, ◌&&◌,
  ◌||◌,
}
use polytoken_quota.Clock.{Time}
use polytoken_quota.State.{
  Mode, Quota, Availability, ProviderState, ProviderPatch, Selector, State, effective_mode,
  valid_quota, valid_availability, quota_eq, availability_eq,
}
use polytoken_quota.State.Machine.{
  Error, baseline, provider_or_zero, patch_provider, set_provider, set_changed, clear_provider,
  clear_changed, cleared, selects,
}

quota_eq→eq : (a b : Quota) → quota_eq a b ≡ true → a ≡ b
unfolding quota_eq
quota_eq→eq Quota.empty Quota.empty h = refl
quota_eq→eq Quota.normal Quota.normal h = refl
quota_eq→eq Quota.low Quota.low h = refl
quota_eq→eq Quota.exhausted Quota.exhausted h = refl
quota_eq→eq (Quota.other s) (Quota.other t) h = ap Quota.other ((str_eq_iff s t).0 h)
quota_eq→eq _ _ h = absurd (cc)

availability_eq→eq : (a b : Availability) → availability_eq a b ≡ true → a ≡ b
unfolding availability_eq
availability_eq→eq Availability.empty Availability.empty h = refl
availability_eq→eq Availability.available Availability.available h = refl
availability_eq→eq Availability.unavailable Availability.unavailable h = refl
availability_eq→eq (Availability.other s) (Availability.other t) h =
    ap Availability.other ((str_eq_iff s t).0 h)
availability_eq→eq _ _ h = absurd (cc)

-- A patch that SetProvider accepts for a provider.
abbrev pub IsAccepted : String → ProviderPatch → Type 0
IsAccepted provider patch =
    (is_empty provider ≡ false)
    × ((patch.quota ≢ none) ⊎ (patch.availability ≢ none))
    × ((q : Quota) → patch.quota ≡ some q → valid_quota q ≡ true)
    × ((a : Availability) → patch.availability ≡ some a → valid_availability a ≡ true)

patched_axes :
    {F : Type 0} (patch : ProviderPatch) (at : Time) (old : ProviderState F)
    → let new = patch_provider patch at old in
      ((q : Quota) → patch.quota ≡ some q → (new.quota ≡ q) × (new.quota_at ≡ at))
      × ((patch.quota ≡ none → (new.quota ≡ old.quota) × (new.quota_at ≡ old.quota_at))
          × (((a : Availability)
                → patch.availability ≡ some a
                → (new.availability ≡ a) × (new.availability_at ≡ at))
              × ((patch.availability ≡ none
                    → (new.availability ≡ old.availability)
                      × (new.availability_at ≡ old.availability_at))
                  × (record new {
                    quota = old.quota;
                    quota_at = old.quota_at;
                    availability = old.availability;
                    availability_at = old.availability_at;
                  }
                      ≡ old))))
unfolding patch_provider
patched_axes patch at old = (
  λ q e. ground arith,
  (λ e. ground arith, (λ a e. ground arith, (λ e. ground arith, ground arith))),
)

module _ {F : Type 0} (s : State F) (provider : String) (patch : ProviderPatch) (at : Time) where
  set_provider_accepts : ((set_provider s provider patch at).1 ≡ none) → IsAccepted provider patch
  unfolding set_provider
  set_provider_accepts h = (ground arith, ground arith, λ q e. ground arith, λ a e. ground arith)

  set_provider_accepted : IsAccepted provider patch → (set_provider s provider patch at).1 ≡ none
  unfolding set_provider
  set_provider_accepted h = elim (Option-cases patch.quota) [
    | inl e ↦ elim (Option-cases patch.availability) [
      | inl e' ↦ ground arith
      | inr a ↦ let v : valid_availability a.0 ≡ true = h.3 a.0 a.1 in ground arith
    ]
    | inr q ↦
        let u : valid_quota q.0 ≡ true = h.2 q.0 q.1 in
        elim (Option-cases patch.availability) [
          | inl e' ↦ ground arith
          | inr a ↦ let v : valid_availability a.0 ≡ true = h.3 a.0 a.1 in ground arith
        ]
  ]

  set_provider_unchanged :
      (e : Error)
      → (set_provider s provider patch at).1 ≡ some e
      → (set_provider s provider patch at).0 ≡ s
  unfolding set_provider
  set_provider_unchanged e h = ground arith

  set_provider_written :
      (set_provider s provider patch at).1 ≡ none
      → (set_provider s provider patch at).0 ≡ record s {
        providers =
            insert provider
              (patch_provider patch at (baseline (lookup provider s.providers)))
              s.providers;
      }
  unfolding set_provider
  set_provider_written ok = ground arith

  -- SetProvider succeeds exactly on a named provider, a patch with a field, and valid values; on
  -- an error it gives the state back as it was.
  pub set_provider-errors :
      (((set_provider s provider patch at).1 ≡ none) ↔ IsAccepted provider patch)
      × ((e : Error)
          → (set_provider s provider patch at).1 ≡ some e
          → (set_provider s provider patch at).0 ≡ s)
  set_provider-errors = ((set_provider_accepts, set_provider_accepted), set_provider_unchanged)

  -- On success the axes are independent: a field that the patch gives is written with its time, an
  -- axis that the patch leaves out keeps its value and its time, the rest of the provider is as
  -- before (an untracked provider starts healthy), and no other provider changes.
  pub set_provider_axes :
      (set_provider s provider patch at).1 ≡ none
      → let next = (set_provider s provider patch at).0 in
        let old = baseline (lookup provider s.providers) in
        let new = provider_or_zero (lookup provider next.providers) in
        ((q : Quota) → patch.quota ≡ some q → (new.quota ≡ q) × (new.quota_at ≡ at))
        × (patch.quota ≡ none → (new.quota ≡ old.quota) × (new.quota_at ≡ old.quota_at))
        × ((a : Availability)
            → patch.availability ≡ some a
            → (new.availability ≡ a) × (new.availability_at ≡ at))
        × (patch.availability ≡ none
            → (new.availability ≡ old.availability) × (new.availability_at ≡ old.availability_at))
        × (record new {
          quota = old.quota;
          quota_at = old.quota_at;
          availability = old.availability;
          availability_at = old.availability_at;
        }
            ≡ old)
        × ((j : String) → provider ≢ j → lookup j next.providers ≡ lookup j s.providers)
  set_provider_axes ok =
      let new : ProviderState F =
        patch_provider patch at (baseline (lookup provider s.providers)) in
      let here : lookup provider (insert provider new s.providers) ≡ some new =
        lookup-insert provider provider new s.providers ∙ rw (str_eq_refl provider) in
      let (q, (nq, (a, (na, rest)))) =
        patched_axes patch at (baseline (lookup provider s.providers)) in
      rw (set_provider_written ok, here)
        (unfold provider_or_zero in
          (
            q,
            nq,
            a,
            na,
            rest,
            λ j ne. lookup-insert provider j new s.providers ∙ rw (str_eq_of_ne provider j ne),
          ))

same_axes :
    {F : Type 0} (s : State F) (provider : String) (patch : ProviderPatch) (at : Time)
    (old : ProviderState F)
    → lookup provider s.providers ≡ some old
    → set_changed s provider patch ≡ false
    → ((patch_provider patch at old).quota ≡ old.quota)
      × ((patch_provider patch at old).availability ≡ old.availability)
      × ((patch_provider patch at old).manual_disabled ≡ old.manual_disabled)
unfolding set_changed patch_provider
same_axes s provider patch at old tracked same = (
  elim (Option-cases patch.quota) [
    | inl e ↦ ground arith
    | inr q ↦ ground (arith, quota_eq→eq old.quota q.0)
  ],
  elim (Option-cases patch.availability) [
    | inl e ↦ ground arith
    | inr a ↦ ground (arith, availability_eq→eq old.availability a.0)
  ],
  ground arith,
)

-- the mode is a function of three fields
mode_congruence :
    {F : Type 0} (a b : ProviderState F)
    → a.quota ≡ b.quota
    → a.availability ≡ b.availability
    → a.manual_disabled ≡ b.manual_disabled
    → effective_mode a ≡ effective_mode b
unfolding effective_mode
mode_congruence a b q av m = rw (q, av, m)

-- A patch that SetChanged calls no change, and that SetProvider accepts, leaves the quota and the
-- availability of a tracked provider as they are, and with them its effective mode.
pub set_changed-eq-false :
    {F : Type 0} (s : State F) (provider : String) (patch : ProviderPatch) (at : Time)
    (old : ProviderState F)
    → lookup provider s.providers ≡ some old
    → set_changed s provider patch ≡ false
    → (set_provider s provider patch at).1 ≡ none
    → let new = provider_or_zero (lookup provider (set_provider s provider patch at).0.providers) in
      (new.quota ≡ old.quota)
      × (new.availability ≡ old.availability)
      × (effective_mode new ≡ effective_mode old)
set_changed-eq-false s provider patch at old tracked same ok =
    let new = patch_provider patch at old in
    let (q, a, m) = same_axes s provider patch at old tracked same in
    let here : lookup provider (set_provider s provider patch at).0.providers ≡ some new =
      rw (set_provider_written s provider patch at ok, tracked)
        (unfold baseline in
          lookup-insert provider provider new s.providers ∙ rw (str_eq_refl provider)) in
    rw here (unfold provider_or_zero in (q, a, mode_congruence new old q a m))

map_option_id : {A : Type 0} (o : Option A) → map_option (λ a. a) o ≡ o
map_option_id none = refl
map_option_id (some a) = refl

cleared_entries :
    {F : Type 0} (sel : Selector) (at : Time) (m : Dict (ProviderState F))
    → any_true
        (λ entry.
          selects sel entry.0
          && (not (quota_eq entry.1.quota Quota.normal)
              || not (availability_eq entry.1.availability Availability.available)))
        (map_entries (λ k v. if selects sel k then cleared at v else v) m)
      ≡ false
unfolding map_entries quota_eq availability_eq
cleared_entries sel at [] = refl
cleared_entries sel at ((k, v) ∷ m) = ground (arith, cleared_entries sel at m)

clear_provider_written :
    {F : Type 0} (s : State F) (sel : Selector) (at : Time)
    → (clear_provider s sel at).1 ≡ none
    → (clear_provider s sel at).0 ≡ record s {
      providers = map_entries (λ k v. if selects sel k then cleared at v else v) s.providers;
    }
unfolding clear_provider
clear_provider_written s sel at ok = ground arith

cleared_mode :
    {F : Type 0} (at : Time) (ps : ProviderState F)
    → effective_mode (cleared at ps) ≡ (if ps.manual_disabled then Mode.disabled else Mode.normal)
unfolding effective_mode
cleared_mode at ps = ground arith

-- Where ClearProvider succeeds, a selected provider has the mode of a healthy one, unless it is
-- manually disabled, and keeps its snapshot; the others are as before. ClearChanged then answers
-- "no".
pub clear_provider_lem :
    {F : Type 0} (s : State F) (sel : Selector) (at : Time) (j : String)
    → (clear_provider s sel at).1 ≡ none
    → let next = (clear_provider s sel at).0 in
      let old = lookup j s.providers in
      let new = lookup j next.providers in
      (selects sel j ≡ false → new ≡ old)
      × ((ps : ProviderState F)
          → selects sel j ≡ true
          → old ≡ some ps
          → (effective_mode (provider_or_zero new)
              ≡ (if ps.manual_disabled then Mode.disabled else Mode.normal))
            × ((provider_or_zero new).quota_snapshot ≡ ps.quota_snapshot))
      × (clear_changed next sel ≡ false)
clear_provider_lem s sel at j ok =
    rw
      (
        clear_provider_written s sel at ok,
        lookup-map_entries (λ k v. if selects sel k then cleared at v else v) j s.providers,
      )
      (
        λ out. rw out (map_option_id (lookup j s.providers)),
        λ ps chosen tracked.
            rw (tracked, chosen) (unfold provider_or_zero in (cleared_mode at ps, refl)),
        unfold clear_changed in cleared_entries sel at s.providers,
      )
