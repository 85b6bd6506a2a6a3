-- ===== src/State/Manual.antt =====
-- Proofs about the manual disables of internal/state/machine.go.
use polytoken_quota.Prelude.{
  ◌≡◌, ◌↔◌, ◌∙◌, refl, ap, Bool, true, false, Option, none, some, List, [], ◌∷◌, String, arith, inl,
  inr, Dict, lookup, insert, map_entries, lookup-insert, lookup-map_entries, map_option, str_eq,
  str_eq_iff, str_eq_refl, is_empty, All, In, if◌then◌else◌, Option-cases, member,
}
use text.Mathlib.TextLemmas.{cons≢nil}
use polytoken_quota.Clock.{Time}
use polytoken_quota.State.{Mode, ProviderState, State, effective_mode, or_normal, or_available}
use polytoken_quota.State.Machine.{
  empty_mapping_id, provider_or_zero, manual_entry, manual_loop, set_manual_disabled,
  manual_disable_changed, disable_provider, enable_provider, reset_manual_disables, lift_disable,
}

module _ {F : Type 0} (disabled : Bool) (at : Time) where
  manual_entry_twice :
      (ps : ProviderState F)
      → manual_entry disabled at (manual_entry disabled at ps) ≡ manual_entry disabled at ps
  unfolding manual_entry
  manual_entry_twice ps = ground arith

  -- The map after the loop: each listed provider has its entry rewritten, once.
  manual_loop-lookup :
      (ids : List String) (m m' : Dict (ProviderState F)) (j : String)
      → manual_loop ids disabled at m ≡ some m'
      → lookup j m' ≡ (
          if member j ids
          then some (manual_entry disabled at (provider_or_zero (lookup j m)))
          else lookup j m)
  unfolding manual_loop
  manual_loop-lookup [] m m' j h = ground arith
  manual_loop-lookup (p ∷ ids) m m' j h =
      let m₁ : Dict (ProviderState F) =
        insert p (manual_entry disabled at (provider_or_zero (lookup p m))) m in
      let go : manual_loop ids disabled at m₁ ≡ some m' = ground arith in
      let step : lookup j m₁ ≡ (
          if str_eq p j
          then some (manual_entry disabled at (provider_or_zero (lookup p m)))
          else lookup j m) =
        lookup-insert p j (manual_entry disabled at (provider_or_zero (lookup p m))) m in
      ground (
        arith,
        step,
        manual_loop-lookup ids m₁ m' j go,
        str_eq_iff p j,
        manual_entry_twice (provider_or_zero (lookup p m)),
      )

  manual_loop-none :
      (ids : List String) (m : Dict (ProviderState F))
      → (manual_loop ids disabled at m ≡ none) ↔ In "" ids
  unfolding manual_loop
  manual_loop-none [] m = (λ h. cc, λ h. absurd h)
  manual_loop-none (String.[] ∷ ids) m = (λ h. inl refl, λ h. refl)
  manual_loop-none (String.◌∷◌ c p ∷ ids) m =
      let m₁ : Dict (ProviderState F) =
        insert (String.◌∷◌ c p)
          (manual_entry disabled at (provider_or_zero (lookup (String.◌∷◌ c p) m))) m in
      (
        λ h. inr ((manual_loop-none ids m₁).0 h),
        λ h. elim h [ inl e ↦ absurd (cons≢nil e) | inr r ↦ (manual_loop-none ids m₁).1 r ],
      )

  -- SetManualDisabled fails exactly when a mapping ID is empty, and then changes nothing.
  pub set_manual_disabled-fails :
      (s : State F) (ids : List String)
      → (((set_manual_disabled s ids disabled at).1 ≡ some empty_mapping_id) ↔ In "" ids)
        × (In "" ids → (set_manual_disabled s ids disabled at).0 ≡ s)
  unfolding set_manual_disabled
  set_manual_disabled-fails s ids = elim (Option-cases (manual_loop ids disabled at s.providers)) [
    | inl e ↦
        rw (e, set_manual_disabled)
          ((λ h. (manual_loop-none ids s.providers).0 e, λ h. refl), λ h. refl)
    | inr e ↦
        let never : In "" ids → ⊥ = λ h. cc (e.1, (manual_loop-none ids s.providers).1 h) in
        rw (e.1, set_manual_disabled)
          ((λ h. absurd (cc), λ h. absurd (never h)), λ h. absurd (never h))
  ]

  -- Where it succeeds, each listed provider has the requested value and time, its empty axes read
  -- as healthy and all else as before, and every other provider is as before; nothing but the
  -- providers changes.
  pub set_manual_disabled-lookup :
      (s : State F) (ids : List String) (j : String)
      → (set_manual_disabled s ids disabled at).1 ≡ none
      → let next = (set_manual_disabled s ids disabled at).0 in
        let old = provider_or_zero (lookup j s.providers) in
        (lookup j next.providers ≡ (
          if member j ids
          then some (record old {
            quota = or_normal old.quota;
            availability = or_available old.availability;
            manual_disabled = disabled;
            manual_disabled_at = at;
          })
          else lookup j s.providers))
        × (record next { providers = s.providers } ≡ s)
  unfolding set_manual_disabled
  set_manual_disabled-lookup s ids j h =
      elim (Option-cases (manual_loop ids disabled at s.providers)) [
        | inl e ↦ absurd (ground arith)
        | inr e ↦
            rw (e.1, set_manual_disabled)
              (manual_loop-lookup ids s.providers e.0 j e.1 ∙ unfold manual_entry in refl, refl)
      ]

-- The mode at a provider; an untracked one reads as the zero value.
abbrev pub mode_at : {F : Type 0} → State F → String → Mode
mode_at s p = effective_mode (provider_or_zero (lookup p s.providers))

effective_mode-manual :
    {F : Type 0} (disabled : Bool) (at : Time) (ps : ProviderState F)
    → effective_mode (manual_entry disabled at ps)
      ≡ (if disabled then Mode.disabled else effective_mode (record ps { manual_disabled = false }))
unfolding effective_mode manual_entry
effective_mode-manual disabled at ps = ground arith

module _ {F : Type 0} (s : State F) (p : String) (at : Time) (named : is_empty p ≡ false) where
  entry_after :
      (disabled : Bool)
      → lookup p (set_manual_disabled s (p ∷ []) disabled at).0.providers
        ≡ some (manual_entry disabled at (provider_or_zero (lookup p s.providers)))
  unfolding set_manual_disabled manual_loop
  entry_after disabled = ground (
    arith,
    str_eq_refl p,
    lookup-insert p p (manual_entry disabled at (provider_or_zero (lookup p s.providers)))
        s.providers,
  )

  disable_provider-eq : disable_provider s p at ≡ set_manual_disabled s (p ∷ []) true at
  unfolding disable_provider
  disable_provider-eq = rw named

  enable_provider-eq : enable_provider s p at ≡ set_manual_disabled s (p ∷ []) false at
  unfolding enable_provider
  enable_provider-eq = rw named

lifted_mode :
    {F : Type 0} (at : Time) (ps : ProviderState F)
    → effective_mode (record (manual_entry true at ps) { manual_disabled = false })
      ≡ effective_mode (record ps { manual_disabled = false })
unfolding effective_mode manual_entry
lifted_mode at ps = ground arith

entry_mode :
    {F : Type 0} (o : Option (ProviderState F)) (ps : ProviderState F)
    → o ≡ some ps
    → effective_mode (provider_or_zero o) ≡ effective_mode ps
unfolding provider_or_zero
entry_mode o ps e = rw e

-- DisableProvider makes the effective mode "disabled"; a later EnableProvider gives back the
-- mode that the automatic observations alone have, whatever was disabled before. The provider is
-- named.
pub disable-enable :
    {F : Type 0} (s : State F) (p : String) (at later : Time)
    → is_empty p ≡ false
    → let off = (disable_provider s p at).0 in
      let on = (enable_provider off p later).0 in
      (mode_at off p ≡ Mode.disabled)
      × (mode_at on p
          ≡ effective_mode
              (record (provider_or_zero (lookup p s.providers)) { manual_disabled = false }))
disable-enable {F} s p at later named =
    let old : ProviderState F = provider_or_zero (lookup p s.providers) in
    let off : State F = (set_manual_disabled s (p ∷ []) true at).0 in
    let first : lookup p off.providers ≡ some (manual_entry true at old) =
      entry_after s p at named true in
    (
      rw (disable_provider-eq s p at named)
          (entry_mode _ _ first ∙ effective_mode-manual true at old),
      rw (disable_provider-eq s p at named, enable_provider-eq off p later named)
          (entry_mode _ _ (entry_after off p later named false)
            ∙ effective_mode-manual false later (provider_or_zero (lookup p off.providers))
            ∙ ap
                (λ (o : Option (ProviderState F)).
                  effective_mode (record (provider_or_zero o) { manual_disabled = false }))
                first
            ∙ (unfold provider_or_zero in lifted_mode at old)),
    )

-- ManualDisableChanged answers "no" exactly when every listed provider already has the value.
pub manual_disable_changed-eq-false :
    {F : Type 0} (s : State F) (ids : List String) (disabled : Bool)
    → (manual_disable_changed s ids disabled ≡ false)
      ↔ All (λ p. (provider_or_zero (lookup p s.providers)).manual_disabled ≡ disabled) ids
unfolding manual_disable_changed
manual_disable_changed-eq-false s [] disabled = (λ h. tt, λ h. refl)
manual_disable_changed-eq-false s (p ∷ ids) disabled =
    let (to, from) = manual_disable_changed-eq-false s ids disabled in
    (λ h. (ground arith, to (ground arith)), λ h. ground (arith, from h.1))

abbrev lifted : {F : Type 0} → Time → Dict (ProviderState F) → Dict (ProviderState F)
lifted at m = map_entries (λ k ps. lift_disable at ps) m

lifted_twice :
    {F : Type 0} (at at' : Time) (m : Dict (ProviderState F))
    → lifted at' (lifted at m) ≡ lifted at m
unfolding map_entries
lifted_twice at at' [] = refl
lifted_twice at at' ((k, ps) ∷ m) = ground (arith, lifted_twice at at' m)

lifted_entry :
    {F : Type 0} (at : Time) (o : Option (ProviderState F))
    → (effective_mode (provider_or_zero (map_option (lift_disable at) o))
        ≡ effective_mode (record (provider_or_zero o) { manual_disabled = false }))
      × ((provider_or_zero (map_option (lift_disable at) o)).manual_disabled ≡ false)
unfolding effective_mode provider_or_zero
lifted_entry at none = (refl, refl)
lifted_entry at (some ps) = (ground arith, ground arith)

-- After ResetManualDisables no tracked provider is manually disabled, the effective mode of each
-- is the one of its automatic observations, and a second reset, at any time, changes nothing.
pub reset_manual_disables_lem :
    {F : Type 0} (s : State F) (at later : Time)
    → let next = (reset_manual_disables s at).0 in
      ((p : String)
        → (mode_at next p
            ≡ effective_mode
                (record (provider_or_zero (lookup p s.providers)) { manual_disabled = false }))
          × ((provider_or_zero (lookup p next.providers)).manual_disabled ≡ false))
      × ((reset_manual_disables next later).0 ≡ next)
unfolding reset_manual_disables
reset_manual_disables_lem s at later = (
  λ p.
      rw (lookup-map_entries (λ k ps. lift_disable at ps) p s.providers)
        (lifted_entry at (lookup p s.providers)),
  λ i. record s { providers = lifted_twice at later s.providers i },
)
