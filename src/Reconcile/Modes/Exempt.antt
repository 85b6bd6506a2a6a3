-- ===== src/Reconcile/Modes/Exempt.antt =====
-- Proofs about `MappingMode` of internal/reconcile/reconcile.go: what the quota-gate exemption
-- lifts, and what it does not.
use polytoken_quota.Prelude.{
  ◌≤◌, ◌≡◌, ◌≢◌, ◌↔◌, ◌⊎◌, ◌∙◌, refl, sym, true, false, not, ◌||◌, Option, none, some, String, pos,
  arith, inl, inr, lookup, Bool-cases, Option-cases,
}
use polytoken_quota.Floats.{Float, zero_f}
use polytoken_quota.Quota.{QuotaSnapshot, QuotaAvailability, effective_remaining}
use polytoken_quota.State.{Mode, Quota, ProviderState, State, effective_mode}
use polytoken_quota.State.Effective.{
  IsOff, IsHealthy, IsCorruptQuota, IsCorruptAvailability, effective_mode_table,
}
use polytoken_quota.Policy.{Mapping, Desired}
use polytoken_quota.Reconcile.Modes.{
  mode_rank, is_available, no_allowance, quota_gate_exempt, snapshot_quota_unavailable,
  quota_gate_exempt_mode, mode_of, mapping_mode,
}

some_same : {A : Type 0} {a b : A} → some a ≡ some b → a ≡ b
some_same h = cc

none-some : {A : Type 0} {a : A} → none ≡ some a → ⊥
none-some h = cc

available_iff :
    (a : QuotaAvailability) → (is_available a ≡ true) ↔ (a ≡ QuotaAvailability.available)
unfolding is_available
available_iff QuotaAvailability.available = (λ h. refl, λ h. refl)
available_iff QuotaAvailability.unavailable = (λ h. absurd (cc), λ h. absurd (cc))
available_iff QuotaAvailability.unknown = (λ h. absurd (cc), λ h. absurd (cc))
available_iff QuotaAvailability.empty = (λ h. absurd (cc), λ h. absurd (cc))
available_iff (QuotaAvailability.other s) = (λ h. absurd (cc), λ h. absurd (cc))

module _ {F : Type 0} ⦃fl : Float F⦄ where
  -- A remaining fraction that is unknown, or a number that is not above zero.
  abbrev pub IsSpent : Option F → Type 0
  IsSpent o =
      (o ≡ none) ⊎ ((r : F) × (o ≡ some r) × (fl.ltb_f zero_f r ≡ false) × (fl.is_nan r ≡ false))

  -- The latest poll crosses the quota boundary: it has a snapshot that is not explicitly available,
  -- or one whose remaining fraction is spent.
  pub record CrossesBoundary (ps : ProviderState F) : Type 0 where
    pub snap : QuotaSnapshot F
    pub observed : ps.quota_snapshot ≡ some snap
    pub crosses :
        (snap.availability ≢ QuotaAvailability.available) ⊎ IsSpent (effective_remaining snap)

  no_allowance_iff : (o : Option F) → (no_allowance o ≡ true) ↔ IsSpent o
  unfolding no_allowance
  no_allowance_iff none = (λ h. inl refl, λ h. refl)
  no_allowance_iff (some r) =
      let real : fl.is_nan zero_f ≡ false = fl.not-nan-int (pos 0) in
      (
        λ h. inr (r, refl, ground arith, ground arith),
        λ h. elim h [
          | inl e ↦ absurd (cc)
          | inr (x, e, l, n) ↦
              let same : r ≡ x = some_same e in
              let l' : fl.ltb_f zero_f r ≡ false = rw same l in
              let n' : fl.is_nan r ≡ false = rw same n in ground arith
        ],
      )

  crosses_iff : (ps : ProviderState F) → (snapshot_quota_unavailable ps ≡ true) ↔ CrossesBoundary ps
  unfolding snapshot_quota_unavailable
  crosses_iff ps = elim (Option-cases ps.quota_snapshot) [
    | inl e ↦ (
      λ h. absurd (let k : false ≡ true = rw (e, snapshot_quota_unavailable) at h in cc),
      λ c. absurd (none-some (sym e ∙ c.observed)),
    )
    | inr (snap, e) ↦
        let spent = no_allowance_iff (effective_remaining snap) in
        let open_ = available_iff snap.availability in
        let body : snapshot_quota_unavailable ps
            ≡ (not (is_available snap.availability) || no_allowance (effective_remaining snap)) =
          rw (e, snapshot_quota_unavailable) refl in
        (
          λ h. record {
            snap = snap;
            observed = e;
            crosses = elim (Bool-cases (is_available snap.availability)) [
              | inl a ↦ inr (spent.0 (ground arith))
              | inr a ↦ inl (λ q. absurd (let k = open_.1 q in cc))
            ];
          },
          λ c.
              let same : c.snap ≡ snap = some_same (sym c.observed ∙ e) in
              let crossed : (snap.availability ≢ QuotaAvailability.available)
                  ⊎ IsSpent (effective_remaining snap) =
                rw same at c.crosses in
              body ∙ elim crossed [
                | inl away ↦ elim (Bool-cases (is_available snap.availability)) [
                  | inl a ↦ absurd (away (open_.0 a))
                  | inr a ↦ ground arith
                ]
                | inr s ↦ let k = spent.1 s in ground arith
              ],
        )
  ]

  exempt_disabled :
      (ps : ProviderState F)
      → (quota_gate_exempt_mode ps ≡ Mode.disabled) ↔ (
          (ps.manual_disabled ≡ true)
          ⊎ IsCorruptQuota ps.quota
          ⊎ IsCorruptAvailability ps.availability)
  unfolding quota_gate_exempt_mode
  exempt_disabled ps = (λ h. ground arith, λ h. ground arith)

  -- Exempting a mapping from quota gating never makes its mode worse, and where the mapping would
  -- be disabled with neither a manual disable nor an axis with an unrecognized text, the exempt
  -- mapping is in reserve.
  pub mode_of-exempt-le :
      (m m' : Mapping F) (ps : ProviderState F)
      → quota_gate_exempt m ≡ true
      → quota_gate_exempt m' ≡ false
      → (mode_rank (mode_of m ps) ≤ mode_rank (mode_of m' ps))
        × (mode_of m' ps ≡ Mode.disabled
            → (mode_of m ps ≡ Mode.reserve)
              ⊎ (ps.manual_disabled ≡ true)
              ⊎ IsCorruptQuota ps.quota
              ⊎ IsCorruptAvailability ps.availability)
  unfolding mode_of quota_gate_exempt_mode effective_mode mode_rank
  mode_of-exempt-le m m' ps e e' = (ground arith, λ h. ground arith)

  gated_modes :
      (m : Mapping F) (ps : ProviderState F)
      → quota_gate_exempt m ≡ false
      → ((mode_of m ps ≡ Mode.disabled)
          ↔ (CrossesBoundary ps ⊎ IsOff ps.manual_disabled ps.quota ps.availability))
        × ((mode_of m ps ≡ Mode.reserve) ↔ (
            (¬ CrossesBoundary ps)
            × (ps.manual_disabled ≡ false)
            × (ps.quota ≡ Quota.low)
            × IsHealthy ps.availability))
  unfolding mode_of
  gated_modes m ps e =
      let (off, low, usual) = effective_mode_table ps in
      let (to, from) = crosses_iff ps in
      rw e (elim (Bool-cases (snapshot_quota_unavailable ps)) [
        | inl u ↦ rw u ((λ h. inl (to u), λ h. refl), (λ h. absurd (cc), λ h. absurd (h.0 (to u))))
        | inr n ↦ rw n (
          (
            λ h. inr (off.0 h),
            λ h. elim h [ inl c ↦ absurd (let k = from c in cc) | inr o ↦ off.1 o ],
          ),
          (
            λ h. let (a, b, c) = low.0 h in (λ x. let k = from x in cc, a, b, c),
            λ (x, a, b, c). low.1 (a, b, c),
          ),
        )
      ])

  module _ (d : Desired F) (s : State F) (id : String) {m : Mapping F} {ps : ProviderState F}
      (enrolled : lookup id d.providers ≡ some m) (seen : lookup id s.providers ≡ some ps) where
    -- A mapping of the policy whose provider is observed, and which is exempt from quota gating, is
    -- disabled exactly by a manual disable or by an axis with an unrecognized text, never by a
    -- quota observation.
    pub mapping_mode-exempt :
        quota_gate_exempt m ≡ true
        → (mapping_mode d s id ≡ Mode.disabled) ↔ (
            (ps.manual_disabled ≡ true)
            ⊎ IsCorruptQuota ps.quota
            ⊎ IsCorruptAvailability ps.availability)
    unfolding mapping_mode mode_of
    mapping_mode-exempt ex =
        rw (enrolled, mapping_mode) (rw (seen, ex, mode_of) (exempt_disabled ps))

    -- A mapping of the policy whose provider is observed, and which is not exempt from quota
    -- gating, is disabled exactly when its latest poll has a snapshot that is not explicitly
    -- available or has no remaining fraction above zero (NaN is not counted as spent), or when the
    -- axes are off. It is in reserve exactly when the poll is not so, the mapping is not disabled
    -- by hand, its quota axis is low and its availability axis is healthy.
    pub mapping_mode-gated :
        quota_gate_exempt m ≡ false
        → ((mapping_mode d s id ≡ Mode.disabled)
            ↔ (CrossesBoundary ps ⊎ IsOff ps.manual_disabled ps.quota ps.availability))
          × ((mapping_mode d s id ≡ Mode.reserve) ↔ (
              (¬ CrossesBoundary ps)
              × (ps.manual_disabled ≡ false)
              × (ps.quota ≡ Quota.low)
              × IsHealthy ps.availability))
    unfolding mapping_mode
    mapping_mode-gated ex = rw (enrolled, mapping_mode) (rw seen (gated_modes m ps ex))
