-- ===== src/Routing/Eligible.antt =====
-- Proofs about `CheckEligibility` of internal/routing/policy.go and about the bounds of the signal.
use polytoken_quota.Prelude.{
  ◌≡◌, ◌≢◌, ◌⊎◌, ◌∙◌, refl, ap, true, false, Option, none, some, String, pos, negsuc, ltb_ℤ, leb_ℤ,
  str_eq_iff, if◌then◌else◌, arith, inl, inr, Bool-cases, Option-cases, ◌↔◌,
}
use polytoken_quota.Clock.{Time, sub}
use polytoken_quota.Floats.{Float, zero_f}
use polytoken_quota.Quota.{QuotaAvailability, SourceStatus, QuotaSnapshot, effective_remaining}
use polytoken_quota.Routing.{
  ProviderPolicy, ProviderObs, Eligibility, freshness, default_fresh_ttl, is_rankable_mode,
  is_degraded, unrankable, is_unusable, by_remaining, by_availability, by_source, by_snapshot,
  check_eligibility, sums_loop, clamp_signal, signal_clamp, minus_signal_clamp, compute_signal,
}

some_same : {A : Type 0} {a b : A} → some a ≡ some b → a ≡ b
some_same h = cc

-- a mode that ranking admits
mode_iff : (m : String) → (is_rankable_mode m ≡ true) ↔ ((m ≡ "normal") ⊎ (m ≡ "reserve"))
unfolding is_rankable_mode
mode_iff m =
    let one = str_eq_iff m "normal" in
    let two = str_eq_iff m "reserve" in (λ h. ground arith, λ h. ground arith)

complete_iff :
    (s : SourceStatus)
    → (is_degraded s ≡ false) ↔ ((s ≢ SourceStatus.failed) × (s ≢ SourceStatus.partial))
unfolding is_degraded
complete_iff SourceStatus.fresh = (λ h. (λ e. absurd (cc), λ e. absurd (cc)), λ h. refl)
complete_iff SourceStatus.partial = (λ h. absurd (cc), λ h. absurd (h.1 refl))
complete_iff SourceStatus.failed = (λ h. absurd (cc), λ h. absurd (h.0 refl))
complete_iff SourceStatus.empty = (λ h. (λ e. absurd (cc), λ e. absurd (cc)), λ h. refl)
complete_iff (SourceStatus.other s) = (λ h. (λ e. absurd (cc), λ e. absurd (cc)), λ h. refl)

module _ {F : Type 0} ⦃fl : Float F⦄ where
  -- A snapshot that makes a provider rankable: not older than the bound of the policy, or than
  -- the default where the policy has no positive one, from a source that did not fail and is
  -- complete, explicitly available, and with a known remaining fraction that is not zero or less:
  -- it is above zero, or NaN.
  pub record IsRankable (policy : ProviderPolicy) (obs : ProviderObs F) (now : Time) : Type 0 where
    pub mode : (obs.mode ≡ "normal") ⊎ (obs.mode ≡ "reserve")
    pub snap : QuotaSnapshot F
    pub observed : obs.snapshot ≡ some snap
    pub fresh :
        ltb_ℤ
          (if leb_ℤ policy.freshness_ttl (pos 0)
            then pos default_fresh_ttl
            else policy.freshness_ttl)
          (sub now snap.checked_at)
        ≡ false
    pub not_failed : snap.status ≢ SourceStatus.failed
    pub not_partial : snap.status ≢ SourceStatus.partial
    pub available : snap.availability ≡ QuotaAvailability.available
    pub fraction : F
    pub known : effective_remaining snap ≡ some fraction
    pub left : (fl.ltb_f zero_f fraction ≡ true) ⊎ (fl.is_nan fraction ≡ true)

  -- what `rem == nil || *rem <= 0` leaves
  left_iff :
      (o : Option F)
      → (is_unusable o ≡ false)
        ↔ ((r : F) × (o ≡ some r) × ((fl.ltb_f zero_f r ≡ true) ⊎ (fl.is_nan r ≡ true)))
  unfolding is_unusable
  left_iff none = (λ h. absurd (cc), λ (r, e, l). absurd (cc))
  left_iff (some r) =
      let real : fl.is_nan zero_f ≡ false = fl.not-nan-int (pos 0) in
      (
        λ h. (r, refl, ground arith),
        λ (x, e, l).
            let same : r ≡ x = some_same e in
            let l' : (fl.ltb_f zero_f r ≡ true) ⊎ (fl.is_nan r ≡ true) = rw same l in
            let apart = fl.lt-nan_right zero_f r in ground arith,
      )

  by_availability-rankable :
      (snap : QuotaSnapshot F) (a : QuotaAvailability)
      → (by_availability snap a).rankable ≡ true
      → (a ≡ QuotaAvailability.available) × (is_unusable (effective_remaining snap) ≡ false)
  unfolding by_availability by_remaining unrankable
  by_availability-rankable snap QuotaAvailability.available h = (refl, ground arith)
  by_availability-rankable snap QuotaAvailability.unavailable h = absurd (ground arith)
  by_availability-rankable snap QuotaAvailability.unknown h = absurd (ground arith)
  by_availability-rankable snap QuotaAvailability.empty h = absurd (ground arith)
  by_availability-rankable snap (QuotaAvailability.other s) h = absurd (ground arith)

  by_source-rankable :
      (snap : QuotaSnapshot F) (s : SourceStatus)
      → (by_source snap s).rankable ≡ true
      → (is_degraded s ≡ false) × ((by_availability snap snap.availability).rankable ≡ true)
  unfolding by_source is_degraded unrankable
  by_source-rankable snap SourceStatus.fresh h = (refl, h)
  by_source-rankable snap SourceStatus.partial h = absurd (ground arith)
  by_source-rankable snap SourceStatus.failed h = absurd (ground arith)
  by_source-rankable snap SourceStatus.empty h = (refl, h)
  by_source-rankable snap (SourceStatus.other s) h = (refl, h)

  by_source-of_complete :
      (snap : QuotaSnapshot F) (s : SourceStatus)
      → is_degraded s ≡ false
      → by_source snap s ≡ by_availability snap snap.availability
  unfolding by_source is_degraded
  by_source-of_complete snap SourceStatus.fresh h = refl
  by_source-of_complete snap SourceStatus.partial h = absurd (ground arith)
  by_source-of_complete snap SourceStatus.failed h = absurd (ground arith)
  by_source-of_complete snap SourceStatus.empty h = refl
  by_source-of_complete snap (SourceStatus.other s) h = refl

  by_availability-of :
      (snap : QuotaSnapshot F) (a : QuotaAvailability)
      → a ≡ QuotaAvailability.available
      → is_unusable (effective_remaining snap) ≡ false
      → (by_availability snap a).rankable ≡ true
  unfolding by_availability by_remaining
  by_availability-of snap a e l = rw (e, l)

  rankable-of :
      (policy : ProviderPolicy) (obs : ProviderObs F) (now : Time)
      → IsRankable policy obs now
      → (check_eligibility policy obs now).rankable ≡ true
  unfolding check_eligibility by_snapshot freshness
  rankable-of policy obs now r =
      let done : (by_source r.snap r.snap.status).rankable ≡ true =
        ap Eligibility.rankable (
          by_source-of_complete r.snap r.snap.status
            ((complete_iff r.snap.status).1 (r.not_failed, r.not_partial)))
        ∙ by_availability-of r.snap r.snap.availability r.available
            ((left_iff (effective_remaining r.snap)).1 (r.fraction, r.known, r.left)) in
      rw ((mode_iff obs.mode).1 r.mode, r.observed, r.fresh) done

  to-rankable :
      (policy : ProviderPolicy) (obs : ProviderObs F) (now : Time)
      → (check_eligibility policy obs now).rankable ≡ true
      → IsRankable policy obs now
  unfolding check_eligibility by_snapshot unrankable freshness
  to-rankable policy obs now h = elim (Bool-cases (is_rankable_mode obs.mode)) [
    | inr e ↦ absurd (ground arith)
    | inl e ↦ elim (Option-cases obs.snapshot) [
      | inl q ↦ absurd (ground arith)
      | inr (snap, q) ↦
          elim (Bool-cases (ltb_ℤ (freshness policy.freshness_ttl) (sub now snap.checked_at))) [
            | inl f ↦ absurd (ground arith)
            | inr f ↦
                let k : (by_source snap snap.status).rankable ≡ true = rw (e, q, f) at h in
                let (c, k2) = by_source-rankable snap snap.status k in
                let (a, l) = by_availability-rankable snap snap.availability k2 in
                let whole = (complete_iff snap.status).0 c in
                let (r, known, left) = (left_iff (effective_remaining snap)).0 l in
                record {
                  mode = (mode_iff obs.mode).0 e;
                  snap = snap;
                  observed = q;
                  fresh = f;
                  not_failed = whole.0;
                  not_partial = whole.1;
                  available = a;
                  fraction = r;
                  known = known;
                  left = left;
                }
          ]
    ]
  ]

  -- A provider is rankable exactly where its mode is normal or reserve, and its snapshot is no
  -- older than the policy's bound (or the default, where that is not positive), neither failed nor
  -- partial, explicitly available, and has a known remaining fraction that is above zero or NaN.
  pub check_eligibility_iff :
      (policy : ProviderPolicy) (obs : ProviderObs F) (now : Time)
      → ((check_eligibility policy obs now).rankable ≡ true) ↔ IsRankable policy obs now
  check_eligibility_iff policy obs now = (to-rankable policy obs now, rankable-of policy obs now)

  clamp_signal-bounds :
      (x : F)
      → (fl.ltb_f (clamp_signal x) minus_signal_clamp ≡ false)
        × (fl.ltb_f signal_clamp (clamp_signal x) ≡ false)
  unfolding clamp_signal
  clamp_signal-bounds x = (
    (fl.max-not-lt minus_signal_clamp (fl.min_f signal_clamp x)).0,
    elim (fl.max-cases minus_signal_clamp (fl.min_f signal_clamp x)) [
      | inl e ↦ rw e (fl.of_int_mono (negsuc 99) (pos 100) refl)
      | inr (inl e) ↦ rw e (fl.min-not-gt signal_clamp x).0
      | inr (inr e) ↦ fl.lt-nan_right signal_clamp _ e
    ],
  )

  -- A signal is never below -100 and never above 100.
  pub compute_signal-bounds :
      (snap : QuotaSnapshot F) (now : Time) (s : F)
      → compute_signal snap now ≡ some s
      → (fl.ltb_f s minus_signal_clamp ≡ false) × (fl.ltb_f signal_clamp s ≡ false)
  unfolding compute_signal
  compute_signal-bounds snap now s h =
      let sums = sums_loop (record { weighted = zero_f; total_period = zero_f }) now snap.windows in
      let x : F = fl.div_f sums.weighted sums.total_period in
      let e : clamp_signal x ≡ s = ground arith in rw (← e) (clamp_signal-bounds x)
