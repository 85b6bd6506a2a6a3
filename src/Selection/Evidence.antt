-- ===== src/Selection/Evidence.antt =====
-- Proofs about `classify` of internal/selection/selector.go: what confirms a candidate, and what
-- excludes it.
use polytoken_quota.Prelude.{
  ◌≡◌, ◌∙◌, refl, sym, ap, true, false, Option, none, some, List, String, ltb_ℤ, lookup, member,
  any_true, arith, inl, inr, Bool-cases, Option-cases, ok, Result-cases,
}
use polytoken_quota.Clock.{Time, Duration, is_zero, after, sub}
use polytoken_quota.Floats.{Float, zero_f, leb_f}
use polytoken_quota.Quota.{QuotaAvailability, SourceStatus, QuotaSnapshot, effective_remaining}
use polytoken_quota.State.{ProviderState, State}
use polytoken_quota.Policy.{Mapping, Desired, parse_model_ref, resolve_model}
use polytoken_quota.Selection.Candidates.{
  Candidacy, Candidate, family_of, corrupt_quota, corrupt_availability, corrupt_status,
  corrupt_window, confirm_ttl, by_headroom, by_availability, by_status, by_age, by_snapshot,
  by_evidence, by_provider, by_mapping, by_owner, by_reference, missing, is_spent, is_down,
  is_exhausted, enabled_in, classify,
}

module _ {F : Type 0} ⦃fl : Float F⦄ where
  -- A snapshot that confirms a candidate of the mapping at the reference time: nothing in it is
  -- corrupt, its source succeeded and says that the provider is available, it was taken at a time
  -- that is not after the reference time and not longer ago than the mapping's freshness bound,
  -- and its headroom is positive.
  pub record Confirms (as_of : Time) (m : Mapping F) (snap : QuotaSnapshot F) (rem : F)
      : Type 0 where
    pub source : snap.status ≡ SourceStatus.fresh
    pub available : snap.availability ≡ QuotaAvailability.available
    pub sane : any_true corrupt_window snap.windows ≡ false
    pub stamped : is_zero snap.checked_at ≡ false
    pub past : after snap.checked_at as_of ≡ false
    pub ttl : Duration
    pub bound : confirm_ttl m ≡ some ttl
    pub recent : ltb_ℤ ttl (sub as_of snap.checked_at) ≡ false
    pub headroom : effective_remaining snap ≡ some rem
    pub positive : leb_f rem zero_f ≡ false

  -- The axes of a provider that exclude no candidate.
  pub record Usable (ps : ProviderState F) : Type 0 where
    pub manual : ps.manual_disabled ≡ false
    pub quota_known : corrupt_quota ps.quota ≡ false
    pub availability_known : corrupt_availability ps.availability ≡ false
    pub up : is_down ps.availability ≡ false
    pub quota_left : is_exhausted ps.quota ≡ false

  module _ (as_of : Time) (c : Candidate F) (m : Mapping F) where
    abbrev IsConfirm : QuotaSnapshot F → Candidate F → Type 0
    IsConfirm snap x = (rem : F) × (effective_remaining snap ≡ some rem) × (x.headroom ≡ some rem)

    by_headroom-confirmed :
        (o : Option F)
        → (by_headroom c o).status ≡ Candidacy.confirmed
        → (rem : F) × (o ≡ some rem) × ((by_headroom c o).headroom ≡ some rem)
    unfolding by_headroom
    by_headroom-confirmed none h = absurd (ground arith)
    by_headroom-confirmed (some rem) h = (rem, refl, refl)

    by_availability-confirmed :
        (snap : QuotaSnapshot F) (a : QuotaAvailability)
        → (by_availability c snap a).status ≡ Candidacy.confirmed
        → (a ≡ QuotaAvailability.available) × IsConfirm snap (by_availability c snap a)
    unfolding by_availability
    by_availability-confirmed snap QuotaAvailability.available h =
        (refl, by_headroom-confirmed (effective_remaining snap) h)
    by_availability-confirmed snap QuotaAvailability.unavailable h = absurd (ground arith)
    by_availability-confirmed snap QuotaAvailability.unknown h = absurd (ground arith)
    by_availability-confirmed snap QuotaAvailability.empty h = absurd (ground arith)
    by_availability-confirmed snap (QuotaAvailability.other s) h = absurd (ground arith)

    by_status-confirmed :
        (snap : QuotaSnapshot F) (s : SourceStatus)
        → corrupt_status s ≡ false
        → (by_status c snap s).status ≡ Candidacy.confirmed
        → (s ≡ SourceStatus.fresh)
          × (snap.availability ≡ QuotaAvailability.available)
          × IsConfirm snap (by_status c snap s)
    unfolding by_status corrupt_status
    by_status-confirmed snap SourceStatus.fresh k h =
        let (a, is) = by_availability-confirmed snap snap.availability h in (refl, a, is)
    by_status-confirmed snap SourceStatus.partial k h = absurd (ground arith)
    by_status-confirmed snap SourceStatus.failed k h = absurd (ground arith)
    by_status-confirmed snap SourceStatus.empty k h = absurd (ground arith)
    by_status-confirmed snap (SourceStatus.other s) k h = absurd (ground arith)

    by_age-confirmed :
        (snap : QuotaSnapshot F) (bound : Option Duration)
        → corrupt_status snap.status ≡ false
        → (by_age as_of c snap bound).status ≡ Candidacy.confirmed
        → (ttl : Duration) × (bound ≡ some ttl)
          × (ltb_ℤ ttl (sub as_of snap.checked_at) ≡ false)
          × (snap.status ≡ SourceStatus.fresh)
          × (snap.availability ≡ QuotaAvailability.available)
          × IsConfirm snap (by_age as_of c snap bound)
    unfolding by_age
    by_age-confirmed snap none k h = absurd (ground arith)
    by_age-confirmed snap (some ttl) k h =
        elim (Bool-cases (ltb_ℤ ttl (sub as_of snap.checked_at))) [
          | inl e ↦ absurd (ground arith)
          | inr e ↦
              let (f, a, is) = by_status-confirmed snap snap.status k (rw (e, by_age) at h) in
              (ttl, refl, e, f, a, rw (e, by_age) is)
        ]

    positive_of :
        (o : Option F) (rem : F) → o ≡ some rem → is_spent o ≡ false → leb_f rem zero_f ≡ false
    unfolding is_spent
    positive_of none rem h k = absurd (ground arith)
    positive_of (some x) rem h k = let e : x ≡ rem = cc in rw e at k

    -- the guards that a confirmed candidate passed
    by_snapshot-guards :
        (snap : QuotaSnapshot F)
        → (by_snapshot as_of c m snap).status ≡ Candidacy.confirmed
        → (corrupt_status snap.status ≡ false)
          × (any_true corrupt_window snap.windows ≡ false)
          × (is_spent (effective_remaining snap) ≡ false)
          × (is_zero snap.checked_at ≡ false)
          × (after snap.checked_at as_of ≡ false)
          × (by_snapshot as_of c m snap ≡ by_age as_of c snap (confirm_ttl m))
    unfolding by_snapshot
    by_snapshot-guards snap h =
        (ground arith, ground arith, ground arith, ground arith, ground arith, ground arith)

    by_snapshot-confirmed :
        (snap : QuotaSnapshot F)
        → (by_snapshot as_of c m snap).status ≡ Candidacy.confirmed
        → (rem : F) × Confirms as_of m snap rem × ((by_snapshot as_of c m snap).headroom ≡ some rem)
    by_snapshot-confirmed snap h =
        let (s, w, e, z, p, same) = by_snapshot-guards snap h in
        let (ttl, bound, recent, f, a, (rem, head, r)) =
          by_age-confirmed snap (confirm_ttl m) s (ap Candidate.status (sym same) ∙ h) in
        (
          rem,
          record {
            source = f;
            available = a;
            sane = w;
            stamped = z;
            past = p;
            ttl = ttl;
            bound = bound;
            recent = recent;
            headroom = head;
            positive = positive_of (effective_remaining snap) rem head e;
          },
          ap Candidate.headroom same ∙ r,
        )

    by_evidence-confirmed :
        (o attempt : Option (QuotaSnapshot F))
        → (by_evidence as_of c m o attempt).status ≡ Candidacy.confirmed
        → (snap : QuotaSnapshot F) × (o ≡ some snap)
          × ((rem : F) × Confirms as_of m snap rem
              × ((by_evidence as_of c m o attempt).headroom ≡ some rem))
    unfolding by_evidence missing
    by_evidence-confirmed none none h = absurd (ground arith)
    by_evidence-confirmed none (some a) h = absurd (ground arith)
    by_evidence-confirmed (some snap) attempt h = (snap, refl, by_snapshot-confirmed snap h)

    by_provider-confirmed :
        (o : Option (ProviderState F))
        → (by_provider as_of c m o).status ≡ Candidacy.confirmed
        → (ps : ProviderState F) × (o ≡ some ps)
          × Usable ps
          × ((snap : QuotaSnapshot F) × (rem : F) × (ps.quota_snapshot ≡ some snap)
              × Confirms as_of m snap rem
              × ((by_provider as_of c m o).headroom ≡ some rem))
    unfolding by_provider by_evidence missing
    by_provider-confirmed none h = absurd (ground arith)
    by_provider-confirmed (some ps) h =
        let same : by_provider as_of c m (some ps)
            ≡ by_evidence as_of c m ps.quota_snapshot ps.quota_attempt =
          ground arith in
        let usable : Usable ps = record {
          manual = ground arith;
          quota_known = ground arith;
          availability_known = ground arith;
          up = ground arith;
          quota_left = ground arith;
        } in
        let (snap, found, (rem, con, head)) =
          by_evidence-confirmed ps.quota_snapshot ps.quota_attempt
            (ap Candidate.status (sym same) ∙ h) in
        (ps, refl, usable, (snap, rem, found, con, ap Candidate.headroom same ∙ head))

  module _ (desired : Desired F) (st : State F) (as_of : Time) (families : List String)
      (ref : String) where
    -- What confirms a candidate: its reference parses, its family is not excluded, its model
    -- belongs to one mapping that enables it, and the observed provider is usable and has a
    -- snapshot that confirms.
    pub record Confirmed : Type 0 where
      pub base : String
      pub suffix : String
      pub parsed : parse_model_ref ref ≡ ok (base, suffix)
      pub family : member (family_of base) families ≡ false
      pub mid : String
      pub owner : resolve_model desired base ≡ ok mid
      pub mapping : Mapping F
      pub mapped : lookup mid desired.providers ≡ some mapping
      pub enabled : enabled_in mapping base ≡ true
      pub provider : ProviderState F
      pub observed : lookup mid st.providers ≡ some provider
      pub usable : Usable provider
      pub snap : QuotaSnapshot F
      pub found : provider.quota_snapshot ≡ some snap
      pub rem : F
      pub evidence : Confirms as_of mapping snap rem
      pub headroom : (classify desired st as_of families ref).headroom ≡ some rem

    -- the candidate as it stands when the provider is looked at
    abbrev resolved_candidate : String × String → String → Candidate F
    resolved_candidate r mid = record {
      ref = ref;
      base = r.0;
      suffix = r.1;
      mapping = mid;
      headroom = none;
      status = Candidacy.confirmed;
      reason = "";
    }

    confirmed_by :
        (r : String × String) (mid : String) (m : Mapping F)
        → parse_model_ref ref ≡ ok r
        → member (family_of r.0) families ≡ false
        → resolve_model desired r.0 ≡ ok mid
        → lookup mid desired.providers ≡ some m
        → (classify desired st as_of families ref).status ≡ Candidacy.confirmed
        → Confirmed
    unfolding classify by_reference by_owner by_mapping
    confirmed_by r mid m parsed fam owner mapped h = elim (Bool-cases (enabled_in m r.0)) [
      | inr e ↦ absurd (ground arith)
      | inl on ↦
          let same : classify desired st as_of families ref
              ≡ by_provider as_of (resolved_candidate r mid) m (lookup mid st.providers) =
            rw (parsed, fam, owner, mapped, on) in
          let (ps, seen, usable, (snap, rem, found, con, head)) =
            by_provider-confirmed as_of (resolved_candidate r mid) m (lookup mid st.providers)
              (ap Candidate.status (sym same) ∙ h) in
          record {
            base = r.0;
            suffix = r.1;
            parsed = parsed;
            family = fam;
            mid = mid;
            owner = owner;
            mapping = m;
            mapped = mapped;
            enabled = on;
            provider = ps;
            observed = seen;
            usable = usable;
            snap = snap;
            found = found;
            rem = rem;
            evidence = con;
            headroom = ap Candidate.headroom same ∙ head;
          }
    ]

    -- A candidate is confirmed only where its reference parses, its family is not excluded, one
    -- mapping owns and enables its model, no axis of the observed provider is corrupt or bad, and
    -- the provider has a snapshot that is sane, fresh within the mapping's bound, from a source that
    -- succeeded, explicitly available and with something left; its headroom is what is left.
    pub classify-Confirmed :
        (classify desired st as_of families ref).status ≡ Candidacy.confirmed → Confirmed
    unfolding classify by_reference by_owner by_mapping
    classify-Confirmed h = elim (Result-cases (parse_model_ref ref)) [
      | inr e ↦ absurd (ground (arith, e.1))
      | inl (r, parsed) ↦ elim (Bool-cases (member (family_of r.0) families)) [
        | inl e ↦ absurd (ground arith)
        | inr fam ↦ elim (Result-cases (resolve_model desired r.0)) [
          | inr e ↦ absurd (ground (arith, e.1))
          | inl (mid, owner) ↦ elim (Option-cases (lookup mid desired.providers)) [
            | inl e ↦ absurd (ground arith)
            | inr (m, mapped) ↦ confirmed_by r mid m parsed fam owner mapped h
          ]
        ]
      ]
    ]
