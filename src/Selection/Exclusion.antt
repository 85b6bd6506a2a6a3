-- ===== src/Selection/Exclusion.antt =====
-- `classify` of internal/selection/selector.go on a provider that is known to be bad.
use polytoken_quota.Prelude.{
  ◌≡◌, refl, true, Option, none, some, List, String, lookup, member, arith, inl, inr, ◌⊎◌,
  Bool-cases, ok,
}
use polytoken_quota.Clock.{Time}
use polytoken_quota.Floats.{Float}
use polytoken_quota.Quota.{QuotaSnapshot, effective_remaining}
use polytoken_quota.State.{ProviderState, State}
use polytoken_quota.Policy.{Mapping, Desired, parse_model_ref, resolve_model}
use polytoken_quota.Selection.Candidates.{
  Candidacy, Candidate, family_of, by_snapshot, by_evidence, by_provider, by_mapping, by_owner,
  by_reference, is_unavailable, is_spent, is_down, is_exhausted, classify,
}

module _ {F : Type 0} ⦃fl : Float F⦄ where
  -- What the state says of a provider that is known to be bad: a user disabled it, an axis says
  -- that it is unavailable or exhausted, or its last snapshot reports it unavailable or spent.
  abbrev pub IsKnownBad : ProviderState F → Type 0
  IsKnownBad ps =
      (ps.manual_disabled ≡ true)
      ⊎ (is_down ps.availability ≡ true)
      ⊎ (is_exhausted ps.quota ≡ true)
      ⊎ ((snap : QuotaSnapshot F) × (ps.quota_snapshot ≡ some snap)
          × ((is_unavailable snap.availability ≡ true)
              ⊎ (is_spent (effective_remaining snap) ≡ true)))

  module _ (as_of : Time) (c : Candidate F) (m : Mapping F) where
    unavailable-excluded :
        (snap : QuotaSnapshot F)
        → is_unavailable snap.availability ≡ true
        → (by_snapshot as_of c m snap).status ≡ Candidacy.excluded
    unfolding by_snapshot
    unavailable-excluded snap h = ground arith

    spent-excluded :
        (snap : QuotaSnapshot F)
        → is_spent (effective_remaining snap) ≡ true
        → (by_snapshot as_of c m snap).status ≡ Candidacy.excluded
    unfolding by_snapshot
    spent-excluded snap h = ground arith

    by_evidence-excluded :
        (o attempt : Option (QuotaSnapshot F)) (snap : QuotaSnapshot F)
        → o ≡ some snap
        → (is_unavailable snap.availability ≡ true) ⊎ (is_spent (effective_remaining snap) ≡ true)
        → (by_evidence as_of c m o attempt).status ≡ Candidacy.excluded
    unfolding by_evidence
    by_evidence-excluded o attempt snap e (inl h) = rw e (unavailable-excluded snap h)
    by_evidence-excluded o attempt snap e (inr h) = rw e (spent-excluded snap h)

    by_provider-excluded :
        (ps : ProviderState F)
        → IsKnownBad ps
        → (by_provider as_of c m (some ps)).status ≡ Candidacy.excluded
    unfolding by_provider
    by_provider-excluded ps (inl h) = ground arith
    by_provider-excluded ps (inr (inl h)) = ground arith
    by_provider-excluded ps (inr (inr (inl h))) = ground arith
    by_provider-excluded ps (inr (inr (inr (snap, e, h)))) =
        ground (arith, by_evidence-excluded ps.quota_snapshot ps.quota_attempt snap e h)

  by_mapping-excluded :
      (as_of : Time) (c : Candidate F) (o : Option (Mapping F)) (ps : ProviderState F)
      → IsKnownBad ps
      → (by_mapping as_of c (some ps) o).status ≡ Candidacy.excluded
  unfolding by_mapping
  by_mapping-excluded as_of c none ps h = refl
  by_mapping-excluded as_of c (some n) ps h = ground (arith, by_provider-excluded as_of c n ps h)

  -- A candidate whose reference resolves to an observed provider that is known to be bad is
  -- excluded, whatever the age and the completeness of its snapshot. Known to be bad is: manually
  -- disabled, unavailable or exhausted on an axis, or a snapshot that says so.
  pub classify-excludes :
      (desired : Desired F) (st : State F) (as_of : Time) (families : List String)
      (ref base suffix mid : String) (ps : ProviderState F)
      → parse_model_ref ref ≡ ok (base, suffix)
      → resolve_model desired base ≡ ok mid
      → lookup mid st.providers ≡ some ps
      → IsKnownBad ps
      → (classify desired st as_of families ref).status ≡ Candidacy.excluded
  unfolding classify by_reference by_owner
  classify-excludes desired st as_of families ref base suffix mid ps parsed owner seen h =
      elim (Bool-cases (member (family_of base) families)) [
        | inl e ↦ rw (parsed, e)
        | inr e ↦
            rw (parsed, e, owner, seen)
              (by_mapping-excluded as_of
                (record {
                  ref = ref;
                  base = base;
                  suffix = suffix;
                  mapping = mid;
                  headroom = none;
                  status = Candidacy.confirmed;
                  reason = "";
                })
                (lookup mid desired.providers) ps h)
      ]
