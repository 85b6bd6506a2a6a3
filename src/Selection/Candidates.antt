-- ===== src/Selection/Candidates.antt =====
-- `classify` of internal/selection/selector.go: a candidate is excluded, confirmed, or uncertain.
use polytoken_quota.Prelude.{
  Bool, true, false, not, ◌||◌, Option, none, some, List, String, pos, if◌then◌else◌, ltb_ℤ, leb_ℤ,
  lookup, member, any_true, Result, ok, err,
}
use polytoken_quota.Clock.{Time, Duration, is_zero, after, sub}
use polytoken_quota.Floats.{Float, zero_f, leb_f}
use polytoken_quota.Quota.{
  QuotaAvailability, SourceStatus, QuotaWindow, QuotaSnapshot, effective_remaining,
}
use polytoken_quota.State.{Quota, Availability, ProviderState, State}
use polytoken_quota.Policy.{
  Mapping, QuotaConfig, Desired, ModelRefError, ResolveError, parse_model_ref, resolve_model, cut,
  default_quota_freshness,
}

pub data Candidacy : Type 0 where
  confirmed uncertain excluded : Candidacy

pub record Candidate (F : Type 0) : Type 0 where
  pub ref : String
  pub base : String
  pub suffix : String
  pub mapping : String
  pub headroom : Option F
  pub status : Candidacy
  pub reason : String

before_slash : String → Option (String × String) → String
before_slash s none = s
before_slash s (some (a, b)) = a

base_or : String → Result ModelRefError (String × String) → String
base_or s (ok (base, suffix)) = base
base_or s (err e) = s

-- FamilyOf
unfoldable pub family_of : String → String
unfolding before_slash base_or
family_of ref = let base = base_or ref (parse_model_ref ref) in before_slash base (cut b'/' base)

-- The texts that name no value. The empty text is not one of them.
unfoldable pub corrupt_quota : Quota → Bool
corrupt_quota (Quota.other s) = true
corrupt_quota _ = false

unfoldable pub corrupt_availability : Availability → Bool
corrupt_availability (Availability.other s) = true
corrupt_availability _ = false

unfoldable pub corrupt_status : SourceStatus → Bool
corrupt_status (SourceStatus.other s) = true
corrupt_status _ = false

unfoldable pub corrupt_snapshot_availability : QuotaAvailability → Bool
corrupt_snapshot_availability (QuotaAvailability.other s) = true
corrupt_snapshot_availability _ = false

unfoldable pub is_unavailable : QuotaAvailability → Bool
is_unavailable QuotaAvailability.unavailable = true
is_unavailable _ = false

unfoldable pub is_down : Availability → Bool
is_down Availability.unavailable = true
is_down _ = false

unfoldable pub is_exhausted : Quota → Bool
is_exhausted Quota.exhausted = true
is_exhausted _ = false

module _ {F : Type 0} ⦃fl : Float F⦄ where
  abbrev pub out_of_range : (F → Bool) → Option F → Bool
  out_of_range too_large none = false
  out_of_range too_large (some v) = fl.is_nan v || fl.is_inf v || fl.ltb_f v zero_f || too_large v

  unfoldable pub corrupt_window : QuotaWindow F → Bool
  corrupt_window w =
      out_of_range (λ v. false) w.used
      || out_of_range (λ v. false) w.limit
      || out_of_range (λ v. fl.ltb_f (fl.of_int (pos 100)) v) w.usage_percent

  ttl_of : QuotaConfig F → Duration
  ttl_of q = if leb_ℤ q.freshness_ttl (pos 0) then pos default_quota_freshness else q.freshness_ttl

  -- confirmTTL: the freshness bound of a mapping with a quota configuration
  unfoldable pub confirm_ttl : Mapping F → Option Duration
  unfolding ttl_of
  confirm_ttl m = elim m.quota [ none ↦ none | some q ↦ some (ttl_of q) ]

  abbrev pub exclude : Candidate F → String → Candidate F
  exclude c reason = record c { status = Candidacy.excluded; reason = reason }

  abbrev pub demote : Candidate F → String → Candidate F
  demote c reason = record c { status = Candidacy.uncertain; reason = reason }

  abbrev pub confirm : Candidate F → F → Candidate F
  confirm c rem = record c {
    headroom = some rem;
    status = Candidacy.confirmed;
    reason = "available quota";
  }

  -- the headroom of a snapshot that passed every test
  unfoldable pub by_headroom : Candidate F → Option F → Candidate F
  by_headroom c none = demote c "sparse"
  by_headroom c (some rem) = confirm c rem

  unfoldable pub by_availability : Candidate F → QuotaSnapshot F → QuotaAvailability → Candidate F
  unfolding by_headroom
  by_availability c snap QuotaAvailability.available = by_headroom c (effective_remaining snap)
  by_availability c snap _ = demote c "unknown"

  unfoldable pub by_status : Candidate F → QuotaSnapshot F → SourceStatus → Candidate F
  unfolding by_availability
  by_status c snap SourceStatus.failed = demote c "failed"
  by_status c snap SourceStatus.partial = demote c "partial"
  by_status c snap SourceStatus.empty = demote c "unknown"
  by_status c snap _ = by_availability c snap snap.availability

  unfoldable pub by_age : Time → Candidate F → QuotaSnapshot F → Option Duration → Candidate F
  unfolding by_status
  by_age as_of c snap none = demote c "unknown"
  by_age as_of c snap (some ttl) =
      if ltb_ℤ ttl (sub as_of snap.checked_at)
      then demote c "stale"
      else by_status c snap snap.status

  -- `rem != nil && *rem <= 0`
  unfoldable pub is_spent : Option F → Bool
  is_spent none = false
  is_spent (some rem) = leb_f rem zero_f

  -- The evidence of a snapshot: what is corrupt or known bad excludes first.
  unfoldable pub by_snapshot : Time → Candidate F → Mapping F → QuotaSnapshot F → Candidate F
  unfolding by_age
  by_snapshot as_of c m snap =
      if corrupt_status snap.status
      then exclude c "corrupt snapshot status"
      else if corrupt_snapshot_availability snap.availability
      then exclude c "corrupt snapshot availability"
      else if any_true corrupt_window snap.windows
      then exclude c "corrupt quota window"
      else if is_unavailable snap.availability
      then exclude c "provider reported unavailable"
      else if is_spent (effective_remaining snap)
      then exclude c "quota exhausted"
      else if is_zero snap.checked_at
      then demote c "unknown"
      else if after snap.checked_at as_of
      then demote c "unknown"
      else by_age as_of c snap (confirm_ttl m)

  unfoldable pub missing : Candidate F → Option (QuotaSnapshot F) → Candidate F
  missing c none = demote c "missing"
  missing c (some a) = demote c "failed"

  unfoldable pub by_evidence :
      Time
      → Candidate F
      → Mapping F
      → Option (QuotaSnapshot F)
      → Option (QuotaSnapshot F)
      → Candidate F
  unfolding missing
  by_evidence as_of c m none attempt = missing c attempt
  by_evidence as_of c m (some snap) attempt = by_snapshot as_of c m snap

  -- the axes of the observed provider, then its evidence
  unfoldable pub by_provider :
      Time → Candidate F → Mapping F → Option (ProviderState F) → Candidate F
  unfolding by_evidence
  by_provider as_of c m none = by_evidence as_of c m none none
  by_provider as_of c m (some ps) =
      if ps.manual_disabled
      then exclude c "manually disabled"
      else if corrupt_quota ps.quota
      then exclude c "corrupt provider state"
      else if corrupt_availability ps.availability
      then exclude c "corrupt provider state"
      else if is_down ps.availability
      then exclude c "provider unavailable"
      else if is_exhausted ps.quota
      then exclude c "provider exhausted"
      else by_evidence as_of c m ps.quota_snapshot ps.quota_attempt

  -- `m.Models[base].Enabled`: a missing baseline is not enabled
  unfoldable pub enabled_in : Mapping F → String → Bool
  enabled_in m base = elim (lookup base m.models) [ none ↦ false | some b ↦ b.enabled ]

  unfoldable pub by_mapping :
      Time → Candidate F → Option (ProviderState F) → Option (Mapping F) → Candidate F
  by_mapping as_of c ps none = exclude c "baseline disabled"
  by_mapping as_of c ps (some m) =
      if not (enabled_in m c.base) then exclude c "baseline disabled" else by_provider as_of c m ps

  module _ (desired : Desired F) (st : State F) (as_of : Time) (families : List String) where
    unfoldable pub by_owner : Candidate F → Result ResolveError String → Candidate F
    unfolding by_mapping
    by_owner c (err e) = exclude c "unresolved model"
    by_owner c (ok mid) =
        by_mapping as_of (record c { mapping = mid }) (lookup mid st.providers)
          (lookup mid desired.providers)

    unfoldable pub by_reference : Candidate F → Result ModelRefError (String × String) → Candidate F
    unfolding by_owner
    by_reference c (err e) = exclude c "invalid reference"
    by_reference c (ok (base, suffix)) =
        if member (family_of base) families
        then exclude (record c { base = base; suffix = suffix }) "excluded family"
        else by_owner (record c { base = base; suffix = suffix }) (resolve_model desired base)

    unfoldable pub classify : String → Candidate F
    unfolding by_reference
    classify ref =
        by_reference
          (record {
            ref = ref;
            base = "";
            suffix = "";
            mapping = "";
            headroom = none;
            status = Candidacy.confirmed;
            reason = "";
          })
          (parse_model_ref ref)
