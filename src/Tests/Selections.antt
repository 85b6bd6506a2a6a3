-- ===== src/Tests/Selections.antt =====
-- The theorems on the choice of a candidate and on routing, at a concrete policy and state.
use polytoken_quota.Prelude.{
  List, is_nil, ◌≡◌, ◌↔◌, refl, inr, true, false, none, some, [], ◌∷◌, String, ℤ, pos, lookup,
  str_eq, All, ok, err,
}
use polytoken_quota.Quota.{effective_remaining, min_loop, min_step, remaining, clamp01}
use polytoken_quota.State.{Quota, State}
use polytoken_quota.Policy.{parse_model_ref, cut, has_code, split_last, resolve_model}
use polytoken_quota.Selection.Candidates.{
  Candidacy, classify, by_reference, by_owner, by_mapping, by_provider, by_evidence, by_snapshot,
  by_age, by_status, by_availability, by_headroom, family_of, enabled_in, corrupt_quota,
  corrupt_availability, corrupt_status, corrupt_snapshot_availability, corrupt_window, confirm_ttl,
  is_unavailable, is_spent, is_down, is_exhausted,
}
use polytoken_quota.Selection.Evidence.{Confirmed, classify-Confirmed}
use polytoken_quota.Selection.Exclusion.{classify-excludes}
use polytoken_quota.Selection.{
  Tier, TierPolicy, Policy, PhasePolicy, Outcome, Kind, no_candidate, select, find_tier, valid_tier,
  tier_index, select_groups, choose, choose_uncertain, group_loop, best_loop, better,
  first_uncertain, score_groups, score_group, build_result,
}
use polytoken_quota.Selection.Wire.{
  IsValidGroup, NoRepeat, pushed_groups, tier_from_wire, check_groups, check_refs, check_ref,
  tier_from_wire_sound,
}
use polytoken_quota.Selection.Select.{IsChoice, entries_of, select-IsChoice, select-no_candidate}
use polytoken_quota.Routing.{
  ProviderPolicy, ProviderObs, SignalGateInput, check_eligibility, signal_gate_verdict,
}
use polytoken_quota.Routing.Eligible.{IsRankable, check_eligibility_iff}
use polytoken_quota.Routing.Gate.{HoldsGate, signal_gate_verdict_iff}
use polytoken_quota.Tests.Fixed.{fixed}
use polytoken_quota.Tests.Data.{state, desired, provider, snapshot, now}

abbrev entry : String
entry = "codex/gpt(high)"

abbrev base : String
base = "codex/gpt"

abbrev suffix : String
suffix = "high"

parsed : parse_model_ref entry ≡ ok (base, suffix)
unfolding parse_model_ref cut has_code split_last
parsed = refl

owned : resolve_model desired base ≡ ok "codex"
unfolding resolve_model lookup str_eq
owned = refl

confirms : (classify desired state now [] entry).status ≡ Candidacy.confirmed
unfolding classify by_reference by_owner by_mapping by_provider by_evidence by_snapshot by_age
    by_status by_availability by_headroom family_of enabled_in corrupt_quota corrupt_availability
    corrupt_status corrupt_snapshot_availability corrupt_window confirm_ttl is_unavailable is_spent
    is_down is_exhausted parse_model_ref cut has_code split_last resolve_model lookup str_eq
    effective_remaining min_loop min_step remaining clamp01
confirms = refl

classify-Confirmed_example : Confirmed desired state now [] entry
classify-Confirmed_example = classify-Confirmed desired state now [] entry confirms

-- codex with nothing left of its quota
abbrev spent : State ℤ
spent = record state { providers = ("codex", provider Quota.normal 300) ∷ [] }

seen : lookup "codex" spent.providers ≡ some (provider Quota.normal 300)
unfolding lookup str_eq
seen = refl

nothing_left : is_spent (effective_remaining (snapshot 300)) ≡ true
unfolding is_spent effective_remaining min_loop min_step remaining clamp01
nothing_left = refl

classify-excludes_example : (classify desired spent now [] entry).status ≡ Candidacy.excluded
classify-excludes_example =
    classify-excludes desired spent now [] entry base suffix "codex" (provider Quota.normal 300)
      parsed owned seen (inr (inr (inr (snapshot 300, refl, inr nothing_left))))

abbrev phase : PhasePolicy
phase Tier.normal = some (record { groups = ("zai/glm" ∷ []) ∷ (entry ∷ []) ∷ [] })
phase _ = none

abbrev policy : Policy
policy = record { version = pos 1; phases = ("execution", phase) ∷ [] }

abbrev tier : TierPolicy
tier = record { groups = ("zai/glm" ∷ []) ∷ (entry ∷ []) ∷ [] }

found : find_tier policy "execution" Tier.normal ≡ ok tier
unfolding find_tier valid_tier tier_index lookup str_eq
found = refl

abbrev chosen : Outcome ℤ
chosen = record {
  version = pos 1;
  phase = "execution";
  tier = Tier.normal;
  reference = entry;
  base = base;
  suffix = suffix;
  mapping = "codex";
  kind = Kind.confirmed;
  headroom = some (pos 150);
  evidence = "";
}

selected : select policy desired state now "execution" Tier.normal [] ≡ ok chosen
unfolding select find_tier valid_tier tier_index select_groups choose choose_uncertain group_loop
    best_loop better first_uncertain score_groups score_group build_result classify by_reference
    by_owner by_mapping by_provider by_evidence by_snapshot by_age by_status by_availability
    by_headroom family_of enabled_in corrupt_quota corrupt_availability corrupt_status
    corrupt_snapshot_availability corrupt_window confirm_ttl is_unavailable is_spent is_down
    is_exhausted parse_model_ref cut has_code split_last resolve_model lookup str_eq
    effective_remaining min_loop min_step remaining clamp01
selected = refl

select-IsChoice_example :
    IsChoice
      (entries_of policy desired state now "execution" Tier.normal [] tier)
      "execution"
      Tier.normal
      chosen
select-IsChoice_example =
    select-IsChoice policy desired state now "execution" Tier.normal [] tier chosen found selected

select-no_candidate_example :
    (select policy desired spent now "execution" Tier.normal [] ≡ err no_candidate)
    ↔ All
        (λ e. e.c.status ≡ Candidacy.excluded)
        (entries_of policy desired spent now "execution" Tier.normal [] tier)
select-no_candidate_example =
    select-no_candidate policy desired spent now "execution" Tier.normal [] tier found

abbrev codex : ProviderPolicy
codex = record {
  mapping_id = "codex";
  balance_group = "";
  schedule = none;
  freshness_ttl = pos 0;
  weight = pos 1;
}

abbrev observed : ProviderObs ℤ
observed = record { mapping_id = "codex"; mode = "normal"; snapshot = some (snapshot 150) }

check_eligibility_iff_example :
    ((check_eligibility codex observed now).rankable ≡ true) ↔ IsRankable codex observed now
check_eligibility_iff_example = check_eligibility_iff codex observed now

abbrev show_float : ℤ → String
show_float x = "x"

abbrev gate_input : SignalGateInput ℤ
gate_input = record {
  mapping_id = "codex";
  snapshot = some (snapshot 300);
  freshness_ttl = pos 0;
  threshold = pos 0;
  enabled = true;
}

signal_gate_verdict_iff_example :
    ((signal_gate_verdict show_float gate_input now).gated ≡ true)
    ↔ HoldsGate show_float gate_input now
signal_gate_verdict_iff_example = signal_gate_verdict_iff show_float gate_input now

abbrev groups : List (List String)
groups = ("zai/glm" ∷ []) ∷ (entry ∷ []) ∷ []

accepts : tier_from_wire desired groups ≡ ok groups
unfolding tier_from_wire check_groups check_refs check_ref parse_model_ref cut has_code split_last
    resolve_model lookup str_eq
accepts = refl

tier_from_wire_sound_example :
    (groups ≡ groups)
    × (is_nil groups ≡ false)
    × All (IsValidGroup desired) groups
    × NoRepeat desired (pushed_groups desired groups [])
tier_from_wire_sound_example = tier_from_wire_sound desired groups groups accepts
