-- ===== src/Ranking.antt =====
-- internal/service/ranking.go: ComputeRanking, from a policy and an observed state to the rank of
-- each mapping.
pub mod Ranked
use polytoken_quota.Prelude.{
  ℕ, ◌≡◌, Bool, true, false, Option, none, some, List, [], ◌∷◌, String, pos, if◌then◌else◌, Dict,
  lookup, insert,
}
use polytoken_quota.Clock.{Time}
use polytoken_quota.Floats.{Float}
use polytoken_quota.Quota.{QuotaSnapshot}
use polytoken_quota.State.{Mode, ProviderState, State}
use polytoken_quota.Policy.{Desired, QuotaConfig}
use polytoken_quota.Reconcile.Modes.{mapping_mode}
use polytoken_quota.Reconcile.Survivors.{RankLookup}
use polytoken_quota.Routing.{ProviderPolicy, ProviderObs}
use polytoken_quota.Routing.Rank.{RankEntry, RankingInput, rank}
use polytoken_quota.Gate.{sorted_provider_ids}

-- string(mode)
unfoldable pub mode_text : Mode → String
mode_text Mode.normal = "normal"
mode_text Mode.reserve = "reserve"
mode_text Mode.disabled = "disabled"

-- the quota section of `desired.Providers[id]`
unfoldable pub quota_of : {F : Type 0} → Desired F → String → Option (QuotaConfig F)
quota_of d id = elim (lookup id d.providers) [ none ↦ none | some m ↦ m.quota ]

unfoldable pub routing_policy : {F : Type 0} → String → QuotaConfig F → ProviderPolicy
routing_policy id q = record {
  mapping_id = id;
  balance_group = q.balance_group;
  schedule = q.schedule;
  freshness_ttl = q.freshness_ttl;
  weight = q.weight;
}

-- the loop that fills the lookup
unfoldable pub ranks_loop : RankLookup → List RankEntry → RankLookup
ranks_loop m [] = m
ranks_loop m (e ∷ es) = ranks_loop (if e.eligible then insert e.mapping_id (pos e.rank) m else m) es

module _ {F : Type 0} ⦃fl : Float F⦄ (desired : Desired F) (observed : State F) where
  -- MappingMode reads nothing of the state but the providers.
  unfoldable pub observed_mode : String → ProviderState F → Mode × Option (QuotaSnapshot F)
  unfolding mapping_mode
  observed_mode id ps = elim ps.quota_snapshot [
    | none ↦ (Mode.disabled, none)
    | some snap ↦ (mapping_mode desired observed id, some snap)
  ]

  unfoldable pub aggregate_mapping_obs : String → Mode × Option (QuotaSnapshot F)
  unfolding observed_mode
  aggregate_mapping_obs id = elim (lookup id observed.providers) [
    | none ↦ (Mode.disabled, none)
    | some ps ↦ observed_mode id ps
  ]

  unfoldable pub routing_obs : String → ProviderObs F
  unfolding aggregate_mapping_obs mode_text
  routing_obs id =
      let (mode, snap) = aggregate_mapping_obs id in
      record { mapping_id = id; mode = mode_text mode; snapshot = snap }

  -- the two slices that the loop over the sorted IDs appends to
  unfoldable pub routing_policies : List String → List ProviderPolicy
  unfolding quota_of routing_policy
  routing_policies [] = []
  routing_policies (id ∷ ids) =
      let rest = routing_policies ids in
      elim (quota_of desired id) [ none ↦ rest | some q ↦ routing_policy id q ∷ rest ]

  unfoldable pub routing_observations : List String → List (ProviderObs F)
  unfolding quota_of routing_obs
  routing_observations [] = []
  routing_observations (id ∷ ids) =
      let rest = routing_observations ids in
      elim (quota_of desired id) [ none ↦ rest | some q ↦ routing_obs id ∷ rest ]

  unfoldable pub ranking_input : Time → RankingInput F
  unfolding routing_policies routing_observations sorted_provider_ids
  ranking_input now =
      let ids = sorted_provider_ids desired in
      record { now = now; policies = routing_policies ids; obs = routing_observations ids }

  unfoldable pub compute_ranking : (F → String) → Time → RankLookup × List RankEntry
  unfolding ranking_input ranks_loop rank
  compute_ranking format_signed now =
      let entries = rank format_signed (ranking_input now) in (ranks_loop [] entries, entries)
