-- ===== src/Tests/Evidences.antt =====
-- The theorems on the evidence registry and on ComputeRanking, at concrete inputs.
use polytoken_quota.Prelude.{
  ◌≡◌, ◌↔◌, ◌⊎◌, none, true, some, is_some, lookup, List, [], ◌∷◌, String, ℤ, All,
}
use polytoken_quota.Clock.{Time}
use polytoken_quota.Quota.Evidence.{
  Evidence, contracts_of, codex_usage_contract, get_contract, status_contract,
  support_from_evidence, validate_release,
}
use polytoken_quota.Quota.Evidence.Release.{
  HasRelease, IsCurrent, IsFresh, support_iff, validate_release_iff,
}
use polytoken_quota.Ranking.{compute_ranking}
use polytoken_quota.Ranking.Ranked.{compute_ranking_iff, rankable_now}
use polytoken_quota.Tests.Fixed.{fixed}
use polytoken_quota.Tests.Data.{desired, now, state}

abbrev glm : Evidence
glm = record {
  provider = "zai";
  contract_id = "";
  endpoint = "/api/quota";
  method = "GET";
  auth_type = "bearer";
  schema_note = "";
  fixture_path = "testdata/zai.json";
  recorded_at = 5;
  review_by = 90;
}

-- the generic record of codex, which stands in for its usage record
abbrev generic : Evidence
generic = record glm { provider = "codex" }

abbrev registry : List Evidence
registry = glm ∷ generic ∷ []

abbrev format_day : Time → String
format_day t = "2026-11-25"

validate_release_iff_example :
    All IsFresh (validate_release format_day registry ("codex" ∷ "zai" ∷ []) 60)
    ↔ All (λ p. All (HasRelease registry 60 p) (contracts_of p)) ("codex" ∷ "zai" ∷ [])
validate_release_iff_example = validate_release_iff format_day registry ("codex" ∷ "zai" ∷ []) 60

support_iff_example :
    ((support_from_evidence (status_contract format_day registry "codex" "usage" 60)).supported
      ≡ true)
    ↔ (((e : Evidence) × (get_contract registry "codex" "usage" ≡ some e) × IsCurrent 60 e)
        ⊎ ((generic.provider ≡ "codex")
            × (codex_usage_contract ≡ "usage")
            × (get_contract registry "codex" "usage" ≡ none)
            × ((e : Evidence) × (get_contract registry "codex" "" ≡ some e) × IsCurrent 60 e)))
support_iff_example = support_iff format_day registry "codex" "usage" 60

abbrev no_text : ℤ → String
no_text x = "0"

compute_ranking_iff_example :
    is_some (lookup "codex" (compute_ranking desired state no_text now).0)
    ≡ rankable_now desired state now "codex"
compute_ranking_iff_example = compute_ranking_iff desired state no_text now "codex"
