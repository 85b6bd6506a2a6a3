-- ===== src/Tests/Gates.antt =====
-- The theorems on the provider gate and on the ranking, at concrete inputs.
use mathlib.Core.List.{Perm}
use polytoken_quota.Prelude.{
  ◌≡◌, ◌↔◌, refl, Bool, true, false, not, ◌||◌, none, some, Option, [], ◌∷◌, List, String, ℤ, pos,
  Dict, member, if◌then◌else◌, lookup, str_eq, map, Result, ok, str_ltb, stable_sort, insert_sorted,
}
use polytoken_quota.State.{Mode, State, ProviderOwnership}
use polytoken_quota.State.Ownership.{ownership_map, ownership_of, axis_signal}
use polytoken_quota.Routing.{SignalGateVerdict, ProviderPolicy}
use polytoken_quota.Routing.Gate.{HoldsGate}
use polytoken_quota.Routing.Rank.{RankingInput, rank}
use polytoken_quota.Routing.Rank.Ranks.{ranked_standing, policy_standing, rank-Perm}
use polytoken_quota.Reconcile.Modes.{mapping_mode}
use polytoken_quota.Gate.{
  LiveField, is_off, is_on, sorted_provider_ids, durable_gate_applies, pool_of, enrolled_input,
}
use polytoken_quota.Gate.Pool.{pool_rule}
use polytoken_quota.Gate.PoolLaws.{IsSkipped, IsFreed}
use polytoken_quota.Gate.PoolRule.{pool_rule_iff}
use polytoken_quota.Gate.Decide.{Facts, decide, owned_claim, is_baseline, signal_gates}
use polytoken_quota.Gate.Decisions.{baseline, claim_after, is_gated, decide-diverged}
use polytoken_quota.Gate.Plans.{
  plan_provider_gate, read_live, live_of, is_exempt, pool_decision, keeps_enabled,
}
use polytoken_quota.Gate.PlanLaws.{field_with}
use polytoken_quota.Gate.Rounds.{World, Pass, Stands, run_passes, held_at_end, run_passes-refines}
use polytoken_quota.Gate.Passes.{
  IsDecided, pass_facts, plan_provider_gate_lem, plan_provider_gate-refusal,
  plan_provider_gate-spares,
}
use polytoken_quota.Gate.Verdicts.{pass_verdicts, signal_gates_iff}
use polytoken_quota.Tests.Fixed.{fixed}
use polytoken_quota.Tests.Data.{desired, state, snapshot}

-- an absent key, which enables
abbrev absent_field : LiveField
absent_field = record { present = false; value = false }

abbrev on_field : LiveField
on_field = record { present = true; value = true }

abbrev hot : SignalGateVerdict ℤ
hot = record { mapping_id = "codex"; signal = some (pos 0); gated = true; reason = "" }

-- what a pass reads of a provider that is disabled, or normal
abbrev facts : Mode → Facts ℤ
facts m = record {
  field = on_field;
  claim = none;
  mode = m;
  exempt = false;
  verdict = record hot { gated = false };
  gate_enabled = true;
  gate_threshold = pos 0;
  skipped = false;
  keep_enabled = false;
  revision = 8;
}

abbrev passes : List (Pass ℤ)
passes =
    record { facts = facts Mode.disabled; published = true }
    ∷ record { facts = facts Mode.normal; published = false }
    ∷ record { facts = facts Mode.normal; published = true }
    ∷ []

abbrev start : World ℤ
start = record { field = absent_field; claim = none }

start-Stands : Stands absent_field false start
unfolding baseline
start-Stands = (refl, refl)

run_passes-refines_example :
    Stands absent_field (held_at_end absent_field false passes) (run_passes start passes)
run_passes-refines_example = run_passes-refines absent_field false start passes refl start-Stands

-- a state that has seen no provider
abbrev idle : State ℤ
idle = record state { providers = [] }

abbrev read : String → Result String (Option LiveField)
read id = ok (some absent_field)

abbrev unknown : String → String
unknown id = id

abbrev both_hot : Dict (SignalGateVerdict ℤ)
both_hot = ("codex", hot) ∷ ("zai", hot) ∷ []

abbrev live : Dict LiveField
live = ("codex", absent_field) ∷ ("zai", absent_field) ∷ []

all_read : read_live read unknown (sorted_provider_ids desired) ≡ ok live
unfolding read_live sorted_provider_ids stable_sort insert_sorted str_ltb
all_read = refl

codex_enrolled : member "codex" (sorted_provider_ids desired) ≡ true
unfolding sorted_provider_ids stable_sort insert_sorted str_ltb str_eq
codex_enrolled = refl

codex_on : is_on (live_of live "codex") ≡ true
unfolding is_on live_of lookup str_eq
codex_on = refl

codex_free :
    durable_gate_applies (mapping_mode desired idle "codex") (is_exempt desired "codex") ≡ false
unfolding durable_gate_applies mapping_mode lookup str_eq
codex_free = refl

plan_provider_gate_lem_example :
    IsDecided desired idle both_hot 8 read unknown live "codex" absent_field
      (plan_provider_gate desired idle both_hot 8 read unknown)
plan_provider_gate_lem_example =
    plan_provider_gate_lem desired idle both_hot 8 read unknown live all_read "codex" absent_field

plan_provider_gate-refusal_example :
    let r = plan_provider_gate desired idle both_hot 8 read unknown in
    baseline (lookup "codex" (ownership_map r.0.refusal_ownership))
    ≡ baseline (ownership_of idle "codex")
plan_provider_gate-refusal_example =
    plan_provider_gate-refusal desired idle both_hot 8 read unknown "codex"

plan_provider_gate-spares_example :
    let r = plan_provider_gate desired idle both_hot 8 read unknown in
    (j : String) × (member j (sorted_provider_ids desired) ≡ true)
    × (pool_of desired j ≡ pool_of desired "codex")
    × (is_on (live_of live j) ≡ true)
    × (is_on (field_with r.0.edits j (live_of live j)) ≡ true)
plan_provider_gate-spares_example =
    plan_provider_gate-spares desired idle both_hot 8 read unknown live all_read "codex"
      codex_enrolled codex_on codex_free

abbrev all_of : Bool → String → Bool
all_of b id = b

abbrev one_pool : String → String
one_pool id = "default"

abbrev all_normal : String → Mode
all_normal id = Mode.normal

abbrev pair : List String
pair = "codex" ∷ "zai" ∷ []

pool_rule_iff_example :
    let d =
      pool_rule (all_of true) (all_of true) (all_of true) (all_of false) all_normal one_pool pair in
    let skipped =
      IsSkipped
        (all_of true)
        (all_of true)
        (all_of true)
        (all_of false)
        all_normal
        one_pool
        pair
        (one_pool "zai") in
    ((member "zai" d.skip_signal ≡ true)
      ↔ ((member "zai" pair ≡ true) × (all_of true "zai" ≡ true) × skipped))
    × ((member "zai" d.release ≡ true) ↔ (
        (member "zai" pair ≡ true)
        × IsFreed (all_of true) (all_of true) (all_of true) (all_of false) all_normal "zai"
        × skipped))
pool_rule_iff_example =
    pool_rule_iff (all_of true) (all_of true) (all_of true) (all_of false) all_normal one_pool pair
      "zai"

abbrev show : ℤ → String
show x = "0"

signal_gates_iff_example :
    let verdicts = pass_verdicts show desired state 9 in
    let skip = (pool_decision desired state verdicts 8 live).skip_signal in
    (signal_gates (pass_facts desired state verdicts 8 read unknown live "codex") ≡ true) ↔ (
      HoldsGate show (enrolled_input desired state "codex") 9
      × (member "codex" skip ≡ false)
      × (keeps_enabled desired "codex" ≡ false))
signal_gates_iff_example =
    signal_gates_iff show desired state 9 8 read unknown live "codex" codex_enrolled

-- a claim of the signal axis on a provider that the operator has turned on again
abbrev claim : ProviderOwnership ℤ
claim = record {
  baseline_present = false;
  baseline_value = false;
  owned = true;
  conflict = false;
  axis = axis_signal;
  threshold = pos 0;
  engaged_revision = 7;
}

abbrev diverged_facts : Facts ℤ
diverged_facts = record (facts Mode.disabled) { claim = some claim }

claim_held : owned_claim diverged_facts.claim ≡ some claim
unfolding owned_claim
claim_held = refl

turned_on : is_off diverged_facts.field ≡ false
unfolding is_off
turned_on = refl

decide-diverged_example :
    let d = decide diverged_facts in
    let diverged = is_gated diverged_facts || not (is_baseline diverged_facts.field claim) in
    (d.edit ≡ none)
    × (d.conflict ≡ diverged)
    × (baseline (claim_after d.published diverged_facts.claim)
        ≡ (if diverged then baseline diverged_facts.claim else none))
    × (baseline (claim_after d.refusal diverged_facts.claim) ≡ baseline diverged_facts.claim)
decide-diverged_example = decide-diverged diverged_facts claim claim_held turned_on

abbrev policy_of : String → ProviderPolicy
policy_of id = record {
  mapping_id = id;
  balance_group = "";
  schedule = none;
  freshness_ttl = pos 0;
  weight = pos 0;
}

abbrev ranking : RankingInput ℤ
ranking = record {
  now = 9;
  policies = policy_of "zai" ∷ policy_of "codex" ∷ [];
  obs = record { mapping_id = "codex"; mode = "normal"; snapshot = some (snapshot 150) } ∷ [];
}

rank-Perm_example :
    Perm (map ranked_standing (rank show ranking)) (map (policy_standing ranking) ranking.policies)
rank-Perm_example = rank-Perm show ranking
