-- ===== src/Gate/Plans.antt =====
-- planProviderGate of internal/service/provider_gate.go. The reading of the live fields from the
-- YAML text of the global config is the parameter `read`: an error, or `ok none` for a provider
-- that the config does not describe.
use polytoken_quota.Prelude.{
  ℕ, Bool, true, false, ◌||◌, Option, none, some, List, [], ◌∷◌, ◌++◌, String, if◌then◌else◌, Dict,
  lookup, insert, delete, map_entries, Result, ok, err, ◌>>=◌, is_nil, member,
}
use polytoken_quota.Floats.{Float}
use polytoken_quota.State.{State, ProviderOwnership}
use polytoken_quota.State.Ownership.{
  ownership_map, ownership_of, clone_provider_ownership, signal_held,
}
use polytoken_quota.Policy.{Desired}
use polytoken_quota.Reconcile.Plans.{FieldEdit, EditValue}
use polytoken_quota.Reconcile.Modes.{mapping_mode, quota_gate_exempt}
use polytoken_quota.Routing.{SignalGateVerdict}
use polytoken_quota.Gate.{
  LiveField, ProviderRestore, ProviderGatePlan, provider_field_edit, is_on, sorted_provider_ids,
  signal_gate_config_of,
}
use polytoken_quota.Gate.Pool.{SignalPoolDecision, signal_pool_rule}
use polytoken_quota.Gate.Decide.{
  ClaimChange, keep_claim, put_claim, drop_claim, Decision, Facts, decide,
}

-- `claimTarget(...)[id] = record` makes a missing map first; `delete` does nothing on one.
unfoldable pub apply_claim :
    {F : Type 0}
    → ClaimChange F
    → String
    → Option (Dict (ProviderOwnership F))
    → Option (Dict (ProviderOwnership F))
unfolding ownership_map
apply_claim keep_claim id m = m
apply_claim (put_claim r) id m = some (insert id r (ownership_map m))
apply_claim drop_claim id none = none
apply_claim drop_claim id (some m) = some (delete id m)

unfoldable pub list_if : {A : Type 0} → Bool → A → List A
list_if true a = a ∷ []
list_if false a = []

unfoldable pub edits_of : String → Option EditValue → List FieldEdit
edits_of id none = []
edits_of id (some v) = provider_field_edit id v ∷ []

unfoldable pub restores_of : String → Option LiveField → List ProviderRestore
restores_of id none = []
restores_of id (some b) =
    record { id = id; restore_present = b.present; restore_value = b.value } ∷ []

-- the reading of every enrolled provider's field, before any decision
unfoldable pub read_live :
    {E : Type 0}
    → (String → Result E (Option LiveField))
    → (String → E)
    → List String
    → Result E (Dict LiveField)
read_live read absent [] = ok []
read_live read absent (id ∷ ids) =
    let rest = read_live read absent ids in
    read id >>= λ o. elim o [
      | none ↦ err (absent id)
      | some lf ↦ rest >>= λ live. ok ((id, lf) ∷ live)
    ]

-- `live[id]`
unfoldable pub live_of : Dict LiveField → String → LiveField
live_of live id = elim (lookup id live) [
  | none ↦ record { present = false; value = false }
  | some lf ↦ lf
]

-- `record.SignalHeld()` of an observed record
unfoldable pub holds_signal : {F : Type 0} → State F → String → Bool
unfolding signal_held ownership_of
holds_signal s id = elim (ownership_of s id) [ none ↦ false | some r ↦ signal_held r ]

-- QuotaGateExempt and KeepEnabled of `desired.Providers[id]`
unfoldable pub is_exempt : {F : Type 0} → Desired F → String → Bool
unfolding quota_gate_exempt
is_exempt d id = elim (lookup id d.providers) [ none ↦ false | some m ↦ quota_gate_exempt m ]

unfoldable pub keeps_enabled : {F : Type 0} → Desired F → String → Bool
keeps_enabled d id = elim (lookup id d.providers) [ none ↦ false | some m ↦ m.keep_enabled ]

module _ {F : Type 0} ⦃fl : Float F⦄ where
  -- `verdicts[id]`, where the zero value never gates
  unfoldable pub verdict_of : Dict (SignalGateVerdict F) → String → SignalGateVerdict F
  verdict_of vs id = elim (lookup id vs) [
    | none ↦ record { mapping_id = ""; signal = none; gated = false; reason = "" }
    | some v ↦ v
  ]

  unfoldable pub is_hot : Dict (SignalGateVerdict F) → String → Bool
  unfolding verdict_of
  is_hot vs id = (verdict_of vs id).gated

  -- one round of the loop: what the decision adds to the plan
  unfoldable pub add_decision :
      String → SignalGateVerdict F → F → Decision F → ProviderGatePlan F → ProviderGatePlan F
  unfolding list_if edits_of restores_of apply_claim
  add_decision id v threshold c plan = record plan {
    disables = plan.disables ++ list_if c.disables id;
    restores = plan.restores ++ restores_of id c.restores;
    edits = plan.edits ++ edits_of id c.edit;
    published_ownership = apply_claim c.published id plan.published_ownership;
    refusal_ownership = apply_claim c.refusal id plan.refusal_ownership;
    conflicts = plan.conflicts ++ list_if c.conflict id;
    gate_summary =
        plan.gate_summary
        ++ record {
          provider = id;
          action = c.action;
          axis = c.axis;
          signal = v.signal;
          threshold = some threshold;
          detail = c.detail;
        }
          ∷ [];
    changed = plan.changed || c.changed;
  }

  -- the loop, over the facts of each provider
  unfoldable pub plan_loop :
      (String → Facts F) → List String → ProviderGatePlan F → ProviderGatePlan F
  unfolding add_decision decide
  plan_loop facts [] plan = plan
  plan_loop facts (id ∷ ids) plan =
      let f = facts id in
      plan_loop facts ids (add_decision id f.verdict f.gate_threshold (decide f) plan)

  unfoldable pub start_plan : State F → ProviderGatePlan F
  unfolding clone_provider_ownership
  start_plan observed = record {
    disables = [];
    restores = [];
    edits = [];
    published_ownership = clone_provider_ownership observed.provider_ownership;
    refusal_ownership = clone_provider_ownership observed.provider_ownership;
    conflicts = [];
    pool_skips = [];
    gate_summary = [];
    changed = false;
    enabled = none;
  }

  module _ (desired : Desired F) (observed : State F) (verdicts : Dict (SignalGateVerdict F))
      (revision : ℕ) where
    unfoldable pub pool_decision : Dict LiveField → SignalPoolDecision
    unfolding signal_pool_rule is_hot live_of is_on holds_signal is_exempt
    pool_decision live =
        signal_pool_rule (is_hot verdicts) (λ id. is_on (live_of live id)) (holds_signal observed)
          (is_exempt desired) (mapping_mode desired observed) desired

    unfoldable pub facts_of : Dict LiveField → SignalPoolDecision → String → Facts F
    unfolding live_of verdict_of is_exempt keeps_enabled signal_gate_config_of ownership_of
    facts_of live pool id = record {
      field = live_of live id;
      claim = ownership_of observed id;
      mode = mapping_mode desired observed id;
      exempt = is_exempt desired id;
      verdict = verdict_of verdicts id;
      gate_enabled = (signal_gate_config_of desired id).0;
      gate_threshold = (signal_gate_config_of desired id).1;
      skipped = member id pool.skip_signal;
      keep_enabled = keeps_enabled desired id;
      revision = revision;
    }

    unfoldable pub plan_with : Dict LiveField → ProviderGatePlan F
    unfolding pool_decision facts_of plan_loop start_plan
    plan_with live =
        let pool = pool_decision live in
        plan_loop (facts_of live pool) (sorted_provider_ids desired) (record (start_plan observed) {
          pool_skips = pool.pools;
          enabled = some (map_entries (λ id lf. is_on lf) live);
        })

    -- An error comes with the plan that changes nothing.
    unfoldable pub plan_provider_gate :
        {E : Type 0}
        → (String → Result E (Option LiveField))
        → (String → E)
        → ProviderGatePlan F × Option E
    unfolding plan_with start_plan read_live
    plan_provider_gate read absent =
        let ids = sorted_provider_ids desired in
        if is_nil ids
        then (record (start_plan observed) { enabled = some [] }, none)
        else elim (read_live read absent ids) [
          | err e ↦ (start_plan observed, some e)
          | ok live ↦ (plan_with live, none)
        ]
