-- ===== src/Gate.antt =====
-- internal/service/provider_gate.go, signal_gate.go and provider_only.go: the provider gate. This
-- module has the data of a gate plan and the lookups that its parts share; Gate.Pool is the pool
-- rule, Gate.Decide the decision on one provider, Gate.Plans the plan of a pass.
pub mod Pool
pub mod PoolLaws
pub mod PoolRule
pub mod Decide
pub mod Rounds
pub mod Decisions
pub mod Plans
pub mod PlanLaws
pub mod Reads
pub mod Passes
pub mod Verdicts
use polytoken_quota.Prelude.{
  ℕ, ◌≡◌, Bool, true, false, not, ◌&&◌, ◌||◌, Option, none, some, List, [], ◌∷◌, String,
  if◌then◌else◌, Dict, lookup, is_empty, map, str_ltb, stable_sort, pos,
}
use polytoken_quota.Floats.{Float, zero_f}
use polytoken_quota.State.{Mode, State, ProviderOwnership}
use polytoken_quota.Policy.{Mapping, Desired, SignalGateConfig, resolved}
use polytoken_quota.Quota.{QuotaSnapshot}
use polytoken_quota.Routing.{SignalGateInput, SignalGateVerdict}
use polytoken_quota.Reconcile.Plans.{FieldEdit, EditValue, scalar, sequence, enabled, remove}

-- the key `providers.<id>.enabled` of the registered global config
pub record LiveField : Type 0 where
  pub present : Bool
  pub value : Bool

-- GateAction*
pub data GateAction : Type 0 where
  disabled held restored released pool_skip conflict unchanged : GateAction

pub record ProviderGateSummary (F : Type 0) : Type 0 where
  pub provider : String
  pub action : GateAction
  pub axis : String
  pub signal : Option F
  pub threshold : Option F
  pub detail : String

pub record ProviderRestore : Type 0 where
  pub id : String
  pub restore_present : Bool
  pub restore_value : Bool

pub record ProviderGatePlan (F : Type 0) : Type 0 where
  pub disables : List String
  pub restores : List ProviderRestore
  pub edits : List FieldEdit
  -- nil, or a map
  pub published_ownership : Option (Dict (ProviderOwnership F))
  pub refusal_ownership : Option (Dict (ProviderOwnership F))
  pub conflicts : List String
  pub pool_skips : List String
  pub gate_summary : List (ProviderGateSummary F)
  pub changed : Bool
  -- nil, or a map
  pub enabled : Option (Dict Bool)

unfoldable pub provider_field_edit : String → EditValue → FieldEdit
provider_field_edit id v = record {
  file = "config.yaml";
  path = "providers" ∷ id ∷ "enabled" ∷ [];
  value = v;
}

-- the field explicitly says "off": `lf.present && !lf.value`
unfoldable pub is_off : LiveField → Bool
is_off lf = lf.present && not lf.value

-- `!present || value`: a key that is absent enables
unfoldable pub is_on : LiveField → Bool
is_on lf = not lf.present || lf.value

unfoldable pub durable_gate_applies : Mode → Bool → Bool
durable_gate_applies Mode.disabled exempt = true
durable_gate_applies Mode.reserve exempt = not exempt
durable_gate_applies Mode.normal exempt = false

unfoldable pub sorted_provider_ids : {F : Type 0} → Desired F → List String
sorted_provider_ids d = stable_sort str_ltb (map (λ entry. entry.0) d.providers)

-- an empty balance group is the "default" pool
unfoldable pub or_default : String → String
or_default g = if is_empty g then "default" else g

unfoldable pub signal_balance_group : {F : Type 0} → Mapping F → String
unfolding or_default
signal_balance_group m = elim m.quota [ none ↦ "default" | some q ↦ or_default q.balance_group ]

-- `desired.Providers[id]` for the group of a mapping; the zero mapping has no quota section
unfoldable pub pool_of : {F : Type 0} → Desired F → String → String
unfolding signal_balance_group
pool_of d id = elim (lookup id d.providers) [ none ↦ "default" | some m ↦ signal_balance_group m ]

module _ {F : Type 0} ⦃fl : Float F⦄ where
  -- DefaultSignalGate
  abbrev pub default_signal_gate : SignalGateConfig F
  default_signal_gate = record { disabled = false; threshold = zero_f }

  unfoldable pub mapping_signal_gate : Mapping F → SignalGateConfig F
  mapping_signal_gate m = elim m.quota [
    | none ↦ default_signal_gate
    | some q ↦ resolved q.signal_gate
  ]

  unfoldable pub signal_gate_config_of : Desired F → String → Bool × F
  unfolding mapping_signal_gate
  signal_gate_config_of d id =
      let sg : SignalGateConfig F = elim (lookup id d.providers) [
        | none ↦ default_signal_gate
        | some m ↦ mapping_signal_gate m
      ] in
      (not sg.disabled, sg.threshold)

  -- a mapping with no quota section has no adapter, and its input is disabled
  unfoldable pub disabled_input : String → Option (QuotaSnapshot F) → SignalGateInput F
  disabled_input id snap = record {
    mapping_id = id;
    snapshot = snap;
    freshness_ttl = pos 0;
    threshold = zero_f;
    enabled = false;
  }

  unfoldable pub gate_input : String → Option (QuotaSnapshot F) → Mapping F → SignalGateInput F
  unfolding disabled_input
  gate_input id snap m = elim m.quota [
    | none ↦ disabled_input id snap
    | some q ↦
        let sg = resolved q.signal_gate in
        record {
          mapping_id = id;
          snapshot = snap;
          freshness_ttl = q.freshness_ttl;
          threshold = sg.threshold;
          enabled = not sg.disabled;
        }
  ]

  unfoldable pub observed_snapshot : State F → String → Option (QuotaSnapshot F)
  observed_snapshot s id = elim (lookup id s.providers) [
    | none ↦ none
    | some ps ↦ ps.quota_snapshot
  ]

  unfoldable pub enrolled_input : Desired F → State F → String → SignalGateInput F
  unfolding gate_input disabled_input observed_snapshot
  enrolled_input d s id = elim (lookup id d.providers) [
    | none ↦ disabled_input id (observed_snapshot s id)
    | some m ↦ gate_input id (observed_snapshot s id) m
  ]

  unfoldable pub signal_gate_inputs : Desired F → State F → List (SignalGateInput F)
  unfolding sorted_provider_ids enrolled_input
  signal_gate_inputs d s = map (enrolled_input d s) (sorted_provider_ids d)
