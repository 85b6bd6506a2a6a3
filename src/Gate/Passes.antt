-- ===== src/Gate/Passes.antt =====
-- What a plan of the provider gate promises (planProviderGate in
-- internal/service/provider_gate.go), over all enrolled providers.
use polytoken_quota.Prelude.{
  ℕ, ◌≡◌, refl, ap, ◌∙◌, Bool, true, false, not, ◌&&◌, Option, none, some, List, [], String, arith,
  inl, inr, if◌then◌else◌, Dict, lookup, member, is_nil, Bool-cases, Result, ok, err, Result-cases,
  map_entries,
}
use polytoken_quota.Floats.{Float}
use polytoken_quota.State.{State}
use polytoken_quota.State.Ownership.{ownership_map, ownership_of, clone_provider_ownership}
use polytoken_quota.Policy.{Desired}
use polytoken_quota.Reconcile.Modes.{mapping_mode}
use polytoken_quota.Routing.{SignalGateVerdict}
use polytoken_quota.Gate.{
  LiveField, ProviderGatePlan, is_off, is_on, sorted_provider_ids, durable_gate_applies, pool_of,
}
use polytoken_quota.Gate.Pool.{signal_pool_rule, otherwise_enabled}
use polytoken_quota.Gate.PoolRule.{pool_rule-spares}
use polytoken_quota.Gate.Decide.{Facts, decide, signal_gates, owned_claim}
use polytoken_quota.Gate.Decisions.{
  claim_after, baseline, decide-baseline, decide-edit, edit_table, is_gated,
}
use polytoken_quota.Gate.Rounds.{field_after}
use polytoken_quota.Gate.Plans.{
  read_live, live_of, is_hot, holds_signal, is_exempt, start_plan, pool_decision, facts_of,
  plan_with, plan_provider_gate,
}
use polytoken_quota.Gate.PlanLaws.{
  field_with, plan_loop-field, plan_loop-published, plan_loop-refusal, plan_loop-conflicts,
}
use polytoken_quota.Gate.Reads.{
  no_ids, untouched, is_on-not_off, counted_lem, and_left, not_right, zero_field,
}

module _ {F : Type 0} ⦃fl : Float F⦄ {E : Type 0} (desired : Desired F) (observed : State F)
    (verdicts : Dict (SignalGateVerdict F)) (revision : ℕ)
    (read : String → Result E (Option LiveField)) (absent : String → E) where
  -- the facts on which the pass decides about a provider
  unfoldable pub pass_facts : Dict LiveField → String → Facts F
  pass_facts live =
      facts_of desired observed verdicts revision live
        (pool_decision desired observed verdicts revision live)

  abbrev result : ProviderGatePlan F × Option E
  result = plan_provider_gate desired observed verdicts revision read absent

  no_enrolled :
      is_nil (sorted_provider_ids desired) ≡ true
      → result ≡ (record (start_plan observed) { enabled = some [] }, none)
  unfolding plan_provider_gate
  no_enrolled q = rw q

  all_read :
      {live : Dict LiveField}
      → is_nil (sorted_provider_ids desired) ≡ false
      → read_live read absent (sorted_provider_ids desired) ≡ ok live
      → result ≡ (plan_with desired observed verdicts revision live, none)
  unfolding plan_provider_gate
  all_read q e = rw (q, e)

  not_read :
      {problem : E}
      → is_nil (sorted_provider_ids desired) ≡ false
      → read_live read absent (sorted_provider_ids desired) ≡ err problem
      → result ≡ (start_plan observed, some problem)
  unfolding plan_provider_gate
  not_read q e = rw (q, e)

  start_lem :
      (id : String) (lf : LiveField) (enabled : Option (Dict Bool)) (pools : List String)
      → let start = record (start_plan observed) { enabled = enabled; pool_skips = pools } in
        (field_with start.edits id lf ≡ lf)
        × (lookup id (ownership_map start.published_ownership) ≡ ownership_of observed id)
        × (lookup id (ownership_map start.refusal_ownership) ≡ ownership_of observed id)
        × (member id start.conflicts ≡ false)
  unfolding start_plan clone_provider_ownership ownership_of field_with
  start_lem id lf enabled pools = (refl, refl, refl, refl)

  -- what a plan says about one provider, by the decision on it
  abbrev pub IsDecided :
      Dict LiveField → String → LiveField → ProviderGatePlan F × Option E → Type 0
  IsDecided live id lf r =
      let d = decide (pass_facts live id) in
      let enrolled = member id (sorted_provider_ids desired) in
      let before = ownership_of observed id in
      (r.1 ≡ none)
      × (field_with r.0.edits id lf ≡ (if enrolled then field_after d.edit lf else lf))
      × (lookup id (ownership_map r.0.published_ownership)
          ≡ (if enrolled then claim_after d.published before else before))
      × (lookup id (ownership_map r.0.refusal_ownership)
          ≡ (if enrolled then claim_after d.refusal before else before))
      × (member id r.0.conflicts ≡ enrolled && d.conflict)

  -- For every provider, enrolled or not, where the fields are read: the edits of the plan leave its
  -- live field as its decision says, the two ownership maps hold its record as the decision says,
  -- and it is reported as a conflict where the decision is one. No other provider is touched.
  pub plan_provider_gate_lem :
      (live : Dict LiveField)
      → read_live read absent (sorted_provider_ids desired) ≡ ok live
      → (id : String) (lf : LiveField)
      → IsDecided live id lf (plan_provider_gate desired observed verdicts revision read absent)
  unfolding plan_with pass_facts
  plan_provider_gate_lem live e id lf =
      let ids = sorted_provider_ids desired in
      let facts = pass_facts live in
      let pools : List String = (pool_decision desired observed verdicts revision live).pools in
      elim (Bool-cases (is_nil ids)) [
        | inl q ↦
            let s = start_lem id lf (some []) [] in
            rw (no_enrolled q, no_ids id ids q) (refl, s.0, s.1, s.2, s.3)
        | inr q ↦
            let en : Option (Dict Bool) = some (map_entries (λ i f. is_on f) live) in
            let s = start_lem id lf en pools in
            let start : ProviderGatePlan F = record (start_plan observed) {
              enabled = en;
              pool_skips = pools;
            } in
            rw (all_read q e) (
              refl,
              plan_loop-field facts id ids start lf ∙ rw s.0,
              plan_loop-published facts id ids start ∙ rw s.1,
              plan_loop-refusal facts id ids start ∙ rw s.2,
              plan_loop-conflicts facts id ids start,
            )
      ]

  -- Whatever the pass finds, the ownership map that a refused pass saves holds the same claims as
  -- the observed one, with the same baselines: a refusal never claims and never releases.
  pub plan_provider_gate-refusal :
      (id : String)
      → let r = plan_provider_gate desired observed verdicts revision read absent in
        baseline (lookup id (ownership_map r.0.refusal_ownership))
        ≡ baseline (ownership_of observed id)
  unfolding pass_facts facts_of
  plan_provider_gate-refusal id =
      let ids = sorted_provider_ids desired in
      elim (Result-cases (read_live read absent ids)) [
        | inl (live, e) ↦
            let lf : LiveField = record { present = false; value = false } in
            let k = plan_provider_gate_lem live e id lf in
            let f = pass_facts live id in
            elim (Bool-cases (member id ids)) [
              | inl m ↦ rw (k.3, m) (decide-baseline f).1
              | inr m ↦ rw (k.3, m)
            ]
        | inr (problem, e) ↦ elim (Bool-cases (is_nil ids)) [
          | inl q ↦ rw (no_enrolled q) (ap baseline (start_lem id zero_field (some []) []).2)
          | inr q ↦ rw (not_read q e) (ap baseline (start_lem id zero_field none []).2)
        ]
      ]

  -- a provider that no axis gates keeps a field that is on
  decide-stays_on :
      (f : Facts F) → is_gated f ≡ false → is_on f.field ≡ true → (decide f).edit ≡ none
  unfolding edit_table
  decide-stays_on f cold on =
      let off : is_off f.field ≡ false = ground (arith, is_on-not_off f.field) in
      rw (decide-edit f, cold, off) (untouched (owned_claim f.claim))

  -- Neither the mode nor the signal gates such a provider.
  is_gated-pass_facts :
      (live : Dict LiveField) (j : String)
      → durable_gate_applies (mapping_mode desired observed j) (is_exempt desired j) ≡ false
      → is_hot verdicts j
          && not (member j (pool_decision desired observed verdicts revision live).skip_signal)
        ≡ false
      → is_gated (pass_facts live j) ≡ false
  unfolding pass_facts facts_of is_gated signal_gates is_hot
  is_gated-pass_facts live j free cold = ground arith

  -- The pool rule at work: where a balance group has a provider that is on and that no durable
  -- axis gates in this pass, the edits of the pass leave some provider of the group on.
  pub plan_provider_gate-spares :
      (live : Dict LiveField)
      → read_live read absent (sorted_provider_ids desired) ≡ ok live
      → (a : String) → member a (sorted_provider_ids desired) ≡ true
      → is_on (live_of live a) ≡ true
      → durable_gate_applies (mapping_mode desired observed a) (is_exempt desired a) ≡ false
      → let r = plan_provider_gate desired observed verdicts revision read absent in
        (j : String) × (member j (sorted_provider_ids desired) ≡ true)
        × (pool_of desired j ≡ pool_of desired a)
        × (is_on (live_of live j) ≡ true)
        × (is_on (field_with r.0.edits j (live_of live j)) ≡ true)
  unfolding pool_decision signal_pool_rule pass_facts facts_of field_after
  plan_provider_gate-spares live e a enrolled on free =
      let on_now : String → Bool = λ id. is_on (live_of live id) in
      let mode = mapping_mode desired observed in
      let counted : otherwise_enabled (is_hot verdicts) on_now (holds_signal observed)
            (is_exempt desired) mode a
          ≡ true =
        rw (
          counted_lem (is_hot verdicts) on_now (holds_signal observed) (is_exempt desired) mode a,
          on,
          free,
        ) in
      let (j, m, g, o, cold) =
        pool_rule-spares (is_hot verdicts) on_now (holds_signal observed) (is_exempt desired) mode
          (pool_of desired) (sorted_provider_ids desired) a enrolled counted in
      let both : on_now j && not (durable_gate_applies (mode j) (is_exempt desired j)) ≡ true =
        rw
          (← counted_lem (is_hot verdicts) on_now (holds_signal observed) (is_exempt desired) mode
            j)
          o in
      let on_j : is_on (live_of live j) ≡ true = and_left _ _ both in
      let free_j : durable_gate_applies (mode j) (is_exempt desired j) ≡ false =
        not_right _ _ both in
      let k = plan_provider_gate_lem live e j (live_of live j) in
      let stays : (decide (pass_facts live j)).edit ≡ none =
        decide-stays_on (pass_facts live j) (is_gated-pass_facts live j free_j cold) on_j in
      (j, m, g, on_j, rw (k.1, m, stays) on_j)
