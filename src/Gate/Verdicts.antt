-- ===== src/Gate/Verdicts.antt =====
-- The verdicts that a pass of the provider gate starts from: SignalGateVerdicts of
-- internal/routing/signal_gate.go on signalGateInputs of internal/service/signal_gate.go.
use polytoken_quota.Prelude.{
  ℕ, ◌≡◌, refl, ap, ◌∙◌, Bool, true, false, not, ◌||◌, Option, some, List, [], ◌∷◌, String, arith,
  inl, inr, ◌↔◌, if◌then◌else◌, Dict, lookup, insert, lookup-insert, member, map, str_eq,
  str_eq_iff, Option-cases, Result,
}
use polytoken_quota.Clock.{Time}
use polytoken_quota.Floats.{Float}
use polytoken_quota.State.{State}
use polytoken_quota.Policy.{Mapping, Desired}
use polytoken_quota.Quota.{QuotaSnapshot}
use polytoken_quota.Routing.{
  SignalGateVerdict, signal_gate_verdict, signal_gate_verdicts, verdict_loop,
}
use polytoken_quota.Routing.Gate.{HoldsGate, signal_gate_verdict_iff}
use polytoken_quota.Gate.{
  LiveField, sorted_provider_ids, signal_gate_inputs, enrolled_input, gate_input, disabled_input,
  observed_snapshot, signal_gate_config_of, mapping_signal_gate,
}
use polytoken_quota.Gate.Decide.{signal_gates}
use polytoken_quota.Gate.Plans.{verdict_of, facts_of, pool_decision, keeps_enabled}
use polytoken_quota.Gate.Passes.{pass_facts}

-- An entry that is written first, and the rounds behind it.
merge_entry :
    {A : Type 0} (b m : Bool) (x y z : A)
    → (b ≡ true → x ≡ y)
    → (if m then y else if b then x else z) ≡ (if b || m then y else z)
merge_entry true true x y z e = refl
merge_entry true false x y z e = e refl
merge_entry false true x y z e = refl
merge_entry false false x y z e = refl

module _ {F : Type 0} ⦃fl : Float F⦄ (format : F → String) (desired : Desired F)
    (observed : State F) (now : Time) where
  mapping_id-gate_input :
      (id : String) (snap : Option (QuotaSnapshot F)) (m : Mapping F)
      → (gate_input id snap m).mapping_id ≡ id
  unfolding gate_input disabled_input
  mapping_id-gate_input id snap m = elim (Option-cases m.quota) [
    | inl e ↦ rw (e, gate_input)
    | inr (q, e) ↦ rw (e, gate_input)
  ]

  mapping_id-enrolled_input : (id : String) → (enrolled_input desired observed id).mapping_id ≡ id
  unfolding enrolled_input disabled_input
  mapping_id-enrolled_input id = elim (Option-cases (lookup id desired.providers)) [
    | inl e ↦ rw (e, enrolled_input)
    | inr (m, e) ↦
        rw (e, enrolled_input) (mapping_id-gate_input id (observed_snapshot observed id) m)
  ]

  lookup-verdict_loop :
      (id : String) (ids : List String) (out : Dict (SignalGateVerdict F))
      → lookup id (verdict_loop format now out (map (enrolled_input desired observed) ids)) ≡ (
          if member id ids
          then some (signal_gate_verdict format (enrolled_input desired observed id) now)
          else lookup id out)
  unfolding verdict_loop
  lookup-verdict_loop id [] out = refl
  lookup-verdict_loop id (i ∷ ids) out =
      let verdict : String → SignalGateVerdict F =
        λ j. signal_gate_verdict format (enrolled_input desired observed j) now in
      let v : SignalGateVerdict F = verdict i in
      let key : String = (enrolled_input desired observed i).mapping_id in
      let one : lookup id (insert key v out) ≡ (if str_eq i id then some v else lookup id out) =
        ap (λ k. lookup id (insert k v out)) (mapping_id-enrolled_input i)
        ∙ lookup-insert i id v out in
      lookup-verdict_loop id ids (insert key v out)
      ∙ ap (λ t. if member id ids then some (verdict id) else t) one
      ∙ merge_entry (str_eq i id) (member id ids) (some v) (some (verdict id)) (lookup id out)
          (λ e. ap (λ j. some (verdict j)) ((str_eq_iff i id).0 e))

  -- the verdicts of a pass
  unfoldable pub pass_verdicts : Dict (SignalGateVerdict F)
  pass_verdicts = signal_gate_verdicts format (signal_gate_inputs desired observed) now

  gated-verdict_of :
      (id : String)
      → member id (sorted_provider_ids desired) ≡ true
      → (verdict_of pass_verdicts id).gated
        ≡ (signal_gate_verdict format (enrolled_input desired observed id) now).gated
  unfolding verdict_of pass_verdicts signal_gate_verdicts signal_gate_inputs
  gated-verdict_of id m =
      rw (lookup-verdict_loop id (sorted_provider_ids desired) [], m, verdict_of)

  enabled-gate_input :
      (id : String) (snap : Option (QuotaSnapshot F)) (m : Mapping F)
      → (gate_input id snap m).enabled ≡ true
      → not (mapping_signal_gate m).disabled ≡ true
  unfolding gate_input disabled_input mapping_signal_gate
  enabled-gate_input id snap m h = elim (Option-cases m.quota) [
    | inl e ↦ let k : false ≡ true = rw (e, gate_input) at h in absurd (cc)
    | inr (q, e) ↦ rw (e, mapping_signal_gate) (rw (e, gate_input) at h)
  ]

  enabled-enrolled_input :
      (id : String)
      → (enrolled_input desired observed id).enabled ≡ true
      → (signal_gate_config_of desired id).0 ≡ true
  unfolding enrolled_input disabled_input signal_gate_config_of
  enabled-enrolled_input id h = elim (Option-cases (lookup id desired.providers)) [
    | inl e ↦ let k : false ≡ true = rw (e, enrolled_input) at h in absurd (cc)
    | inr (m, e) ↦
        rw (e, signal_gate_config_of)
          (enabled-gate_input id (observed_snapshot observed id) m (rw (e, enrolled_input) at h))
  ]

  module _ {E : Type 0} (revision : ℕ) (read : String → Result E (Option LiveField))
      (absent : String → E) where
    -- On the verdicts that the pass computes itself, the signal axis gates an enrolled provider
    -- exactly where there is evidence for it (an enabled gate with a valid threshold, and a fresh
    -- snapshot from a source that is not degraded, whose signal is at or below the threshold), the
    -- pool rule does not skip it, and the policy does not say to keep it enabled.
    pub signal_gates_iff :
        (live : Dict LiveField) (id : String)
        → member id (sorted_provider_ids desired) ≡ true
        → let skip = (pool_decision desired observed pass_verdicts revision live).skip_signal in
          (signal_gates (pass_facts desired observed pass_verdicts revision read absent live id)
            ≡ true)
          ↔ (HoldsGate format (enrolled_input desired observed id) now
              × (member id skip ≡ false)
              × (keeps_enabled desired id ≡ false))
    unfolding signal_gates pass_facts facts_of
    signal_gates_iff live id m =
        let i = enrolled_input desired observed id in
        let g = gated-verdict_of id m in
        let v = signal_gate_verdict_iff format i now in
        (
          λ h. (v.0 (ground (arith, g)), ground arith, ground arith),
          λ (h, skip, keep).
              let on : (signal_gate_config_of desired id).0 ≡ true =
                enabled-enrolled_input id h.enabled in
              let gated : (signal_gate_verdict format i now).gated ≡ true = v.1 h in
              rw (on, g, gated, skip, keep),
        )
