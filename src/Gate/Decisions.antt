-- ===== src/Gate/Decisions.antt =====
-- Proofs about the decision on one provider (the loop body of planProviderGate in
-- internal/service/provider_gate.go), against tables that do not follow its branches.
use polytoken_quota.Prelude.{
  ◌≡◌, refl, Bool, true, false, not, ◌&&◌, ◌||◌, Option, none, some, arith, inl, inr, if◌then◌else◌,
  bool_eq, Bool-cases,
}
use polytoken_quota.Floats.{Float}
use polytoken_quota.State.{ProviderOwnership}
use polytoken_quota.Reconcile.Plans.{EditValue, enabled, remove}
use polytoken_quota.Gate.{LiveField, is_off, durable_gate_applies}
use polytoken_quota.Gate.Decide.{
  ClaimChange, keep_claim, put_claim, drop_claim, Decision, Facts, decide, durable_by, signal_by,
  normal_by, owned_claim, is_baseline, signal_gates, row, report_conflict, hold, disable, engage,
  transfer, restore, release,
}

-- "the live field is the baseline": a key that is absent has no value to compare
unfoldable pub same_field : LiveField → LiveField → Bool
same_field a b = bool_eq a.present b.present && (not a.present || bool_eq a.value b.value)

-- The baseline on record after a published pass, by the same three questions.
unfoldable pub baseline_table : Option LiveField → Bool → LiveField → Option LiveField
unfolding is_off same_field
baseline_table none gates lf = if gates && not (is_off lf) then some lf else none
baseline_table (some b) gates lf =
    if not gates && (is_off lf || same_field lf b) then none else some b

module _ {F : Type 0} ⦃fl : Float F⦄ where
  -- some axis gates the provider: its mode, or the signal
  unfoldable pub is_gated : Facts F → Bool
  is_gated f = durable_gate_applies f.mode f.exempt || signal_gates f

  -- the edit that brings a recorded baseline back
  unfoldable pub baseline_edit : ProviderOwnership F → EditValue
  baseline_edit r = if r.baseline_present then enabled r.baseline_value else remove

  -- by whether a claim is held, the provider is gated, and the live field says "off"
  unfoldable pub edit_table : Option (ProviderOwnership F) → Bool → Bool → Option EditValue
  unfolding baseline_edit
  edit_table none true false = some (enabled false)
  edit_table (some r) false true = some (baseline_edit r)
  edit_table _ _ _ = none

  durable_by-edit :
      (f : Facts F) (o : Option (ProviderOwnership F))
      → (durable_by f o).edit ≡ edit_table o true (is_off f.field)
  unfolding durable_by engage disable report_conflict hold row edit_table
  durable_by-edit f none = ground arith
  durable_by-edit f (some r) = ground arith

  signal_by-edit :
      (f : Facts F) (o : Option (ProviderOwnership F))
      → (signal_by f o).edit ≡ edit_table o true (is_off f.field)
  unfolding signal_by engage disable report_conflict hold transfer row edit_table
  signal_by-edit f none = ground arith
  signal_by-edit f (some r) = ground arith

  normal_by-edit :
      (f : Facts F) (o : Option (ProviderOwnership F))
      → (normal_by f o).edit ≡ edit_table o false (is_off f.field)
  unfolding normal_by restore release report_conflict row edit_table
  normal_by-edit f none = ground arith
  normal_by-edit f (some r) = ground arith

  pub decide-edit :
      (f : Facts F)
      → (decide f).edit ≡ edit_table (owned_claim f.claim) (is_gated f) (is_off f.field)
  unfolding decide is_gated
  decide-edit f =
      let o = owned_claim f.claim in
      ground (arith, durable_by-edit f o, signal_by-edit f o, normal_by-edit f o)

  -- the record of a provider after a change of its ownership map
  unfoldable pub claim_after :
      ClaimChange F → Option (ProviderOwnership F) → Option (ProviderOwnership F)
  claim_after keep_claim c = c
  claim_after (put_claim r) c = some r
  claim_after drop_claim c = none

  -- the operator's field that a held claim records
  unfoldable pub baseline : Option (ProviderOwnership F) → Option LiveField
  baseline none = none
  baseline (some r) =
      if r.owned
      then some (record { present = r.baseline_present; value = r.baseline_value })
      else none

  -- What is known of the claim where the branch is on `o`.
  abbrev pub IsOwnedClaim : Option (ProviderOwnership F) → Option (ProviderOwnership F) → Type 0
  IsOwnedClaim c none = baseline c ≡ none
  IsOwnedClaim c (some r) = (c ≡ some r) × (r.owned ≡ true)

  pub owned_claim_lem : (c : Option (ProviderOwnership F)) → IsOwnedClaim c (owned_claim c)
  unfolding owned_claim baseline
  owned_claim_lem none = refl
  owned_claim_lem (some r) = elim (Bool-cases r.owned) [
    | inl e ↦ rw e (refl, refl)
    | inr e ↦ rw e refl
  ]

  -- the baseline on record after the pass, published and refused
  abbrev pub BaselineAfter : Facts F → Bool → Decision F → Type 0
  BaselineAfter f gates d =
      (baseline (claim_after d.published f.claim) ≡ baseline_table (baseline f.claim) gates f.field)
      × (baseline (claim_after d.refusal f.claim) ≡ baseline f.claim)

  durable_by-baseline :
      (f : Facts F) (o : Option (ProviderOwnership F))
      → IsOwnedClaim f.claim o
      → BaselineAfter f true (durable_by f o)
  unfolding durable_by engage disable report_conflict hold row claim_after baseline_table baseline
  durable_by-baseline f none h = ground arith
  durable_by-baseline f (some r) h = ground arith

  signal_by-baseline :
      (f : Facts F) (o : Option (ProviderOwnership F))
      → IsOwnedClaim f.claim o
      → BaselineAfter f true (signal_by f o)
  unfolding signal_by engage disable report_conflict hold transfer row claim_after baseline_table
      baseline
  signal_by-baseline f none h = ground arith
  signal_by-baseline f (some r) h = ground arith

  normal_by-baseline :
      (f : Facts F) (o : Option (ProviderOwnership F))
      → IsOwnedClaim f.claim o
      → BaselineAfter f false (normal_by f o)
  unfolding normal_by restore release report_conflict row claim_after baseline_table baseline
      is_baseline same_field
  normal_by-baseline f none h = ground arith
  normal_by-baseline f (some r) h = ground arith

  pub decide-baseline : (f : Facts F) → BaselineAfter f (is_gated f) (decide f)
  unfolding decide is_gated
  decide-baseline f =
      let o = owned_claim f.claim in
      let h : IsOwnedClaim f.claim o = owned_claim_lem f.claim in
      ground (arith, durable_by-baseline f o h, signal_by-baseline f o h, normal_by-baseline f o h)

  -- A held claim whose field is on: gated, or not back at the recorded baseline.
  unfoldable pub conflict_table : Option (ProviderOwnership F) → Bool → LiveField → Bool
  unfolding is_off is_baseline
  conflict_table none gates lf = false
  conflict_table (some r) gates lf = not (is_off lf) && (gates || not (is_baseline lf r))

  by-conflict :
      (f : Facts F) (o : Option (ProviderOwnership F))
      → ((durable_by f o).conflict ≡ conflict_table o true f.field)
        × ((signal_by f o).conflict ≡ conflict_table o true f.field)
        × ((normal_by f o).conflict ≡ conflict_table o false f.field)
  unfolding durable_by signal_by normal_by engage disable report_conflict hold transfer restore
      release row conflict_table
  by-conflict f none = (ground arith, ground arith, ground arith)
  by-conflict f (some r) = (ground arith, ground arith, ground arith)

  pub decide-conflict :
      (f : Facts F)
      → (decide f).conflict ≡ conflict_table (owned_claim f.claim) (is_gated f) f.field
  unfolding decide is_gated
  decide-conflict f = let k = by-conflict f (owned_claim f.claim) in ground (arith, k.0, k.1, k.2)

  claimed_by :
      (c o : Option (ProviderOwnership F)) (r : ProviderOwnership F)
      → IsOwnedClaim c o
      → o ≡ some r
      → (c ≡ some r) × (r.owned ≡ true)
  claimed_by c none r k e = absurd (cc)
  claimed_by c (some q) r k e = (ground arith, ground arith)

  recorded_baseline :
      (r : ProviderOwnership F)
      → r.owned ≡ true
      → baseline (some r) ≡ some (record { present = r.baseline_present; value = r.baseline_value })
  unfolding baseline
  recorded_baseline r owned = ground arith

  no_edit : (r : ProviderOwnership F) (gates : Bool) → edit_table (some r) gates false ≡ none
  unfolding edit_table
  no_edit r true = refl
  no_edit r false = refl

  -- Where a claim is held and the operator has turned the provider on again, the pass edits
  -- nothing and the claim on record keeps its baseline, whether the pass is published or refused;
  -- it is a conflict exactly where some axis still gates the provider or the field is not the
  -- recorded baseline. Where neither is so the claim is released.
  pub decide-diverged :
      (f : Facts F) (r : ProviderOwnership F)
      → owned_claim f.claim ≡ some r
      → is_off f.field ≡ false
      → let d = decide f in
        let diverged = is_gated f || not (is_baseline f.field r) in
        (d.edit ≡ none)
        × (d.conflict ≡ diverged)
        × (baseline (claim_after d.published f.claim)
            ≡ (if diverged then baseline f.claim else none))
        × (baseline (claim_after d.refusal f.claim) ≡ baseline f.claim)
  unfolding edit_table conflict_table baseline_table same_field is_baseline
  decide-diverged f r o on =
      let (claimed, owned) =
        claimed_by f.claim (owned_claim f.claim) r (owned_claim_lem f.claim) o in
      let recorded : baseline f.claim
          ≡ some (record { present = r.baseline_present; value = r.baseline_value }) =
        rw claimed (recorded_baseline r owned) in
      let kept = decide-baseline f in
      let edit : edit_table (some r) (is_gated f) (is_off f.field) ≡ none =
        rw on (no_edit r (is_gated f)) in
      (
        rw (decide-edit f, o) edit,
        rw (decide-conflict f, o) (ground arith),
        rw (kept.0, recorded) (ground arith),
        kept.1,
      )
