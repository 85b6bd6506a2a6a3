-- ===== src/Gate/Decide.antt =====
-- The body of the loop of planProviderGate (internal/service/provider_gate.go): what a pass does
-- with one provider. A decision says what is added to the plan; `Gate.Plans` adds it.
use polytoken_quota.Prelude.{
  ℕ, Bool, true, false, not, ◌&&◌, ◌||◌, Option, none, some, String, if◌then◌else◌, bool_eq,
}
use polytoken_quota.Floats.{Float, zero_f}
use polytoken_quota.State.{Mode, ProviderOwnership}
use polytoken_quota.State.Ownership.{signal_held, axis_signal, axis_reserve, axis_disabled}
use polytoken_quota.Reconcile.Plans.{EditValue, enabled, remove}
use polytoken_quota.Routing.{SignalGateVerdict}
use polytoken_quota.Gate.{LiveField, GateAction, is_off, durable_gate_applies}

-- What becomes of the record of a provider in an ownership map.
pub data ClaimChange (F : Type 0) : Type 0 where
  keep_claim : ClaimChange F
  put_claim : ProviderOwnership F → ClaimChange F
  drop_claim : ClaimChange F

pub record Decision (F : Type 0) : Type 0 where
  pub action : GateAction
  pub axis : String
  pub detail : String
  -- the provider is one of `Disables`
  pub disables : Bool
  -- the baseline that is restored
  pub restores : Option LiveField
  -- what the edit of `providers.<id>.enabled` carries
  pub edit : Option EditValue
  pub published : ClaimChange F
  pub refusal : ClaimChange F
  pub conflict : Bool
  pub changed : Bool

-- What the loop reads about a provider.
pub record Facts (F : Type 0) : Type 0 where
  pub field : LiveField
  pub claim : Option (ProviderOwnership F)
  pub mode : Mode
  pub exempt : Bool
  pub verdict : SignalGateVerdict F
  pub gate_enabled : Bool
  pub gate_threshold : F
  pub skipped : Bool
  pub keep_enabled : Bool
  pub revision : ℕ

abbrev pub pool_skip_detail : String
pool_skip_detail = "pool fully overdrawn this pass; signal gate skipped"

abbrev pub operator_held_detail : String
operator_held_detail = "operator holds the provider off"

abbrev pub conflict_detail : String
conflict_detail = "operator edit diverges from the held claim"

abbrev pub moved_detail : String
moved_detail = "gate attribution moved to the signal axis"

-- `owned := hasRecord && record.Owned`, with the record where it holds
unfoldable pub owned_claim :
    {F : Type 0} → Option (ProviderOwnership F) → Option (ProviderOwnership F)
owned_claim none = none
owned_claim (some r) = if r.owned then some r else none

-- "the live field is the recorded baseline"
unfoldable pub is_baseline : {F : Type 0} → LiveField → ProviderOwnership F → Bool
is_baseline lf r =
    bool_eq lf.present r.baseline_present && (not lf.present || bool_eq lf.value r.baseline_value)

unfoldable pub durable_axis : Mode → String
durable_axis Mode.disabled = axis_disabled
durable_axis _ = axis_reserve

module _ {F : Type 0} ⦃fl : Float F⦄ where
  open fl use {ltb_f, is_nan}

  -- `==` on float64
  unfoldable pub eq_f : F → F → Bool
  eq_f a b = not (ltb_f a b) && not (ltb_f b a) && not (is_nan a) && not (is_nan b)

  -- a branch that adds only its row of the summary
  unfoldable pub row : GateAction → String → String → Decision F
  row action axis detail = record {
    action = action;
    axis = axis;
    detail = detail;
    disables = false;
    restores = none;
    edit = none;
    published = keep_claim;
    refusal = keep_claim;
    conflict = false;
    changed = false;
  }

  -- "operator edit diverges": the claim is marked on both maps
  unfoldable pub report_conflict : String → ProviderOwnership F → Decision F
  unfolding row
  report_conflict axis r =
      let marked = record r { conflict = true } in
      record (row GateAction.conflict axis conflict_detail) {
        published = put_claim marked;
        refusal = put_claim marked;
        conflict = true;
        changed = not r.conflict;
      }

  -- "claim intact": a stale conflict marker is cleared
  unfoldable pub hold : String → ProviderOwnership F → Decision F
  unfolding row
  hold axis r =
      let cleared = record r { conflict = false } in
      let held = row GateAction.held axis "" in
      if r.conflict
      then record held {
        published = put_claim cleared;
        refusal = put_claim cleared;
        changed = true;
      }
      else held

  -- "write the disable and claim the operator baseline"
  unfoldable pub disable : String → F → String → Facts F → Decision F
  unfolding row
  disable axis threshold detail f = record (row GateAction.disabled axis detail) {
    disables = true;
    edit = some (enabled false);
    published = put_claim (record {
      baseline_present = f.field.present;
      baseline_value = f.field.value;
      owned = true;
      conflict = false;
      axis = axis;
      threshold = threshold;
      engaged_revision = f.revision;
    });
    changed = true;
  }

  -- no claim: an operator's "off" stays, all else is disabled
  unfoldable pub engage : String → F → String → Facts F → Decision F
  unfolding row disable is_off
  engage axis threshold detail f =
      if is_off f.field
      then row GateAction.unchanged axis operator_held_detail
      else disable axis threshold detail f

  unfoldable pub durable_by : Facts F → Option (ProviderOwnership F) → Decision F
  unfolding engage report_conflict hold is_off durable_axis
  durable_by f none = engage (durable_axis f.mode) zero_f "" f
  durable_by f (some r) =
      if not (is_off f.field)
      then report_conflict (durable_axis f.mode) r
      else hold (durable_axis f.mode) r

  -- "transfer attribution to the signal axis in place"
  unfoldable pub transfer : Facts F → ProviderOwnership F → Decision F
  unfolding row eq_f signal_held
  transfer f r =
      let moved = not (signal_held r) || not (eq_f r.threshold f.gate_threshold) in
      let next = record r {
        axis = axis_signal;
        threshold = f.gate_threshold;
        engaged_revision = f.revision;
      } in
      record (row GateAction.held axis_signal (if moved then moved_detail else "")) {
        published = put_claim next;
        refusal = put_claim next;
        changed = moved;
      }

  unfoldable pub signal_by : Facts F → Option (ProviderOwnership F) → Decision F
  unfolding engage report_conflict hold transfer is_off eq_f signal_held
  signal_by f none = engage axis_signal f.gate_threshold f.verdict.reason f
  signal_by f (some r) =
      if not (is_off f.field)
      then report_conflict axis_signal r
      else if signal_held r && eq_f r.threshold f.gate_threshold
      then hold axis_signal r
      else transfer f r

  unfoldable pub release_detail : Facts F → String
  release_detail f = if f.skipped then pool_skip_detail else f.verdict.reason

  -- "restore the recorded operator baseline in its original shape"
  unfoldable pub restore : Facts F → ProviderOwnership F → Decision F
  unfolding row release_detail
  restore f r = record (row GateAction.restored "" (release_detail f)) {
    restores = some (record { present = r.baseline_present; value = r.baseline_value });
    edit = some (if r.baseline_present then enabled r.baseline_value else remove);
    published = drop_claim;
    changed = true;
  }

  -- "release the claim without editing"
  unfoldable pub release : Facts F → ProviderOwnership F → Decision F
  unfolding row release_detail
  release f r = record (row GateAction.released "" (release_detail f)) {
    published = drop_claim;
    refusal = if r.conflict then put_claim (record r { conflict = false }) else keep_claim;
    changed = r.conflict;
  }

  unfoldable pub normal_by : Facts F → Option (ProviderOwnership F) → Decision F
  unfolding row restore release report_conflict is_off is_baseline
  normal_by f none =
      if f.skipped
      then row GateAction.pool_skip "" pool_skip_detail
      else row GateAction.unchanged "" ""
  normal_by f (some r) =
      if is_off f.field
      then restore f r
      else if is_baseline f.field r
      then release f r
      else report_conflict "" r

  -- `gated`
  unfoldable pub signal_gates : Facts F → Bool
  signal_gates f = f.gate_enabled && f.verdict.gated && not f.skipped && not f.keep_enabled

  unfoldable pub decide : Facts F → Decision F
  unfolding durable_by signal_by normal_by signal_gates durable_gate_applies owned_claim
  decide f =
      let o = owned_claim f.claim in
      if durable_gate_applies f.mode f.exempt
      then durable_by f o
      else if signal_gates f
      then signal_by f o
      else normal_by f o
