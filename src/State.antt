-- ===== src/State.antt =====
-- internal/state/types.go and the derivations of internal/state/machine.go: the durable observed
-- state. The histories of the state (EventHistory, RoutingHistory, UsageHistory, ReconcileHistory)
-- are not fields of the model: no operation modelled here reads or writes them.
pub mod Machine
pub mod Effective
pub mod Override
pub mod Manual
pub mod Ownership
use polytoken_quota.Prelude.{
  ℕ, ◌≡◌, Bool, true, false, not, ◌&&◌, ◌||◌, Option, none, some, List, String, ℤ, if◌then◌else◌,
  Dict, str_eq, bool_eq,
}
use polytoken_quota.Clock.{Time}
use polytoken_quota.Quota.{QuotaSnapshot, ResetCreditState}

pub data Mode : Type 0 where
  normal reserve disabled : Mode

-- A text that names no level is kept: a state file may hold anything.
pub data Quota : Type 0 where
  empty normal low exhausted : Quota
  other : String → Quota

pub data Availability : Type 0 where
  empty available unavailable : Availability
  other : String → Availability

-- `==` on the two kinds of text
unfoldable pub quota_eq : Quota → Quota → Bool
quota_eq Quota.empty Quota.empty = true
quota_eq Quota.normal Quota.normal = true
quota_eq Quota.low Quota.low = true
quota_eq Quota.exhausted Quota.exhausted = true
quota_eq (Quota.other s) (Quota.other t) = str_eq s t
quota_eq _ _ = false

unfoldable pub availability_eq : Availability → Availability → Bool
availability_eq Availability.empty Availability.empty = true
availability_eq Availability.available Availability.available = true
availability_eq Availability.unavailable Availability.unavailable = true
availability_eq (Availability.other s) (Availability.other t) = str_eq s t
availability_eq _ _ = false

pub record Diagnostic : Type 0 where
  pub code : String
  pub provider : String
  pub summary : String
  pub at : Time

pub record ProviderPatch : Type 0 where
  pub quota : Option Quota
  pub availability : Option Availability

pub record Selector : Type 0 where
  pub provider : String
  pub all : Bool

pub record RoutingDecision : Type 0 where
  pub rank : ℤ
  pub eligible : Bool
  pub off_peak : Bool
  pub explanation : String
  pub evaluated_at : Time

pub record ProviderRouting : Type 0 where
  pub last_rank : ℤ
  pub last_decision_at : Time
  pub last_applied_revision : ℕ
  pub decision : Option RoutingDecision

pub record ProviderState (F : Type 0) : Type 0 where
  pub quota : Quota
  pub availability : Availability
  pub manual_disabled : Bool
  pub manual_disabled_at : Time
  pub quota_at : Time
  pub availability_at : Time
  pub quota_arrival : ℕ
  pub availability_arrival : ℕ
  pub quota_snapshot : Option (QuotaSnapshot F)
  pub quota_attempt : Option (QuotaSnapshot F)
  pub reset_credits : ResetCreditState F
  pub routing : ProviderRouting

-- `ProviderState{}`, which is also what a map gives for a missing key.
abbrev pub zero_provider : {F : Type 0} → ProviderState F
zero_provider = record {
  quota = Quota.empty;
  availability = Availability.empty;
  manual_disabled = false;
  manual_disabled_at = 0;
  quota_at = 0;
  availability_at = 0;
  quota_arrival = 0;
  availability_arrival = 0;
  quota_snapshot = none;
  quota_attempt = none;
  reset_credits = record { last_success = none; latest_attempt = none; usage_summary = none };
  routing = record {
    last_rank = ℤ.pos 0;
    last_decision_at = 0;
    last_applied_revision = 0;
    decision = none;
  };
}

pub record ApplyFailure : Type 0 where
  pub target_id : String
  pub stage : String
  pub file : String
  pub chain : String
  pub summary : String
  pub remediation : String
  pub last_successful_revision : ℕ
  pub attempted_revision : ℕ
  pub last_successful_at : Time
  pub attempted_at : Time
  pub resolved_at : Time
  pub reproduces : Bool
  pub live_status : String

pub record TargetState : Type 0 where
  pub attempted_revision : ℕ
  pub applied_revision : ℕ
  pub attempted_at : Time
  pub applied_at : Time
  pub pending : Option ApplyFailure

-- The axis is a text: the four named ones are the constants of internal/state/ownership.go.
pub record ProviderOwnership (F : Type 0) : Type 0 where
  pub baseline_present : Bool
  pub baseline_value : Bool
  pub owned : Bool
  pub conflict : Bool
  pub axis : String
  pub threshold : F
  pub engaged_revision : ℕ

pub record ProviderNoticeState : Type 0 where
  pub id : String
  pub enabled : Bool
  pub reason : String

pub record PendingProviderNotice : Type 0 where
  pub revision : ℕ
  pub providers : List ProviderNoticeState

pub record State (F : Type 0) : Type 0 where
  pub schema : ℤ
  pub revision : ℕ
  pub providers : Dict (ProviderState F)
  pub targets : Dict TargetState
  pub refresh_failed : List Diagnostic
  pub recovered : List ApplyFailure
  pub next_event_sequence : ℕ
  pub next_arrival_sequence : ℕ
  pub on_change_executed_revision : ℕ
  -- nil, or a map
  pub provider_ownership : Option (Dict (ProviderOwnership F))
  pub pending_provider_notice : Option PendingProviderNotice

unfoldable pub valid_quota : Quota → Bool
valid_quota Quota.normal = true
valid_quota Quota.low = true
valid_quota Quota.exhausted = true
valid_quota _ = false

unfoldable pub valid_availability : Availability → Bool
valid_availability Availability.available = true
valid_availability Availability.unavailable = true
valid_availability _ = false

abbrev pub or_normal : Quota → Quota
or_normal Quota.empty = Quota.normal
or_normal q = q

abbrev pub or_available : Availability → Availability
or_available Availability.empty = Availability.available
or_available av = av

unfoldable pub normalize_provider_axes : {F : Type 0} → ProviderState F → Quota × Availability
normalize_provider_axes ps = (or_normal ps.quota, or_available ps.availability)

unfoldable pub effective_mode : {F : Type 0} → ProviderState F → Mode
unfolding normalize_provider_axes valid_quota valid_availability quota_eq availability_eq
effective_mode ps =
    let (q, av) = normalize_provider_axes ps in
    if ps.manual_disabled
      || availability_eq av Availability.unavailable
      || quota_eq q Quota.exhausted
    then Mode.disabled
    else if not (valid_quota q) || not (valid_availability av)
    then Mode.disabled
    else if availability_eq av Availability.available && quota_eq q Quota.low
    then Mode.reserve
    else Mode.normal
