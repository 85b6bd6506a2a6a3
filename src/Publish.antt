-- ===== src/Publish.antt =====
-- internal/publish/types.go and publisher.go: the journal of a publication, and the state that a
-- recovery rebuilds from it (advanceState). The hash of a file is a value of any type `H`. The
-- durable form of the journal is the child module Durable.
pub mod Durable
pub mod Recovery
pub mod Recover
use polytoken_quota.Prelude.{
  ℕ, ◌+◌, ◌-◌, ◌*◌, ◌^◌, ◌%◌, ltb, eq_ℤ, negsuc, neg_ℕ, Bool, true, false, ◌&&◌, Option, none, some,
  List, [], ◌∷◌, String, ℤ, pos, Dict, lookup, insert, map, map_entries, map_option, if◌then◌else◌,
}
use polytoken_quota.Clock.{Time, second}
use polytoken_quota.Floats.{Float, zero_f}
use polytoken_quota.State.{
  State, TargetState, ApplyFailure, ProviderOwnership, ProviderNoticeState, PendingProviderNotice,
}
use polytoken_quota.State.Ownership.{axis_legacy, clone_provider_ownership}

pub record Replacement (H : Type 0) : Type 0 where
  pub live_path : String
  pub temp_path : String
  pub backup_path : String
  pub old_hash : H
  pub new_hash : H
  pub mode : ℕ
  pub applied : Bool

pub record Journal (F H : Type 0) : Type 0 where
  pub schema : ℤ
  pub prior_revision : ℕ
  pub next_revision : ℕ
  pub target_id : String
  pub managed_root : String
  pub replacements : List (Replacement H)
  pub intended : TargetState
  pub ownership_set : Bool
  pub ownership : Option (Dict (ProviderOwnership F))
  pub provider_notice_set : Bool
  pub provider_notice : Option PendingProviderNotice

-- ifZero(v, JournalSchema), and the schema of a recovered state
unfoldable pub or_one : ℤ → ℤ
or_one v = if eq_ℤ v (pos 0) then pos 1 else v

unfoldable pub clone_provider_notice : Option PendingProviderNotice → Option PendingProviderNotice
clone_provider_notice p = p

unfoldable pub target_or_zero : Option TargetState → TargetState
target_or_zero (some t) = t
target_or_zero none = record {
  attempted_revision = 0;
  applied_revision = 0;
  attempted_at = 0;
  applied_at = 0;
  pending = none;
}

-- the outcome of the target
unfoldable pub recovered_target : {F H : Type 0} → State F → Journal F H → Bool → Time → TargetState
unfolding target_or_zero
recovered_target prior j true now = record j.intended {
  applied_revision = j.next_revision;
  attempted_revision = j.next_revision;
  applied_at = now;
  attempted_at = now;
  pending = none;
}
recovered_target prior j false now = record (target_or_zero (lookup j.target_id prior.targets)) {
  attempted_revision = j.next_revision;
  attempted_at = now;
  pending = some (record {
    target_id = j.target_id;
    stage = "publish";
    file = "";
    chain = "";
    remediation = "";
    last_successful_revision = 0;
    last_successful_at = 0;
    resolved_at = 0;
    reproduces = false;
    summary = "restored to last-known-good after interrupted apply";
    attempted_revision = j.next_revision;
    attempted_at = now;
    live_status = "last-known-good";
  });
}

unfoldable pub advance_state : {F H : Type 0} → State F → Journal F H → Bool → Time → State F
unfolding recovered_target clone_provider_ownership clone_provider_notice or_one
advance_state prior j applied now = record prior {
  revision = j.next_revision;
  schema = or_one prior.schema;
  provider_ownership =
      if applied && j.ownership_set
      then clone_provider_ownership j.ownership
      else prior.provider_ownership;
  pending_provider_notice =
      if applied && j.provider_notice_set
      then clone_provider_notice j.provider_notice
      else prior.pending_provider_notice;
  targets = insert j.target_id (recovered_target prior j applied now) prior.targets;
}
