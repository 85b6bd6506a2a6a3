-- ===== src/Publish/Durable.antt =====
-- internal/publish/journal.go and helpers.go: the durable form of the journal of a publication, and
-- its reading. The hash of a file has a hexadecimal text.
use polytoken_quota.Prelude.{
  ℕ, ◌+◌, ◌-◌, ◌*◌, ◌^◌, ◌%◌, ltb, negsuc, neg_ℕ, Bool, true, false, Option, none, some, List,
  String, ℤ, pos, Dict, map, map_entries, if◌then◌else◌,
}
use polytoken_quota.Clock.{Time, second}
use polytoken_quota.Floats.{Float, zero_f}
use polytoken_quota.State.{
  TargetState, ApplyFailure, ProviderOwnership, ProviderNoticeState, PendingProviderNotice,
}
use polytoken_quota.State.Ownership.{axis_legacy}
use polytoken_quota.Publish.{Journal, Replacement, or_one}

pub record JournalOwnership : Type 0 where
  pub baseline_present : Bool
  pub baseline_value : Bool
  pub owned : Bool
  pub conflict : Bool

pub record JournalProviderNoticeState : Type 0 where
  pub id : String
  pub enabled : Bool

pub record JournalProviderNotice : Type 0 where
  pub revision : ℕ
  pub providers : List JournalProviderNoticeState

unfoldable pub to_notice_state : ProviderNoticeState → JournalProviderNoticeState
to_notice_state p = record { id = p.id; enabled = p.enabled }

-- the reason is the zero value
unfoldable pub from_notice_state : JournalProviderNoticeState → ProviderNoticeState
from_notice_state p = record { id = p.id; enabled = p.enabled; reason = "" }

unfoldable pub to_journal_provider_notice :
    Option PendingProviderNotice → Option JournalProviderNotice
unfolding to_notice_state
to_journal_provider_notice none = none
to_journal_provider_notice (some p) =
    some (record { revision = p.revision; providers = map to_notice_state p.providers })

unfoldable pub from_journal_provider_notice :
    Option JournalProviderNotice → Option PendingProviderNotice
unfolding from_notice_state
from_journal_provider_notice none = none
from_journal_provider_notice (some p) =
    some (record { revision = p.revision; providers = map from_notice_state p.providers })

unfoldable pub to_ownership_entry : {F : Type 0} → ProviderOwnership F → JournalOwnership
to_ownership_entry v = record {
  baseline_present = v.baseline_present;
  baseline_value = v.baseline_value;
  owned = v.owned;
  conflict = v.conflict;
}

unfoldable pub to_journal_ownership :
    {F : Type 0} → Option (Dict (ProviderOwnership F)) → Option (Dict JournalOwnership)
unfolding to_ownership_entry
to_journal_ownership none = none
to_journal_ownership (some m) = some (map_entries (λ k v. to_ownership_entry v) m)

module _ {F : Type 0} ⦃fl : Float F⦄ where
  -- the other fields are the zero values
  unfoldable pub from_ownership_entry : JournalOwnership → ProviderOwnership F
  from_ownership_entry v = record {
    baseline_present = v.baseline_present;
    baseline_value = v.baseline_value;
    owned = v.owned;
    conflict = v.conflict;
    axis = axis_legacy;
    threshold = zero_f;
    engaged_revision = 0;
  }

  unfoldable pub from_journal_ownership :
      Option (Dict JournalOwnership) → Option (Dict (ProviderOwnership F))
  unfolding from_ownership_entry
  from_journal_ownership none = none
  from_journal_ownership (some m) = some (map_entries (λ k v. from_ownership_entry v) m)

pub record JournalReplacement : Type 0 where
  pub live_path : String
  pub temp_path : String
  pub backup_path : String
  pub old_hash : String
  pub new_hash : String
  pub mode : ℕ
  pub applied : Bool

-- `pending` is a pointer to a Boolean.
pub record IntendedTarget : Type 0 where
  pub attempted_revision : ℕ
  pub applied_revision : ℕ
  pub attempted_at_unix : ℤ
  pub applied_at_unix : ℤ
  pub pending : Option Bool
  pub stage : String
  pub summary : String
  pub live_status : String

pub record JournalFile : Type 0 where
  pub schema : ℤ
  pub prior_revision : ℕ
  pub next_revision : ℕ
  pub target_id : String
  pub managed_root : String
  pub replacements : List JournalReplacement
  pub intended : IntendedTarget
  pub ownership_set : Bool
  pub ownership : Option (Dict JournalOwnership)
  pub provider_notice_set : Bool
  pub provider_notice : Option JournalProviderNotice

-- the Unix epoch
abbrev epoch : ℕ
epoch = 62135596800 * second

-- t.UnixNano(), which wraps at 64 bits
unfoldable pub unix_nano : Time → ℤ
unix_nano t =
    let n = (t + (4 * 2 ^ 64 - epoch)) % 2 ^ 64 in
    if ltb n (2 ^ 63) then pos n else neg_ℕ (2 ^ 64 - n)

unfoldable pub unix_nano_time : ℤ → Time
unix_nano_time (pos n) = if ltb 0 n then epoch + n else 0
unix_nano_time (negsuc n) = epoch - (n + 1)

unfoldable pub intended_pending : IntendedTarget → Option ApplyFailure → IntendedTarget
intended_pending it none = record it { pending = some false }
intended_pending it (some p) = record it {
  pending = some true;
  stage = p.stage;
  summary = p.summary;
  live_status = p.live_status;
}

unfoldable pub to_intended : TargetState → IntendedTarget
unfolding unix_nano intended_pending
to_intended t =
    intended_pending
      (record {
        attempted_revision = t.attempted_revision;
        applied_revision = t.applied_revision;
        attempted_at_unix = unix_nano t.attempted_at;
        applied_at_unix = unix_nano t.applied_at;
        pending = none;
        stage = "";
        summary = "";
        live_status = "";
      })
      t.pending

unfoldable pub pending_failure : IntendedTarget → Option Bool → Option ApplyFailure
pending_failure it (some true) = some (record {
  target_id = "";
  stage = it.stage;
  file = "";
  chain = "";
  summary = it.summary;
  remediation = "";
  last_successful_revision = 0;
  attempted_revision = 0;
  last_successful_at = 0;
  attempted_at = 0;
  resolved_at = 0;
  reproduces = false;
  live_status = it.live_status;
})
pending_failure it _ = none

unfoldable pub from_intended : IntendedTarget → TargetState
unfolding unix_nano_time pending_failure
from_intended it = record {
  attempted_revision = it.attempted_revision;
  applied_revision = it.applied_revision;
  attempted_at = unix_nano_time it.attempted_at_unix;
  applied_at = unix_nano_time it.applied_at_unix;
  pending = pending_failure it it.pending;
}

module _ {H : Type 0} (hex_encode : H → String) where
  unfoldable pub to_replacement : Replacement H → JournalReplacement
  to_replacement r = record {
    live_path = r.live_path;
    temp_path = r.temp_path;
    backup_path = r.backup_path;
    old_hash = hex_encode r.old_hash;
    new_hash = hex_encode r.new_hash;
    mode = r.mode % 512;
    applied = r.applied;
  }

  unfoldable pub to_journal_file : {F : Type 0} → Journal F H → JournalFile
  unfolding or_one to_intended to_replacement to_journal_ownership to_journal_provider_notice
  to_journal_file j = record {
    schema = or_one j.schema;
    prior_revision = j.prior_revision;
    next_revision = j.next_revision;
    target_id = j.target_id;
    managed_root = j.managed_root;
    replacements = map to_replacement j.replacements;
    intended = to_intended j.intended;
    ownership_set = j.ownership_set;
    ownership = to_journal_ownership j.ownership;
    provider_notice_set = j.provider_notice_set;
    provider_notice = to_journal_provider_notice j.provider_notice;
  }

module _ {H : Type 0} (hex_decode : String → H) where
  unfoldable pub from_replacement : JournalReplacement → Replacement H
  from_replacement r = record {
    live_path = r.live_path;
    temp_path = r.temp_path;
    backup_path = r.backup_path;
    old_hash = hex_decode r.old_hash;
    new_hash = hex_decode r.new_hash;
    mode = r.mode;
    applied = r.applied;
  }

  unfoldable pub from_journal_file : {F : Type 0} → ⦃fl : Float F⦄ → JournalFile → Journal F H
  unfolding from_intended from_replacement from_journal_ownership from_journal_provider_notice
  from_journal_file jf = record {
    schema = jf.schema;
    prior_revision = jf.prior_revision;
    next_revision = jf.next_revision;
    target_id = jf.target_id;
    managed_root = jf.managed_root;
    replacements = map from_replacement jf.replacements;
    intended = from_intended jf.intended;
    ownership_set = jf.ownership_set;
    ownership = from_journal_ownership jf.ownership;
    provider_notice_set = jf.provider_notice_set;
    provider_notice = from_journal_provider_notice jf.provider_notice;
  }
