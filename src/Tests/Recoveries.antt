-- ===== src/Tests/Recoveries.antt =====
-- The theorems on a recovery, at a journal of a signal claim whose hashes are their own text.
use polytoken_quota.Prelude.{
  ◌≡◌, ◌⊎◌, str_eq, refl, true, false, none, some, [], ◌∷◌, String, ℤ, pos, lookup, map_option,
  if◌then◌else◌,
}
use polytoken_quota.State.Ownership.{ownership_map, ownership_of, signal_held, axis_signal}
use polytoken_quota.Publish.{Journal, advance_state, target_or_zero}
use polytoken_quota.Publish.Recover.{FileHash, Files, RecoveryAction, found, recover}
use polytoken_quota.Publish.Recover.Again.{IsRecovered, IsWithheld, recover-recover}
use polytoken_quota.Publish.Recovery.{
  reread, roll_forward-signal_held, roll_forward_lem, without_axis, without_reasons,
}
use polytoken_quota.Tests.Fixed.{fixed}
use polytoken_quota.Tests.Data.{now, ownership, state}

abbrev journal : Journal ℤ String
journal = record {
  schema = pos 0;
  prior_revision = 7;
  next_revision = 8;
  target_id = "global";
  managed_root = "/config";
  replacements =
      record {
        live_path = "/config/models.yaml";
        temp_path = "/config/.models.yaml";
        backup_path = "/config/.models.bak";
        old_hash = "a0";
        new_hash = "b1";
        mode = 420;
        applied = false;
      }
      ∷ [];
  intended = target_or_zero none;
  ownership_set = true;
  ownership = some (("codex", record ownership { axis = axis_signal }) ∷ []);
  provider_notice_set = true;
  provider_notice = some (record {
    revision = 8;
    providers = record { id = "codex"; enabled = false; reason = "signal" } ∷ [];
  });
}

abbrev same : String → String
same s = s

roll_forward_lem_example :
    let next = advance_state state (reread same same journal) true now in
    (next.revision ≡ journal.next_revision)
    × (map_option (λ t. t.pending) (lookup journal.target_id next.targets) ≡ some none)
    × (ownership_of next "codex" ≡ (
        if journal.ownership_set
        then map_option without_axis (lookup "codex" (ownership_map journal.ownership))
        else ownership_of state "codex"))
    × (next.pending_provider_notice ≡ (
        if journal.provider_notice_set
        then map_option without_reasons journal.provider_notice
        else state.pending_provider_notice))
roll_forward_lem_example = roll_forward_lem same same state journal now "codex"

roll_forward-signal_held_example :
    map_option signal_held
      (ownership_of (advance_state state (reread same same journal) true now) "codex")
    ≡ map_option (λ o. false) (lookup "codex" (ownership_map journal.ownership))
roll_forward-signal_held_example = roll_forward-signal_held same same state journal now "codex" refl

-- a disk on which the live file has the intended contents
abbrev disk : Files ℤ String
disk = record {
  live = λ path. FileHash.present "b1";
  paths_ok = λ j. true;
  restored = λ backup path. true;
  saved = λ s. true;
  removed = false;
}

abbrev based : Journal ℤ String
based = record journal { prior_revision = state.revision }

recover-recover_example :
    let o = recover str_eq disk (found based) state now in
    let again = recover str_eq disk (found based) o.committed 90 in
    ((o.failed ≡ false)
      × IsRecovered str_eq disk state based now o.action o.committed
      × (o.committed.revision ≡ based.next_revision)
      × (o.returned ≡ o.committed)
      × (again.action ≡ RecoveryAction.noop)
      × (again.failed ≡ false)
      × (again.committed ≡ o.committed))
    ⊎ IsWithheld state o
recover-recover_example = recover-recover str_eq disk disk state based now 90
