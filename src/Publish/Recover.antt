-- ===== src/Publish/Recover.antt =====
-- Recover of internal/publish/publisher.go: what a recovery does with the journal that it finds.
-- What the file system answers is a parameter: the hash of each live file, whether a path of the
-- journal passes the path checks, and whether a restore, the save of the state and the removal of
-- the journal succeed. An outcome says what is returned, what is committed, and whether the journal
-- is still there.
pub mod Again
use polytoken_quota.Prelude.{
  ℕ, Bool, true, false, not, ◌&&◌, ◌||◌, ◌==◌, Option, none, some, List, [], ◌∷◌, String, is_empty,
  is_some, Dict, lookup, insert, if◌then◌else◌,
}
use polytoken_quota.Clock.{Time}
use polytoken_quota.State.{State, TargetState, ApplyFailure}
use polytoken_quota.Publish.{Journal, Replacement, target_or_zero, advance_state}

-- sha256OfFile: the hash, or an error that os.IsNotExist accepts, or another one
pub data FileHash (H : Type 0) : Type 0 where
  present : H → FileHash H
  not_exist unreadable : FileHash H

pub data RecoveryAction : Type 0 where
  noop roll_forward restore refuse_external corrupt : RecoveryAction

-- readJournal: an error, no journal, or a journal
pub data FoundJournal (F H : Type 0) : Type 0 where
  bad_journal no_journal : FoundJournal F H
  found : Journal F H → FoundJournal F H

pub record Files (F H : Type 0) : Type 0 where
  pub live : String → FileHash H
  pub paths_ok : Journal F H → Bool
  pub restored : String → String → Bool
  pub saved : State F → Bool
  pub removed : Bool

pub record Outcome (F : Type 0) : Type 0 where
  pub returned : State F
  pub committed : State F
  pub action : RecoveryAction
  pub target_id : String
  pub failed : Bool
  pub journal_kept : Bool

module _ {H : Type 0} (eq_hash : H → H → Bool) where
  unfoldable pub has_new : FileHash H → Replacement H → Bool
  has_new (present h) r = eq_hash h r.new_hash
  has_new _ r = false

  unfoldable pub live_bytes_known : FileHash H → Replacement H → Bool
  live_bytes_known (present h) r = eq_hash h r.old_hash || eq_hash h r.new_hash
  live_bytes_known not_exist r = true
  live_bytes_known unreadable r = false

-- nothing is done and an error returned
unfoldable pub give_up : {F : Type 0} → RecoveryAction → String → State F → Outcome F
give_up action target prior = record {
  returned = prior;
  committed = prior;
  action = action;
  target_id = target;
  failed = true;
  journal_kept = true;
}

module _ {F H : Type 0} where
  -- the loop that restores the backups, with whether it went through
  unfoldable pub restore_loop : Files F H → List (Replacement H) → Bool
  restore_loop fs [] = true
  restore_loop fs (r ∷ rs) =
      let rest = restore_loop fs rs in
      if is_empty r.backup_path
      then false
      else if not (fs.restored r.backup_path r.live_path)
      then false
      else rest

  unfoldable pub withheld_state : State F → Journal F H → Time → State F
  unfolding target_or_zero
  withheld_state prior j now = record prior {
    targets =
        insert j.target_id
          (record (target_or_zero (lookup j.target_id prior.targets)) {
            attempted_revision = j.next_revision;
            attempted_at = now;
            pending = some (record {
              target_id = j.target_id;
              stage = "recover";
              file = "";
              chain = "";
              summary =
                  "recovery withheld: managed file changed externally during interrupted publish; journal retained";
              remediation = "";
              last_successful_revision = 0;
              attempted_revision = j.next_revision;
              last_successful_at = 0;
              attempted_at = now;
              resolved_at = 0;
              reproduces = false;
              live_status = "journal-retained";
            });
          })
          prior.targets;
  }

  -- Both branches return an error.
  unfoldable pub refuse : Files F H → State F → Journal F H → Time → Outcome F
  unfolding withheld_state
  refuse fs prior j now =
      let next = withheld_state prior j now in
      record {
        returned = prior;
        committed = if fs.saved next then next else prior;
        action = refuse_external;
        target_id = j.target_id;
        failed = true;
        journal_kept = true;
      }

  -- State.Save, and the removal of the journal, whose failure is no error
  unfoldable pub commit : Files F H → RecoveryAction → Journal F H → State F → State F → Outcome F
  unfolding give_up
  commit fs action j prior next =
      if not (fs.saved next) then give_up action j.target_id prior else record {
        returned = next;
        committed = next;
        action = action;
        target_id = j.target_id;
        failed = false;
        journal_kept = not fs.removed;
      }

module _ {F H : Type 0} (eq_hash : H → H → Bool) where
  unfoldable pub all_intended_present : Files F H → List (Replacement H) → Bool
  unfolding has_new
  all_intended_present fs [] = true
  all_intended_present fs (r ∷ rs) =
      let rest = all_intended_present fs rs in
      if not (has_new eq_hash (fs.live r.live_path) r) then false else rest

  -- the loop that looks for a file that another writer changed
  unfoldable pub all_known : Files F H → List (Replacement H) → Bool
  unfolding live_bytes_known
  all_known fs [] = true
  all_known fs (r ∷ rs) =
      let rest = all_known fs rs in
      if not (live_bytes_known eq_hash (fs.live r.live_path) r) then false else rest

  unfoldable pub restore_from_backup : Files F H → State F → Journal F H → Time → Outcome F
  unfolding all_known refuse restore_loop give_up commit advance_state
  restore_from_backup fs prior j now =
      if not (all_known fs j.replacements)
      then refuse fs prior j now
      else if not (restore_loop fs j.replacements)
      then give_up restore j.target_id prior
      else commit fs restore j prior (advance_state prior j false now)

  unfoldable pub recover : Files F H → FoundJournal F H → State F → Time → Outcome F
  unfolding give_up commit all_intended_present restore_from_backup advance_state
  recover fs bad_journal prior now = give_up corrupt "" prior
  recover fs no_journal prior now = record {
    returned = prior;
    committed = prior;
    action = noop;
    target_id = "";
    failed = false;
    journal_kept = false;
  }
  recover fs (found j) prior now =
      if prior.revision == j.next_revision
      then record {
        returned = prior;
        committed = prior;
        action = noop;
        target_id = j.target_id;
        failed = false;
        journal_kept = not fs.removed;
      }
      else if not (j.prior_revision == prior.revision)
      then give_up corrupt j.target_id prior
      else if not (fs.paths_ok j)
      then give_up corrupt j.target_id prior
      else if all_intended_present fs j.replacements
      then commit fs roll_forward j prior (advance_state prior j true now)
      else restore_from_backup fs prior j now
