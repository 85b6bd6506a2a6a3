-- ===== src/Publish/Recover/Again.antt =====
-- What Recover (internal/publish/publisher.go) promises of the committed state and the journal.
use polytoken_quota.Prelude.{
  ◌≡◌, ◌⊎◌, ◌↔◌, refl, Bool, true, false, ◌==◌, List, [], ◌∷◌, String, arith, inl, inr, Bool-cases,
  All, is_empty,
}
use polytoken_quota.Clock.{Time}
use polytoken_quota.State.{State}
use polytoken_quota.Publish.{Journal, Replacement, advance_state}
use polytoken_quota.Publish.Recover.{
  FileHash, Files, found, Outcome, RecoveryAction, give_up, commit, refuse, restore_loop, has_new,
  live_bytes_known, all_known, all_intended_present, restore_from_backup, recover, withheld_state,
}

-- The parts of an outcome with an error: nothing but the note of a refusal is committed.
abbrev pub IsWithheld : {F : Type 0} → State F → Outcome F → Type 0
IsWithheld prior o =
    (o.failed ≡ true)
    × (o.journal_kept ≡ true)
    × (o.returned ≡ prior)
    × (record o.committed { targets = prior.targets } ≡ prior)

module _ {H : Type 0} (eq_hash : H → H → Bool) where
  -- The file has the contents that the journal intends.
  abbrev pub HasNew : FileHash H → Replacement H → Type 0
  HasNew f r = (h : H) × (f ≡ FileHash.present h) × (eq_hash h r.new_hash ≡ true)

  -- Nobody else wrote the file: it is missing, or has the old or the new contents.
  abbrev pub IsOurs : FileHash H → Replacement H → Type 0
  IsOurs f r =
      (f ≡ FileHash.not_exist)
      ⊎ ((h : H) × (f ≡ FileHash.present h)
          × ((eq_hash h r.old_hash ≡ true) ⊎ (eq_hash h r.new_hash ≡ true)))

  has_new_iff : (f : FileHash H) (r : Replacement H) → (has_new eq_hash f r ≡ true) ↔ HasNew f r
  unfolding has_new
  has_new_iff (FileHash.present h) r =
      (λ e. (h, refl, e), λ (x, p, e). let same : x ≡ h = cc in rw (← same) e)
  has_new_iff FileHash.not_exist r = (λ e. absurd (cc), λ (x, p, e). absurd (cc))
  has_new_iff FileHash.unreadable r = (λ e. absurd (cc), λ (x, p, e). absurd (cc))

  ours : (f : FileHash H) (r : Replacement H) → live_bytes_known eq_hash f r ≡ true → IsOurs f r
  unfolding live_bytes_known
  ours (FileHash.present h) r e = inr (h, refl, ground arith)
  ours FileHash.not_exist r e = inl refl
  ours FileHash.unreadable r e = absurd (cc)

module _ {F H : Type 0} where
  -- Each file of the journal has a backup, and it was restored.
  abbrev pub IsRestored : Files F H → Replacement H → Type 0
  IsRestored fs r =
      (is_empty r.backup_path ≡ false) × (fs.restored r.backup_path r.live_path ≡ true)

  restore_loop-All :
      (fs : Files F H) (rs : List (Replacement H))
      → restore_loop fs rs ≡ true
      → All (IsRestored fs) rs
  unfolding restore_loop
  restore_loop-All fs [] h = tt
  restore_loop-All fs (r ∷ rs) h =
      ((ground arith, ground arith), restore_loop-All fs rs (ground arith))

module _ {F H : Type 0} (eq_hash : H → H → Bool) where
  -- why a state is the one to be committed
  abbrev pub IsRecovered :
      Files F H → State F → Journal F H → Time → RecoveryAction → State F → Type 0
  IsRecovered fs prior j now action next =
      ((action ≡ RecoveryAction.noop) × (prior.revision ≡ j.next_revision) × (next ≡ prior))
      ⊎ ((action ≡ RecoveryAction.roll_forward)
          × (j.prior_revision ≡ prior.revision)
          × (fs.paths_ok j ≡ true)
          × All (λ r. HasNew eq_hash (fs.live r.live_path) r) j.replacements
          × (next ≡ advance_state prior j true now))
      ⊎ ((action ≡ RecoveryAction.restore)
          × (j.prior_revision ≡ prior.revision)
          × (fs.paths_ok j ≡ true)
          × (¬ All (λ r. HasNew eq_hash (fs.live r.live_path) r) j.replacements)
          × All (λ r. IsOurs eq_hash (fs.live r.live_path) r) j.replacements
          × All (IsRestored fs) j.replacements
          × (next ≡ advance_state prior j false now))

  all_intended_present_iff :
      (fs : Files F H) (rs : List (Replacement H))
      → (all_intended_present eq_hash fs rs ≡ true)
        ↔ All (λ r. HasNew eq_hash (fs.live r.live_path) r) rs
  unfolding all_intended_present
  all_intended_present_iff fs [] = (λ h. tt, λ h. refl)
  all_intended_present_iff fs (r ∷ rs) =
      let one = has_new_iff eq_hash (fs.live r.live_path) r in
      let rest = all_intended_present_iff fs rs in
      (
        λ h. (one.0 (ground arith), rest.0 (ground arith)),
        λ (a, b). let a' = one.1 a in let b' = rest.1 b in ground arith,
      )

  all_known-All :
      (fs : Files F H) (rs : List (Replacement H))
      → all_known eq_hash fs rs ≡ true
      → All (λ r. IsOurs eq_hash (fs.live r.live_path) r) rs
  unfolding all_known
  all_known-All fs [] h = tt
  all_known-All fs (r ∷ rs) h =
      (ours eq_hash (fs.live r.live_path) r (ground arith), all_known-All fs rs (ground arith))

  abbrev IsSound : Files F H → State F → Journal F H → Time → Outcome F → Type 0
  IsSound fs prior j now o =
      ((o.failed ≡ false)
        × IsRecovered fs prior j now o.action o.committed
        × (o.committed.revision ≡ j.next_revision)
        × (o.returned ≡ o.committed))
      ⊎ IsWithheld prior o

  IsSound-give_up :
      (fs : Files F H) (action : RecoveryAction) (target : String) (prior : State F)
      (j : Journal F H) (now : Time)
      → IsSound fs prior j now (give_up action target prior)
  unfolding give_up
  IsSound-give_up fs action target prior j now = inr (refl, refl, refl, refl)

  IsSound-commit :
      (fs : Files F H) (action : RecoveryAction) (prior : State F) (j : Journal F H)
      (applied : Bool) (now : Time)
      → IsRecovered fs prior j now action (advance_state prior j applied now)
      → IsSound fs prior j now (commit fs action j prior (advance_state prior j applied now))
  unfolding commit advance_state
  IsSound-commit fs action prior j applied now why =
      elim (Bool-cases (fs.saved (advance_state prior j applied now))) [
        | inl e ↦ rw e (inl (refl, why, refl, refl))
        | inr e ↦ rw e (IsSound-give_up fs action j.target_id prior j now)
      ]

  IsSound-refuse :
      (fs : Files F H) (prior : State F) (j : Journal F H) (now : Time)
      → IsSound fs prior j now (refuse fs prior j now)
  unfolding refuse withheld_state
  IsSound-refuse fs prior j now = elim (Bool-cases (fs.saved (withheld_state prior j now))) [
    | inl e ↦ rw e (inr (refl, refl, refl, refl))
    | inr e ↦ rw e (inr (refl, refl, refl, refl))
  ]

  IsSound-restore :
      (fs : Files F H) (prior : State F) (j : Journal F H) (now : Time)
      → j.prior_revision ≡ prior.revision
      → fs.paths_ok j ≡ true
      → all_intended_present eq_hash fs j.replacements ≡ false
      → IsSound fs prior j now (restore_from_backup eq_hash fs prior j now)
  unfolding restore_from_backup
  IsSound-restore fs prior j now base paths old =
      elim (Bool-cases (all_known eq_hash fs j.replacements)) [
        | inr e ↦ rw e (IsSound-refuse fs prior j now)
        | inl e ↦ elim (Bool-cases (restore_loop fs j.replacements)) [
          | inr g ↦ rw (e, g) (IsSound-give_up fs RecoveryAction.restore j.target_id prior j now)
          | inl g ↦
              rw (e, g)
                (IsSound-commit fs RecoveryAction.restore prior j false now (
                  inr (
                    inr (
                      refl,
                      base,
                      paths,
                      λ a. let k = (all_intended_present_iff fs j.replacements).1 a in cc,
                      all_known-All fs j.replacements e,
                      restore_loop-All fs j.replacements g,
                      refl,
                    ))))
        ]
      ]

  moved :
      (fs : Files F H) (prior : State F) (j : Journal F H) (now : Time) {o o' : Outcome F}
      → o ≡ o'
      → IsSound fs prior j now o'
      → IsSound fs prior j now o
  moved fs prior j now q t = rw q t

  recover-IsSound :
      (fs : Files F H) (prior : State F) (j : Journal F H) (now : Time)
      → IsSound fs prior j now (recover eq_hash fs (found j) prior now)
  unfolding recover
  recover-IsSound fs prior j now = elim (Bool-cases (prior.revision == j.next_revision)) [
    | inl e ↦
        let same : prior.revision ≡ j.next_revision = ground arith in
        rw e (inl (refl, inl (refl, same, refl), same, refl))
    | inr e ↦ elim (Bool-cases (j.prior_revision == prior.revision)) [
      | inr b ↦
          let is : recover eq_hash fs (found j) prior now
              ≡ give_up RecoveryAction.corrupt j.target_id prior =
            rw (e, b) refl in
          moved fs prior j now is
            (IsSound-give_up fs RecoveryAction.corrupt j.target_id prior j now)
      | inl b ↦
          let base : j.prior_revision ≡ prior.revision = ground arith in
          elim (Bool-cases (fs.paths_ok j)) [
            | inr p ↦
                let is : recover eq_hash fs (found j) prior now
                    ≡ give_up RecoveryAction.corrupt j.target_id prior =
                  rw (e, b, p) refl in
                moved fs prior j now is
                  (IsSound-give_up fs RecoveryAction.corrupt j.target_id prior j now)
            | inl p ↦ elim (Bool-cases (all_intended_present eq_hash fs j.replacements)) [
              | inl n ↦
                  let is : recover eq_hash fs (found j) prior now
                      ≡ commit fs RecoveryAction.roll_forward j prior
                          (advance_state prior j true now) =
                    rw (e, b, p, n) refl in
                  moved fs prior j now is (
                    IsSound-commit fs RecoveryAction.roll_forward prior j true now (
                      inr (
                        inl
                          (refl, base, p, (all_intended_present_iff fs j.replacements).0 n, refl))))
              | inr n ↦
                  let is : recover eq_hash fs (found j) prior now
                      ≡ restore_from_backup eq_hash fs prior j now =
                    rw (e, b, p, n) refl in
                  moved fs prior j now is (IsSound-restore fs prior j now base p n)
            ]
          ]
    ]
  ]

  recover-committed :
      (fs : Files F H) (prior : State F) (j : Journal F H) (now : Time)
      → prior.revision ≡ j.next_revision
      → let again = recover eq_hash fs (found j) prior now in
        (again.action ≡ RecoveryAction.noop) × (again.failed ≡ false) × (again.committed ≡ prior)
  unfolding recover
  recover-committed fs prior j now h =
      let e : (prior.revision == j.next_revision) ≡ true = ground arith in rw e (refl, refl, refl)

  -- A recovery that finds a journal ends in one of two ways. Without an error: the committed state
  -- has the journal's revision, and it is the state from before where that had the revision, the
  -- roll-forward where every live file has the contents that the journal intends, or else the
  -- restore, where every live file is missing or has the old or the new contents and each backup
  -- was restored; the last two only on the journal's base revision and with accepted paths. Running
  -- again on the same journal and whatever files then changes nothing. With an error: the journal is
  -- kept, the state from before is returned, and nothing of it but its targets is changed.
  pub recover-recover :
      (fs fs' : Files F H) (prior : State F) (j : Journal F H) (now now' : Time)
      → let o = recover eq_hash fs (found j) prior now in
        let again = recover eq_hash fs' (found j) o.committed now' in
        ((o.failed ≡ false)
          × IsRecovered fs prior j now o.action o.committed
          × (o.committed.revision ≡ j.next_revision)
          × (o.returned ≡ o.committed)
          × (again.action ≡ RecoveryAction.noop)
          × (again.failed ≡ false)
          × (again.committed ≡ o.committed))
        ⊎ IsWithheld prior o
  recover-recover fs fs' prior j now now' =
      let o = recover eq_hash fs (found j) prior now in
      elim (recover-IsSound fs prior j now) [
        | inr w ↦ inr w
        | inl (ok, why, revision, returned) ↦
            let (a, b, c) = recover-committed fs' o.committed j now' revision in
            inl (ok, why, revision, returned, a, b, c)
      ]
