-- ===== src/Publish/Recovery.antt =====
-- Proofs about the recovery of an interrupted publication (internal/publish/publisher.go and
-- journal.go).
use polytoken_quota.Prelude.{
  ◌≡◌, refl, true, false, Option, none, some, [], ◌∷◌, String, arith, Dict, lookup, lookup-insert,
  map, map_entries, map_option, str_eq, str_eq_refl, ap, List, Bool-cases, inl, inr, if◌then◌else◌,
}
use polytoken_quota.Clock.{Time}
use polytoken_quota.Floats.{Float, zero_f}
use polytoken_quota.State.{State, ProviderOwnership, PendingProviderNotice, ProviderNoticeState}
use polytoken_quota.State.Ownership.{
  ownership_map, ownership_of, signal_held, axis_legacy, clone_provider_ownership,
}
use polytoken_quota.Publish.{Journal, clone_provider_notice, advance_state, recovered_target}
use polytoken_quota.Publish.Durable.{
  to_journal_file, from_journal_file, to_journal_ownership, from_journal_ownership,
  to_journal_provider_notice, from_journal_provider_notice, to_ownership_entry,
  from_ownership_entry, to_notice_state, from_notice_state,
}

-- what the journal keeps of a pending notice
pub without_reasons : PendingProviderNotice → PendingProviderNotice
without_reasons p = record p {
  providers = map (λ (x : ProviderNoticeState). record x { reason = "" }) p.providers;
}

notice_states :
    (ps : List ProviderNoticeState)
    → map from_notice_state (map to_notice_state ps)
      ≡ map (λ (x : ProviderNoticeState). record x { reason = "" }) ps
unfolding from_notice_state to_notice_state
notice_states [] = refl
notice_states (x ∷ ps) = ap (λ xs. record x { reason = "" } ∷ xs) (notice_states ps)

from-to_notice :
    (p : Option PendingProviderNotice)
    → from_journal_provider_notice (to_journal_provider_notice p) ≡ map_option without_reasons p
unfolding from_journal_provider_notice to_journal_provider_notice without_reasons
from-to_notice none = refl
from-to_notice (some p) =
    ap (λ ps. some (record { revision = p.revision; providers = ps })) (notice_states p.providers)

module _ {F : Type 0} ⦃fl : Float F⦄ where
  -- what the journal keeps of a record
  pub without_axis : ProviderOwnership F → ProviderOwnership F
  without_axis o = record o { axis = axis_legacy; threshold = zero_f; engaged_revision = 0 }

  entries-lookup :
      (id : String) (m : Dict (ProviderOwnership F))
      → lookup id (
          map_entries (λ k v. from_ownership_entry v) (map_entries (λ k v. to_ownership_entry v) m))
        ≡ map_option without_axis (lookup id m)
  unfolding lookup map_entries from_ownership_entry to_ownership_entry without_axis
  entries-lookup id [] = refl
  entries-lookup id ((k, v) ∷ m) = ground (arith, entries-lookup id m)

  from-to_journal_ownership :
      (m : Option (Dict (ProviderOwnership F))) (id : String)
      → lookup id (ownership_map (from_journal_ownership (to_journal_ownership m)))
        ≡ map_option without_axis (lookup id (ownership_map m))
  unfolding from_journal_ownership to_journal_ownership ownership_map lookup
  from-to_journal_ownership none id = refl
  from-to_journal_ownership (some m) id = entries-lookup id m

  signal_held-without_axis : (o : ProviderOwnership F) → signal_held (without_axis o) ≡ false
  unfolding signal_held without_axis str_eq
  signal_held-without_axis o = ground arith

  none_held :
      (o : Option (ProviderOwnership F))
      → map_option signal_held (map_option without_axis o) ≡ map_option (λ x. false) o
  none_held none = refl
  none_held (some o) = ap some (signal_held-without_axis o)

  module _ {H : Type 0} (hex_encode : H → String) (hex_decode : String → H) where
    -- the journal that a recovery reads
    abbrev pub reread : Journal F H → Journal F H
    reread j = from_journal_file hex_decode (to_journal_file hex_encode j)

    -- A roll-forward from the journal that was written has the journal's revision and no pending
    -- failure of its target. Where the journal sets the ownership records, they are the journal's
    -- without axis, threshold and revision, and where it sets the notice, that is the journal's
    -- without reasons; what it does not set stays as it was before.
    pub roll_forward_lem :
        (prior : State F) (j : Journal F H) (now : Time) (id : String)
        → let next = advance_state prior (reread j) true now in
          (next.revision ≡ j.next_revision)
          × (map_option (λ t. t.pending) (lookup j.target_id next.targets) ≡ some none)
          × (ownership_of next id ≡ (
              if j.ownership_set
              then map_option without_axis (lookup id (ownership_map j.ownership))
              else ownership_of prior id))
          × (next.pending_provider_notice ≡ (
              if j.provider_notice_set
              then map_option without_reasons j.provider_notice
              else prior.pending_provider_notice))
    unfolding advance_state from_journal_file to_journal_file ownership_of clone_provider_ownership
        clone_provider_notice recovered_target
    roll_forward_lem prior j now id = (
      refl,
      rw
          (
            lookup-insert j.target_id j.target_id (recovered_target prior (reread j) true now)
                prior.targets,
            str_eq_refl j.target_id,
          )
          refl,
      elim (Bool-cases j.ownership_set) [
        | inl h ↦ rw h (from-to_journal_ownership j.ownership id)
        | inr h ↦ rw h refl
      ],
      elim (Bool-cases j.provider_notice_set) [
        | inl h ↦ rw h (from-to_notice j.provider_notice)
        | inr h ↦ rw h refl
      ],
    )

    -- After a roll-forward from a written journal that sets the ownership records, no record is
    -- held by the signal gate, whatever the records were that were to be committed.
    pub roll_forward-signal_held :
        (prior : State F) (j : Journal F H) (now : Time) (id : String)
        → j.ownership_set ≡ true
        → map_option signal_held (ownership_of (advance_state prior (reread j) true now) id)
          ≡ map_option (λ o. false) (lookup id (ownership_map j.ownership))
    roll_forward-signal_held prior j now id h =
        let found = (roll_forward_lem prior j now id).2 in
        let plain = lookup id (ownership_map j.ownership) in rw (found, h) (none_held plain)
