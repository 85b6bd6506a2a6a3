-- ===== src/History.antt =====
-- internal/state/history.go: the bounded history of reconcile passes. Counts are natural numbers
-- (the validation refuses negative ones), and the deep copies of the source are the values
-- themselves. The length of the JSON encoding is the parameter `encoded`: an error, or a number of
-- bytes. The sanitizing and the validation of single fields are not modelled.
pub mod Bound
pub mod Kept
pub mod Append
use polytoken_quota.Prelude.{
  ℕ, zero, suc, ◌+◌, ◌-◌, ◌*◌, ◌≡◌, Bool, true, false, not, Option, none, some, List, [], ◌∷◌,
  String, ℤ, if◌then◌else◌, ltb, leb, ◌==◌, length, is_nil, keep, map, str_ltb, stable_sort, Result,
  ok, err,
}
use polytoken_quota.Clock.{Time}
use polytoken_quota.State.{Mode, Quota, Availability}

-- the other texts of a state file are kept
pub data TargetOutcomeKind : Type 0 where
  applied pending : TargetOutcomeKind
  other : String → TargetOutcomeKind

pub data HistoryTier : Type 0 where
  full aggregate : HistoryTier
  other : String → HistoryTier

pub record HookEvidence (F : Type 0) : Type 0 where
  pub event : String
  pub provider : String
  pub timestamp : Time
  pub window : Option String
  pub usage_percent : Option F
  pub used : Option F
  pub limit : Option F
  pub reset_at : Option Time
  pub status : Option String

pub record SetEvidence : Type 0 where
  pub provider : String
  pub quota : Option Quota
  pub availability : Option Availability

pub record ClearEvidence : Type 0 where
  pub provider : String
  pub all : Bool

pub record Trigger (F : Type 0) : Type 0 where
  pub kind : String
  pub hook : Option (HookEvidence F)
  pub mapping_id : String
  pub set : Option SetEvidence
  pub clear : Option ClearEvidence

pub record ProviderDetail (F : Type 0) : Type 0 where
  pub mapping_id : String
  pub mode : Mode
  pub reason : String
  pub gate_axis : String
  pub gate_threshold : F
  pub gate_engaged_revision : ℕ

pub record RankDetail : Type 0 where
  pub mapping_id : String
  pub rank : ℤ
  pub off_peak : Bool
  pub eligible : Bool
  pub explanation : String

pub record ChainOmittedCounts : Type 0 where
  pub desired : ℕ
  pub effective : ℕ
  pub dropped : ℕ

pub record ChainDetail : Type 0 where
  pub name : String
  pub desired : List String
  pub effective : List String
  pub dropped : List String
  pub omitted : ChainOmittedCounts

pub record EditDetail : Type 0 where
  pub file : String
  pub path : List String
  pub action : String
  pub detail : String

pub record PendingDetail : Type 0 where
  pub stage : String
  pub summary : String
  pub remediation : String

pub record TargetOmittedCounts : Type 0 where
  pub chains : ℕ
  pub edits : ℕ

pub record TargetDetail : Type 0 where
  pub id : String
  pub plan_computed : Bool
  pub outcome : TargetOutcomeKind
  pub pending_detail : Option PendingDetail
  pub chains : List ChainDetail
  pub edits : List EditDetail
  pub omitted : TargetOmittedCounts

pub record CompactTarget : Type 0 where
  pub id : String
  pub outcome : TargetOutcomeKind
  pub pending_detail : Option PendingDetail

pub record RecordOmittedCounts : Type 0 where
  pub providers : ℕ
  pub ranks : ℕ
  pub chains : ℕ
  pub chain_entries : ℕ
  pub edits : ℕ

pub record AuthoritativeTargetCounts : Type 0 where
  pub total : ℕ
  pub applied_count : ℕ
  pub pending_count : ℕ
  pub omitted : ℕ

pub record ReconcileRecord (F : Type 0) : Type 0 where
  pub revision : ℕ
  pub completed_at : Time
  pub trigger : Trigger F
  pub tier : HistoryTier
  pub counts : AuthoritativeTargetCounts
  pub detail_truncated : Bool
  pub providers : List (ProviderDetail F)
  pub ranks : List RankDetail
  pub targets : List TargetDetail
  pub compact_targets : List CompactTarget
  pub omitted : RecordOmittedCounts

pub record ReconcileHistory (F : Type 0) : Type 0 where
  pub records : List (ReconcileRecord F)
  pub omitted_history_records : ℕ

abbrev pub history_record_limit : ℕ
history_record_limit = 100

abbrev pub history_targets_per_record : ℕ
history_targets_per_record = 64

abbrev pub history_encoded_bytes : ℕ
history_encoded_bytes = 4 * 1024 * 1024

-- xs[:n], where the slice is taken only if it is shorter
unfoldable pub take : {A : Type 0} → ℕ → List A → List A
take n [] = []
take zero (x ∷ xs) = []
take (suc n) (x ∷ xs) = x ∷ take n xs

unfoldable pub drop_last : {A : Type 0} → List A → List A
drop_last [] = []
drop_last (x ∷ []) = []
drop_last (x ∷ y ∷ xs) = x ∷ drop_last (y ∷ xs)

unfoldable pub is_full : HistoryTier → Bool
is_full full = true
is_full _ = false

-- the loop of countTargets
unfoldable pub count_step :
    AuthoritativeTargetCounts → TargetOutcomeKind → AuthoritativeTargetCounts
count_step c applied = record c { applied_count = c.applied_count + 1 }
count_step c pending = record c { pending_count = c.pending_count + 1 }
count_step c (other s) = c

unfoldable pub count_loop :
    AuthoritativeTargetCounts → List TargetDetail → AuthoritativeTargetCounts
unfolding count_step
count_loop c [] = c
count_loop c (t ∷ ts) = count_loop (count_step c t.outcome) ts

unfoldable pub count_targets : List TargetDetail → AuthoritativeTargetCounts
unfolding count_loop
count_targets ts =
    count_loop (record { total = length ts; applied_count = 0; pending_count = 0; omitted = 0 }) ts

-- the loops of allOmitted
unfoldable pub omit_chain : RecordOmittedCounts → ChainDetail → RecordOmittedCounts
omit_chain o c = record o {
  chain_entries =
      o.chain_entries
      + (length c.desired
          + length c.effective
          + length c.dropped
          + c.omitted.desired
          + c.omitted.effective
          + c.omitted.dropped);
}

unfoldable pub omit_chains : RecordOmittedCounts → List ChainDetail → RecordOmittedCounts
unfolding omit_chain
omit_chains o [] = o
omit_chains o (c ∷ cs) = omit_chains (omit_chain o c) cs

unfoldable pub omit_targets : RecordOmittedCounts → List TargetDetail → RecordOmittedCounts
unfolding omit_chains
omit_targets o [] = o
omit_targets o (t ∷ ts) =
    let counted = record o {
      chains = o.chains + (length t.chains + t.omitted.chains);
      edits = o.edits + (length t.edits + t.omitted.edits);
    } in
    omit_targets (omit_chains counted t.chains) ts

unfoldable pub compact : TargetDetail → CompactTarget
compact t = record { id = t.id; outcome = t.outcome; pending_detail = t.pending_detail }

module _ {F : Type 0} where
  unfoldable pub all_omitted : ReconcileRecord F → RecordOmittedCounts
  unfolding omit_targets
  all_omitted r =
      let o = r.omitted in
      omit_targets
        (record o {
          providers = o.providers + length r.providers;
          ranks = o.ranks + length r.ranks;
        })
        r.targets

  unfoldable pub aggregate_record : ReconcileRecord F → ReconcileRecord F
  unfolding all_omitted take compact
  aggregate_record r =
      let retained =
        take history_targets_per_record
          (stable_sort (λ a b. str_ltb a.id b.id) (map compact r.targets)) in
      record {
        revision = r.revision;
        completed_at = r.completed_at;
        trigger = r.trigger;
        tier = aggregate;
        counts = record r.counts { omitted = r.counts.total - length retained };
        detail_truncated = true;
        providers = [];
        ranks = [];
        targets = [];
        compact_targets = retained;
        omitted = all_omitted r;
      }

  -- the inner loop of boundHistory: the last full record is aggregated
  unfoldable pub demote_last : List (ReconcileRecord F) → Option (List (ReconcileRecord F))
  unfolding aggregate_record is_full
  demote_last [] = none
  demote_last (r ∷ rs) =
      let here = if is_full r.tier then some (aggregate_record r ∷ rs) else none in
      elim (demote_last rs) [ some rest ↦ some (r ∷ rest) | none ↦ here ]

  abbrev pub newer : ReconcileRecord F → ReconcileRecord F → Bool
  newer a b = ltb b.revision a.revision

  module _ {E : Type 0} (encoded : ReconcileHistory F → Result E ℕ) where
    -- `for { ... }` with fuel: none where it runs out
    unfoldable pub bound_loop : ℕ → ReconcileHistory F → Option (Result E (ReconcileHistory F))
    unfolding demote_last drop_last
    bound_loop zero h = none
    bound_loop (suc fuel) h = elim (encoded h) [
      | err e ↦ some (err e)
      | ok size ↦ elim (leb size history_encoded_bytes) [
        | true ↦ some (ok h)
        | false ↦ elim (demote_last h.records) [
          | some rs ↦ bound_loop fuel (record h { records = rs })
          | none ↦ elim (is_nil h.records) [
            | true ↦ some (ok h)
            | false ↦ bound_loop fuel (record {
              records = drop_last h.records;
              omitted_history_records = h.omitted_history_records + 1;
            })
          ]
        ]
      ]
    ]

    -- each round aggregates or drops a record
    unfoldable pub bound_history : ReconcileHistory F → Option (Result E (ReconcileHistory F))
    unfolding bound_loop
    bound_history h = bound_loop (suc (length h.records + length h.records)) h

    unfoldable pub append_history :
        ReconcileHistory F → ReconcileRecord F → Option (Result E (ReconcileHistory F))
    unfolding bound_history take
    append_history h r =
        let others = keep (λ old. not (old.revision == r.revision)) h.records in
        bound_history
          (record h { records = take history_record_limit (stable_sort newer (r ∷ others)) })
