-- ===== src/Tests/Histories.antt =====
-- The theorems on the bounded history, at a concrete history and encoder.
use polytoken_quota.Prelude.{
  ℕ, ◌*◌, ◌≤◌, ◌≡◌, ◌⊎◌, refl, none, some, false, [], ◌∷◌, String, ℤ, length, Result, ok, err,
  arith,
}
use polytoken_quota.History.{
  ReconcileRecord, ReconcileHistory, HistoryTier, Trigger, bound_history, append_history,
  bound_loop, demote_last, aggregate_record, is_full, history_record_limit,
}
use polytoken_quota.History.Bound.{bound_history_total}
use polytoken_quota.History.Kept.{IsKept, Fits, bound_history-IsKept}
use polytoken_quota.History.Append.{Descending, append_history-Descending}

abbrev trigger : Trigger ℤ
trigger = record { kind = "set"; hook = none; mapping_id = ""; set = none; clear = none }

abbrev pass : ℕ → ReconcileRecord ℤ
pass n = record {
  revision = n;
  completed_at = 9;
  trigger = trigger;
  tier = HistoryTier.full;
  counts = record { total = 0; applied_count = 0; pending_count = 0; omitted = 0 };
  detail_truncated = false;
  providers = [];
  ranks = [];
  targets = [];
  compact_targets = [];
  omitted = record { providers = 0; ranks = 0; chains = 0; chain_entries = 0; edits = 0 };
}

abbrev history : ReconcileHistory ℤ
history = record { records = pass 7 ∷ pass 4 ∷ []; omitted_history_records = 0 }

-- every record takes three megabytes
abbrev encoded : ReconcileHistory ℤ → Result String ℕ
encoded h = ok (length h.records * 3000000)

bound_history_total_example :
    (r : Result String (ReconcileHistory ℤ)) × (bound_history encoded history ≡ some r)
bound_history_total_example = bound_history_total encoded history

abbrev left : ReconcileHistory ℤ
left = record { records = aggregate_record (pass 7) ∷ []; omitted_history_records = 1 }

bounded : bound_history encoded history ≡ some (ok left)
unfolding bound_history bound_loop demote_last aggregate_record is_full
bounded = refl

bound_history-IsKept_example : IsKept history left × Fits encoded left
bound_history-IsKept_example = bound_history-IsKept encoded history left bounded

append_history-Descending_example :
    ((problem : String) × (append_history encoded history (pass 8) ≡ some (err problem)))
    ⊎ ((final : ReconcileHistory ℤ) × (append_history encoded history (pass 8) ≡ some (ok final))
        × Descending final.records
        × (length final.records ≤ history_record_limit))
append_history-Descending_example = append_history-Descending encoded history (pass 8) (omega arith)
