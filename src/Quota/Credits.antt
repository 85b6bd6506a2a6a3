-- ===== src/Quota/Credits.antt =====
-- Proofs about the reset-credit sub-observation of internal/quota/types.go.
use polytoken_quota.Prelude.{
  ℕ, ◌≡◌, ◌≢◌, ◌≤◌, Option, none, some, List, [], ◌∷◌, arith, String, ◌⊎◌, length,
}
use polytoken_quota.Clock.{Time}
use polytoken_quota.Quota.{
  ResetCreditState, ResetCreditAttempt, ResetCreditInventory, CreditAttemptStatus,
  CodexUsageSummary, merge_reset_credit_observation, merge_codex_usage_summary, count_unexpired,
  usable_count_at,
}

module _ {F : Type 0} (sanitize : String → String) where
  -- What a merge keeps: the latest attempt is the new one with its error sanitized, the usage
  -- summary stays, and the last success is replaced by the attempt's inventory exactly when the
  -- attempt succeeded, wholly or in part, and carries one.
  pub merge_reset_credit_observation_matrix :
      (prior : ResetCreditState F) (attempt : ResetCreditAttempt)
      → let next = merge_reset_credit_observation sanitize prior attempt in
        (next.latest_attempt ≡ some (record attempt { error = sanitize attempt.error }))
        × (next.usage_summary ≡ prior.usage_summary)
        × (((attempt.status ≡ CreditAttemptStatus.success)
              ⊎ (attempt.status ≡ CreditAttemptStatus.partial))
            → (inv : ResetCreditInventory) → attempt.inventory ≡ some inv
            → next.last_success ≡ some inv)
        × (((attempt.status ≢ CreditAttemptStatus.success)
                × (attempt.status ≢ CreditAttemptStatus.partial))
              ⊎ (attempt.inventory ≡ none)
            → next.last_success ≡ prior.last_success)
  unfolding merge_reset_credit_observation
  merge_reset_credit_observation_matrix prior attempt =
      (ground arith, ground arith, λ h inv e. ground arith, λ h. ground arith)

  -- The two merges touch different fields, so their order does not matter.
  pub merges_commute :
      (prior : ResetCreditState F) (attempt : ResetCreditAttempt)
      (summary : Option (CodexUsageSummary F))
      → merge_codex_usage_summary (merge_reset_credit_observation sanitize prior attempt) summary
        ≡ merge_reset_credit_observation sanitize (merge_codex_usage_summary prior summary) attempt
  unfolding merge_reset_credit_observation merge_codex_usage_summary
  merges_commute prior attempt summary = ground arith

count_unexpired-le : (as_of : Time) (es : List (Option Time)) → count_unexpired as_of es ≤ length es
unfolding count_unexpired
count_unexpired-le as_of [] = omega arith
count_unexpired-le as_of (e ∷ es) = ground (arith, count_unexpired-le as_of es)

count_unexpired-antitone :
    (early late : Time) (es : List (Option Time))
    → early ≤ late
    → count_unexpired late es ≤ count_unexpired early es
unfolding count_unexpired
count_unexpired-antitone early late [] h = omega arith
count_unexpired-antitone early late (e ∷ es) h =
    ground (arith, count_unexpired-antitone early late es h)

-- A later report never counts more usable credits of the same inventory than an earlier one, and
-- no report counts more than the inventory has expiries.
pub usable_count_at-antitone :
    {F : Type 0} (s : ResetCreditState F) (inv : ResetCreditInventory) (early late n m : ℕ)
    → s.last_success ≡ some inv
    → early ≤ late
    → usable_count_at s early ≡ some n
    → usable_count_at s late ≡ some m
    → (m ≤ n) × (n ≤ length inv.available_expiries)
unfolding usable_count_at
usable_count_at-antitone s inv early late n m e le hn hm = ground (
  arith,
  count_unexpired-antitone early late inv.available_expiries le,
  count_unexpired-le early inv.available_expiries,
)
