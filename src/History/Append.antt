-- ===== src/History/Append.antt =====
-- Proofs about AppendHistory (internal/state/history.go).
use polytoken_quota.Prelude.{
  ℕ, zero, suc, ◌≤◌, ◌<◌, ◌≡◌, Bool, true, not, some, List, [], ◌∷◌, arith, inl, inr, ◌⊎◌, ◌==◌,
  length, keep, Bool-cases, Result, ok, err, Result-cases, All, All-map, All-keep, stable_sort,
  insert_sorted, All-insert_sorted, All-stable_sort, keep-All,
}
use polytoken_quota.History.{
  ReconcileRecord, ReconcileHistory, aggregate_record, take, append_history, bound_history, newer,
  history_record_limit,
}
use polytoken_quota.History.Bound.{bound_history_total}
use polytoken_quota.History.Kept.{IsDemoted, bound_history-IsKept}

All-take : {A : Type 0} (P : A → Type 0) (n : ℕ) (xs : List A) → All P xs → All P (take n xs)
unfolding take
All-take P n [] h = tt
All-take P zero (x ∷ xs) h = tt
All-take P (suc n) (x ∷ xs) h = (h.0, All-take P n xs h.1)

length-take : {A : Type 0} (n : ℕ) (xs : List A) → length (take n xs) ≤ n
unfolding take
length-take n [] = omega arith
length-take zero (x ∷ xs) = omega arith
length-take (suc n) (x ∷ xs) = omega (arith, length-take n xs)

module _ {F : Type 0} where
  -- Newest first, with one record for each revision.
  abbrev pub Descending : List (ReconcileRecord F) → Type 0
  Descending [] = Unit
  Descending (r ∷ rs) = All (λ s. s.revision < r.revision) rs × Descending rs

  -- no two records have one revision
  abbrev Apart : List (ReconcileRecord F) → Type 0
  Apart [] = Unit
  Apart (r ∷ rs) = All (λ s. not (s.revision == r.revision) ≡ true) rs × Apart rs

  Apart-of_Descending : (rs : List (ReconcileRecord F)) → Descending rs → Apart rs
  Apart-of_Descending [] h = tt
  Apart-of_Descending (r ∷ rs) h =
      (All-map _ _ rs (λ s lt. ground arith) h.0, Apart-of_Descending rs h.1)

  Apart-keep :
      (test : ReconcileRecord F → Bool) (rs : List (ReconcileRecord F))
      → Apart rs
      → Apart (keep test rs)
  Apart-keep test [] h = tt
  Apart-keep test (r ∷ rs) h = elim (Bool-cases (test r)) [
    | inl e ↦ rw e (All-keep _ test rs h.0, Apart-keep test rs h.1)
    | inr e ↦ rw e (Apart-keep test rs h.1)
  ]

  insert_sorted-Descending :
      (x : ReconcileRecord F) (ys : List (ReconcileRecord F))
      → All (λ s. not (s.revision == x.revision) ≡ true) ys
      → Descending ys
      → Descending (insert_sorted newer x ys)
  unfolding insert_sorted
  insert_sorted-Descending x [] a h = (tt, tt)
  insert_sorted-Descending x (y ∷ ys) a h = elim (Bool-cases (newer y x)) [
    | inl e ↦ rw e (
      All-insert_sorted newer (λ s. s.revision < y.revision) x ys (ground arith) h.0,
      insert_sorted-Descending x ys a.1 h.1,
    )
    | inr e ↦
        let top : y.revision < x.revision = ground (arith, a.0) in
        rw e ((top, All-map _ _ ys (λ s lt. omega (arith, lt, top)) h.0), h)
  ]

  sort-Descending : (rs : List (ReconcileRecord F)) → Apart rs → Descending (stable_sort newer rs)
  unfolding stable_sort
  sort-Descending [] h = tt
  sort-Descending (r ∷ rs) h =
      insert_sorted-Descending r (stable_sort newer rs)
        (All-stable_sort newer (λ s. not (s.revision == r.revision) ≡ true) rs h.0)
        (sort-Descending rs h.1)

  take-Descending : (n : ℕ) (rs : List (ReconcileRecord F)) → Descending rs → Descending (take n rs)
  unfolding take
  take-Descending n [] h = tt
  take-Descending zero (r ∷ rs) h = tt
  take-Descending (suc n) (r ∷ rs) h = (All-take _ n rs h.0, take-Descending n rs h.1)

  demoted-All :
      (k : ℕ) (os ns : List (ReconcileRecord F))
      → IsDemoted os ns
      → All (λ s. s.revision < k) os
      → All (λ s. s.revision < k) ns
  unfolding aggregate_record
  demoted-All k os [] h a = tt
  demoted-All k [] (n ∷ ns) h a = absurd h
  demoted-All k (o ∷ os) (n ∷ ns) (inl e, t) a = (rw e a.0, demoted-All k os ns t a.1)
  demoted-All k (o ∷ os) (n ∷ ns) (inr (e, z), t) a = (rw e a.0, demoted-All k os ns t a.1)

  demoted-Descending :
      (os ns : List (ReconcileRecord F)) → IsDemoted os ns → Descending os → Descending ns
  unfolding aggregate_record
  demoted-Descending os [] h d = tt
  demoted-Descending [] (n ∷ ns) h d = absurd h
  demoted-Descending (o ∷ os) (n ∷ ns) (inl e, t) d =
      (rw e (demoted-All o.revision os ns t d.0), demoted-Descending os ns t d.1)
  demoted-Descending (o ∷ os) (n ∷ ns) (inr (e, z), t) d =
      (rw e (demoted-All o.revision os ns t d.0), demoted-Descending os ns t d.1)

  demoted-length : (os ns : List (ReconcileRecord F)) → IsDemoted os ns → length ns ≤ length os
  demoted-length os [] h = omega arith
  demoted-length [] (n ∷ ns) h = absurd h
  demoted-length (o ∷ os) (n ∷ ns) (s, t) = omega (arith, demoted-length os ns t)

  -- Appending a record to a history that is newest first, with one record for each revision,
  -- always ends with an error of the encoder or with such a history, of at most 100 records.
  pub append_history-Descending :
      {E : Type 0} (encoded : ReconcileHistory F → Result E ℕ) (h : ReconcileHistory F)
      (r : ReconcileRecord F)
      → Descending h.records
      → ((problem : E) × (append_history encoded h r ≡ some (err problem)))
        ⊎ ((final : ReconcileHistory F) × (append_history encoded h r ≡ some (ok final))
            × Descending final.records
            × (length final.records ≤ history_record_limit))
  unfolding append_history
  append_history-Descending encoded h r d =
      let others = keep (λ old. not (old.revision == r.revision)) h.records in
      let all = stable_sort newer (r ∷ others) in
      let first : ReconcileHistory F = record h { records = take history_record_limit all } in
      let apart : Apart (r ∷ others) = (
        keep-All (λ old. not (old.revision == r.revision)) h.records,
        Apart-keep (λ old. not (old.revision == r.revision)) h.records
            (Apart-of_Descending h.records d),
      ) in
      let top : Descending first.records =
        take-Descending history_record_limit all (sort-Descending (r ∷ others) apart) in
      let (result, e) = bound_history_total encoded first in
      elim (Result-cases result) [
        | inr (problem, q) ↦ inl (problem, rw (← q) e)
        | inl (final, q) ↦
            let done : bound_history encoded first ≡ some (ok final) = rw (← q) e in
            let k = (bound_history-IsKept encoded first final done).0 in
            let few = demoted-length first.records final.records k.demoted in
            inr (
              final,
              done,
              demoted-Descending first.records final.records k.demoted top,
              omega (arith, few, length-take history_record_limit all),
            )
      ]
