-- ===== src/History/Bound.antt =====
-- Proofs about boundHistory (internal/state/history.go): it ends, and what it leaves.
use polytoken_quota.Prelude.{
  ℕ, zero, suc, ◌+◌, ◌≤◌, ◌<◌, ◌≡◌, refl, ap, true, false, none, some, List, [], ◌∷◌, arith, inl,
  inr, if◌then◌else◌, leb, length, is_nil, Bool-cases, Option-cases, Result, Result-cases, is_some,
  All,
}
use polytoken_quota.History.{
  ReconcileRecord, ReconcileHistory, aggregate_record, is_full, demote_last, drop_last, bound_loop,
  bound_history, history_encoded_bytes,
}

pub length-drop_last :
    {A : Type 0} (xs : List A) → is_nil xs ≡ false → suc (length (drop_last xs)) ≡ length xs
unfolding drop_last
length-drop_last [] h = absurd (cc)
length-drop_last (x ∷ []) h = refl
length-drop_last (x ∷ y ∷ xs) h = ap suc (length-drop_last (y ∷ xs) refl)

module _ {F : Type 0} where
  abbrev pub NotFull : ReconcileRecord F → Type 0
  NotFull r = is_full r.tier ≡ false

  pub fulls : List (ReconcileRecord F) → ℕ
  fulls [] = 0
  fulls (r ∷ rs) = if is_full r.tier then suc (fulls rs) else fulls rs

  fulls-le : (rs : List (ReconcileRecord F)) → fulls rs ≤ length rs
  unfolding fulls
  fulls-le [] = omega arith
  fulls-le (r ∷ rs) = ground (arith, fulls-le rs)

  pub aggregated : (r : ReconcileRecord F) → NotFull (aggregate_record r)
  unfolding aggregate_record is_full
  aggregated r = refl

  -- a round that aggregates keeps the number of records, and leaves one full record less
  pub demote_last-measure :
      (rs new : List (ReconcileRecord F))
      → demote_last rs ≡ some new
      → (length new ≡ length rs) × (suc (fulls new) ≡ fulls rs)
  unfolding demote_last fulls
  demote_last-measure [] new h = absurd (cc)
  demote_last-measure (r ∷ rs) new h = elim (Option-cases (demote_last rs)) [
    | inr (rest, e) ↦
        let k : some (r ∷ rest) ≡ some new = rw (e, demote_last) at h in
        let n : r ∷ rest ≡ new = cc in
        let ih = demote_last-measure rs rest e in
        rw (← n) (omega (arith, ih.0), ground (arith, ih.1))
    | inl e ↦ elim (Bool-cases (is_full r.tier)) [
      | inl f ↦
          let k : some (aggregate_record r ∷ rs) ≡ some new = rw (e, f, demote_last) at h in
          let n : aggregate_record r ∷ rs ≡ new = cc in rw (← n) (refl, rw f)
      | inr f ↦ let k : none ≡ some new = rw (e, f, demote_last) at h in absurd (cc)
    ]
  ]

  pub demote_last-none : (rs : List (ReconcileRecord F)) → demote_last rs ≡ none → All NotFull rs
  unfolding demote_last
  demote_last-none [] h = tt
  demote_last-none (r ∷ rs) h = elim (Option-cases (demote_last rs)) [
    | inr (rest, e) ↦ let k : some (r ∷ rest) ≡ none = rw (e, demote_last) at h in absurd (cc)
    | inl e ↦ elim (Bool-cases (is_full r.tier)) [
      | inl f ↦
          let k : some (aggregate_record r ∷ rs) ≡ none = rw (e, f, demote_last) at h in absurd (cc)
      | inr f ↦ (f, demote_last-none rs e)
    ]
  ]

  fulls-drop_last : (rs : List (ReconcileRecord F)) → fulls (drop_last rs) ≤ fulls rs
  unfolding fulls drop_last
  fulls-drop_last [] = omega arith
  fulls-drop_last (r ∷ []) = omega arith
  fulls-drop_last (r ∷ s ∷ rs) = ground (arith, fulls-drop_last (s ∷ rs))

  module _ {E : Type 0} (encoded : ReconcileHistory F → Result E ℕ) where
    loop_total :
        (fuel : ℕ) (h : ReconcileHistory F)
        → length h.records + fulls h.records < fuel
        → is_some (bound_loop encoded fuel h) ≡ true
    unfolding bound_loop
    loop_total zero h lt = elim lt [ ]
    loop_total (suc fuel) h lt = elim (Result-cases (encoded h)) [
      | inr (e, q) ↦ rw (q, bound_loop)
      | inl (size, q) ↦ elim (Bool-cases (leb size history_encoded_bytes)) [
        | inl fits ↦ rw (q, fits, bound_loop)
        | inr large ↦ elim (Option-cases (demote_last h.records)) [
          | inr (rs, d) ↦
              let m = demote_last-measure h.records rs d in
              rw (q, large, d, bound_loop)
                (loop_total fuel (record h { records = rs }) (omega (arith, m.0, m.1)))
          | inl d ↦ elim (Bool-cases (is_nil h.records)) [
            | inl empty ↦ rw (q, large, d, empty, bound_loop)
            | inr more ↦
                let m = length-drop_last h.records more in
                let k = fulls-drop_last h.records in
                rw (q, large, d, more, bound_loop) (loop_total fuel _ (omega (arith, m, k)))
          ]
        ]
      ]
    ]

    -- The bounding of a history always ends: one round for each record, and one for each that is
    -- full, are enough.
    pub bound_history_total :
        (h : ReconcileHistory F)
        → (r : Result E (ReconcileHistory F)) × (bound_history encoded h ≡ some r)
    unfolding bound_history
    bound_history_total h =
        elim (Option-cases (bound_loop encoded (suc (length h.records + length h.records)) h)) [
          | inr (r, e) ↦ (r, e)
          | inl e ↦
              let t =
                loop_total (suc (length h.records + length h.records)) h
                  (omega (arith, fulls-le h.records)) in
              absurd (ground arith)
        ]
