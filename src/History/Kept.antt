-- ===== src/History/Kept.antt =====
-- Proofs about boundHistory (internal/state/history.go): which records it keeps, and in what form.
use polytoken_quota.Prelude.{
  ℕ, zero, suc, ◌+◌, ◌<◌, ◌≡◌, refl, ap, true, false, none, some, List, [], ◌∷◌, arith, inl, inr,
  ◌⊎◌, leb, length, is_nil, Bool-cases, Option-cases, Result, ok, err, Result-cases, All,
}
use polytoken_quota.History.{
  ReconcileRecord, ReconcileHistory, aggregate_record, is_full, demote_last, drop_last, bound_loop,
  bound_history, history_encoded_bytes,
}
use polytoken_quota.History.Bound.{
  NotFull, aggregated, demote_last-none, demote_last-measure, length-drop_last,
}

nil_of : {A : Type 0} (xs : List A) → is_nil xs ≡ true → xs ≡ []
nil_of [] h = refl
nil_of (x ∷ xs) h = absurd (cc)

module _ {F : Type 0} where
  -- The records that are left are the first of the old ones, in their order, each as it was or
  -- aggregated; and behind one that was aggregated none is full.
  abbrev pub IsDemoted : List (ReconcileRecord F) → List (ReconcileRecord F) → Type 0
  IsDemoted old [] = Unit
  IsDemoted [] (n ∷ ns) = ⊥
  IsDemoted (o ∷ os) (n ∷ ns) =
      ((n ≡ o) ⊎ ((n ≡ aggregate_record o) × All NotFull ns)) × IsDemoted os ns

  demote_last-of_NotFull : (rs : List (ReconcileRecord F)) → All NotFull rs → demote_last rs ≡ none
  unfolding demote_last
  demote_last-of_NotFull [] h = refl
  demote_last-of_NotFull (r ∷ rs) h = rw (demote_last-of_NotFull rs h.1, h.0, demote_last)

  NotFull-drop_last : (rs : List (ReconcileRecord F)) → All NotFull rs → All NotFull (drop_last rs)
  unfolding drop_last
  NotFull-drop_last [] h = tt
  NotFull-drop_last (r ∷ []) h = tt
  NotFull-drop_last (r ∷ s ∷ rs) h = (h.0, NotFull-drop_last (s ∷ rs) h.1)

  IsDemoted-refl : (rs : List (ReconcileRecord F)) → IsDemoted rs rs
  IsDemoted-refl [] = tt
  IsDemoted-refl (r ∷ rs) = (inl refl, IsDemoted-refl rs)

  IsDemoted-drop_last :
      (os ns : List (ReconcileRecord F)) → IsDemoted os ns → IsDemoted os (drop_last ns)
  unfolding drop_last
  IsDemoted-drop_last os [] h = tt
  IsDemoted-drop_last [] (n ∷ ns) h = absurd h
  IsDemoted-drop_last (o ∷ os) (n ∷ []) h = tt
  IsDemoted-drop_last (o ∷ os) (n ∷ m ∷ ns) (inl e, t) = (inl e, IsDemoted-drop_last os (m ∷ ns) t)
  IsDemoted-drop_last (o ∷ os) (n ∷ m ∷ ns) (inr (e, a), t) =
      (inr (e, NotFull-drop_last (m ∷ ns) a), IsDemoted-drop_last os (m ∷ ns) t)

  IsDemoted-demote_last :
      (os ns new : List (ReconcileRecord F))
      → IsDemoted os ns
      → demote_last ns ≡ some new
      → IsDemoted os new
  unfolding demote_last
  IsDemoted-demote_last os [] new h e = absurd (cc)
  IsDemoted-demote_last [] (n ∷ ns) new h e = absurd h
  IsDemoted-demote_last (o ∷ os) (n ∷ ns) new (first, t) e = elim (Option-cases (demote_last ns)) [
    | inr (rest, d) ↦
        let k : some (n ∷ rest) ≡ some new = rw (d, demote_last) at e in
        let made : n ∷ rest ≡ new = cc in
        let ih = IsDemoted-demote_last os ns rest t d in
        rw (← made) (elim first [
          | inl same ↦ (inl same, ih)
          | inr (a, rest_demoted) ↦ let z = demote_last-of_NotFull ns rest_demoted in absurd (cc)
        ])
    | inl d ↦ elim (Bool-cases (is_full n.tier)) [
      | inr f ↦ let k : none ≡ some new = rw (d, f, demote_last) at e in absurd (cc)
      | inl f ↦
          let k : some (aggregate_record n ∷ ns) ≡ some new = rw (d, f, demote_last) at e in
          let made : aggregate_record n ∷ ns ≡ new = cc in
          rw (← made) (elim first [
            | inl same ↦ (inr (ap aggregate_record same, demote_last-none ns d), t)
            | inr (a, rest_demoted) ↦
                let z : is_full n.tier ≡ false = rw a (aggregated o) in absurd (cc)
          ])
    ]
  ]

  -- What holds of each history on the way, against the first one.
  pub record IsKept (old h : ReconcileHistory F) : Type 0 where
    pub demoted : IsDemoted old.records h.records
    -- a record is kept or counted
    pub counted :
        h.omitted_history_records + length h.records
        ≡ old.omitted_history_records + length old.records
    -- a record is dropped only where none is full
    pub last_resort :
        old.omitted_history_records < h.omitted_history_records → All NotFull h.records

  module _ {E : Type 0} (encoded : ReconcileHistory F → Result E ℕ) where
    abbrev pub Fits : ReconcileHistory F → Type 0
    Fits h =
        ((size : ℕ) × (encoded h ≡ ok size) × (leb size history_encoded_bytes ≡ true))
        ⊎ (h.records ≡ [])

    loop-IsKept :
        (fuel : ℕ) (old h final : ReconcileHistory F)
        → IsKept old h
        → bound_loop encoded fuel h ≡ some (ok final)
        → IsKept old final × Fits final
    unfolding bound_loop
    loop-IsKept zero old h final k e = absurd (cc)
    loop-IsKept (suc fuel) old h final k e = elim (Result-cases (encoded h)) [
      | inr (p, q) ↦ let z : some (err p) ≡ some (ok final) = rw (q, bound_loop) at e in absurd (cc)
      | inl (size, q) ↦ elim (Bool-cases (leb size history_encoded_bytes)) [
        | inl fits ↦
            let z : some (ok h) ≡ some (ok final) = rw (q, fits, bound_loop) at e in
            let same : h ≡ final = cc in rw (← same) (k, inl (size, q, fits))
        | inr large ↦ elim (Option-cases (demote_last h.records)) [
          | inr (rs, d) ↦
              let m = demote_last-measure h.records rs d in
              let next : ReconcileHistory F = record h { records = rs } in
              let z : bound_loop encoded fuel next ≡ some (ok final) =
                rw (q, large, d, bound_loop) at e in
              loop-IsKept fuel old next final
                (record {
                  demoted = IsDemoted-demote_last old.records h.records rs k.demoted d;
                  counted = omega (arith, k.counted, m.0);
                  last_resort = λ lt.
                      let n = demote_last-of_NotFull h.records (k.last_resort lt) in absurd (cc);
                })
                z
          | inl d ↦ elim (Bool-cases (is_nil h.records)) [
            | inl empty ↦
                let z : some (ok h) ≡ some (ok final) = rw (q, large, d, empty, bound_loop) at e in
                let same : h ≡ final = cc in rw (← same) (k, inr (nil_of h.records empty))
            | inr more ↦
                let m = length-drop_last h.records more in
                let next : ReconcileHistory F = record {
                  records = drop_last h.records;
                  omitted_history_records = h.omitted_history_records + 1;
                } in
                let z : bound_loop encoded fuel next ≡ some (ok final) =
                  rw (q, large, d, more, bound_loop) at e in
                loop-IsKept fuel old next final
                  (record {
                    demoted = IsDemoted-drop_last old.records h.records k.demoted;
                    counted = omega (arith, k.counted, m);
                    last_resort = λ lt. NotFull-drop_last h.records (demote_last-none h.records d);
                  })
                  z
          ]
        ]
      ]
    ]

    -- Where the bounding succeeds, the encoded history is within the limit or has no record. It
    -- kept the first records in their order, each as it was or aggregated, the oldest aggregated
    -- first; every other record is counted as omitted, and one is dropped only after all that are
    -- left were aggregated.
    pub bound_history-IsKept :
        (h final : ReconcileHistory F)
        → bound_history encoded h ≡ some (ok final)
        → IsKept h final × Fits final
    unfolding bound_history
    bound_history-IsKept h final e =
        loop-IsKept (suc (length h.records + length h.records)) h h final
          (record {
            demoted = IsDemoted-refl h.records;
            counted = refl;
            last_resort = λ lt. absurd (omega arith);
          })
          e
