-- ===== src/Quota/Evidence/Release.antt =====
-- Proofs about the evidence gates of internal/quota/evidence.go.
use polytoken_quota.Prelude.{
  ◌≡◌, ◌⊎◌, refl, sym, ap, str_eq, str_eq_iff, Bool-cases, ◌∙◌, none, Bool, true, false, not, ◌&&◌,
  some, List, [], ◌∷◌, ◌++◌, String, arith, inl, inr, ◌↔◌, is_empty, Option-cases, All, is_nil,
}
use polytoken_quota.Clock.{Time, after, is_zero}
use polytoken_quota.Quota.Evidence.{
  Evidence, codex_provider_name, codex_usage_contract, EvidenceStatus, missing_evidence_fields,
  missing_if, is_fresh, get_contract, status_record, contracts_of, support_from_evidence,
  evaluate_record, status_contract, lacks_fixture, release_status, contract_loop, validate_release,
}

-- A record with every required field, which is not past its review date.
pub record IsCurrent (now : Time) (e : Evidence) : Type 0 where
  pub provider : is_empty e.provider ≡ false
  pub endpoint : is_empty e.endpoint ≡ false
  pub method : is_empty e.method ≡ false
  pub auth_type : is_empty e.auth_type ≡ false
  pub recorded : is_zero e.recorded_at ≡ false
  pub reviewed : is_zero e.review_by ≡ false
  pub in_time : after now e.review_by ≡ false

fields_iff :
    (a b c d e f : Bool)
    → let missing = missing_if a "provider" (
        missing_if b "endpoint" (
          missing_if c "method" (
            missing_if d "auth_type"
              (missing_if e "recorded_at" (missing_if f "review_by" []))))) in
      is_nil missing ≡ (not a && (not b && (not c && (not d && (not e && not f)))))
unfolding missing_if
fields_iff true b c d e f = refl
fields_iff false true c d e f = refl
fields_iff false false true d e f = refl
fields_iff false false false true e f = refl
fields_iff false false false false true f = refl
fields_iff false false false false false true = refl
fields_iff false false false false false false = refl

same_value : {A : Type 0} {a b : A} → some a ≡ some b → a ≡ b
same_value h = cc

none-some : {A : Type 0} {a : A} → none ≡ some a → ⊥
none-some h = cc

All-split :
    {A : Type 0} (P : A → Type 0) (xs ys : List A) → All P (xs ++ ys) ↔ (All P xs × All P ys)
All-split P [] ys = (λ h. (tt, h), λ h. h.1)
All-split P (x ∷ xs) ys =
    let rest = All-split P xs ys in
    (λ h. ((h.0, (rest.0 h.1).0), (rest.0 h.1).1), λ h. (h.0.0, rest.1 (h.0.1, h.1)))

-- A contract with a record of its own that is current and names a fixture.
abbrev pub HasRelease : List Evidence → Time → String → String → Type 0
HasRelease reg now p c =
    (e : Evidence) × (get_contract reg p c ≡ some e)
    × IsCurrent now e
    × (is_empty e.fixture_path ≡ false)

status_record-own :
    (reg : List Evidence) (p c : String) (e : Evidence)
    → get_contract reg p c ≡ some e
    → status_record reg p c ≡ some e
unfolding status_record
status_record-own reg p c e q = rw (q, status_record)

own-IsCurrent :
    (reg : List Evidence) (p c : String) (now : Time) (e : Evidence)
    → get_contract reg p c ≡ some e
    → (x : Evidence) × (status_record reg p c ≡ some x) × IsCurrent now x
    → IsCurrent now e
own-IsCurrent reg p c now e q (x, r, current) =
    let same : x ≡ e = same_value (sym r ∙ status_record-own reg p c e q) in rw same at current

-- which record StatusContract evaluates
found_iff :
    (reg : List Evidence) (p c : String) (now : Time)
    → ((e : Evidence) × (status_record reg p c ≡ some e) × IsCurrent now e) ↔ (
        ((e : Evidence) × (get_contract reg p c ≡ some e) × IsCurrent now e)
        ⊎ ((p ≡ "codex")
            × (c ≡ "usage")
            × (get_contract reg p c ≡ none)
            × ((e : Evidence) × (get_contract reg "codex" "" ≡ some e) × IsCurrent now e)))
unfolding status_record
found_iff reg p c now = elim (Option-cases (get_contract reg p c)) [
  | inr (e, q) ↦ (
    λ x. inl (e, q, own-IsCurrent reg p c now e q x),
    λ h. elim h [
      | inl (x, r, current) ↦ (x, status_record-own reg p c x r, current)
      | inr (a, b, n, x) ↦ absurd (none-some (sym n ∙ q))
    ],
  )
  | inl n ↦ elim (Bool-cases (str_eq p codex_provider_name && str_eq c codex_usage_contract)) [
    | inl t ↦
        let is : (p ≡ "codex") × (c ≡ "usage") =
          ((str_eq_iff p "codex").0 (ground arith), (str_eq_iff c "usage").0 (ground arith)) in
        let same : status_record reg p c ≡ get_contract reg "codex" "" =
          rw (n, t, status_record) (ap (λ s. get_contract reg s "") is.0) in
        (
          λ (e, q, current). inr (is.0, is.1, n, (e, sym same ∙ q, current)),
          λ h. elim h [
            | inl (x, r, current) ↦ absurd (none-some (sym n ∙ r))
            | inr (a, b, m, (e, q, current)) ↦ (e, same ∙ q, current)
          ],
        )
    | inr f ↦
        let nothing : status_record reg p c ≡ none = rw (n, f, status_record) refl in
        (
          λ (e, q, current). absurd (none-some (sym nothing ∙ q)),
          λ h. elim h [
            | inl (x, r, current) ↦ absurd (none-some (sym n ∙ r))
            | inr (a, b, m, x) ↦
                let one = (str_eq_iff p "codex").1 a in
                let two = (str_eq_iff c "usage").1 b in absurd (ground arith)
          ],
        )
  ]
]

abbrev pub IsFresh : EvidenceStatus → Type 0
IsFresh s = is_fresh s.state ≡ true

module _ (format_day : Time → String) where
  evaluate_record_iff :
      (e : Evidence) (now : Time)
      → (is_fresh (evaluate_record format_day e now).state ≡ true) ↔ IsCurrent now e
  unfolding evaluate_record missing_evidence_fields is_fresh
  evaluate_record_iff e now =
      let k =
        fields_iff (is_empty e.provider) (is_empty e.endpoint) (is_empty e.method)
          (is_empty e.auth_type) (is_zero e.recorded_at) (is_zero e.review_by) in
      (
        λ h. record {
          provider = ground (arith, k);
          endpoint = ground (arith, k);
          method = ground (arith, k);
          auth_type = ground (arith, k);
          recorded = ground (arith, k);
          reviewed = ground (arith, k);
          in_time = ground (arith, k);
        },
        λ c.
            ground
              (arith, k, c.provider, c.endpoint, c.method, c.auth_type, c.recorded, c.reviewed),
      )

  fresh-status_contract :
      (reg : List Evidence) (p c : String) (now : Time)
      → (is_fresh (status_contract format_day reg p c now).state ≡ true)
        ↔ ((e : Evidence) × (status_record reg p c ≡ some e) × IsCurrent now e)
  unfolding status_contract is_fresh
  fresh-status_contract reg p c now = elim (Option-cases (status_record reg p c)) [
    | inl n ↦ (
      λ h. let k : false ≡ true = rw (n, status_contract) at h in absurd (cc),
      λ (e, q, k). absurd (cc),
    )
    | inr (e, q) ↦ (
      λ h. (e, q, (evaluate_record_iff e now).0 (rw (q, status_contract) at h)),
      λ (e', q', k).
          let same : e' ≡ e = cc in
          rw (q, status_contract) ((evaluate_record_iff e now).1 (rw same at k)),
    )
  ]

  release_status_iff :
      (reg : List Evidence) (p c : String) (now : Time)
      → (is_fresh (release_status format_day reg p c now).state ≡ true) ↔ HasRelease reg now p c
  unfolding release_status lacks_fixture is_fresh
  release_status_iff reg p c now =
      let k = fresh-status_contract reg p c now in
      elim (Option-cases (get_contract reg p c)) [
        | inl n ↦
            (λ h. absurd (ground arith), λ (e, q, current, fixture). absurd (none-some (sym n ∙ q)))
        | inr (e, q) ↦ (
          λ h.
              let facts : (is_fresh (status_contract format_day reg p c now).state ≡ true)
                  × (is_empty e.fixture_path ≡ false) =
                (ground arith, ground arith) in
              (e, q, own-IsCurrent reg p c now e q (k.0 facts.0), facts.1),
          λ (e', q', current, fixture).
              let same : e' ≡ e = same_value (sym q' ∙ q) in
              let is : is_fresh (status_contract format_day reg p c now).state ≡ true =
                k.1 (e', status_record-own reg p c e' q', current) in
              let has : is_empty e.fixture_path ≡ false = rw same at fixture in ground arith,
        )
      ]

  contract_loop_iff :
      (reg : List Evidence) (p : String) (now : Time) (cs : List String)
      → All IsFresh (contract_loop format_day reg p now cs) ↔ All (HasRelease reg now p) cs
  unfolding contract_loop
  contract_loop_iff reg p now [] = (λ h. tt, λ h. tt)
  contract_loop_iff reg p now (c ∷ cs) =
      let one = release_status_iff reg p c now in
      let rest = contract_loop_iff reg p now cs in
      (λ h. (one.0 h.0, rest.0 h.1), λ h. (one.1 h.0, rest.1 h.1))

  -- Every status of a release is fresh exactly where each configured provider has, for each of its
  -- contracts (usage and reset credits for codex, the default contract for another), a record of
  -- its own that has every required field, is not past its review date and names a fixture.
  pub validate_release_iff :
      (reg : List Evidence) (configured : List String) (now : Time)
      → All IsFresh (validate_release format_day reg configured now)
        ↔ All (λ p. All (HasRelease reg now p) (contracts_of p)) configured
  unfolding validate_release
  validate_release_iff reg [] now = (λ h. tt, λ h. tt)
  validate_release_iff reg (p ∷ ps) now =
      let one = contract_loop_iff reg p now (contracts_of p) in
      let rest = validate_release_iff reg ps now in
      let split =
        All-split IsFresh (contract_loop format_day reg p now (contracts_of p))
          (validate_release format_day reg ps now) in
      (λ h. let (a, b) = split.0 h in (one.0 a, rest.0 b), λ h. split.1 (one.1 h.0, rest.1 h.1))

  -- A poll is allowed exactly where the contract has a current record of its own, or where it is
  -- the usage contract of codex, has no record of its own, and the generic record of codex is
  -- current. No other contract falls back to a generic record.
  pub support_iff :
      (reg : List Evidence) (p c : String) (now : Time)
      → ((support_from_evidence (status_contract format_day reg p c now)).supported ≡ true) ↔ (
          ((e : Evidence) × (get_contract reg p c ≡ some e) × IsCurrent now e)
          ⊎ ((p ≡ "codex")
              × (c ≡ "usage")
              × (get_contract reg p c ≡ none)
              × ((e : Evidence) × (get_contract reg "codex" "" ≡ some e) × IsCurrent now e)))
  unfolding support_from_evidence
  support_iff reg p c now =
      let k = fresh-status_contract reg p c now in
      let found = found_iff reg p c now in
      (λ h. found.0 (k.0 (ground arith)), λ e. let f = k.1 (found.1 e) in ground arith)
