-- ===== src/Gate/PoolLaws.antt =====
-- Proofs about signalPoolRule (internal/service/signal_gate.go).
use polytoken_quota.Prelude.{
  ◌≡◌, ◌↔◌, ◌⊎◌, refl, Bool, true, false, not, ◌&&◌, ◌||◌, List, [], ◌∷◌, ◌++◌, String, arith, inl,
  inr, Dict, lookup-insert, member, keep, any_true, is_nil, str_eq, str_eq_iff, str_eq_refl,
  Bool-cases, member-append, member-keep, any_true-find, any_true-not_member,
}
use polytoken_quota.State.{Mode}
use polytoken_quota.Gate.Pool.{
  SignalPoolDecision, Gathered, members_of, gather, gather_loop, otherwise_enabled, is_released,
  judge_pool, judge_loop, held_by_another_axis,
}
use polytoken_quota.Gate.{durable_gate_applies}

module _ (group : String → String) where
  member-gather :
      (p : Gathered) (id a g : String)
      → member a (members_of g (gather p (group id) id).members)
        ≡ (member a (members_of g p.members) || (str_eq (group id) g && str_eq id a))
  unfolding gather members_of
  member-gather p id a g = ground (
    arith,
    lookup-insert (group id) g (members_of (group id) p.members ++ id ∷ []) p.members,
    str_eq_iff (group id) g,
    member-append a (members_of (group id) p.members) (id ∷ []),
  )

  -- The members of a pool are the providers of that balance group.
  pub member-gather_loop :
      (p : Gathered) (ids : List String) (a g : String)
      → member a (members_of g (gather_loop group p ids).members)
        ≡ (member a (members_of g p.members) || (member a ids && str_eq (group a) g))
  unfolding gather_loop
  member-gather_loop p [] a g = ground arith
  member-gather_loop p (id ∷ ids) a g = ground (
    arith,
    member-gather_loop (gather p (group id) id) ids a g,
    member-gather p id a g,
    str_eq_iff id a,
  )

  pools-gather :
      (p : Gathered) (id g : String)
      → member g (gather p (group id) id).pools ≡ (member g p.pools || str_eq (group id) g)
  unfolding gather
  pools-gather p id g =
      ground (arith, member-append g p.pools (group id ∷ []), str_eq_iff (group id) g)

  -- The pool of every provider is one of the pools.
  pub pools-gather_loop :
      (p : Gathered) (ids : List String) (g : String)
      → member g (gather_loop group p ids).pools
        ≡ (member g p.pools || any_true (λ id. str_eq (group id) g) ids)
  unfolding gather_loop
  pools-gather_loop p [] g = ground arith
  pools-gather_loop p (id ∷ ids) g =
      ground (arith, pools-gather_loop (gather p (group id) id) ids g, pools-gather p id g)

is_nil-member : (a : String) (xs : List String) → member a xs ≡ true → is_nil xs ≡ false
is_nil-member a [] h = absurd (cc)
is_nil-member a (x ∷ xs) h = refl

member-of_not_nil : (xs : List String) → is_nil xs ≡ false → (a : String) × (member a xs ≡ true)
member-of_not_nil [] h = absurd (cc)
member-of_not_nil (x ∷ xs) h = (x, ground (arith, str_eq_refl x))

module _ (gated on held exempt : String → Bool) (mode : String → Mode) where
  -- The test of the rule: a hot set that is not empty and covers the members counted.
  unfoldable pub skips : List String → Bool
  skips ms =
      let hot = keep gated ms in
      not (is_nil hot)
      && not (
          any_true (λ id. not (member id hot))
            (keep (otherwise_enabled gated on held exempt mode) ms))

  member-judge_pool :
      (ms : List String) (g a : String) (dec : SignalPoolDecision)
      → let next = judge_pool gated on held exempt mode ms g dec in
        (member a next.skip_signal
          ≡ (member a dec.skip_signal || (skips ms && (member a ms && gated a))))
        × (member a next.release ≡ (
            member a dec.release
            || (skips ms && (member a ms && is_released gated on held exempt mode a))))
  unfolding judge_pool skips
  member-judge_pool ms g a dec = ground (
    arith,
    member-append a dec.skip_signal (keep gated ms),
    member-keep a gated ms,
    member-append a dec.release (keep (is_released gated on held exempt mode) ms),
    member-keep a (is_released gated on held exempt mode) ms,
  )

  -- a pool that is skipped and has the given member, which passes the test
  unfoldable pub skipped_in : (String → Bool) → Dict (List String) → String → String → Bool
  skipped_in test ms a g = skips (members_of g ms) && (member a (members_of g ms) && test a)

  pub member-judge_loop :
      (ms : Dict (List String)) (gs : List String) (a : String) (dec : SignalPoolDecision)
      → let end = judge_loop gated on held exempt mode ms gs dec in
        (member a end.skip_signal
          ≡ (member a dec.skip_signal || any_true (skipped_in gated ms a) gs))
        × (member a end.release ≡ (
            member a dec.release
            || any_true (skipped_in (is_released gated on held exempt mode) ms a) gs))
  unfolding judge_loop skipped_in
  member-judge_loop ms [] a dec = (ground arith, ground arith)
  member-judge_loop ms (g ∷ gs) a dec =
      let next = judge_pool gated on held exempt mode (members_of g ms) g dec in
      let one = member-judge_pool (members_of g ms) g a dec in
      let rest = member-judge_loop ms gs a next in
      (ground (arith, one.0, rest.0), ground (arith, one.1, rest.1))

  -- A member that would otherwise stay enabled: its live field is absent or true, and its mode is
  -- normal, or reserve with the exemption from the quota gate.
  abbrev pub StaysEnabled : String → Type 0
  StaysEnabled id =
      (on id ≡ true) × ((mode id ≡ Mode.normal) ⊎ ((mode id ≡ Mode.reserve) × (exempt id ≡ true)))

  -- A claim of the signal axis, on a provider that no other axis holds: its mode is normal, or
  -- reserve with the exemption.
  abbrev pub IsFreed : String → Type 0
  IsFreed id =
      (held id ≡ true) × ((mode id ≡ Mode.normal) ⊎ ((mode id ≡ Mode.reserve) × (exempt id ≡ true)))

  pub otherwise_enabled_iff :
      (id : String) → (otherwise_enabled gated on held exempt mode id ≡ true) ↔ StaysEnabled id
  unfolding otherwise_enabled durable_gate_applies
  otherwise_enabled_iff id = (λ h. ground arith, λ h. ground arith)

  pub is_released_iff :
      (id : String) → (is_released gated on held exempt mode id ≡ true) ↔ IsFreed id
  unfolding is_released held_by_another_axis
  is_released_iff id = (λ h. ground arith, λ h. ground arith)

  -- The pool rule skips a pool: some member's verdict is gated, and so is that of every member
  -- that would otherwise stay enabled.
  pub record IsSkipped (group : String → String) (ids : List String) (g : String) : Type 0 where
    pub hot : String
    pub enrolled : member hot ids ≡ true
    pub hot_group : group hot ≡ g
    pub hot_gated : gated hot ≡ true
    pub covered : (j : String) → member j ids ≡ true → group j ≡ g → StaysEnabled j → gated j ≡ true

  pub skips-of :
      (group : String → String) (ids ms : List String) (g : String)
      → ((a : String) → member a ms ≡ (member a ids && str_eq (group a) g))
      → IsSkipped group ids g
      → skips ms ≡ true
  unfolding skips
  skips-of group ids ms g same s =
      let oe = otherwise_enabled gated on held exempt mode in
      let hot = keep gated ms in
      let in_hot : member s.hot hot ≡ true = ground (
        arith,
        member-keep s.hot gated ms,
        same s.hot,
        s.enrolled,
        s.hot_gated,
        (str_eq_iff (group s.hot) g).1 s.hot_group,
      ) in
      elim (Bool-cases (any_true (λ id. not (member id hot)) (keep oe ms))) [
        | inr e ↦ ground (arith, is_nil-member s.hot hot in_hot)
        | inl e ↦
            let (j, m, cold) = any_true-find (λ id. not (member id hot)) (keep oe ms) e in
            let in_ms : (member j ms ≡ true) × (oe j ≡ true) =
              (ground (arith, member-keep j oe ms), ground (arith, member-keep j oe ms)) in
            let in_ids : (member j ids ≡ true) × (str_eq (group j) g ≡ true) =
              (ground (arith, same j), ground (arith, same j)) in
            let j_gated : gated j ≡ true =
              s.covered j in_ids.0 ((str_eq_iff (group j) g).0 in_ids.1)
                ((otherwise_enabled_iff j).0 in_ms.1) in
            absurd (ground (arith, member-keep j gated ms))
      ]

  pub of-skips :
      (group : String → String) (ids ms : List String) (g : String)
      → ((a : String) → member a ms ≡ (member a ids && str_eq (group a) g))
      → skips ms ≡ true
      → IsSkipped group ids g
  unfolding skips
  of-skips group ids ms g same h =
      let oe = otherwise_enabled gated on held exempt mode in
      let hot = keep gated ms in
      let (a, m) = member-of_not_nil hot (ground arith) in
      let in_ms : (member a ms ≡ true) × (gated a ≡ true) =
        (ground (arith, member-keep a gated ms), ground (arith, member-keep a gated ms)) in
      let all_hot : any_true (λ id. not (member id hot)) (keep oe ms) ≡ false = ground arith in
      record {
        hot = a;
        enrolled = ground (arith, same a);
        hot_group = (str_eq_iff (group a) g).0 (ground (arith, same a));
        hot_gated = in_ms.1;
        covered = λ j enrolled grouped stays.
            let enabled : oe j ≡ true = (otherwise_enabled_iff j).1 stays in
            let in_pool : member j ms ≡ true =
              ground (arith, same j, (str_eq_iff (group j) g).1 grouped) in
            let counted : member j (keep oe ms) ≡ true = ground (arith, member-keep j oe ms) in
            let k : not (member j hot) ≡ false =
              any_true-not_member (λ id. not (member id hot)) j (keep oe ms) all_hot counted in
            ground (arith, member-keep j gated ms);
      }
