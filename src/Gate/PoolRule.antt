-- ===== src/Gate/PoolRule.antt =====
-- What signalPoolRule (internal/service/signal_gate.go) promises.
use polytoken_quota.Prelude.{
  ◌≡◌, refl, Bool, true, false, not, ◌&&◌, List, [], String, arith, inl, inr, ◌↔◌, member, any_true,
  str_eq, str_eq_iff, str_eq_refl, str_ltb, stable_sort, Bool-cases, Dict, lookup,
  member-stable_sort, any_true-find, any_true-of_member, any_true-not_member,
}
use polytoken_quota.State.{Mode}
use polytoken_quota.Gate.Pool.{
  members_of, gather_loop, nothing_gathered, otherwise_enabled, is_released, pool_rule,
}
use polytoken_quota.Gate.PoolLaws.{
  skips, skipped_in, member-judge_loop, IsSkipped, skips-of, of-skips, member-gather_loop,
  pools-gather_loop, IsFreed, is_released_iff, otherwise_enabled_iff,
}

no_members : (g a : String) → member a (members_of g []) ≡ false
unfolding members_of lookup
no_members g a = refl

module _ (gated on held exempt : String → Bool) (mode : String → Mode) (group : String → String)
    (ids : List String) where
  members : Dict (List String)
  members = (gather_loop group nothing_gathered ids).members

  sorted_pools : List String
  sorted_pools = stable_sort str_ltb (gather_loop group nothing_gathered ids).pools

  in_members :
      (g a : String) → member a (members_of g members) ≡ (member a ids && str_eq (group a) g)
  unfolding members
  in_members g a =
      let empty : member a (members_of g []) ≡ false = no_members g a in
      ground (arith, member-gather_loop group nothing_gathered ids a g)

  in_pools : (g : String) → member g sorted_pools ≡ any_true (λ id. str_eq (group id) g) ids
  unfolding sorted_pools
  in_pools g = ground (
    arith,
    member-stable_sort g str_ltb (gather_loop group nothing_gathered ids).pools,
    pools-gather_loop group nothing_gathered ids g,
  )

  -- a set that the rule makes of the members of the skipped pools that pass a test
  skip_test_iff :
      (test : String → Bool) (a : String)
      → (any_true (skipped_in gated on held exempt mode test members a) sorted_pools ≡ true) ↔ (
          (member a ids ≡ true)
          × (test a ≡ true)
          × IsSkipped gated on held exempt mode group ids (group a))
  unfolding skipped_in
  skip_test_iff test a = (
    λ h.
        let (g, m, k) =
          any_true-find (skipped_in gated on held exempt mode test members a) sorted_pools h in
        let e : group a ≡ g = (str_eq_iff (group a) g).0 (ground (arith, in_members g a)) in
        (
          ground (arith, in_members g a),
          ground arith,
          rw e (
              of-skips gated on held exempt mode group ids (members_of g members) g (in_members g)
                (ground arith)),
        ),
    λ (m, t, s).
        let g : String = group a in
        let k : skips gated on held exempt mode (members_of g members) ≡ true =
          skips-of gated on held exempt mode group ids (members_of g members) g (in_members g) s in
        let p : any_true (λ id. str_eq (group id) g) ids ≡ true =
          any_true-of_member (λ id. str_eq (group id) g) a ids m (str_eq_refl g) in
        any_true-of_member (skipped_in gated on held exempt mode test members a) g sorted_pools
          (ground (arith, in_pools g)) (ground (arith, in_members g a, str_eq_refl g)),
  )

  pool_rule-sets :
      (a : String)
      → let d = pool_rule gated on held exempt mode group ids in
        (member a d.skip_signal
          ≡ any_true (skipped_in gated on held exempt mode gated members a) sorted_pools)
        × (member a d.release
            ≡ any_true
                (skipped_in gated on held exempt mode
                  (is_released gated on held exempt mode)
                  members
                  a)
                sorted_pools)
  unfolding pool_rule members sorted_pools
  pool_rule-sets a =
      let p = gather_loop group nothing_gathered ids in
      member-judge_loop gated on held exempt mode p.members (stable_sort str_ltb p.pools) a
        (record { skip_signal = []; release = []; pool_of = p.pool_of; pools = [] })

  -- A provider's signal gate is suppressed exactly where it is enrolled, its verdict is gated, and
  -- its pool is skipped: some member's verdict is gated, and so is that of every member whose field
  -- is absent or true and whose mode is normal, or reserve with the exemption. A claim is released
  -- exactly where the provider is enrolled, the signal axis holds it, its mode is normal, or
  -- reserve with the exemption, and its pool is skipped.
  pub pool_rule_iff :
      (a : String)
      → let d = pool_rule gated on held exempt mode group ids in
        let skipped = IsSkipped gated on held exempt mode group ids (group a) in
        ((member a d.skip_signal ≡ true) ↔ ((member a ids ≡ true) × (gated a ≡ true) × skipped))
        × ((member a d.release ≡ true)
            ↔ ((member a ids ≡ true) × IsFreed gated on held exempt mode a × skipped))
  pool_rule_iff a =
      let sets = pool_rule-sets a in
      let skip = skip_test_iff gated a in
      let freed = skip_test_iff (is_released gated on held exempt mode) a in
      (
        (λ h. skip.0 (ground (arith, sets.0)), λ t. ground (arith, sets.0, skip.1 t)),
        (
          λ h.
              let (m, r, s) = freed.0 (ground (arith, sets.1)) in
              (m, (is_released_iff gated on held exempt mode a).0 r, s),
          λ (m, r, s).
              let t = freed.1 (m, (is_released_iff gated on held exempt mode a).1 r, s) in
              ground (arith, sets.1, t),
        ),
      )

  -- Whatever the verdicts, where a pool has a member that would otherwise stay enabled, one such
  -- member of it is not gated by the signal axis: its verdict is not gated, or it is skipped.
  pub pool_rule-spares :
      (a : String)
      → member a ids ≡ true
      → otherwise_enabled gated on held exempt mode a ≡ true
      → let d = pool_rule gated on held exempt mode group ids in
        (j : String) × (member j ids ≡ true)
        × (group j ≡ group a)
        × (otherwise_enabled gated on held exempt mode j ≡ true)
        × (gated j && not (member j d.skip_signal) ≡ false)
  pool_rule-spares a m o =
      let oe = otherwise_enabled gated on held exempt mode in
      let d = pool_rule gated on held exempt mode group ids in
      let cold : String → Bool = λ j. str_eq (group j) (group a) && (oe j && not (gated j)) in
      elim (Bool-cases (any_true cold ids)) [
        | inl e ↦
            let (j, k, c) = any_true-find cold ids e in
            (j, k, (str_eq_iff (group j) (group a)).0 (ground arith), ground arith, ground arith)
        | inr e ↦
            let gate_of : (j : String)
                → member j ids ≡ true
                → group j ≡ group a
                → oe j ≡ true
                → gated j ≡ true =
              λ j k grouped counted.
                let c : cold j ≡ false = any_true-not_member cold j ids e k in
                let q : str_eq (group j) (group a) ≡ true =
                  (str_eq_iff (group j) (group a)).1 grouped in
                ground arith in
            let hot : gated a ≡ true = gate_of a m refl o in
            let skip : member a d.skip_signal ≡ true = (pool_rule_iff a).0.1 (
              m,
              hot,
              record {
                hot = a;
                enrolled = m;
                hot_group = refl;
                hot_gated = hot;
                covered = λ j k grouped stays.
                    gate_of j k grouped
                      ((otherwise_enabled_iff gated on held exempt mode j).1 stays);
              },
            ) in
            (a, m, refl, o, ground arith)
      ]
