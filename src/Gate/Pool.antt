-- ===== src/Gate/Pool.antt =====
-- signalPoolRule of internal/service/signal_gate.go. A Go `map[string]bool` that is used as a set
-- is the list of its keys.
use polytoken_quota.Prelude.{
  Bool, true, false, not, ◌&&◌, ◌||◌, none, some, List, [], ◌∷◌, ◌++◌, String, if◌then◌else◌, Dict,
  lookup, insert, member, keep, any_true, is_nil, str_ltb, stable_sort,
}
use polytoken_quota.State.{Mode}
use polytoken_quota.Policy.{Desired}
use polytoken_quota.Gate.{pool_of, durable_gate_applies, sorted_provider_ids}

-- signalPoolDecision
pub record SignalPoolDecision : Type 0 where
  pub skip_signal : List String
  pub release : List String
  pub pool_of : Dict String
  pub pools : List String

-- the variables of the loop that gathers the members
pub record Gathered : Type 0 where
  pub pool_of : Dict String
  pub members : Dict (List String)
  pub pools : List String

-- `members[g]`: nil for a missing key
unfoldable pub members_of : String → Dict (List String) → List String
members_of g ms = elim (lookup g ms) [ none ↦ [] | some ids ↦ ids ]

-- One round: `seen` is the set of the members of `pools`.
unfoldable pub gather : Gathered → String → String → Gathered
unfolding members_of
gather p g id = record {
  pool_of = insert id g p.pool_of;
  members = insert g (members_of g p.members ++ id ∷ []) p.members;
  pools = if member g p.pools then p.pools else p.pools ++ g ∷ [];
}

unfoldable pub gather_loop : (String → String) → Gathered → List String → Gathered
unfolding gather
gather_loop group p [] = p
gather_loop group p (id ∷ ids) = gather_loop group (gather p (group id) id) ids

abbrev pub nothing_gathered : Gathered
nothing_gathered = record { pool_of = []; members = []; pools = [] }

-- the case distinction on the mode behind `heldByAnotherAxis`
unfoldable pub held_by_another_axis : Mode → Bool → Bool
held_by_another_axis Mode.disabled exempt = true
held_by_another_axis Mode.reserve exempt = not exempt
held_by_another_axis Mode.normal exempt = false

-- `gated` says which verdicts are gated, `on` which live fields are absent or true, `held` which
-- providers have a claim of the signal axis.
module _ (gated on held exempt : String → Bool) (mode : String → Mode) where
  -- the members that the coverage counts
  unfoldable pub otherwise_enabled : String → Bool
  otherwise_enabled id = on id && not (durable_gate_applies (mode id) (exempt id))

  unfoldable pub is_released : String → Bool
  is_released id = held id && not (held_by_another_axis (mode id) (exempt id))

  -- one pool
  unfoldable pub judge_pool : List String → String → SignalPoolDecision → SignalPoolDecision
  unfolding otherwise_enabled is_released
  judge_pool ms g dec =
      let hot = keep gated ms in
      let covers = not (any_true (λ id. not (member id hot)) (keep otherwise_enabled ms)) in
      if is_nil hot || not covers then dec else record dec {
        skip_signal = dec.skip_signal ++ hot;
        release = dec.release ++ keep is_released ms;
        pools = dec.pools ++ g ∷ [];
      }

  unfoldable pub judge_loop :
      Dict (List String) → List String → SignalPoolDecision → SignalPoolDecision
  unfolding judge_pool
  judge_loop ms [] dec = dec
  judge_loop ms (g ∷ gs) dec = judge_loop ms gs (judge_pool (members_of g ms) g dec)

  unfoldable pub pool_rule : (String → String) → List String → SignalPoolDecision
  unfolding gather_loop judge_loop
  pool_rule group ids =
      let p = gather_loop group nothing_gathered ids in
      judge_loop p.members (stable_sort str_ltb p.pools)
        (record { skip_signal = []; release = []; pool_of = p.pool_of; pools = [] })

  unfoldable pub signal_pool_rule : {F : Type 0} → Desired F → SignalPoolDecision
  unfolding pool_rule sorted_provider_ids
  signal_pool_rule d = pool_rule (pool_of d) (sorted_provider_ids d)
