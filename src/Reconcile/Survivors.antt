-- ===== src/Reconcile/Survivors.antt =====
-- The chains of internal/reconcile/reconcile.go: resolving, filtering, partitioning, and the
-- routing overlay.
use polytoken_quota.Prelude.{
  Bool, true, false, not, ◌&&◌, ◌||◌, Option, none, some, List, [], ◌∷◌, ◌++◌, String, ℤ, ltb_ℤ,
  ltb, ◌==◌, if◌then◌else◌, Dict, lookup, Result, ok, err, ◌>>=◌, map, length, keep, stable_sort,
  str_eq, member, is_some, is_empty, pos,
}
use polytoken_quota.Floats.{Float}
use polytoken_quota.State.{Mode, State}
use polytoken_quota.Policy.{
  ModelBaseline, Desired, Chain, ModelRefError, ResolveError, parse_model_ref, resolve_model,
}
use polytoken_quota.Reconcile.Modes.{mapping_mode}

pub record ModelRef : Type 0 where
  pub spelling : String
  pub base : String
  pub suffix : String

pub record Survivor : Type 0 where
  pub ref : ModelRef
  pub mid : String
  pub mode : Mode

pub data ChainError : Type 0 where
  bad_reference : ModelRefError → ChainError
  bad_model : ResolveError → ChainError

abbrev pub RankLookup : Type 0
RankLookup = Dict ℤ

as_ref : String → Result ModelRefError (String × String) → Result ChainError ModelRef
as_ref entry (ok (base, suffix)) = ok (record { spelling = entry; base = base; suffix = suffix })
as_ref entry (err e) = err (bad_reference e)

-- reconcile.ParseModelRef
unfoldable pub parse_ref : String → Result ChainError ModelRef
unfolding as_ref
parse_ref entry = as_ref entry (parse_model_ref entry)

as_owner : Result ResolveError String → Result ChainError String
as_owner (ok id) = ok id
as_owner (err e) = err (bad_model e)

-- the baseline of a model, where its mapping enumerates it
unfoldable pub baseline_of : {F : Type 0} → Desired F → String → String → Option ModelBaseline
baseline_of d mid base = elim (lookup mid d.providers) [
  | none ↦ none
  | some m ↦ lookup base m.models
]

unfoldable pub baseline_disabled : Option ModelBaseline → Bool
baseline_disabled none = false
baseline_disabled (some b) = not b.enabled

is_disabled : Mode → Bool
is_disabled Mode.disabled = true
is_disabled _ = false

unfoldable pub is_reserve : Mode → Bool
is_reserve Mode.reserve = true
is_reserve _ = false

-- A model that its baseline disables, or whose mapping is disabled, is dropped.
filtered : {F : Type 0} → Desired F → ModelRef → String → Mode → Option Survivor
unfolding is_disabled
filtered desired ref mid mode =
    if baseline_disabled (baseline_of desired mid ref.base) || is_disabled mode
    then none
    else some (record { ref = ref; mid = mid; mode = mode })

abbrev pub add_survivor : Option Survivor → List Survivor → List Survivor
add_survivor none rest = rest
add_survivor (some s) rest = s ∷ rest

module _ {F : Type 0} ⦃fl : Float F⦄ where
  -- one round of the loop: the entry is dropped, or it survives with its mode
  unfoldable pub survivor_of : Desired F → State F → String → Result ChainError (Option Survivor)
  unfolding as_owner filtered
  survivor_of desired observed entry = do
    ref ← parse_ref entry
    mid ← as_owner (resolve_model desired ref.base)
    ok (filtered desired ref mid (mapping_mode desired observed mid))

  -- the survivors in desired order, before the partition
  unfoldable pub collect : Desired F → State F → Chain → Result ChainError (List Survivor)
  collect desired observed [] = ok []
  collect desired observed (entry ∷ chain) = do
    found ← survivor_of desired observed entry
    rest ← collect desired observed chain
    ok (add_survivor found rest)

unfoldable pub balance_group_of : {F : Type 0} → Desired F → String → String
balance_group_of d id = elim (lookup id d.providers) [
  | none ↦ "default"
  | some m ↦ elim m.quota [
    | none ↦ "default"
    | some q ↦ if is_empty q.balance_group then "default" else q.balance_group
  ]
]

-- The rank of a survivor; Go's zero where the lookup has none.
unfoldable pub rank_of : RankLookup → Survivor → ℤ
rank_of ranks s = elim (lookup s.mid ranks) [ none ↦ pos 0 | some r ↦ r ]

-- `sv[slot] = ordered[i]`: the slots of the group take the sorted entries, in order
unfoldable pub refill : {A : Type 0} → (A → Bool) → List A → List A → List A
refill test ordered [] = []
refill test [] (x ∷ xs) = x ∷ xs
refill test (y ∷ ys) (x ∷ xs) =
    let taken = y ∷ refill test ys xs in
    let kept = x ∷ refill test (y ∷ ys) xs in if test x then taken else kept

module _ {F : Type 0} (desired : Desired F) (ranks : RankLookup) where
  -- the entry stands in one of the slots of the group
  unfoldable pub in_slot : String → Survivor → Bool
  in_slot group s = is_some (lookup s.mid ranks) && str_eq (balance_group_of desired s.mid) group

  -- The body of the loop over the groups. A group with one slot is left as it is: so is it by a
  -- sort of one entry.
  unfoldable pub reorder : List Survivor → String → List Survivor
  reorder sv group =
      refill (in_slot group)
        (stable_sort (λ a b. ltb_ℤ (rank_of ranks a) (rank_of ranks b)) (keep (in_slot group) sv))
        sv

  -- The groups of the ranked entries. Go walks them in any order: their slots do not meet.
  unfoldable pub ranked_groups : List Survivor → List String
  ranked_groups [] = []
  ranked_groups (s ∷ sv) =
      let groups = ranked_groups sv in
      let group = balance_group_of desired s.mid in
      if is_some (lookup s.mid ranks) && not (member group groups) then group ∷ groups else groups

  unfoldable pub reorder_groups : List Survivor → List String → List Survivor
  reorder_groups sv [] = sv
  reorder_groups sv (g ∷ groups) = reorder_groups (reorder sv g) groups

  unfoldable pub apply_routing_overlay : List Survivor → List Survivor
  apply_routing_overlay sv =
      if ltb (length sv) 2 || length ranks == 0 then sv else reorder_groups sv (ranked_groups sv)

-- `if desired.Routing.Enabled { sv = applyRoutingOverlay(desired, ranks, sv) }`
unfoldable pub overlay_if :
    {F : Type 0} → Bool → Desired F → RankLookup → List Survivor → List Survivor
overlay_if true desired ranks sv = apply_routing_overlay desired ranks sv
overlay_if false desired ranks sv = sv

module _ {F : Type 0} ⦃fl : Float F⦄ where
  -- the two partitions, overlaid where routing is enabled, and joined
  unfoldable pub arrange : Desired F → RankLookup → List Survivor → List Survivor
  arrange desired ranks sv =
      let normal = keep (λ s. not (is_reserve s.mode)) sv in
      let reserve = keep (λ s. is_reserve s.mode) sv in
      overlay_if desired.routing.enabled desired ranks normal
      ++ overlay_if desired.routing.enabled desired ranks reserve

  unfoldable pub resolve_survivors :
      Desired F → State F → Chain → RankLookup → Result ChainError (List Survivor)
  resolve_survivors desired observed chain ranks = do
    sv ← collect desired observed chain
    ok (arrange desired ranks sv)

  unfoldable pub effective_order :
      Desired F → State F → Chain → RankLookup → Result ChainError (List String)
  effective_order desired observed chain ranks = do
    sv ← resolve_survivors desired observed chain ranks
    ok (map (λ s. s.ref.spelling) sv)
