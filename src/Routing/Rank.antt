-- ===== src/Routing/Rank.antt =====
-- The ranking of providers in internal/routing/policy.go: Rank, its signal clusters, and the order
-- within a balance group. Go's map of groups and the slice of their names in order of first
-- appearance are one association list in that order. The formatting of a signal is the parameter
-- `format_signed`.
pub mod Keys
pub mod Order
pub mod Ranks
pub mod Pools
pub mod Clusters
use Prim.Native.String.{◌++◌ as append_text}
use polytoken_quota.Prelude.{
  ℕ, zero, suc, ◌+◌, ◌≡◌, Bool, true, false, not, ◌&&◌, ◌||◌, Option, none, some, List, [], ◌∷◌,
  ◌++◌, String, ℤ, pos, negsuc, eq_ℤ, ltb_ℤ, if◌then◌else◌, bool_eq, str_eq, str_ltb, is_empty,
  is_some, Dict, lookup, insert, keep, map, stable_sort, any_true,
}
use polytoken_quota.Clock.{Time}
use polytoken_quota.Floats.{Float, leb_f}
use polytoken_quota.Quota.{QuotaSnapshot}
use polytoken_quota.Schedule.{off_peak_at}
use polytoken_quota.Routing.{
  ProviderPolicy, ProviderObs, Eligibility, check_eligibility, compute_signal,
}

pub record RankingInput (F : Type 0) : Type 0 where
  pub now : Time
  pub policies : List ProviderPolicy
  pub obs : List (ProviderObs F)

pub record RankEntry : Type 0 where
  pub mapping_id : String
  pub rank : ℕ
  pub off_peak : Bool
  pub eligible : Bool
  pub explanation : String

pub record RankItem (F : Type 0) : Type 0 where
  pub policy : ProviderPolicy
  pub off_peak : Bool
  pub signal : Option F
  pub cluster : ℤ
  pub weight : ℤ

pub record Entry (F : Type 0) : Type 0 where
  pub item : RankItem F
  pub eligible : Bool
  pub reason : String

-- ProviderPolicy.balanceGroup
unfoldable pub balance_group : ProviderPolicy → String
balance_group p = if is_empty p.balance_group then "default" else p.balance_group

-- ProviderPolicy.weight: zero selects the default
unfoldable pub weight_of : ProviderPolicy → ℤ
weight_of p = if eq_ℤ p.weight (pos 0) then pos 1 else p.weight

module _ {F : Type 0} where
  unfoldable pub less : RankItem F → RankItem F → Bool
  less a b =
      if (is_some a.signal && is_some b.signal) && not (eq_ℤ a.cluster b.cluster)
      then ltb_ℤ a.cluster b.cluster
      else if not (bool_eq a.off_peak b.off_peak)
      then a.off_peak
      else if not (eq_ℤ a.weight b.weight)
      then ltb_ℤ b.weight a.weight
      else str_ltb a.policy.mapping_id b.policy.mapping_id

  unfoldable pub semantic_rank_equal : RankItem F → RankItem F → Bool
  semantic_rank_equal a b =
      if is_some a.signal && not (eq_ℤ a.cluster b.cluster)
      then false
      else bool_eq a.off_peak b.off_peak && eq_ℤ a.weight b.weight

  unfoldable pub clear_signal : Entry F → Entry F
  clear_signal e = record e { item = record e.item { signal = none; cluster = negsuc 0 } }

  -- `items[i].item.cluster = c`
  unfoldable pub set_cluster : ℕ → ℕ → List (Entry F) → List (Entry F)
  set_cluster i c [] = []
  set_cluster zero c (e ∷ es) = record e { item = record e.item { cluster = pos c } } ∷ es
  set_cluster (suc i) c (e ∷ es) = e ∷ set_cluster i c es

  -- the signals with their positions, where no item lacks one
  unfoldable pub signals_from : ℕ → List (Entry F) → Option (List (ℕ × F))
  signals_from i [] = some []
  signals_from i (e ∷ es) =
      let rest = signals_from (suc i) es in
      elim e.item.signal [
        | none ↦ none
        | some s ↦ elim rest [ none ↦ none | some ss ↦ some ((i, s) ∷ ss) ]
      ]

  -- a group of the association list takes one more entry
  unfoldable pub add_to_group : String → Entry F → Dict (List (Entry F)) → Dict (List (Entry F))
  add_to_group g e [] = (g, e ∷ []) ∷ []
  add_to_group g e ((h, es) ∷ groups) =
      let rest = add_to_group g e groups in
      if str_eq h g then (h, es ++ e ∷ []) ∷ groups else (h, es) ∷ rest

  unfoldable pub group_loop : Dict (List (Entry F)) → List (Entry F) → Dict (List (Entry F))
  unfolding add_to_group
  group_loop groups [] = groups
  group_loop groups (e ∷ es) = group_loop (add_to_group (balance_group e.item.policy) e groups) es

  abbrev pub by_less : Entry F → Entry F → Bool
  by_less a b = less a.item b.item

  abbrev pub by_id : Entry F → Entry F → Bool
  by_id a b = str_ltb a.item.policy.mapping_id b.item.policy.mapping_id

  -- the ranks of a group: `previous` is nil for its first item; with the last rank
  unfoldable pub increments : Option (RankItem F) → RankItem F → Bool
  unfolding semantic_rank_equal
  increments none item = false
  increments (some previous) item = not (semantic_rank_equal previous item)

  module _ (render : ℕ → Entry F → RankEntry) where
    unfoldable pub rank_group : ℕ → Option (RankItem F) → List (Entry F) → List RankEntry × ℕ
    unfolding increments
    rank_group rank previous [] = ([], rank)
    rank_group rank previous (e ∷ es) =
        let r = if increments previous e.item then rank + 1 else rank in
        let (rest, last) = rank_group r (some e.item) es in (render r e ∷ rest, last)

    -- the groups, with the rank that comes next
    unfoldable pub rank_groups : ℕ → List (List (Entry F)) → List RankEntry × ℕ
    unfolding rank_group
    rank_groups next_rank [] = ([], next_rank)
    rank_groups next_rank (es ∷ groups) =
        let (first, last) = rank_group next_rank none es in
        let (rest, end_rank) = rank_groups (last + 1) groups in (first ++ rest, end_rank)

    unfoldable pub rank_each : ℕ → List (Entry F) → List RankEntry
    rank_each next_rank [] = []
    rank_each next_rank (e ∷ es) = render next_rank e ∷ rank_each (next_rank + 1) es

module _ {F : Type 0} ⦃fl : Float F⦄ where
  open fl use {ltb_f, sub_f, fifth}

  -- a gap of at least the tie band starts a new cluster
  unfoldable pub next_cluster : ℕ → Option F → F → ℕ
  next_cluster c none s = c
  next_cluster c (some previous) s = if leb_f fifth (sub_f previous s) then c + 1 else c

  unfoldable pub cluster_loop : ℕ → Option F → List (ℕ × F) → List (Entry F) → List (Entry F)
  unfolding next_cluster set_cluster
  cluster_loop c previous [] items = items
  cluster_loop c previous ((i, s) ∷ order) items =
      let c' = next_cluster c previous s in cluster_loop c' (some s) order (set_cluster i c' items)

  abbrev pub by_signal : ℕ × F → ℕ × F → Bool
  by_signal a b = ltb_f b.1 a.1

  unfoldable pub assign_signal_clusters : List (Entry F) → List (Entry F)
  unfolding cluster_loop signals_from clear_signal
  assign_signal_clusters items = elim (signals_from 0 items) [
    | none ↦ map clear_signal items
    | some signals ↦ cluster_loop 0 none (stable_sort by_signal signals) items
  ]

  -- `obsBy`: a later observation of a mapping replaces an earlier one
  unfoldable pub obs_loop : Dict (ProviderObs F) → List (ProviderObs F) → Dict (ProviderObs F)
  obs_loop m [] = m
  obs_loop m (o ∷ os) = obs_loop (insert o.mapping_id o m) os

  unfoldable pub entry_of : Time → Dict (ProviderObs F) → ProviderPolicy → Entry F
  unfolding weight_of check_eligibility
  entry_of now obs_by p = elim (lookup p.mapping_id obs_by) [
    | none ↦ record {
      item = record {
        policy = p;
        off_peak = false;
        signal = none;
        cluster = negsuc 0;
        weight = pos 0;
      };
      eligible = false;
      reason = "no fresh snapshot";
    }
    | some obs ↦
        let el = check_eligibility p obs now in
        record {
          item = record {
            policy = p;
            off_peak = off_peak_at p.schedule now;
            signal = elim obs.snapshot [ none ↦ none | some snap ↦ compute_signal snap now ];
            cluster = negsuc 0;
            weight = weight_of p;
          };
          eligible = el.rankable;
          reason = el.reason;
        }
  ]

  unfoldable pub entries_of : RankingInput F → List (Entry F)
  unfolding entry_of obs_loop
  entries_of i = map (entry_of i.now (obs_loop [] i.obs)) i.policies

  -- the groups of the eligible entries, each with its clusters assigned and sorted
  unfoldable pub sort_group : List (Entry F) → List (Entry F)
  unfolding assign_signal_clusters less
  sort_group es = stable_sort by_less (assign_signal_clusters es)

  unfoldable pub sorted_groups : List (Entry F) → List (List (Entry F))
  unfolding group_loop sort_group
  sorted_groups es = map (λ g. sort_group g.1) (group_loop [] (keep (λ e. e.eligible) es))

module _ {F : Type 0} (format_signed : F → String) where
  unfoldable pub explain : Entry F → String
  explain e =
      let status : String = if e.item.off_peak then "off-peak" else "peak" in
      elim e.item.signal [
        | none ↦ status
        | some s ↦ append_text status (append_text ", signal " (format_signed s))
      ]

  unfoldable pub to_rank_entry : ℕ → Entry F → RankEntry
  unfolding explain
  to_rank_entry rank e = record {
    mapping_id = e.item.policy.mapping_id;
    rank = rank;
    off_peak = e.item.off_peak;
    eligible = e.eligible;
    explanation = if not e.eligible then append_text "ineligible: " e.reason else explain e;
  }

  module _ ⦃fl : Float F⦄ where
    -- RankingResult.Entries
    unfoldable pub rank : RankingInput F → List RankEntry
    unfolding entries_of sorted_groups rank_groups rank_each to_rank_entry
    rank i =
        let entries = entries_of i in
        let (ranked, next_rank) = rank_groups to_rank_entry 0 (sorted_groups entries) in
        ranked
        ++ rank_each to_rank_entry next_rank
            (stable_sort by_id (keep (λ e. not e.eligible) entries))
