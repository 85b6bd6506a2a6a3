-- ===== src/Routing/Rank/Ranks.antt =====
-- Proofs about Rank (internal/routing/policy.go): it loses no provider and invents none.
use mathlib.Core.List.{Perm, map-append, append_assoc, append-nil, perm_append_comm}
use mathlib.Core.List.Perm
use polytoken_quota.Prelude.{
  ℕ, zero, suc, ◌+◌, ◌≡◌, refl, sym, ap, ◌∙◌, Bool, false, not, Option, none, some, List, [], ◌∷◌,
  ◌++◌, String, inl, inr, if◌then◌else◌, Dict, lookup, keep, map, stable_sort, str_eq, Bool-cases,
  Option-cases, keep-perm, map-Perm, stable_sort-perm,
}
use polytoken_quota.Floats.{Float}
use polytoken_quota.Routing.{ProviderPolicy, check_eligibility}
use polytoken_quota.Routing.Rank.{
  RankEntry, Entry, RankingInput, RankItem, balance_group, clear_signal, set_cluster, signals_from,
  add_to_group, group_loop, increments, rank_group, rank_groups, rank_each, cluster_loop,
  next_cluster, by_signal, assign_signal_clusters, sort_group, sorted_groups, by_less, by_id, rank,
  entries_of, to_rank_entry, entry_of, obs_loop,
}

-- A provider with its eligibility, in an entry and in the result.
abbrev pub standing : {F : Type 0} → Entry F → String × Bool
standing e = (e.item.policy.mapping_id, e.eligible)

abbrev pub ranked_standing : RankEntry → String × Bool
ranked_standing e = (e.mapping_id, e.eligible)

concat : {A : Type 0} → List (List A) → List A
concat [] = []
concat (xs ∷ xss) = xs ++ concat xss

flatten : {A : Type 0} → Dict (List A) → List A
flatten [] = []
flatten ((k, xs) ∷ m) = xs ++ flatten m

module _ {F : Type 0} where
  standing-set_cluster :
      (i c : ℕ) (es : List (Entry F)) → map standing (set_cluster i c es) ≡ map standing es
  unfolding set_cluster
  standing-set_cluster i c [] = refl
  standing-set_cluster zero c (e ∷ es) = refl
  standing-set_cluster (suc i) c (e ∷ es) = ap (λ t. standing e ∷ t) (standing-set_cluster i c es)

  standing-clear_signal :
      (es : List (Entry F)) → map standing (map clear_signal es) ≡ map standing es
  unfolding clear_signal
  standing-clear_signal [] = refl
  standing-clear_signal (e ∷ es) = ap (λ t. standing e ∷ t) (standing-clear_signal es)

  flatten-add_to_group :
      (g : String) (e : Entry F) (m : Dict (List (Entry F)))
      → Perm (flatten (add_to_group g e m)) (flatten m ++ e ∷ [])
  unfolding flatten add_to_group
  flatten-add_to_group g e [] = Perm.refl (e ∷ [])
  flatten-add_to_group g e ((h, es) ∷ m) = elim (Bool-cases (str_eq h g)) [
    | inl q ↦
        rw (q, append_assoc es (e ∷ []) (flatten m), append_assoc es (flatten m) (e ∷ []))
          (Perm.append (Perm.refl es) (perm_append_comm (e ∷ []) (flatten m)))
    | inr q ↦
        rw (q, append_assoc es (flatten m) (e ∷ []))
          (Perm.append (Perm.refl es) (flatten-add_to_group g e m))
  ]

  flatten-group_loop :
      (m : Dict (List (Entry F))) (es : List (Entry F))
      → Perm (flatten (group_loop m es)) (flatten m ++ es)
  unfolding group_loop
  flatten-group_loop m [] = rw (append-nil (flatten m)) (Perm.refl (flatten m))
  flatten-group_loop m (e ∷ es) =
      let g = balance_group e.item.policy in
      Perm.trans (flatten-group_loop (add_to_group g e m) es) (
        rw (← append_assoc (flatten m) (e ∷ []) es)
          (Perm.append (flatten-add_to_group g e m) (Perm.refl es)))

  module _ (render : ℕ → Entry F → RankEntry)
      (renders : (r : ℕ) (e : Entry F) → ranked_standing (render r e) ≡ standing e) where
    standing-rank_group :
        (r : ℕ) (previous : Option (RankItem F)) (es : List (Entry F))
        → map ranked_standing (rank_group render r previous es).0 ≡ map standing es
    unfolding rank_group
    standing-rank_group r previous [] = refl
    standing-rank_group r previous (e ∷ es) =
        let next = if increments previous e.item then r + 1 else r in
        rw (renders next e, standing-rank_group next (some e.item) es)

    standing-rank_groups :
        (r : ℕ) (groups : List (List (Entry F)))
        → map ranked_standing (rank_groups render r groups).0 ≡ map standing (concat groups)
    unfolding rank_groups concat
    standing-rank_groups r [] = refl
    standing-rank_groups r (es ∷ groups) =
        let first = rank_group render r none es in
        let rest = rank_groups render (first.1 + 1) groups in
        map-append ranked_standing first.0 rest.0
        ∙ rw (standing-rank_group r none es, standing-rank_groups (first.1 + 1) groups)
            (sym (map-append standing es (concat groups)))

    standing-rank_each :
        (r : ℕ) (es : List (Entry F))
        → map ranked_standing (rank_each render r es) ≡ map standing es
    unfolding rank_each
    standing-rank_each r [] = refl
    standing-rank_each r (e ∷ es) = rw (renders r e, standing-rank_each (r + 1) es)

module _ {F : Type 0} ⦃fl : Float F⦄ where
  standing-cluster_loop :
      (c : ℕ) (previous : Option F) (order : List (ℕ × F)) (items : List (Entry F))
      → map standing (cluster_loop c previous order items) ≡ map standing items
  unfolding cluster_loop
  standing-cluster_loop c previous [] items = refl
  standing-cluster_loop c previous ((i, s) ∷ order) items =
      let c' = next_cluster c previous s in
      standing-cluster_loop c' (some s) order (set_cluster i c' items)
      ∙ standing-set_cluster i c' items

  standing-assign :
      (items : List (Entry F)) → map standing (assign_signal_clusters items) ≡ map standing items
  unfolding assign_signal_clusters
  standing-assign items = elim (Option-cases (signals_from 0 items)) [
    | inl e ↦ rw (e, assign_signal_clusters) (standing-clear_signal items)
    | inr (signals, e) ↦
        rw (e, assign_signal_clusters)
          (standing-cluster_loop 0 none (stable_sort by_signal signals) items)
  ]

  standing-sort_group :
      (es : List (Entry F)) → Perm (map standing (sort_group es)) (map standing es)
  unfolding sort_group
  standing-sort_group es =
      rw (← standing-assign es)
        (map-Perm standing (stable_sort-perm by_less (assign_signal_clusters es)))

  standing-sorted :
      (m : Dict (List (Entry F)))
      → Perm (map standing (concat (map (λ g. sort_group g.1) m))) (map standing (flatten m))
  unfolding concat flatten
  standing-sorted [] = Perm.refl []
  standing-sorted ((g, es) ∷ m) =
      rw
        (
          map-append standing (sort_group es) (concat (map (λ g. sort_group g.1) m)),
          map-append standing es (flatten m),
        )
        (Perm.append (standing-sort_group es) (standing-sorted m))

  -- A policy with its standing: it is eligible where it has an observation that is rankable.
  abbrev pub policy_standing : RankingInput F → ProviderPolicy → String × Bool
  policy_standing i p = (
    p.mapping_id,
    elim (lookup p.mapping_id (obs_loop [] i.obs)) [
      | none ↦ false
      | some obs ↦ (check_eligibility p obs i.now).rankable
    ],
  )

  standing-entries :
      (i : RankingInput F) (ps : List ProviderPolicy)
      → map standing (map (entry_of i.now (obs_loop [] i.obs)) ps) ≡ map (policy_standing i) ps
  unfolding entry_of
  standing-entries i [] = refl
  standing-entries i (p ∷ ps) = elim (Option-cases (lookup p.mapping_id (obs_loop [] i.obs))) [
    | inl e ↦ rw (e, entry_of, standing-entries i ps)
    | inr (obs, e) ↦ rw (e, entry_of, standing-entries i ps)
  ]

  -- The ranking has one row for each policy, in some order, with its mapping, and "eligible" there
  -- exactly where the policy's mapping has an observation that CheckEligibility calls rankable.
  pub rank-Perm :
      (format_signed : F → String) (i : RankingInput F)
      → Perm (map ranked_standing (rank format_signed i)) (map (policy_standing i) i.policies)
  unfolding rank entries_of sorted_groups to_rank_entry flatten
  rank-Perm format_signed i =
      let es = entries_of i in
      let good = keep (λ e. e.eligible) es in
      let bad = keep (λ e. not e.eligible) es in
      let ranked = rank_groups (to_rank_entry format_signed) 0 (sorted_groups es) in
      let last = rank_each (to_rank_entry format_signed) ranked.1 (stable_sort by_id bad) in
      let render : (r : ℕ) (e : Entry F)
          → ranked_standing (to_rank_entry format_signed r e) ≡ standing e =
        λ r e. refl in
      let grouped : Perm (map standing (concat (sorted_groups es))) (map standing good) =
        Perm.trans (standing-sorted (group_loop [] good))
          (map-Perm standing (flatten-group_loop [] good)) in
      let others : Perm (map standing (stable_sort by_id bad)) (map standing bad) =
        map-Perm standing (stable_sort-perm by_id bad) in
      let rows : map ranked_standing (ranked.0 ++ last)
          ≡ map standing (concat (sorted_groups es)) ++ map standing (stable_sort by_id bad) =
        map-append ranked_standing ranked.0 last
        ∙ rw (
          standing-rank_groups (to_rank_entry format_signed) render 0 (sorted_groups es),
          standing-rank_each (to_rank_entry format_signed) render ranked.1 (stable_sort by_id bad),
        ) in
      let all : Perm (map standing good ++ map standing bad) (map standing es) =
        rw (← map-append standing good bad)
          (map-Perm standing (Perm.symm (keep-perm (λ e. e.eligible) es))) in
      rw rows (rw (← standing-entries i i.policies) (Perm.trans (Perm.append grouped others) all))
