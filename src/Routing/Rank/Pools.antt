-- ===== src/Routing/Rank/Pools.antt =====
-- The balance groups of a ranking (Rank of internal/routing/policy.go): each sorted group holds
-- eligible entries of one balance group, and no two groups are of the same one.
use polytoken_quota.Prelude.{
  ℕ, zero, suc, ◌≡◌, ◌∙◌, sym, refl, true, false, ◌||◌, Option, none, some, List, [], ◌∷◌, String,
  arith, inl, inr, Option-cases, Bool-cases, All, All-append, keep, keep-All, stable_sort,
  All-stable_sort, map, Dict, member, str_eq, str_eq_iff,
}
use polytoken_quota.Floats.{Float}
use polytoken_quota.Routing.Rank.{
  Entry, balance_group, by_less, by_signal, set_cluster, clear_signal, signals_from, cluster_loop,
  next_cluster, assign_signal_clusters, add_to_group, group_loop, sort_group, sorted_groups,
}

abbrev keys : {A : Type 0} → Dict A → List String
keys m = map (λ entry. entry.0) m

-- no name stands twice
abbrev pub Distinct : List String → Type 0
Distinct [] = Unit
Distinct (g ∷ gs) = (member g gs ≡ false) × Distinct gs

module _ {F : Type 0} where
  -- an eligible entry of a balance group
  abbrev pub InPool : String → Entry F → Type 0
  InPool g e = (balance_group e.item.policy ≡ g) × (e.eligible ≡ true)

  -- the groups hold the entries of the balance groups that are named
  abbrev pub ArePools : List String → List (List (Entry F)) → Type 0
  ArePools [] [] = Unit
  ArePools (g ∷ gs) (es ∷ groups) = All (InPool g) es × ArePools gs groups
  ArePools _ _ = ⊥

  abbrev Gathers : Dict (List (Entry F)) → Type 0
  Gathers m = All (λ entry. All (InPool entry.0) entry.1) m × Distinct (keys m)

  InPool-set_cluster :
      (g : String) (i c : ℕ) (es : List (Entry F))
      → All (InPool g) es
      → All (InPool g) (set_cluster i c es)
  unfolding set_cluster
  InPool-set_cluster g i c [] h = tt
  InPool-set_cluster g zero c (e ∷ es) h = h
  InPool-set_cluster g (suc i) c (e ∷ es) h = (h.0, InPool-set_cluster g i c es h.1)

  InPool-clear_signal :
      (g : String) (es : List (Entry F)) → All (InPool g) es → All (InPool g) (map clear_signal es)
  unfolding clear_signal
  InPool-clear_signal g [] h = tt
  InPool-clear_signal g (e ∷ es) h = (h.0, InPool-clear_signal g es h.1)

  member-add_to_group :
      (a g : String) (e : Entry F) (m : Dict (List (Entry F)))
      → member a (keys (add_to_group g e m)) ≡ (member a (keys m) || str_eq g a)
  unfolding add_to_group
  member-add_to_group a g e [] = ground arith
  member-add_to_group a g e ((h, es) ∷ m) =
      ground (arith, member-add_to_group a g e m, str_eq_iff h g)

  Distinct-add_to_group :
      (g : String) (e : Entry F) (m : Dict (List (Entry F)))
      → Distinct (keys m)
      → Distinct (keys (add_to_group g e m))
  unfolding add_to_group
  Distinct-add_to_group g e [] d = (refl, tt)
  Distinct-add_to_group g e ((h, es) ∷ m) d = elim (Bool-cases (str_eq h g)) [
    | inl q ↦ rw q d
    | inr q ↦
        let apart : member h (keys (add_to_group g e m)) ≡ false =
          ground (arith, member-add_to_group h g e m, str_eq_iff h g, str_eq_iff g h) in
        rw q (apart, Distinct-add_to_group g e m d.1)
  ]

  InPool-add_to_group :
      (g : String) (e : Entry F) (m : Dict (List (Entry F)))
      → InPool g e
      → All (λ entry. All (InPool entry.0) entry.1) m
      → All (λ entry. All (InPool entry.0) entry.1) (add_to_group g e m)
  unfolding add_to_group
  InPool-add_to_group g e [] k h = ((k, tt), tt)
  InPool-add_to_group g e ((j, es) ∷ m) k h = elim (Bool-cases (str_eq j g)) [
    | inl q ↦
        let same : j ≡ g = (str_eq_iff j g).0 q in
        rw q (All-append (InPool j) es (e ∷ []) h.0 ((k.0 ∙ sym same, k.1), tt), h.1)
    | inr q ↦ rw q (h.0, InPool-add_to_group g e m k h.1)
  ]

  group_loop-Gathers :
      (m : Dict (List (Entry F))) (es : List (Entry F))
      → All (λ e. e.eligible ≡ true) es
      → Gathers m
      → Gathers (group_loop m es)
  unfolding group_loop
  group_loop-Gathers m [] h k = k
  group_loop-Gathers m (e ∷ es) h k =
      let g = balance_group e.item.policy in
      group_loop-Gathers (add_to_group g e m) es h.1
        (InPool-add_to_group g e m (refl, h.0) k.0, Distinct-add_to_group g e m k.1)

module _ {F : Type 0} ⦃fl : Float F⦄ where
  InPool-cluster_loop :
      (g : String) (c : ℕ) (previous : Option F) (order : List (ℕ × F)) (es : List (Entry F))
      → All (InPool g) es
      → All (InPool g) (cluster_loop c previous order es)
  unfolding cluster_loop
  InPool-cluster_loop g c previous [] es h = h
  InPool-cluster_loop g c previous ((i, s) ∷ order) es h =
      let c' = next_cluster c previous s in
      InPool-cluster_loop g c' (some s) order (set_cluster i c' es) (InPool-set_cluster g i c' es h)

  InPool-assign :
      (g : String) (es : List (Entry F))
      → All (InPool g) es
      → All (InPool g) (assign_signal_clusters es)
  unfolding assign_signal_clusters
  InPool-assign g es h = elim (Option-cases (signals_from 0 es)) [
    | inl e ↦ rw (e, assign_signal_clusters) (InPool-clear_signal g es h)
    | inr (ss, e) ↦
        rw (e, assign_signal_clusters)
          (InPool-cluster_loop g 0 none (stable_sort by_signal ss) es h)
  ]

  InPool-sort_group :
      (g : String) (es : List (Entry F)) → All (InPool g) es → All (InPool g) (sort_group es)
  unfolding sort_group
  InPool-sort_group g es h =
      All-stable_sort by_less (InPool g) (assign_signal_clusters es) (InPool-assign g es h)

  sorted-ArePools :
      (m : Dict (List (Entry F)))
      → All (λ entry. All (InPool entry.0) entry.1) m
      → ArePools (keys m) (map (λ g. sort_group g.1) m)
  sorted-ArePools [] h = tt
  sorted-ArePools ((g, es) ∷ m) h = (InPool-sort_group g es h.0, sorted-ArePools m h.1)

  pub sorted_groups-ArePools :
      (es : List (Entry F))
      → (names : List String) × Distinct names × ArePools names (sorted_groups es)
  unfolding sorted_groups
  sorted_groups-ArePools es =
      let good = keep (λ e. e.eligible) es in
      let all = group_loop-Gathers [] good (keep-All (λ e. e.eligible) es) (tt, tt) in
      let m = group_loop [] good in (keys m, all.1, sorted-ArePools m all.0)
