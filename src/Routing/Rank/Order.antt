-- ===== src/Routing/Rank/Order.antt =====
-- Proofs about the order within a balance group (rankItem.less and semanticRankEqual of
-- internal/routing/policy.go) and the ranks that it gives.
use polytoken_quota.Prelude.{
  ℕ, ◌+◌, ◌≤◌, ◌≡◌, refl, Bool, true, false, not, ◌&&◌, none, some, List, [], ◌∷◌, arith, ◌↔◌, eq_ℤ,
  ltb_ℤ, if◌then◌else◌, bool_eq, is_some, All, Sorted, stable_sort, stable_sort-coarse,
}
use polytoken_quota.Routing.Rank.{
  RankEntry, Entry, less, semantic_rank_equal, by_less, increments, rank_group,
}
use polytoken_quota.Routing.Rank.Keys.{
  ltb-through, eq-ltb, lex, lex-through, peak_key, peak_key-through, same_rest, same_lex,
  chain_flags, step_rank,
}

module _ {F : Type 0} where
  -- all signals of a group are present, or none is
  abbrev pub Signals : Bool → Entry F → Type 0
  Signals b e = is_some e.item.signal ≡ b

  -- the keys of `less` above the mapping ID
  pub ahead : Entry F → Entry F → Bool
  ahead a b =
      if (is_some a.item.signal && is_some b.item.signal)
        && not (eq_ℤ a.item.cluster b.item.cluster)
      then ltb_ℤ a.item.cluster b.item.cluster
      else if not (bool_eq a.item.off_peak b.item.off_peak)
      then a.item.off_peak
      else ltb_ℤ b.item.weight a.item.weight

  pub ahead-refines : (a b : Entry F) → by_less a b ≡ false → ahead a b ≡ false
  unfolding less ahead
  ahead-refines a b h = ground (arith, eq-ltb a.item.weight b.item.weight)

  pub ahead-apart : (a b : Entry F) → by_less a b ≡ true → ahead b a ≡ false
  unfolding less ahead
  ahead-apart a b h = ground (
    arith,
    eq-ltb a.item.weight b.item.weight,
    eq-ltb a.item.cluster b.item.cluster,
    eq-ltb b.item.cluster a.item.cluster,
  )

  -- the order of the keys, by the steps, where the group has signals and where it has none
  ahead-keys :
      (b : Bool) (x y : Entry F)
      → Signals b x
      → Signals b y
      → let rest = peak_key x.item.off_peak y.item.off_peak (ltb_ℤ y.item.weight x.item.weight) in
        ahead x y ≡ (if b then lex x.item.cluster y.item.cluster rest else rest)
  unfolding ahead lex peak_key
  ahead-keys true x y p q = rw (p, q, ahead)
  ahead-keys false x y p q = rw (p, ahead)

  keyed_through :
      (b : Bool) (x y z : Entry F)
      → Signals b x
      → Signals b y
      → Signals b z
      → let rest = λ (s t : Entry F).
        peak_key s.item.off_peak t.item.off_peak (ltb_ℤ t.item.weight s.item.weight) in
        (rest y x ≡ false → rest z y ≡ false → rest z x ≡ false)
        → ahead y x ≡ false
        → ahead z y ≡ false
        → ahead z x ≡ false
  keyed_through true x y z p q r later h k = rw (ahead-keys true z x r p) (
      lex-through x.item.cluster y.item.cluster z.item.cluster _ _ _ later
        (rw (ahead-keys true y x q p) at h) (rw (ahead-keys true z y r q) at k))
  keyed_through false x y z p q r later h k =
      rw (ahead-keys false z x r p)
        (later (rw (ahead-keys false y x q p) at h) (rw (ahead-keys false z y r q) at k))

  pub ahead-through :
      (b : Bool) (x y z : Entry F)
      → Signals b x
      → Signals b y
      → Signals b z
      → ahead y x ≡ false
      → ahead z y ≡ false
      → ahead z x ≡ false
  ahead-through b x y z p q r h k =
      let rest = λ (s t : Entry F).
        peak_key s.item.off_peak t.item.off_peak (ltb_ℤ t.item.weight s.item.weight) in
      let later : rest y x ≡ false → rest z y ≡ false → rest z x ≡ false =
        peak_key-through x.item.off_peak y.item.off_peak z.item.off_peak _ _ _
          (λ m n. ltb-through z.item.weight y.item.weight x.item.weight n m) in
      keyed_through b x y z p q r later h k

  -- equal on the semantic keys: neither stands ahead of the other
  semantic-ahead :
      (b : Bool) (x y : Entry F)
      → Signals b x
      → Signals b y
      → semantic_rank_equal x.item y.item ≡ (not (ahead x y) && not (ahead y x))
  unfolding semantic_rank_equal
  semantic-ahead true x y p q =
      rw (ahead-keys true x y p q, ahead-keys true y x q p, p)
        (same_lex x.item.cluster y.item.cluster _ _ _
          (same_rest x.item.off_peak y.item.off_peak x.item.weight y.item.weight))
  semantic-ahead false x y p q =
      rw (ahead-keys false x y p q, ahead-keys false y x q p, p)
        (same_rest x.item.off_peak y.item.off_peak x.item.weight y.item.weight)

  -- Of three items in order, the outer two are equal where the middle one equals both.
  semantic_chain :
      (b : Bool) (x y z : Entry F)
      → Signals b x
      → Signals b y
      → Signals b z
      → ahead y x ≡ false
      → ahead z y ≡ false
      → semantic_rank_equal x.item z.item
        ≡ (semantic_rank_equal x.item y.item && semantic_rank_equal y.item z.item)
  semantic_chain b x y z p q r h k =
      rw (semantic-ahead b x z p r, semantic-ahead b x y p q, semantic-ahead b y z q r)
        (chain_flags (ahead x z) (ahead z x) (ahead x y) (ahead y x) (ahead y z) (ahead z y) h k
          (ahead-through b x y z p q r h k) (λ e. ahead-through b y z x q r p k e)
          (λ e. ahead-through b z x y r p q e h) (λ e f. ahead-through b z y x r q p f e))

  ahead_irrefl : (x : Entry F) → ahead x x ≡ false
  unfolding ahead
  ahead_irrefl x = ground arith

  semantic_refl : (b : Bool) (x : Entry F) → Signals b x → semantic_rank_equal x.item x.item ≡ true
  semantic_refl b x p = rw (semantic-ahead b x x p p, ahead_irrefl x)

  -- Ranks of a sorted group: an item behind another has the same rank where the two are equal on
  -- the semantic keys, and a later one where they are not.
  abbrev pub RankedBehind : Entry F → RankEntry → List (Entry F) → List RankEntry → Type 0
  RankedBehind e r [] [] = Unit
  RankedBehind e r (x ∷ xs) (s ∷ ss) =
      ((r.rank ≤ s.rank) × ((r.rank ≡ s.rank) ↔ (semantic_rank_equal e.item x.item ≡ true)))
      × RankedBehind e r xs ss
  RankedBehind e r _ _ = ⊥

  abbrev pub IsRanked : List (Entry F) → List RankEntry → Type 0
  IsRanked [] [] = Unit
  IsRanked (e ∷ es) (r ∷ rs) = RankedBehind e r es rs × IsRanked es rs
  IsRanked _ _ = ⊥

  module _ (b : Bool) (render : ℕ → Entry F → RankEntry)
      (renders : (r : ℕ) (e : Entry F) → (render r e).rank ≡ r) where
    -- a rank behind another is no earlier, and the same only on the same semantic keys
    rank_behind :
        (first prev : Entry F) (lo r : ℕ) (es : List (Entry F))
        → All (Signals b) (first ∷ prev ∷ es)
        → ahead prev first ≡ false
        → Sorted ahead (prev ∷ es)
        → lo ≤ r
        → ((lo ≡ r) ↔ (semantic_rank_equal first.item prev.item ≡ true))
        → RankedBehind first (render lo first) es (rank_group render r (some prev.item) es).0
    unfolding rank_group increments
    rank_behind first prev lo r [] sig h k le same = tt
    rank_behind first prev lo r (e ∷ es) sig h k le same =
        let next = if not (semantic_rank_equal prev.item e.item) then r + 1 else r in
        let fact : (lo ≤ next) × ((lo ≡ next) ↔ (semantic_rank_equal first.item e.item ≡ true)) =
          step_rank lo r _ (semantic_rank_equal prev.item e.item) _ le same
            (semantic_chain b first prev e sig.0 sig.1.0 sig.1.1.0 h k.0.0) in
        let far : ahead e first ≡ false =
          ahead-through b first prev e sig.0 sig.1.0 sig.1.1.0 h k.0.0 in
        (
          rw (renders lo first, renders next e) fact,
          rank_behind first e lo next es (sig.0, sig.1.1) far k.1 fact.0 fact.1,
        )

    from-IsRanked :
        (r : ℕ) (e : Entry F) (es : List (Entry F))
        → All (Signals b) (e ∷ es)
        → Sorted ahead (e ∷ es)
        → IsRanked (e ∷ es) (render r e ∷ (rank_group render r (some e.item) es).0)
    unfolding rank_group increments
    from-IsRanked r e [] sig k = (tt, tt)
    from-IsRanked r e (x ∷ xs) sig k =
        let next = if not (semantic_rank_equal e.item x.item) then r + 1 else r in
        let equal : semantic_rank_equal e.item e.item ≡ true = semantic_refl b e sig.0 in
        (
          rank_behind e e r r (x ∷ xs) (sig.0, sig) (ahead_irrefl e) k (omega arith)
              (λ q. equal, λ q. refl),
          from-IsRanked next x xs sig.1 k.1,
        )

    -- A sorted group, from its first rank on.
    pub rank_group-IsRanked :
        (r : ℕ) (es : List (Entry F))
        → All (Signals b) es
        → Sorted ahead es
        → IsRanked es (rank_group render r none es).0
    unfolding rank_group increments
    rank_group-IsRanked r [] sig k = tt
    rank_group-IsRanked r (e ∷ es) sig k = from-IsRanked r e es sig k

-- The sort of a group leaves it in the order of the semantic keys.
pub stable_sort-ahead :
    {F : Type 0} (b : Bool) (es : List (Entry F))
    → All (Signals b) es
    → Sorted ahead (stable_sort by_less es)
stable_sort-ahead b es =
    stable_sort-coarse by_less ahead (Signals b) (λ x y p q. ahead-apart x y)
      (λ x y p q. ahead-refines x y) (ahead-through b) es
