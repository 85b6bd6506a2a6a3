-- ===== src/Routing/Rank/Clusters.antt =====
-- The signal clusters of a balance group (assignSignalClusters of internal/routing/policy.go), and
-- the ranks of all groups (Rank).
use polytoken_quota.Prelude.{ℕ, ◌+◌, ◌≤◌, ◌≡◌, Bool, List, [], ◌∷◌, ◌++◌, String, All, Sorted, map}
use polytoken_quota.Routing.Rank.{RankEntry, Entry, rank}
use polytoken_quota.Routing.Rank.Order.{Signals, IsRanked, ahead}

-- The ranks of the rows count up by one from the given rank.
abbrev pub CountsFrom : ℕ → List RankEntry → Type 0
CountsFrom n [] = Unit
CountsFrom n (r ∷ rs) = (r.rank ≡ n) × CountsFrom (n + 1) rs

-- The provider of a row, with its off-peak status and its eligibility.
abbrev pub row_facts : RankEntry → String × Bool × Bool
row_facts r = (r.mapping_id, r.off_peak, r.eligible)

abbrev pub entry_facts : {F : Type 0} → Entry F → String × Bool × Bool
entry_facts e = (e.item.policy.mapping_id, e.item.off_peak, e.eligible)

module _ {F : Type 0} where
  -- The groups have blocks of ranks, one behind the other: the rows of a block are those of the
  -- group's providers, in its order, two of them have the same rank exactly where their items are
  -- equal on the semantic keys, and each group starts behind the last rank of the one before it.
  abbrev pub HasBlocks : ℕ → List (List (Entry F)) → List RankEntry → ℕ → Type 0
  HasBlocks n [] rows end_rank = (rows ≡ []) × (n ≡ end_rank)
  HasBlocks n (es ∷ groups) rows end_rank =
      (block : List RankEntry) × (rest : List RankEntry) × (last : ℕ) × (rows ≡ block ++ rest)
      × (map row_facts block ≡ map entry_facts es)
      × IsRanked es block
      × All (λ r. (n ≤ r.rank) × (r.rank ≤ last)) block
      × HasBlocks (last + 1) groups rest end_rank

  -- with all signals or none, and in the order of the semantic keys
  abbrev IsUniform : List (Entry F) → Type 0
  IsUniform es = (b : Bool) × All (Signals b) es × Sorted ahead es
