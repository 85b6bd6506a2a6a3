-- ===== src/Selection/Select.antt =====
-- `Select` of internal/selection/selector.go: what it returns, over the classified candidates.
use polytoken_quota.Prelude.{
  ℕ, suc, ◌+◌, ◌<◌, ◌≤◌, ◌≡◌, ◌≢◌, ◌∙◌, refl, sym, false, none, some, List, [], ◌∷◌, ◌++◌, String,
  ◌↔◌, ◌⊎◌, inl, inr, arith, length, All, All-map, All-both, All-append, All-swap, All-lookup, In,
  In-middle, Bool-cases, Option-cases, ok, err, ltb,
}
use polytoken_quota.Clock.{Time}
use polytoken_quota.Floats.{Float}
use polytoken_quota.State.{State}
use polytoken_quota.Policy.{Desired}
use polytoken_quota.Selection.Candidates.{Candidacy}
use polytoken_quota.Selection.Choice.{
  best_loop-some, best_loop-none, first_uncertain-some, first_uncertain-none, group_loop-some,
  group_loop-none,
}
use polytoken_quota.Selection.{
  Tier, TierPolicy, Policy, Kind, Outcome, no_candidate, Scored, Group, build_result, more_headroom,
  best_loop, first_uncertain, group_loop, choose, choose_uncertain, select_groups, score_groups,
  score_group, families, find_tier, select,
}

neither :
    (c : Candidacy) → c ≢ Candidacy.confirmed → c ≢ Candidacy.uncertain → c ≡ Candidacy.excluded
neither Candidacy.confirmed h k = absurd (h refl)
neither Candidacy.uncertain h k = absurd (k refl)
neither Candidacy.excluded h k = refl

abbrev Below : ℕ → Type 0
Below k = (j : ℕ) × (j < k)

module _ {F : Type 0} ⦃fl : Float F⦄ where
  -- The entry is confirmed, no confirmed entry stands in an earlier group, and none of its group
  -- has more headroom.
  abbrev pub IsBestConfirmed : List (Scored F) → Scored F → Type 0
  IsBestConfirmed es e =
      (e.c.status ≡ Candidacy.confirmed)
      × All
          (λ x.
            x.c.status ≡ Candidacy.confirmed
            → (e.gi < x.gi) ⊎ ((x.gi ≡ e.gi) × (more_headroom x.c.headroom e.c.headroom ≡ false)))
          es

  -- The entry is uncertain, no uncertain entry stands in an earlier group, and none before it in
  -- its group.
  abbrev pub IsFirstUncertain : List (Scored F) → Scored F → Type 0
  IsFirstUncertain es e =
      (e.c.status ≡ Candidacy.uncertain)
      × All (λ x. x.c.status ≡ Candidacy.uncertain → e.gi ≤ x.gi) es
      × ((before after : List (Scored F)) × (es ≡ before ++ (e ∷ after))
          × All (λ x. x.gi ≡ e.gi → x.c.status ≢ Candidacy.uncertain) before)

  earlier :
      (status : Candidacy) (es : List (Scored F)) (k : ℕ)
      → ((j : ℕ) → j < k → All (λ x. x.gi ≡ j → x.c.status ≢ status) es)
      → All (λ x. x.c.status ≡ status → k ≤ x.gi) es
  earlier status es k f =
      All-map _ _ es
        (λ x g c. elim (Bool-cases (ltb x.gi k)) [
          | inl b ↦ absurd (g (x.gi, ground arith) refl c)
          | inr b ↦ ground arith
        ])
        (All-swap (λ (j : Below k) (x : Scored F). x.gi ≡ j.0 → x.c.status ≢ status) es
          (λ j. f j.0 j.1))

  no_more :
      (e x : Scored F) (k : ℕ)
      → e.gi ≡ k
      → k ≤ x.gi
      → (x.gi ≡ k → more_headroom x.c.headroom e.c.headroom ≡ false)
      → (e.gi < x.gi) ⊎ ((x.gi ≡ e.gi) × (more_headroom x.c.headroom e.c.headroom ≡ false))
  no_more e x k g l f = elim (Bool-cases (ltb k x.gi)) [
    | inl b ↦ inl (ground arith)
    | inr b ↦ let same : x.gi ≡ k = ground arith in inr (same ∙ sym g, f same)
  ]

  best_group :
      (es : List (Scored F)) (n : ℕ) (e : Scored F)
      → group_loop (λ gi. best_loop gi none es) 0 n ≡ some e
      → IsBestConfirmed es e × In e es
  best_group es n e h =
      let (k, found, before) = group_loop-some (λ gi. best_loop gi none es) 0 n e h in
      let (from, above, best) = best_loop-some k none es e found in
      elim from [
        | inl q ↦ absurd (ground arith)
        | inr (is, i) ↦
            let later =
              earlier Candidacy.confirmed es k
                (λ j l. (best_loop-none j none es (before j (omega arith) l)).1) in
            (
              (
                is.1,
                All-map _ _ es (λ x b c. no_more e x k is.0 (b.0 c) (λ g. b.1 g c))
                    (All-both _ _ es later best),
              ),
              i,
            )
      ]

  first_group :
      (es : List (Scored F)) (n : ℕ) (e : Scored F)
      → group_loop (λ gi. first_uncertain gi es) 0 n ≡ some e
      → IsFirstUncertain es e × In e es
  first_group es n e h =
      let (k, found, before) = group_loop-some (λ gi. first_uncertain gi es) 0 n e h in
      let (g, u, (pre, post, split, none_before)) = first_uncertain-some k es e found in
      let later =
        earlier Candidacy.uncertain es k
          (λ j l. first_uncertain-none j es (before j (omega arith) l)) in
      (
        (
          u,
          All-map _ _ es (λ x b c. rw g (b c)) later,
          (pre, post, split, All-map _ _ pre (λ x b q. b (q ∙ g)) none_before),
        ),
        rw split (In-middle pre e post),
      )

  -- Every entry's group is below the number of groups.
  abbrev InGroups : List (Scored F) → ℕ → Type 0
  InGroups es n = All (λ e. e.gi < n) es

  no_group :
      (status : Candidacy) (es : List (Scored F)) (n : ℕ)
      → InGroups es n
      → ((j : ℕ) → j < n → All (λ x. x.gi ≡ j → x.c.status ≢ status) es)
      → All (λ x. x.c.status ≢ status) es
  no_group status es n inside f =
      All-map _ _ es (λ x b c. b.1 (x.gi, b.0) refl c)
        (All-both _ _ es inside (
          All-swap (λ (j : Below n) (x : Scored F). x.gi ≡ j.0 → x.c.status ≢ status) es
            (λ j. f j.0 j.1)))

  no_confirmed :
      (es : List (Scored F)) (n : ℕ)
      → InGroups es n
      → group_loop (λ gi. best_loop gi none es) 0 n ≡ none
      → All (λ x. x.c.status ≢ Candidacy.confirmed) es
  no_confirmed es n inside h =
      no_group Candidacy.confirmed es n inside (λ j l.
        (best_loop-none j none es (group_loop-none _ 0 n h j (omega arith) (omega arith))).1)

  no_uncertain :
      (es : List (Scored F)) (n : ℕ)
      → InGroups es n
      → group_loop (λ gi. first_uncertain gi es) 0 n ≡ none
      → All (λ x. x.c.status ≢ Candidacy.uncertain) es
  no_uncertain es n inside h =
      no_group Candidacy.uncertain es n inside
        (λ j l. first_uncertain-none j es (group_loop-none _ 0 n h j (omega arith) (omega arith)))

  -- What the choice among the entries may be.
  abbrev pub IsChoice : List (Scored F) → String → Tier → Outcome F → Type 0
  IsChoice es phase tier r =
      (e : Scored F) × In e es
      × (((r ≡ build_result Kind.confirmed e.c phase tier) × IsBestConfirmed es e)
          ⊎ ((r ≡ build_result Kind.uncertain e.c phase tier)
              × All (λ x. x.c.status ≢ Candidacy.confirmed) es
              × IsFirstUncertain es e))

  select_groups-IsChoice :
      (es : List (Scored F)) (n : ℕ) (phase : String) (tier : Tier) (r : Outcome F)
      → InGroups es n
      → select_groups es n phase tier ≡ ok r
      → IsChoice es phase tier r
  unfolding select_groups choose choose_uncertain
  select_groups-IsChoice es n phase tier r inside h =
      elim (Option-cases (group_loop (λ gi. best_loop gi none es) 0 n)) [
        | inr (e, found) ↦
            let (best, i) = best_group es n e found in (e, i, inl (ground arith, best))
        | inl no_best ↦ elim (Option-cases (group_loop (λ gi. first_uncertain gi es) 0 n)) [
          | inr (e, found) ↦
              let (first, i) = first_group es n e found in
              (e, i, inr (ground arith, no_confirmed es n inside no_best, first))
          | inl no_first ↦ absurd (ground arith)
        ]
      ]

  select_groups-fails :
      (es : List (Scored F)) (n : ℕ) (phase : String) (tier : Tier)
      → InGroups es n
      → (select_groups es n phase tier ≡ err no_candidate)
        ↔ All (λ x. x.c.status ≡ Candidacy.excluded) es
  unfolding select_groups choose choose_uncertain
  select_groups-fails es n phase tier inside =
      elim (Option-cases (group_loop (λ gi. best_loop gi none es) 0 n)) [
        | inr (e, found) ↦
            let ((c, best), i) = best_group es n e found in
            (
              λ h. absurd (ground arith),
              λ h. let z = All-lookup _ e es h i in absurd (ground arith),
            )
        | inl no_best ↦ elim (Option-cases (group_loop (λ gi. first_uncertain gi es) 0 n)) [
          | inr (e, found) ↦
              let ((u, first, before), i) = first_group es n e found in
              (
                λ h. absurd (ground arith),
                λ h. let z = All-lookup _ e es h i in absurd (ground arith),
              )
          | inl no_first ↦ (
            λ h.
                All-map _ _ es (λ x b. neither x.c.status b.0 b.1)
                  (All-both _ _ es (no_confirmed es n inside no_best)
                    (no_uncertain es n inside no_first)),
            λ h. ground arith,
          )
        ]
      ]

  module _ (desired : Desired F) (st : State F) (as_of : Time) (excluded : List String) where
    score_group-InGroups :
        (gi n : ℕ) (g : Group) → gi < n → InGroups (score_group desired st as_of excluded gi g) n
    unfolding score_group
    score_group-InGroups gi n [] h = tt
    score_group-InGroups gi n (ref ∷ refs) h = (h, score_group-InGroups gi n refs h)

    score_groups-InGroups :
        (gi n : ℕ) (groups : List Group)
        → gi + length groups ≤ n
        → InGroups (score_groups desired st as_of excluded gi groups) n
    unfolding score_groups
    score_groups-InGroups gi n [] h = tt
    score_groups-InGroups gi n (g ∷ groups) h =
        All-append _ _ _ (score_group-InGroups gi n g (omega arith))
          (score_groups-InGroups (suc gi) n groups (omega arith))

  module _ (p : Policy) (desired : Desired F) (st : State F) (as_of : Time) (phase : String)
      (tier : Tier) (excluded : List String) where
    abbrev pub entries_of : TierPolicy → List (Scored F)
    entries_of tp = score_groups desired st as_of (families excluded) 0 tp.groups

    entries_of-InGroups : (tp : TierPolicy) → InGroups (entries_of tp) (length tp.groups)
    entries_of-InGroups tp =
        score_groups-InGroups desired st as_of (families excluded) 0 (length tp.groups) tp.groups
          (omega arith)

    -- What `select` returns is one of the classified candidates of the tier. It is confirmed, and
    -- then no confirmed candidate stands in an earlier group and none of its group has more
    -- headroom; or no candidate is confirmed, and it is the first uncertain one of the first group
    -- that has one.
    pub select-IsChoice :
        (tp : TierPolicy) (r : Outcome F)
        → find_tier p phase tier ≡ ok tp
        → select p desired st as_of phase tier excluded ≡ ok r
        → IsChoice (entries_of tp) phase tier r
    unfolding select
    select-IsChoice tp r found h =
        select_groups-IsChoice (entries_of tp) (length tp.groups) phase tier r
          (entries_of-InGroups tp) (rw found at h)

    -- Where the policy has the tier, `select` finds no candidate exactly where every candidate of the
    -- tier is excluded.
    pub select-no_candidate :
        (tp : TierPolicy)
        → find_tier p phase tier ≡ ok tp
        → (select p desired st as_of phase tier excluded ≡ err no_candidate)
          ↔ All (λ e. e.c.status ≡ Candidacy.excluded) (entries_of tp)
    unfolding select
    select-no_candidate tp found =
        rw found (
          select_groups-fails (entries_of tp) (length tp.groups) phase tier
            (entries_of-InGroups tp))
