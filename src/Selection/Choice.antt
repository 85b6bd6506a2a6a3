-- ===== src/Selection/Choice.antt =====
-- Proofs about `Select` of internal/selection/selector.go: which of the classified candidates it
-- chooses.
use polytoken_quota.Prelude.{
  ℕ, suc, zero, ◌+◌, ◌<◌, ◌≤◌, ◌≡◌, ◌≢◌, ◌∙◌, refl, sym, ap, Bool, true, false, ◌&&◌, Option, none,
  some, List, [], ◌∷◌, ◌++◌, ◌==◌, ◌⊎◌, inl, inr, arith, All, In, Bool-cases, Option-cases,
}
use polytoken_quota.Floats.{Float, lt_irrefl}
use polytoken_quota.Selection.Candidates.{Candidacy}
use polytoken_quota.Selection.{
  Scored, is_confirmed, is_uncertain, more_headroom, better, best_loop, first_uncertain, group_loop,
}

module _ {F : Type 0} ⦃fl : Float F⦄ where
  open fl use {ltb_f, lt_cotrans, lt_asym}

  -- strictly less goes on, whatever is NaN
  lt_trans : (a b c : F) → ltb_f a b ≡ true → ltb_f b c ≡ true → ltb_f a c ≡ true
  lt_trans a b c h k = elim (Bool-cases (fl.is_nan a)) [
    | inl e ↦ absurd (ground (arith, fl.lt-nan_left a b e))
    | inr e ↦ elim (lt_cotrans b a c e k) [
      | inl p ↦ absurd (ground (arith, lt_asym a b h))
      | inr p ↦ p
    ]
  ]

  abbrev pub IsCandidate : ℕ → Scored F → Type 0
  IsCandidate gi e = (e.gi ≡ gi) × (e.c.status ≡ Candidacy.confirmed)

  -- No confirmed entry of the group has more headroom than `best`.
  abbrev pub NoBetter : ℕ → Scored F → Scored F → Type 0
  NoBetter gi best e =
      e.gi ≡ gi
      → e.c.status ≡ Candidacy.confirmed
      → more_headroom e.c.headroom best.c.headroom ≡ false

  the_some : (a b : Scored F) → some a ≡ some b → a ≡ b
  the_some a b h = cc

  more_irrefl : (o : Option F) → more_headroom o o ≡ false
  more_irrefl none = refl
  more_irrefl (some h) = lt_irrefl h

  more_trans :
      (a b c : Option F)
      → more_headroom a b ≡ true
      → more_headroom b c ≡ true
      → more_headroom a c ≡ true
  more_trans (some a) (some b) (some c) h k = lt_trans c b a k h
  more_trans (some a) (some b) none h k = absurd (ground arith)
  more_trans (some a) none c h k = absurd (ground arith)
  more_trans none b c h k = absurd (ground arith)

  more_asym : (a b : Option F) → more_headroom a b ≡ true → more_headroom b a ≡ false
  more_asym (some a) (some b) h = lt_asym b a h
  more_asym (some a) none h = refl
  more_asym none b h = absurd (ground arith)

  -- `a` is `b`, or has strictly more headroom
  abbrev pub IsAbove : Option F → Option F → Type 0
  IsAbove a b = (a ≡ b) ⊎ (more_headroom a b ≡ true)

  IsAbove-not_more : (a b : Option F) → IsAbove a b → more_headroom b a ≡ false
  IsAbove-not_more a b (inl e) = rw e (more_irrefl b)
  IsAbove-not_more a b (inr h) = more_asym a b h

  IsAbove-more : (a b c : Option F) → IsAbove a b → more_headroom b c ≡ true → IsAbove a c
  IsAbove-more a b c (inl e) k = inr (rw e k)
  IsAbove-more a b c (inr h) k = inr (more_trans a b c h k)

  IsAbove-keeps :
      (a b c : Option F) → IsAbove a b → more_headroom c b ≡ false → more_headroom c a ≡ false
  IsAbove-keeps a b c (inl e) k = rw e k
  IsAbove-keeps a b c (inr h) k = elim (Bool-cases (more_headroom c a)) [
    | inr e ↦ e
    | inl e ↦ absurd (ground (arith, more_trans c a b e h))
  ]

  -- What the loop returns: an entry it was given or has passed, above what it started from, and
  -- no confirmed entry of the group has more.
  abbrev pub FromLoop : ℕ → Option (Scored F) → List (Scored F) → Scored F → Type 0
  FromLoop gi best es b =
      ((best ≡ some b) ⊎ (IsCandidate gi b × In b es))
      × ((x : Scored F) → best ≡ some x → IsAbove b.c.headroom x.c.headroom)
      × All (NoBetter gi b) es

  abbrev takes : ℕ → Scored F → Option (Scored F) → Bool
  takes gi e best = e.gi == gi && is_confirmed e.c.status && better e best

  takes-IsCandidate :
      (gi : ℕ) (e : Scored F) (best : Option (Scored F)) → takes gi e best ≡ true → IsCandidate gi e
  takes-IsCandidate gi e best h = (ground arith, ground arith)

  takes-more :
      (gi : ℕ) (e x : Scored F)
      → takes gi e (some x) ≡ true
      → more_headroom e.c.headroom x.c.headroom ≡ true
  unfolding better
  takes-more gi e x h = ground arith

  passed-NoBetter :
      (gi : ℕ) (e b : Scored F) (best : Option (Scored F))
      → takes gi e best ≡ false
      → ((x : Scored F) → best ≡ some x → IsAbove b.c.headroom x.c.headroom)
      → NoBetter gi b e
  unfolding better
  passed-NoBetter gi e b none h f g c = absurd (ground arith)
  passed-NoBetter gi e b (some x) h f g c =
      IsAbove-keeps b.c.headroom x.c.headroom e.c.headroom (f x refl) (ground arith)

  none-takes :
      (gi : ℕ) (e : Scored F) (best : Option (Scored F))
      → best ≡ none
      → e.gi ≡ gi
      → e.c.status ≡ Candidacy.confirmed
      → takes gi e best ≢ false
  unfolding better
  none-takes gi e best n g c t = ground arith

  pub best_loop-some :
      (gi : ℕ) (best : Option (Scored F)) (es : List (Scored F)) (b : Scored F)
      → best_loop gi best es ≡ some b
      → FromLoop gi best es b
  unfolding best_loop
  best_loop-some gi best [] b h =
      (inl h, λ x e. inl (ap (λ (s : Scored F). s.c.headroom) (the_some b x (sym h ∙ e))), tt)
  best_loop-some gi best (e ∷ es) b h = elim (Bool-cases (takes gi e best)) [
    | inl t ↦
        let (from, above, none_better) = best_loop-some gi (some e) es b (rw t at h) in
        (
          inr (elim from [
            | inl q ↦
                let eb : e ≡ b = the_some e b q in
                (rw (← eb) (takes-IsCandidate gi e best t), inl eb)
            | inr k ↦ (k.0, inr k.1)
          ]),
          λ x q. IsAbove-more _ _ _ (above e refl) (takes-more gi e x (rw q at t)),
          ((λ g c. IsAbove-not_more _ _ (above e refl)), none_better),
        )
    | inr t ↦
        let (from, above, none_better) = best_loop-some gi best es b (rw t at h) in
        (
          elim from [ inl q ↦ inl q | inr k ↦ inr (k.0, inr k.1) ],
          above,
          (passed-NoBetter gi e b best t above, none_better),
        )
  ]

  pub best_loop-none :
      (gi : ℕ) (best : Option (Scored F)) (es : List (Scored F))
      → best_loop gi best es ≡ none
      → (best ≡ none) × All (λ e. e.gi ≡ gi → e.c.status ≢ Candidacy.confirmed) es
  unfolding best_loop
  best_loop-none gi best [] h = (h, tt)
  best_loop-none gi best (e ∷ es) h = elim (Bool-cases (takes gi e best)) [
    | inl t ↦ let k = best_loop-none gi (some e) es (rw t at h) in absurd (ground (arith, k.0))
    | inr t ↦
        let k = best_loop-none gi best es (rw t at h) in
        (k.0, ((λ g c. none-takes gi e best k.0 g c t), k.1))
  ]

  pub first_uncertain-some :
      (gi : ℕ) (es : List (Scored F)) (e : Scored F)
      → first_uncertain gi es ≡ some e
      → (e.gi ≡ gi)
        × (e.c.status ≡ Candidacy.uncertain)
        × ((before after : List (Scored F)) × (es ≡ before ++ (e ∷ after))
            × All (λ x. x.gi ≡ gi → x.c.status ≢ Candidacy.uncertain) before)
  unfolding first_uncertain
  first_uncertain-some gi [] e h = absurd (ground arith)
  first_uncertain-some gi (x ∷ es) e h = elim (Bool-cases (x.gi == gi && is_uncertain x.c.status)) [
    | inl t ↦
        let xe : x ≡ e = the_some x e (rw t at h) in
        (rw (← xe) (ground arith), rw (← xe) (ground arith), ([], es, ap (λ y. y ∷ es) xe, tt))
    | inr t ↦
        let (g, u, (before, after, split, none_before)) =
          first_uncertain-some gi es e (rw t at h) in
        (g, u, (x ∷ before, after, ap (◌∷◌ x) split, ((λ p q. ground arith), none_before)))
  ]

  pub first_uncertain-none :
      (gi : ℕ) (es : List (Scored F))
      → first_uncertain gi es ≡ none
      → All (λ e. e.gi ≡ gi → e.c.status ≢ Candidacy.uncertain) es
  unfolding first_uncertain
  first_uncertain-none gi [] h = tt
  first_uncertain-none gi (x ∷ es) h = elim (Bool-cases (x.gi == gi && is_uncertain x.c.status)) [
    | inl t ↦ absurd (ground arith)
    | inr t ↦ ((λ p q. ground arith), first_uncertain-none gi es (rw t at h))
  ]

  pub group_loop-some :
      (pick : ℕ → Option (Scored F)) (gi n : ℕ) (e : Scored F)
      → group_loop pick gi n ≡ some e
      → (k : ℕ) × (pick k ≡ some e) × ((j : ℕ) → gi ≤ j → j < k → pick j ≡ none)
  unfolding group_loop
  group_loop-some pick gi zero e h = absurd (ground arith)
  group_loop-some pick gi (suc n) e h = elim (Option-cases (pick gi)) [
    | inl none_here ↦
        let (k, found, before) =
          group_loop-some pick (suc gi) n e (rw (none_here, group_loop) at h) in
        (
          k,
          found,
          λ j p q. elim (Bool-cases (j == gi)) [
            | inl same ↦ let eq : j ≡ gi = ground arith in rw eq none_here
            | inr other ↦ before j (ground arith) q
          ],
        )
    | inr (x, found) ↦ (gi, found ∙ (rw (found, group_loop) at h), λ j p q. absurd (omega arith))
  ]

  pub group_loop-none :
      (pick : ℕ → Option (Scored F)) (gi n : ℕ)
      → group_loop pick gi n ≡ none
      → (j : ℕ) → gi ≤ j
      → j < gi + n
      → pick j ≡ none
  unfolding group_loop
  group_loop-none pick gi zero h j p q = absurd (omega arith)
  group_loop-none pick gi (suc n) h j p q = elim (Option-cases (pick gi)) [
    | inl none_here ↦ elim (Bool-cases (j == gi)) [
      | inl same ↦ let eq : j ≡ gi = ground arith in rw eq none_here
      | inr other ↦
          group_loop-none pick (suc gi) n (rw (none_here, group_loop) at h) j (ground arith)
            (omega arith)
    ]
    | inr (x, found) ↦ absurd (ground (arith, found))
  ]

  pub group_loop-of_none :
      (pick : ℕ → Option (Scored F)) (gi n : ℕ)
      → ((j : ℕ) → pick j ≡ none)
      → group_loop pick gi n ≡ none
  unfolding group_loop
  group_loop-of_none pick gi zero f = refl
  group_loop-of_none pick gi (suc n) f =
      rw (f gi, group_loop) (group_loop-of_none pick (suc gi) n f)
