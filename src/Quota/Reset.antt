-- ===== src/Quota/Reset.antt =====
-- Proofs about `NextQuotaResetAt` of internal/quota/types.go: which window's reset it returns.
use polytoken_quota.Prelude.{
  ◌≡◌, ◌∙◌, ◌<◌, ◌≤◌, refl, true, false, Option, none, some, List, [], ◌∷◌, arith, All, Any, ◌⊎◌,
  inl, inr, Option-cases, is_some, pos, ◌≤ℤ◌, Any-map, Any-elim, All-Any, All-map, All-both,
}
use polytoken_quota.Clock.{Time, Duration}
use polytoken_quota.Quota.{
  QuotaWindow, Anchor, anchor_step, anchor_loop, no_anchor, is_cycle, next_quota_reset_at,
  min_quota_cycle_period, first_some,
}

-- The reference time is unset, or the reset lies after it.
abbrev pub IsFuture : Time → Time → Type 0
IsFuture as_of t = (as_of ≡ 0) ⊎ (as_of < t)

-- There is a reset, and it is no later than `t`.
abbrev pub AtMost : Time → Option Time → Type 0
AtMost t none = ⊥
AtMost t (some b) = b ≤ t

first_some-from :
    (a b : Option Time) (t : Time) → first_some a b ≡ some t → (a ≡ some t) ⊎ (b ≡ some t)
first_some-from none b t h = inr h
first_some-from (some a) b t h = inl h

module _ {F : Type 0} (as_of : Time) where
  abbrev pub HasReset : Time → QuotaWindow F → Type 0
  HasReset t w = (w.reset_at ≡ some t) × IsFuture as_of t

  -- The window is a quota cycle of period `p` with the future reset `t`.
  abbrev pub IsCycle : Time → Duration → QuotaWindow F → Type 0
  IsCycle t p w = HasReset t w × (w.period ≡ some p) × (pos min_quota_cycle_period ≤ℤ p)

  anchor_step-keeps :
      (a : Anchor) (w : QuotaWindow F)
      → is_some a.anchor_reset ≡ true
      → (is_some (anchor_step as_of a w).anchor_reset ≡ true)
        × (a.anchor_period ≤ℤ (anchor_step as_of a w).anchor_period)
  unfolding anchor_step
  anchor_step-keeps a w h = ground arith

  anchor_step-takes :
      (a : Anchor) (w : QuotaWindow F) (t : Time) (p : Duration)
      → IsCycle t p w
      → (is_some (anchor_step as_of a w).anchor_reset ≡ true)
        × (p ≤ℤ (anchor_step as_of a w).anchor_period)
  unfolding anchor_step
  anchor_step-takes a w t p h = ground arith

  anchor_step-from :
      (a : Anchor) (w : QuotaWindow F) (t : Time)
      → (anchor_step as_of a w).anchor_reset ≡ some t
      → ((a.anchor_reset ≡ some t) × ((anchor_step as_of a w).anchor_period ≡ a.anchor_period))
        ⊎ IsCycle t (anchor_step as_of a w).anchor_period w
  unfolding anchor_step
  anchor_step-from a w t h = ground arith

  anchor_loop-keeps :
      (a : Anchor) (ws : List (QuotaWindow F))
      → is_some a.anchor_reset ≡ true
      → (is_some (anchor_loop as_of a ws).anchor_reset ≡ true)
        × (a.anchor_period ≤ℤ (anchor_loop as_of a ws).anchor_period)
  unfolding anchor_loop
  anchor_loop-keeps a [] h = (h, omega arith)
  anchor_loop-keeps a (w ∷ ws) h =
      let (s, le) = anchor_step-keeps a w h in
      let (s', le') = anchor_loop-keeps (anchor_step as_of a w) ws s in (s', omega arith)

  -- every cycle of the list is at most as long as the anchor
  anchor_loop-longest :
      (a : Anchor) (ws : List (QuotaWindow F))
      → All
          (λ w.
            (t : Time) (p : Duration)
            → IsCycle t p w
            → (is_some (anchor_loop as_of a ws).anchor_reset ≡ true)
              × (p ≤ℤ (anchor_loop as_of a ws).anchor_period))
          ws
  unfolding anchor_loop
  anchor_loop-longest a [] = tt
  anchor_loop-longest a (w ∷ ws) = (
    λ t p c.
        let (s, le) = anchor_step-takes a w t p c in
        let (s', le') = anchor_loop-keeps (anchor_step as_of a w) ws s in (s', omega arith),
    anchor_loop-longest (anchor_step as_of a w) ws,
  )

  anchor_loop-from :
      (a : Anchor) (ws : List (QuotaWindow F)) (t : Time)
      → (anchor_loop as_of a ws).anchor_reset ≡ some t
      → ((a.anchor_reset ≡ some t) × ((anchor_loop as_of a ws).anchor_period ≡ a.anchor_period))
        ⊎ Any (IsCycle t (anchor_loop as_of a ws).anchor_period) ws
  unfolding anchor_loop
  anchor_loop-from a [] t h = inl (h, refl)
  anchor_loop-from a (w ∷ ws) t h = elim (anchor_loop-from (anchor_step as_of a w) ws t h) [
    | inr c ↦ inr (inr c)
    | inl e ↦ elim (anchor_step-from a w t e.0) [
      | inl e' ↦ inl (e'.0, e.1 ∙ e'.1)
      | inr c ↦ inr (inl (rw e.1 c))
    ]
  ]

  fallback_step :
      (a : Anchor) (w : QuotaWindow F) (t : Time)
      → (anchor_step as_of a w).fallback ≡ some t
      → (a.fallback ≡ some t) ⊎ HasReset t w
  unfolding anchor_step
  fallback_step a w t h = ground arith

  fallback_loop :
      (a : Anchor) (ws : List (QuotaWindow F)) (t : Time)
      → (anchor_loop as_of a ws).fallback ≡ some t
      → (a.fallback ≡ some t) ⊎ Any (HasReset t) ws
  unfolding anchor_loop
  fallback_loop a [] t h = inl h
  fallback_loop a (w ∷ ws) t h = elim (fallback_loop (anchor_step as_of a w) ws t h) [
    | inr c ↦ inr (inr c)
    | inl e ↦ elim (fallback_step a w t e) [ inl e' ↦ inl e' | inr c ↦ inr (inl c) ]
  ]

  fallback_step-le :
      (a : Anchor) (w : QuotaWindow F) (t : Time)
      → AtMost t a.fallback
      → AtMost t (anchor_step as_of a w).fallback
  unfolding anchor_step
  fallback_step-le a w t h = ground arith

  fallback_step-takes :
      (a : Anchor) (w : QuotaWindow F) (t : Time)
      → HasReset t w
      → is_cycle w.period ≡ false
      → AtMost t (anchor_step as_of a w).fallback
  unfolding anchor_step
  fallback_step-takes a w t h c = ground arith

  fallback_loop-le :
      (a : Anchor) (ws : List (QuotaWindow F)) (t : Time)
      → AtMost t a.fallback
      → AtMost t (anchor_loop as_of a ws).fallback
  unfolding anchor_loop
  fallback_loop-le a [] t h = h
  fallback_loop-le a (w ∷ ws) t h =
      fallback_loop-le (anchor_step as_of a w) ws t (fallback_step-le a w t h)

  fallback_loop-earliest :
      (a : Anchor) (ws : List (QuotaWindow F))
      → All
          (λ w.
            (t : Time)
            → HasReset t w
            → is_cycle w.period ≡ false
            → AtMost t (anchor_loop as_of a ws).fallback)
          ws
  unfolding anchor_loop
  fallback_loop-earliest a [] = tt
  fallback_loop-earliest a (w ∷ ws) = (
    λ t h c. fallback_loop-le (anchor_step as_of a w) ws t (fallback_step-takes a w t h c),
    fallback_loop-earliest (anchor_step as_of a w) ws,
  )

  short_window :
      (a : Anchor) (w : QuotaWindow F)
      → is_cycle w.period ≡ false
      → (anchor_step as_of a w).anchor_reset ≡ a.anchor_reset
  unfolding anchor_step
  short_window a w h = ground arith

  short_windows :
      (a : Anchor) (ws : List (QuotaWindow F))
      → All (λ w. is_cycle w.period ≡ false) ws
      → (anchor_loop as_of a ws).anchor_reset ≡ a.anchor_reset
  unfolding anchor_loop
  short_windows a [] h = refl
  short_windows a (w ∷ ws) h = short_windows (anchor_step as_of a w) ws h.1 ∙ short_window a w h.0

  -- A reset that NextQuotaResetAt returns was reported by some window, and is future.
  pub next_quota_reset_at-from :
      (ws : List (QuotaWindow F)) (t : Time)
      → next_quota_reset_at ws as_of ≡ some t
      → Any (HasReset t) ws
  unfolding next_quota_reset_at
  next_quota_reset_at-from ws t h =
      elim (first_some-from (anchor_loop as_of no_anchor ws).anchor_reset
        (anchor_loop as_of no_anchor ws).fallback t h) [
          | inl e ↦ elim (anchor_loop-from no_anchor ws t e) [
            | inl n ↦ absurd (cc (n.0))
            | inr c ↦
                Any-map (IsCycle t (anchor_loop as_of no_anchor ws).anchor_period) (HasReset t) ws
                  (λ w q. q.0) c
          ]
          | inr e ↦ elim (fallback_loop no_anchor ws t e) [ inl n ↦ absurd (cc n) | inr c ↦ c ]
        ]

  -- Where some window is a quota cycle with a future reset, NextQuotaResetAt returns the reset of a
  -- quota cycle, and no quota cycle with a future reset has a longer period.
  pub next_quota_reset_at-longest :
      (ws : List (QuotaWindow F)) (t' : Time) (p' : Duration)
      → Any (IsCycle t' p') ws
      → (t : Time) × (p : Duration) × (next_quota_reset_at ws as_of ≡ some t)
        × Any (IsCycle t p) ws
        × All (λ w. (u : Time) (q : Duration) → IsCycle u q w → q ≤ℤ p) ws
  unfolding next_quota_reset_at
  next_quota_reset_at-longest ws t' p' c =
      let a : Anchor = anchor_loop as_of no_anchor ws in
      let known : is_some a.anchor_reset ≡ true =
        Any-elim
          (λ w.
            ((t : Time) (p : Duration)
              → IsCycle t p w
              → (is_some a.anchor_reset ≡ true) × (p ≤ℤ a.anchor_period))
            × IsCycle t' p' w)
          ws (λ w h. (h.0 t' p' h.1).0)
          (All-Any _ (IsCycle t' p') ws (anchor_loop-longest no_anchor ws) c) in
      elim (Option-cases a.anchor_reset) [
        | inl e ↦ absurd (ground arith)
        | inr e ↦ (
          e.0,
          a.anchor_period,
          rw (e.1),
          elim (anchor_loop-from no_anchor ws e.0 e.1) [
            | inl n ↦ absurd (cc (n.0))
            | inr found ↦ found
          ],
          All-map _ _ ws (λ w h u q cy. (h u q cy).1) (anchor_loop-longest no_anchor ws),
        )
      ]

  -- Where no window is a quota cycle, NextQuotaResetAt returns a reset no later than any future
  -- reset that a window reports.
  pub next_quota_reset_at-earliest :
      (ws : List (QuotaWindow F))
      → All (λ w. is_cycle w.period ≡ false) ws
      → All (λ w. (t : Time) → HasReset t w → AtMost t (next_quota_reset_at ws as_of)) ws
  unfolding next_quota_reset_at
  next_quota_reset_at-earliest ws short = rw (short_windows no_anchor ws short) (
      All-map _ _ ws (λ w h t r. h.1 t r h.0)
        (All-both _ _ ws short (fallback_loop-earliest no_anchor ws)))
