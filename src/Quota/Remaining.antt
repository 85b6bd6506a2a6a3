-- ===== src/Quota/Remaining.antt =====
-- Proofs about `Remaining`, `EffectiveRemaining` and `Class` of internal/quota/types.go.
use polytoken_quota.Prelude.{
  ◌≡◌, ◌↔◌, refl, true, false, Option, none, some, List, [], ◌∷◌, arith, All, Any, ◌⊎◌, inl, inr,
  Bool-cases, Option-cases, pos, Any-elim, Any-map, All-Any,
}
use polytoken_quota.Floats.{Float, zero_f, one_f, leb_f, not-gt_trans, lt_irrefl}
use polytoken_quota.Quota.{
  QuotaWindow, QuotaSnapshot, QuotaClass, clamp01, remaining_of, remaining, min_step, min_loop,
  effective_remaining, class,
}

module _ {F : Type 0} ⦃fl : Float F⦄ where
  open fl use {ltb_f, is_nan, sub_f, div_f, of_int, lt_asym, zero_lt_one}

  clamp01_bounds : (v : F) → (ltb_f (clamp01 v) zero_f ≡ false) × (ltb_f one_f (clamp01 v) ≡ false)
  unfolding clamp01
  clamp01_bounds v =
      let z : ltb_f zero_f zero_f ≡ false = lt_irrefl (zero_f {F = F}) in
      let o : ltb_f one_f one_f ≡ false = lt_irrefl (one_f {F = F}) in
      let zo : ltb_f one_f zero_f ≡ false = lt_asym zero_f one_f zero_lt_one in
      ground (arith, z, o, zo)

  remaining_of_bounds :
      (used limit percent : Option F) (r : F)
      → remaining_of used limit percent ≡ some r
      → (ltb_f r zero_f ≡ false) × (ltb_f one_f r ≡ false)
  unfolding remaining_of
  remaining_of_bounds (some u) (some l) (some p) r h = ground (
    arith,
    clamp01_bounds (div_f (sub_f l u) l),
    clamp01_bounds (div_f (sub_f (of_int (pos 100)) p) (of_int (pos 100))),
  )
  remaining_of_bounds (some u) (some l) none r h =
      ground (arith, clamp01_bounds (div_f (sub_f l u) l))
  remaining_of_bounds none l (some p) r h =
      ground (arith, clamp01_bounds (div_f (sub_f (of_int (pos 100)) p) (of_int (pos 100))))
  remaining_of_bounds (some u) none (some p) r h =
      ground (arith, clamp01_bounds (div_f (sub_f (of_int (pos 100)) p) (of_int (pos 100))))
  remaining_of_bounds none l none r h = cc
  remaining_of_bounds (some u) none none r h = cc

  -- The remaining fraction of a window is never below 0 and never above 1.
  pub remaining_bounds :
      (w : QuotaWindow F) (r : F)
      → remaining w ≡ some r
      → (ltb_f r zero_f ≡ false) × (ltb_f one_f r ≡ false)
  unfolding remaining
  remaining_bounds w r h = remaining_of_bounds w.used w.limit w.usage_percent r h

  -- no value below `m`
  abbrev pub NotBelow : F → Option F → Type 0
  NotBelow m o = (r : F) → o ≡ some r → ltb_f r m ≡ false

  -- not NaN, if there is a value
  abbrev pub IsNumber : Option F → Type 0
  IsNumber o = (r : F) → o ≡ some r → is_nan r ≡ false

  NotBelow-min_step :
      (m : F) (b r : Option F)
      → IsNumber b
      → IsNumber r
      → NotBelow m (min_step b r)
      → NotBelow m b × NotBelow m r
  unfolding min_step
  NotBelow-min_step m none none nb nr h = (h, h)
  NotBelow-min_step m (some x) none nb nr h = (h, λ r e. cc)
  NotBelow-min_step m none (some y) nb nr h = (λ r e. cc, h)
  NotBelow-min_step m (some x) (some y) nb nr h = elim (Bool-cases (ltb_f y x)) [
    | inl e ↦
        let hy : ltb_f y m ≡ false = h y (rw e) in
        (
          λ r p. ground (arith, not-gt_trans m y x (nr y refl) hy (lt_asym y x e)),
          λ r p. ground arith,
        )
    | inr e ↦
        let hx : ltb_f x m ≡ false = h x (rw e) in
        (λ r p. ground arith, λ r p. ground (arith, not-gt_trans m x y (nb x refl) hx e))
  ]

  IsNumber-min_step : (b r : Option F) → IsNumber b → IsNumber r → IsNumber (min_step b r)
  unfolding min_step
  IsNumber-min_step none none nb nr r h = nb r h
  IsNumber-min_step (some x) none nb nr r h = nb r h
  IsNumber-min_step none (some y) nb nr r h = nr r h
  IsNumber-min_step (some x) (some y) nb nr r h = ground (arith, nb x refl, nr y refl)

  min_loop_lower :
      (m : F) (best : Option F) (ws : List (QuotaWindow F))
      → IsNumber best
      → All (λ w. IsNumber (remaining w)) ws
      → min_loop best ws ≡ some m
      → NotBelow m best × All (λ w. NotBelow m (remaining w)) ws
  unfolding min_loop
  min_loop_lower m best [] nb nw h = (λ r e. ground (arith, lt_irrefl m), tt)
  min_loop_lower m best (w ∷ ws) nb nw h =
      let (hb, hw) =
        min_loop_lower m (min_step best (remaining w)) ws
          (IsNumber-min_step best (remaining w) nb nw.0) nw.1 h in
      let (hb', hr) = NotBelow-min_step m best (remaining w) nb nw.0 hb in (hb', (hr, hw))

  min_step_cases : (b r : Option F) → (min_step b r ≡ b) ⊎ (min_step b r ≡ r)
  unfolding min_step
  min_step_cases none none = inl refl
  min_step_cases (some x) none = inl refl
  min_step_cases none (some y) = inr refl
  min_step_cases (some x) (some y) = ground arith

  min_loop_attained :
      (m : F) (best : Option F) (ws : List (QuotaWindow F))
      → min_loop best ws ≡ some m
      → (best ≡ some m) ⊎ Any (λ w. remaining w ≡ some m) ws
  unfolding min_loop
  min_loop_attained m best [] h = inl h
  min_loop_attained m best (w ∷ ws) h =
      elim (min_loop_attained m (min_step best (remaining w)) ws h) [
        | inr a ↦ inr (inr a)
        | inl e ↦ elim (min_step_cases best (remaining w)) [
          | inl p ↦ inl (cc)
          | inr p ↦ inr (inl (cc))
        ]
      ]

  min_step-eq-none : (b r : Option F) → min_step b r ≡ none → (b ≡ none) × (r ≡ none)
  unfolding min_step
  min_step-eq-none b none h = (h, refl)
  min_step-eq-none none (some y) h = absurd (cc)
  min_step-eq-none (some x) (some y) h = ground arith

  min_loop-none :
      (best : Option F) (ws : List (QuotaWindow F))
      → min_loop best ws ≡ none
      → (best ≡ none) × All (λ w. remaining w ≡ none) ws
  unfolding min_loop
  min_loop-none best [] h = (h, tt)
  min_loop-none best (w ∷ ws) h =
      let (hb, hw) = min_loop-none (min_step best (remaining w)) ws h in
      let (b, r) = min_step-eq-none best (remaining w) hb in (b, (r, hw))

  min_loop-All-none :
      (ws : List (QuotaWindow F)) → All (λ w. remaining w ≡ none) ws → min_loop none ws ≡ none
  unfolding min_loop min_step
  min_loop-All-none [] h = refl
  min_loop-All-none (w ∷ ws) h = rw (h.0, min_step) (min_loop-All-none ws h.1)

  -- The value of EffectiveRemaining, over windows without NaN, is the remaining fraction of some
  -- window, and no window has less.
  pub effective_remaining-minimum :
      (s : QuotaSnapshot F) (m : F)
      → All (λ w. IsNumber (remaining w)) s.windows
      → effective_remaining s ≡ some m
      → Any (λ w. remaining w ≡ some m) s.windows × All (λ w. NotBelow m (remaining w)) s.windows
  unfolding effective_remaining
  effective_remaining-minimum s m nw h = (
    elim (min_loop_attained m none s.windows h) [ inl e ↦ absurd (cc) | inr a ↦ a ],
    (min_loop_lower m none s.windows (λ r e. cc) nw h).1,
  )

  -- EffectiveRemaining is nil exactly when no window is usable.
  pub effective_remaining-none :
      (s : QuotaSnapshot F)
      → (effective_remaining s ≡ none) ↔ All (λ w. remaining w ≡ none) s.windows
  unfolding effective_remaining
  effective_remaining-none s =
      (λ h. (min_loop-none none s.windows h).1, λ h. min_loop-All-none s.windows h)

  -- A window with nothing left.
  abbrev pub IsSpent : QuotaWindow F → Type 0
  IsSpent w = (r : F) × (remaining w ≡ some r) × (leb_f r zero_f ≡ true)

  class-exhausted_attained :
      (s : QuotaSnapshot F)
      → class s ≡ QuotaClass.exhausted
      → (m : F) × (effective_remaining s ≡ some m) × (leb_f m zero_f ≡ true)
  unfolding class
  class-exhausted_attained s h = elim (Option-cases (effective_remaining s)) [
    | inl e ↦ ground arith
    | inr p ↦ let (m, e) = p in (m, e, ground arith)
  ]

  class-exhausted_of :
      (s : QuotaSnapshot F) (m : F)
      → effective_remaining s ≡ some m
      → leb_f m zero_f ≡ true
      → class s ≡ QuotaClass.exhausted
  unfolding class
  class-exhausted_of s m e h = rw e (rw h)

  -- A spent window makes the minimum spent.
  spent_le :
      (s : QuotaSnapshot F) (m : F)
      → All (λ w. IsNumber (remaining w)) s.windows
      → effective_remaining s ≡ some m
      → Any IsSpent s.windows
      → leb_f m zero_f ≡ true
  spent_le s m nw e a =
      let (at, low) = effective_remaining-minimum s m nw e in
      let nm : is_nan m ≡ false =
        Any-elim (λ w. IsNumber (remaining w) × (remaining w ≡ some m)) s.windows (λ w h. h.0 m h.1)
          (All-Any (λ w. IsNumber (remaining w)) (λ w. remaining w ≡ some m) s.windows nw at) in
      Any-elim (λ w. NotBelow m (remaining w) × IsSpent w) s.windows
        (λ w h.
          let (r, er, le) = h.1 in
          let nr : is_nan r ≡ false = ground arith in
          let zr : ltb_f zero_f r ≡ false = ground arith in
          let zm : ltb_f zero_f m ≡ false = not-gt_trans m r zero_f nr (h.0 r er) zr in
          ground (arith, fl.not-nan-int (pos 0)))
        (All-Any (λ w. NotBelow m (remaining w)) IsSpent s.windows low a)

  -- Over windows without NaN, the class is "exhausted" exactly when some window has nothing left.
  pub class-exhausted :
      (s : QuotaSnapshot F)
      → All (λ w. IsNumber (remaining w)) s.windows
      → (class s ≡ QuotaClass.exhausted) ↔ Any IsSpent s.windows
  class-exhausted s nw = (
    λ h.
        let (m, e, le) = class-exhausted_attained s h in
        Any-map (λ w. remaining w ≡ some m) IsSpent s.windows (λ w p. (m, p, le))
          (effective_remaining-minimum s m nw e).0,
    λ a. elim (Option-cases (effective_remaining s)) [
      | inl e ↦
          Any-elim (λ w. (remaining w ≡ none) × IsSpent w) s.windows
            (λ w h. absurd (cc (h.0, h.1.1)))
            (All-Any (λ w. remaining w ≡ none) IsSpent s.windows ((effective_remaining-none s).0 e)
              a)
      | inr p ↦ class-exhausted_of s p.0 p.1 (spent_le s p.0 nw p.1 a)
    ],
  )
