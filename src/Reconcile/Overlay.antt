-- ===== src/Reconcile/Overlay.antt =====
-- Proofs about `applyRoutingOverlay` of internal/reconcile/reconcile.go: it moves ranked entries
-- among the slots of their balance group, and nothing else.
use mathlib.Core.List.{Perm, perm_middle}
use mathlib.Core.List.Perm
use polytoken_quota.Prelude.{
  ◌≡◌, ◌∙◌, refl, ap, Bool, true, not, List, [], ◌∷◌, ◌++◌, String, arith, inl, inr, map, length,
  keep, keep-perm, keep-All, All, All-keep, All-map, All-stable_sort, stable_sort, stable_sort-perm,
  length-stable_sort, Bool-cases, ltb_ℤ, ltb, lookup, is_some, str_eq_iff, if◌then◌else◌, ◌||◌,
  ◌==◌, ◌⊎◌,
}
use polytoken_quota.Policy.{Desired}
use polytoken_quota.Reconcile.Survivors.{
  Survivor, RankLookup, rank_of, in_slot, refill, reorder, ranked_groups, reorder_groups,
  apply_routing_overlay, balance_group_of,
}

module _ {A : Type 0} (test : A → Bool) where
  refill_nil : (xs : List A) → refill test [] xs ≡ xs
  unfolding refill
  refill_nil [] = refl
  refill_nil (x ∷ xs) = refl

  refill-perm :
      (ordered xs : List A)
      → length ordered ≡ length (keep test xs)
      → Perm (refill test ordered xs) (ordered ++ keep (λ x. not (test x)) xs)
  unfolding refill
  refill-perm [] [] h = Perm.refl []
  refill-perm (y ∷ ys) [] h = absurd (omega arith)
  refill-perm [] (x ∷ xs) h = elim (Bool-cases (test x)) [
    | inl e ↦ absurd (ground arith)
    | inr e ↦
        let same : length {A = A} [] ≡ length (keep test xs) = ground arith in
        rw e (Perm.cons x (rw (refill_nil xs) at (refill-perm [] xs same)))
  ]
  refill-perm (y ∷ ys) (x ∷ xs) h = elim (Bool-cases (test x)) [
    | inl e ↦ rw e (Perm.cons y (refill-perm ys xs (ground arith)))
    | inr e ↦ rw e (
        Perm.trans (Perm.cons x (refill-perm (y ∷ ys) xs (ground arith)))
          (Perm.symm (perm_middle (y ∷ ys) (keep (λ x. not (test x)) xs))))
  ]

  refill-All :
      (P : A → Type 0) (ordered xs : List A)
      → All P ordered
      → All P xs
      → All P (refill test ordered xs)
  unfolding refill
  refill-All P ordered [] h k = tt
  refill-All P [] (x ∷ xs) h k = k
  refill-All P (y ∷ ys) (x ∷ xs) h k = elim (Bool-cases (test x)) [
    | inl e ↦ rw (e, refill) (h.0, refill-All P ys xs h.1 k.1)
    | inr e ↦ rw (e, refill) (k.0, refill-All P (y ∷ ys) xs h k.1)
  ]

  -- what is the same in the new entries and in the slots is the same everywhere
  refill-map :
      {B : Type 0} (f : A → B) (c : B) (ordered xs : List A)
      → All (λ y. f y ≡ c) ordered
      → ((x : A) → test x ≡ true → f x ≡ c)
      → map f (refill test ordered xs) ≡ map f xs
  unfolding refill
  refill-map f c ordered [] h k = refl
  refill-map f c [] (x ∷ xs) h k = refl
  refill-map f c (y ∷ ys) (x ∷ xs) h k = elim (Bool-cases (test x)) [
    | inl e ↦ rw (e, refill) (ground (arith, h.0, k x e, refill-map f c ys xs h.1 k))
    | inr e ↦ rw (e, refill) (ap (◌∷◌ (f x)) (refill-map f c (y ∷ ys) xs h k))
  ]

module _ {F : Type 0} (desired : Desired F) (ranks : RankLookup) where
  abbrev by_rank : Survivor → Survivor → Bool
  by_rank a b = ltb_ℤ (rank_of ranks a) (rank_of ranks b)

  reorder-perm : (sv : List Survivor) (g : String) → Perm (reorder desired ranks sv g) sv
  unfolding reorder
  reorder-perm sv g =
      let test : Survivor → Bool = in_slot desired ranks g in
      let members : List Survivor = keep test sv in
      Perm.trans
        (refill-perm test (stable_sort by_rank members) sv (length-stable_sort by_rank members))
        (Perm.trans
          (Perm.append (stable_sort-perm by_rank members) (Perm.refl (keep (λ x. not (test x)) sv)))
          (Perm.symm (keep-perm test sv)))

  reorder_groups-perm :
      (sv : List Survivor) (gs : List String) → Perm (reorder_groups desired ranks sv gs) sv
  unfolding reorder_groups
  reorder_groups-perm sv [] = Perm.refl sv
  reorder_groups-perm sv (g ∷ gs) =
      Perm.trans (reorder_groups-perm (reorder desired ranks sv g) gs) (reorder-perm sv g)

  reorder_groups-All :
      (P : Survivor → Type 0) (sv : List Survivor) (gs : List String)
      → All P sv
      → All P (reorder_groups desired ranks sv gs)
  unfolding reorder_groups reorder
  reorder_groups-All P sv [] h = h
  reorder_groups-All P sv (g ∷ gs) h = reorder_groups-All P (reorder desired ranks sv g) gs (
      refill-All (in_slot desired ranks g) P _ sv
        (All-stable_sort by_rank P _ (All-keep P (in_slot desired ranks g) sv h)) h)

  pub apply_routing_overlay-All :
      (P : Survivor → Type 0) (sv : List Survivor)
      → All P sv
      → All P (apply_routing_overlay desired ranks sv)
  unfolding apply_routing_overlay
  apply_routing_overlay-All P sv h = elim (Bool-cases (ltb (length sv) 2 || length ranks == 0)) [
    | inl e ↦ rw (e, apply_routing_overlay) h
    | inr e ↦
        rw (e, apply_routing_overlay) (reorder_groups-All P sv (ranked_groups desired ranks sv) h)
  ]

  -- The overlay adds no survivor and removes none.
  pub apply_routing_overlay-perm :
      (sv : List Survivor) → Perm (apply_routing_overlay desired ranks sv) sv
  unfolding apply_routing_overlay
  apply_routing_overlay-perm sv = elim (Bool-cases (ltb (length sv) 2 || length ranks == 0)) [
    | inl e ↦ rw (e, apply_routing_overlay) (Perm.refl sv)
    | inr e ↦
        rw (e, apply_routing_overlay) (reorder_groups-perm sv (ranked_groups desired ranks sv))
  ]

  -- What a survivor shows of its slot: an entry with no rank shows itself, a ranked one the balance
  -- group of its mapping.
  abbrev pub slot_view : Survivor → Survivor ⊎ String
  slot_view s = if is_some (lookup s.mid ranks) then inr (balance_group_of desired s.mid) else inl s

  slot_view-in_slot :
      (g : String) (s : Survivor) → in_slot desired ranks g s ≡ true → slot_view s ≡ inr g
  unfolding in_slot
  slot_view-in_slot g s h = ground (arith, str_eq_iff (balance_group_of desired s.mid) g)

  reorder-slots :
      (sv : List Survivor) (g : String)
      → map slot_view (reorder desired ranks sv g) ≡ map slot_view sv
  unfolding reorder
  reorder-slots sv g =
      refill-map (in_slot desired ranks g) slot_view (inr g)
        (stable_sort by_rank (keep (in_slot desired ranks g) sv)) sv
        (All-map _ _ (stable_sort by_rank (keep (in_slot desired ranks g) sv))
          (λ s h. slot_view-in_slot g s h)
          (All-stable_sort by_rank (λ s. in_slot desired ranks g s ≡ true)
            (keep (in_slot desired ranks g) sv) (keep-All (in_slot desired ranks g) sv)))
        (slot_view-in_slot g)

  reorder_groups-slots :
      (sv : List Survivor) (gs : List String)
      → map slot_view (reorder_groups desired ranks sv gs) ≡ map slot_view sv
  unfolding reorder_groups
  reorder_groups-slots sv [] = refl
  reorder_groups-slots sv (g ∷ gs) =
      reorder_groups-slots (reorder desired ranks sv g) gs ∙ reorder-slots sv g

  -- The overlay leaves every entry with no rank at its position, and a ranked entry's position
  -- holds a ranked entry of the same balance group.
  pub apply_routing_overlay-slots :
      (sv : List Survivor)
      → map slot_view (apply_routing_overlay desired ranks sv) ≡ map slot_view sv
  unfolding apply_routing_overlay
  apply_routing_overlay-slots sv = elim (Bool-cases (ltb (length sv) 2 || length ranks == 0)) [
    | inl e ↦ rw (e, apply_routing_overlay)
    | inr e ↦
        rw (e, apply_routing_overlay) (reorder_groups-slots sv (ranked_groups desired ranks sv))
  ]
