-- ===== src/Prelude/Sort.antt =====
-- Go's `sort.SliceStable`, as insertion behind the members that are not greater: the sorted order
-- of a stable sort is unique where `less` is a strict weak order.
use mathlib.Core.Bool.{Bool}
use mathlib.Core.List.{List, [], ◌∷◌, Perm}
use mathlib.Core.List.Perm
use mathlib.Core.Logic.{inl, inr}
use Prim.Native.Nat.{suc}
use mathlib.Core.Bool.{false, true}
use mathlib.Core.Path.{◌≡◌, refl, ap, ◌∙◌}
use polytoken_quota.Prelude.Tests.{if◌then◌else◌, Bool-cases}
use polytoken_quota.Prelude.Lists.{All, All-map, length}

module _ {ℓ} {A : Type ℓ} (less : A → A → Bool) where
  -- `x` stood before the members of the list, so it stays before its equals.
  unfoldable pub insert_sorted : A → List A → List A
  insert_sorted x [] = x ∷ []
  insert_sorted x (y ∷ ys) = if less y x then y ∷ insert_sorted x ys else x ∷ y ∷ ys

  unfoldable pub stable_sort : List A → List A
  stable_sort [] = []
  stable_sort (x ∷ xs) = insert_sorted x (stable_sort xs)

  pub insert_sorted-perm : (x : A) (ys : List A) → Perm (insert_sorted x ys) (x ∷ ys)
  unfolding insert_sorted
  insert_sorted-perm x [] = Perm.refl (x ∷ [])
  insert_sorted-perm x (y ∷ ys) = elim (Bool-cases (less y x)) [
    | inl e ↦ rw e (Perm.trans (Perm.cons y (insert_sorted-perm x ys)) (Perm.swap x y ys))
    | inr e ↦ rw e (Perm.refl (x ∷ y ∷ ys))
  ]

  -- Sorting loses nothing and invents nothing.
  pub stable_sort-perm : (xs : List A) → Perm (stable_sort xs) xs
  unfolding stable_sort
  stable_sort-perm [] = Perm.refl []
  stable_sort-perm (x ∷ xs) =
      Perm.trans (insert_sorted-perm x (stable_sort xs)) (Perm.cons x (stable_sort-perm xs))

  pub All-insert_sorted {κ} :
      (P : A → Type κ) (x : A) (ys : List A) → P x → All P ys → All P (insert_sorted x ys)
  unfolding insert_sorted
  All-insert_sorted P x [] h k = (h, tt)
  All-insert_sorted P x (y ∷ ys) h k = elim (Bool-cases (less y x)) [
    | inl e ↦ rw e (k.0, All-insert_sorted P x ys h k.1)
    | inr e ↦ rw e (h, k)
  ]

  pub All-stable_sort {κ} : (P : A → Type κ) (xs : List A) → All P xs → All P (stable_sort xs)
  unfolding stable_sort
  All-stable_sort P [] h = tt
  All-stable_sort P (x ∷ xs) h =
      All-insert_sorted P x (stable_sort xs) h.0 (All-stable_sort P xs h.1)

  length-insert_sorted : (x : A) (ys : List A) → length (insert_sorted x ys) ≡ suc (length ys)
  unfolding insert_sorted
  length-insert_sorted x [] = refl
  length-insert_sorted x (y ∷ ys) = elim (Bool-cases (less y x)) [
    | inl e ↦ rw e (ap suc (length-insert_sorted x ys))
    | inr e ↦ rw e
  ]

  pub length-stable_sort : (xs : List A) → length (stable_sort xs) ≡ length xs
  unfolding stable_sort
  length-stable_sort [] = refl
  length-stable_sort (x ∷ xs) =
      length-insert_sorted x (stable_sort xs) ∙ ap suc (length-stable_sort xs)

  -- no member stands before one that is less than it
  abbrev pub Sorted : List A → Type 0
  Sorted [] = Unit
  Sorted (x ∷ xs) = All (λ y. less y x ≡ false) xs × Sorted xs

  -- what a sort needs: nothing is less than itself in a cycle of two, and "not less" goes on
  -- through a middle value
  pub record IsWeakOrder : Type ℓ where
    pub asym : (a b : A) → less a b ≡ true → less b a ≡ false
    pub through : (a b c : A) → less b a ≡ false → less c b ≡ false → less c a ≡ false

  module _ (order : IsWeakOrder) where
    insert_sorted-Sorted : (x : A) (ys : List A) → Sorted ys → Sorted (insert_sorted x ys)
    unfolding insert_sorted
    insert_sorted-Sorted x [] h = (tt, tt)
    insert_sorted-Sorted x (y ∷ ys) h = elim (Bool-cases (less y x)) [
      | inl e ↦ rw e (
        All-insert_sorted (λ z. less z y ≡ false) x ys (order.asym y x e) h.0,
        insert_sorted-Sorted x ys h.1,
      )
      | inr e ↦ rw e ((e, All-map _ _ ys (λ z k. order.through x y z e k) h.0), h)
    ]

    -- A stable sort by a weak order puts no member before one that is less.
    pub stable_sort-Sorted : (xs : List A) → Sorted (stable_sort xs)
    unfolding stable_sort
    stable_sort-Sorted [] = tt
    stable_sort-Sorted (x ∷ xs) = insert_sorted-Sorted x (stable_sort xs) (stable_sort-Sorted xs)

-- Sorting by a refinement of a weak order leaves a list sorted by the order itself, where the laws
-- hold of the members.
module _ {ℓ κ} {A : Type ℓ} (less coarse : A → A → Bool) (P : A → Type κ)
    (apart : (a b : A) → P a → P b → less a b ≡ true → coarse b a ≡ false)
    (refines : (a b : A) → P a → P b → less a b ≡ false → coarse a b ≡ false)
    (through : (a b c : A)
      → P a
      → P b
      → P c
      → coarse b a ≡ false
      → coarse c b ≡ false
      → coarse c a ≡ false) where
  All-behind :
      (x y : A) (ys : List A)
      → P x
      → P y
      → coarse y x ≡ false
      → All P ys
      → All (λ z. coarse z y ≡ false) ys
      → All (λ z. coarse z x ≡ false) ys
  All-behind x y [] p q e r h = tt
  All-behind x y (z ∷ zs) p q e r h = (through x y z p q r.0 e h.0, All-behind x y zs p q e r.1 h.1)

  insert_sorted-coarse :
      (x : A) (ys : List A)
      → P x
      → All P ys
      → Sorted coarse ys
      → Sorted coarse (insert_sorted less x ys)
  unfolding insert_sorted
  insert_sorted-coarse x [] p q h = (tt, tt)
  insert_sorted-coarse x (y ∷ ys) p q h = elim (Bool-cases (less y x)) [
    | inl e ↦ rw e (
      All-insert_sorted less (λ z. coarse z y ≡ false) x ys (apart y x q.0 p e) h.0,
      insert_sorted-coarse x ys p q.1 h.1,
    )
    | inr e ↦
        let first : coarse y x ≡ false = refines y x q.0 p e in
        rw e ((first, All-behind x y ys p q.0 first q.1 h.0), h)
  ]

  pub stable_sort-coarse : (xs : List A) → All P xs → Sorted coarse (stable_sort less xs)
  unfolding stable_sort
  stable_sort-coarse [] h = tt
  stable_sort-coarse (x ∷ xs) h =
      insert_sorted-coarse x (stable_sort less xs) h.0 (All-stable_sort less P xs h.1)
        (stable_sort-coarse xs h.1)
