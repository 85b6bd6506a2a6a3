-- ===== src/Prelude/Lists.antt =====
-- Lists over the native numbers: measures, predicates by recursion, membership, and the order of
-- members.
use Prim.Native.Nat.{ℕ, suc, ◌+◌}
use mathlib.Core.Path.{◌≡◌, refl}
use mathlib.Core.Logic.{◌⊎◌, inl, inr, ∥∥₁_map}
use mathlib.Core.Bool.{Bool, true, false, not, ◌||◌}
use mathlib.Core.List.{List, [], ◌∷◌, ◌++◌, map, Perm, perm_middle}
use mathlib.Core.List.Permᴰ
use mathlib.Core.List.Perm
use native.Mathlib.Omega.{arith}
use polytoken_quota.Prelude.Tests.{if◌then◌else◌, Bool-cases}

module _ {ℓ} {A : Type ℓ} where
  abbrev pub length : List A → ℕ
  length [] = 0
  length (x ∷ xs) = suc (length xs)

  abbrev pub any_true : (A → Bool) → List A → Bool
  any_true p [] = false
  any_true p (x ∷ xs) = p x || any_true p xs

  -- A predicate of every member, as nested pairs.
  abbrev pub All {κ} : (A → Type κ) → List A → Type κ
  All P [] = Unit
  All P (x ∷ xs) = P x × All P xs

  abbrev pub keep : (A → Bool) → List A → List A
  keep p [] = []
  keep p (x ∷ xs) = let rest = keep p xs in if p x then x ∷ rest else rest

  pub All-map {κ ν} :
      (P : A → Type κ) (Q : A → Type ν) (xs : List A) → ((x : A) → P x → Q x) → All P xs → All Q xs
  All-map P Q [] f h = tt
  All-map P Q (x ∷ xs) f h = (f x h.0, All-map P Q xs f h.1)

  pub All-both {κ ν} :
      (P : A → Type κ) (Q : A → Type ν) (xs : List A)
      → All P xs
      → All Q xs
      → All (λ x. P x × Q x) xs
  All-both P Q [] h k = tt
  All-both P Q (x ∷ xs) h k = ((h.0, k.0), All-both P Q xs h.1 k.1)

  pub All-append {κ} : (P : A → Type κ) (xs ys : List A) → All P xs → All P ys → All P (xs ++ ys)
  All-append P [] ys hx hy = hy
  All-append P (x ∷ xs) ys hx hy = (hx.0, All-append P xs ys hx.1 hy)

  pub All-of_each {κ} : (P : A → Type κ) (xs : List A) → ((x : A) → P x) → All P xs
  All-of_each P [] f = tt
  All-of_each P (x ∷ xs) f = (f x, All-of_each P xs f)

  pub length-append : (xs ys : List A) → length (xs ++ ys) ≡ length xs + length ys
  length-append [] ys = omega arith
  length-append (x ∷ xs) ys = omega (arith, length-append xs ys)

module _ {A : Type 0} where
  -- A predicate of some member.
  abbrev pub Any : (A → Type 0) → List A → Type 0
  Any P [] = ⊥
  Any P (x ∷ xs) = P x ⊎ Any P xs

  abbrev pub In : A → List A → Type 0
  In a xs = Any (λ x. x ≡ a) xs

  pub Any-elim {κ} :
      {R : Type κ} (P : A → Type 0) (xs : List A) → ((x : A) → P x → R) → Any P xs → R
  Any-elim P [] f h = absurd h
  Any-elim P (x ∷ xs) f (inl p) = f x p
  Any-elim P (x ∷ xs) f (inr q) = Any-elim P xs f q

  pub Any-map : (P Q : A → Type 0) (xs : List A) → ((x : A) → P x → Q x) → Any P xs → Any Q xs
  Any-map P Q [] f h = absurd h
  Any-map P Q (x ∷ xs) f (inl p) = inl (f x p)
  Any-map P Q (x ∷ xs) f (inr q) = inr (Any-map P Q xs f q)

  -- What holds of every member holds of one that is there.
  pub All-Any : (P Q : A → Type 0) (xs : List A) → All P xs → Any Q xs → Any (λ x. P x × Q x) xs
  All-Any P Q [] h a = absurd a
  All-Any P Q (x ∷ xs) h (inl q) = inl (h.0, q)
  All-Any P Q (x ∷ xs) h (inr q) = inr (All-Any P Q xs h.1 q)

module _ {ℓ} {A : Type ℓ} where
  pub All-keep {κ} :
      (P : A → Type κ) (test : A → Bool) (xs : List A) → All P xs → All P (keep test xs)
  All-keep P test [] h = tt
  All-keep P test (x ∷ xs) h = elim (Bool-cases (test x)) [
    | inl e ↦ rw e (h.0, All-keep P test xs h.1)
    | inr e ↦ rw e (All-keep P test xs h.1)
  ]

  pub keep-All : (test : A → Bool) (xs : List A) → All (λ x. test x ≡ true) (keep test xs)
  keep-All test [] = tt
  keep-All test (x ∷ xs) = elim (Bool-cases (test x)) [
    | inl e ↦ rw e (e, keep-All test xs)
    | inr e ↦ rw e (keep-All test xs)
  ]

  -- A test splits a list into the members that pass and those that do not.
  pub keep-perm :
      (test : A → Bool) (xs : List A) → Perm xs (keep test xs ++ keep (λ x. not (test x)) xs)
  keep-perm test [] = Perm.refl []
  keep-perm test (x ∷ xs) = elim (Bool-cases (test x)) [
    | inl e ↦ rw e (Perm.cons x (keep-perm test xs))
    | inr e ↦ rw e (
        Perm.trans (Perm.cons x (keep-perm test xs))
          (Perm.symm (perm_middle (keep test xs) (keep (λ x. not (test x)) xs))))
  ]

module _ {A : Type 0} where
  pub All-In : (xs : List A) → All (λ x. In x xs) xs
  All-In [] = tt
  All-In (x ∷ xs) = (inl refl, All-map _ _ xs (λ y k. inr k) (All-In xs))

  abbrev pub is_nil : List A → Bool
  is_nil [] = true
  is_nil (x ∷ xs) = false

  pub All-swap {κ ν} :
      {J : Type ν} (P : J → A → Type κ) (xs : List A)
      → ((j : J) → All (P j) xs)
      → All (λ x. (j : J) → P j x) xs
  All-swap P [] f = tt
  All-swap P (x ∷ xs) f = ((λ j. (f j).0), All-swap P xs (λ j. (f j).1))

  pub All-lookup {κ} : (P : A → Type κ) (x : A) (xs : List A) → All P xs → In x xs → P x
  All-lookup P x [] h i = elim i [ ]
  All-lookup P x (y ∷ ys) h (inl e) = rw e at h.0
  All-lookup P x (y ∷ ys) h (inr i) = All-lookup P x ys h.1 i

  pub In-middle : (before : List A) (x : A) (after : List A) → In x (before ++ (x ∷ after))
  In-middle [] x after = inl refl
  In-middle (y ∷ ys) x after = inr (In-middle ys x after)

pub map-Perm {ℓ κ} :
    {A : Type ℓ} {B : Type κ} (f : A → B) {xs ys : List A} → Perm xs ys → Perm (map f xs) (map f ys)
map-Perm f p = ∥∥₁_map p (Permᴰ.map f)
