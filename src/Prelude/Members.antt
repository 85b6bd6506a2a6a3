-- ===== src/Prelude/Members.antt =====
-- Membership of a text in a list, as the Boolean test `member`, and tests of some member.
use Prim.Native.String.{String}
use mathlib.Core.Path.{◌≡◌, refl}
use mathlib.Core.Logic.{inl, inr}
use mathlib.Core.Bool.{Bool, true, false, ◌&&◌, ◌||◌}
use mathlib.Core.List.{List, [], ◌∷◌, ◌++◌}
use native.Mathlib.Omega.{arith}
use polytoken_quota.Prelude.Tests.{Bool-cases}
use polytoken_quota.Prelude.Lists.{any_true, keep}
use polytoken_quota.Prelude.Text.{str_eq, str_eq_iff, str_eq_refl, member}
use polytoken_quota.Prelude.Sort.{insert_sorted, stable_sort}

pub member-append :
    (a : String) (xs ys : List String) → member a (xs ++ ys) ≡ member a xs || member a ys
member-append a [] ys = refl
member-append a (x ∷ xs) ys = ground (arith, member-append a xs ys)

pub member-keep :
    (a : String) (p : String → Bool) (xs : List String) → member a (keep p xs) ≡ member a xs && p a
member-keep a p [] = refl
member-keep a p (x ∷ xs) = ground (arith, member-keep a p xs, str_eq_iff x a)

member-insert_sorted :
    (a x : String) (less : String → String → Bool) (ys : List String)
    → member a (insert_sorted less x ys) ≡ str_eq x a || member a ys
unfolding insert_sorted
member-insert_sorted a x less [] = refl
member-insert_sorted a x less (y ∷ ys) = ground (arith, member-insert_sorted a x less ys)

pub member-stable_sort :
    (a : String) (less : String → String → Bool) (xs : List String)
    → member a (stable_sort less xs) ≡ member a xs
unfolding stable_sort
member-stable_sort a less [] = refl
member-stable_sort a less (x ∷ xs) =
    ground
      (arith, member-insert_sorted a x less (stable_sort less xs), member-stable_sort a less xs)

pub any_true-find :
    (p : String → Bool) (xs : List String)
    → any_true p xs ≡ true
    → (x : String) × (member x xs ≡ true) × (p x ≡ true)
any_true-find p [] h = absurd (cc)
any_true-find p (x ∷ xs) h = elim (Bool-cases (p x)) [
  | inl e ↦ (x, ground (arith, str_eq_refl x), e)
  | inr e ↦ let (y, m, q) = any_true-find p xs (ground arith) in (y, ground arith, q)
]

pub any_true-of_member :
    (p : String → Bool) (a : String) (xs : List String)
    → member a xs ≡ true
    → p a ≡ true
    → any_true p xs ≡ true
any_true-of_member p a [] m h = absurd (cc)
any_true-of_member p a (x ∷ xs) m h = ground (arith, any_true-of_member p a xs, str_eq_iff x a)

-- What no member satisfies, a given member does not.
pub any_true-not_member :
    (p : String → Bool) (a : String) (xs : List String)
    → any_true p xs ≡ false
    → member a xs ≡ true
    → p a ≡ false
any_true-not_member p a xs h m = elim (Bool-cases (p a)) [
  | inr e ↦ e
  | inl e ↦ let k : any_true p xs ≡ true = any_true-of_member p a xs m e in absurd (cc)
]
