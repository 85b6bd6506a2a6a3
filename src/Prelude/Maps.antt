-- ===== src/Prelude/Maps.antt =====
-- Go's `map[string]V` as an association list with one entry for each key. Go does not fix the
-- order in which a map is walked, so no theorem rests on the order of the entries.
use Prim.Native.String.{String}
use mathlib.Core.Path.{◌≡◌, refl}
use mathlib.Core.Option.{Option, none, some}
use mathlib.Core.List.{List, [], ◌∷◌}
use native.Mathlib.Omega.{arith}
use mathlib.Core.Logic.{inl, inr}
use mathlib.Core.Bool.{Bool, false}
use polytoken_quota.Prelude.Lists.{any_true}
use polytoken_quota.Prelude.Tests.{if◌then◌else◌, Bool-cases}
use polytoken_quota.Prelude.Text.{str_eq, str_eq_iff}

abbrev pub Dict {ℓ} : Type ℓ → Type ℓ
Dict V = List (String × V)

module _ {ℓ} {V : Type ℓ} where
  -- m[k], with the second result
  unfoldable pub lookup : String → Dict V → Option V
  lookup k [] = none
  lookup k ((j, v) ∷ m) = if str_eq j k then some v else lookup k m

  -- m[k] = v
  unfoldable pub insert : String → V → Dict V → Dict V
  insert k v [] = (k, v) ∷ []
  insert k v ((j, w) ∷ m) = if str_eq j k then (k, v) ∷ m else (j, w) ∷ insert k v m

  -- A loop that rebuilds the map, entry by entry.
  unfoldable pub map_entries {κ} : {W : Type κ} → (String → V → W) → Dict V → Dict W
  map_entries f [] = []
  map_entries f ((j, v) ∷ m) = (j, f j v) ∷ map_entries f m

  -- delete(m, k)
  unfoldable pub delete : String → Dict V → Dict V
  delete k [] = []
  delete k ((j, v) ∷ m) = let rest = delete k m in if str_eq j k then rest else (j, v) ∷ rest

  pub lookup-insert :
      (k j : String) (v : V) (m : Dict V)
      → lookup j (insert k v m) ≡ (if str_eq k j then some v else lookup j m)
  unfolding lookup insert
  lookup-insert k j v [] = refl
  lookup-insert k j v ((i, w) ∷ m) =
      ground (arith, str_eq_iff k j, str_eq_iff i k, str_eq_iff i j, lookup-insert k j v m)

  pub lookup-delete :
      (k j : String) (m : Dict V)
      → lookup j (delete k m) ≡ (if str_eq k j then none else lookup j m)
  unfolding lookup delete
  lookup-delete k j [] = ground arith
  lookup-delete k j ((i, w) ∷ m) =
      ground (arith, str_eq_iff k j, str_eq_iff i k, str_eq_iff i j, lookup-delete k j m)

abbrev pub map_option {ℓ κ} : {V : Type ℓ} {W : Type κ} → (V → W) → Option V → Option W
map_option f none = none
map_option f (some v) = some (f v)

pub lookup-map_entries {ℓ κ} :
    {V : Type ℓ} {W : Type κ} (f : String → V → W) (k : String) (m : Dict V)
    → lookup k (map_entries f m) ≡ map_option (f k) (lookup k m)
unfolding lookup map_entries
lookup-map_entries f k [] = refl
lookup-map_entries f k ((j, v) ∷ m) = ground (arith, str_eq_iff j k, lookup-map_entries f k m)

-- What no entry satisfies, no entry that is looked up satisfies.
pub lookup-any_true {ℓ} :
    {V : Type ℓ} (test : String × V → Bool) (k : String) (v : V) (m : Dict V)
    → any_true test m ≡ false
    → lookup k m ≡ some v
    → test (k, v) ≡ false
unfolding lookup
lookup-any_true test k v [] h e = absurd (cc)
lookup-any_true test k v ((j, w) ∷ m) h e = elim (Bool-cases (str_eq j k)) [
  | inl q ↦
      let jk : j ≡ k = (str_eq_iff j k).0 q in
      let wv : w ≡ v = ground arith in rw (← jk, ← wv) (ground arith)
  | inr q ↦ lookup-any_true test k v m (ground arith) (ground arith)
]
