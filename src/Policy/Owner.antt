-- ===== src/Policy/Owner.antt =====
-- Proofs about `ResolveModel` of internal/policy/load.go.
use polytoken_quota.Prelude.{
  ℕ, suc, ◌+◌, ◌<◌, ◌≡◌, ◌↔◌, refl, List, [], ◌∷◌, String, if◌then◌else◌, Dict, lookup, is_some,
  Result, ok, err, arith, length, Bool-cases, inl, inr,
}
use polytoken_quota.Policy.{
  Desired, Mapping, ResolveError, unresolved, ambiguous, owner_loop, owner_of, resolve_model,
}

-- The mapping IDs that enumerate the model.
abbrev pub owners : {F : Type 0} → String → Dict (Mapping F) → List String
owners base [] = []
owners base ((id, m) ∷ rest) =
    let others = owners base rest in if is_some (lookup base m.models) then id ∷ others else others

abbrev last_or : String → List String → String
last_or found [] = found
last_or found (id ∷ ids) = last_or id ids

owner_loop-eq :
    {F : Type 0} (base found : String) (count : ℕ) (m : Dict (Mapping F))
    → owner_loop base found count m
      ≡ (last_or found (owners base m), count + length (owners base m))
unfolding owner_loop
owner_loop-eq base found count [] = ground arith
owner_loop-eq base found count ((id, m) ∷ rest) =
    elim (Bool-cases (is_some (lookup base m.models))) [
      | inl e ↦ rw (e, owner_loop) (ground (arith, owner_loop-eq base id (suc count) rest))
      | inr e ↦ rw (e, owner_loop) (owner_loop-eq base found count rest)
    ]

decided : List String → Result ResolveError String
decided [] = err unresolved
decided (id ∷ []) = ok id
decided (id ∷ j ∷ ids) = err ambiguous

owner_of-eq : (ids : List String) → owner_of (last_or "" ids) (length ids) ≡ decided ids
unfolding owner_of decided
owner_of-eq [] = refl
owner_of-eq (id ∷ []) = refl
owner_of-eq (id ∷ j ∷ ids) = refl

decided_iff :
    (ids : List String) (id : String)
    → ((decided ids ≡ ok id) ↔ (ids ≡ id ∷ []))
      × ((decided ids ≡ err unresolved) ↔ (ids ≡ []))
      × ((decided ids ≡ err ambiguous) ↔ (1 < length ids))
unfolding decided
decided_iff [] id = ground arith
decided_iff (j ∷ []) id = ground arith
decided_iff (j ∷ k ∷ ids) id = (
  (λ h. absurd (cc), λ h. absurd (cc)),
  (λ h. absurd (cc), λ h. absurd (cc)),
  (λ h. omega arith, λ h. refl),
)

resolve_model-eq :
    {F : Type 0} (d : Desired F) (base : String)
    → resolve_model d base ≡ decided (owners base d.providers)
unfolding resolve_model
resolve_model-eq d base =
    ground (arith, owner_loop-eq base "" 0 d.providers, owner_of-eq (owners base d.providers))

-- ResolveModel answers by the mappings that enumerate the model: the one that does, or an error
-- that says whether there is none or more than one.
pub resolve_model-owners :
    {F : Type 0} (d : Desired F) (base id : String)
    → ((resolve_model d base ≡ ok id) ↔ (owners base d.providers ≡ id ∷ []))
      × ((resolve_model d base ≡ err unresolved) ↔ (owners base d.providers ≡ []))
      × ((resolve_model d base ≡ err ambiguous) ↔ (1 < length (owners base d.providers)))
resolve_model-owners d base id =
    rw (resolve_model-eq d base) (decided_iff (owners base d.providers) id)
