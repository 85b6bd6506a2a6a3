-- ===== src/Reconcile/Skips.antt =====
-- Proofs about `Build` of internal/reconcile/reconcile.go: what it leaves out for a target that
-- uses model groups.
use polytoken_quota.Prelude.{
  ◌≡◌, ◌∙◌, refl, sym, ap, Bool, true, not, none, List, [], ◌∷◌, Result, ok, map, if◌then◌else◌,
  inl, inr, arith, keep, is_nil, Result-cases, >>=-eq-ok, Bool-cases,
}
use polytoken_quota.Floats.{Float}
use polytoken_quota.State.{State}
use polytoken_quota.Policy.{Desired, Chain, Target}
use polytoken_quota.Reconcile.Survivors.{RankLookup}
use polytoken_quota.Reconcile.Plans.{
  SkippedEdit, BuildError, model_groups_skip_reason, Edits, ScalarField, scalar_fields, scalar_step,
  scalar_loop, definition_loop, build_edits, finish, build,
}

module _ {F : Type 0} ⦃fl : Float F⦄ (desired : Desired F) (observed : State F) (target : Target)
    (ranks : RankLookup) where
  abbrev pub skip_of : ScalarField → SkippedEdit
  skip_of sp = record { field = sp.field; reason = model_groups_skip_reason }

  abbrev pub is_managed : ScalarField → Bool
  is_managed sp = not (is_nil sp.chain)

  scalar_step-groups :
      (chain : Chain) (sp : ScalarField)
      → scalar_step desired observed target ranks true chain sp
        ≡ ok (record { made = []; skips = if is_nil chain then [] else skip_of sp ∷ [] })
  unfolding scalar_step
  scalar_step-groups [] sp = refl
  scalar_step-groups (c ∷ chain) sp = refl

  scalar_loop-groups :
      (fields : List ScalarField)
      → scalar_loop desired observed target ranks true fields
        ≡ ok (record { made = []; skips = map skip_of (keep is_managed fields) })
  unfolding scalar_loop
  scalar_loop-groups [] = refl
  scalar_loop-groups (sp ∷ fields) = elim (Bool-cases (is_nil sp.chain)) [
    | inl e ↦ rw (scalar_step-groups sp.chain sp, scalar_loop-groups fields, e)
    | inr e ↦ rw (scalar_step-groups sp.chain sp, scalar_loop-groups fields, e)
  ]

  abbrev the_ok : Edits → Result BuildError Edits
  the_ok a = ok a

  ok-injective : (a b : Edits) → the_ok a ≡ the_ok b → a ≡ b
  ok-injective a b h = cc

  build_edits-skips :
      (edits : Edits)
      → target.uses_model_groups ≡ true
      → build_edits desired observed target ranks ≡ ok edits
      → edits.skips ≡ map skip_of (keep is_managed (scalar_fields target))
  unfolding build_edits
  build_edits-skips edits g h =
      let (a, ea, h') =
        >>=-eq-ok
          (scalar_loop desired observed target ranks target.uses_model_groups
            (scalar_fields target))
          _ h in
      let (b, eb, h'') =
        >>=-eq-ok (definition_loop desired observed target ranks target.definitions) _ h' in
      let e : edits.skips ≡ a.skips = ground arith in
      let known = scalar_loop-groups (scalar_fields target) in
      let same = ap (λ x. scalar_loop desired observed target ranks x (scalar_fields target)) g in
      e ∙ ap Edits.skips (ok-injective _ _ (sym ea ∙ same ∙ known))

  -- The plan of a target that uses model groups, where there is no error, reports each field of
  -- config.yaml whose chain is not empty as skipped, in order, and no other.
  pub build-skips :
      target.uses_model_groups ≡ true
      → (build desired observed target ranks).1 ≡ none
      → (build desired observed target ranks).0.skipped
        ≡ map skip_of (keep is_managed (scalar_fields target))
  unfolding build finish
  build-skips g h = elim (Result-cases (build_edits desired observed target ranks)) [
    | inl e ↦ rw (e.1, finish) (build_edits-skips e.0 g e.1)
    | inr e ↦ absurd (ground (arith, e.1))
  ]
