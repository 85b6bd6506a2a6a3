-- ===== src/Selection/Wire.antt =====
-- `tierFromWire` of internal/selection/policy.go: the checks on the decoded groups of a tier. The
-- texts of the errors, with the names of the phase and the tier, are left out.
use polytoken_quota.Prelude.{
  ◌≡◌, ◌∙◌, refl, sym, ap, Bool, true, false, List, [], ◌∷◌, String, arith, inl, inr, All,
  Bool-cases, Result, ok, err, ◌>>=◌, Result-cases, >>=-eq-ok, member, is_nil,
}
use polytoken_quota.Policy.{Desired, ModelRefError, ResolveError, parse_model_ref, resolve_model}

pub data WireError : Type 0 where
  no_groups empty_group duplicate_candidate : WireError
  bad_reference : ModelRefError → WireError
  bad_model : ResolveError → WireError

module _ {F : Type 0} (desired : Desired F) where
  resolve_ref : Result ModelRefError (String × String) → Result WireError String
  resolve_ref (err e) = err (bad_reference e)
  resolve_ref (ok (base, suffix)) = ok base

  own_ref : Result ResolveError String → Result WireError String
  own_ref (err e) = err (bad_model e)
  own_ref (ok mid) = ok mid

  add_seen : Bool → String → List String → Result WireError (List String)
  add_seen true ref seen = err duplicate_candidate
  add_seen false ref seen = ok (ref ∷ seen)

  -- the body of the loop over the references of a group: `seen` has the references so far
  unfoldable pub check_ref : List String → String → Result WireError (List String)
  unfolding resolve_ref own_ref add_seen
  check_ref seen ref = do
    base ← resolve_ref (parse_model_ref ref)
    mid ← own_ref (resolve_model desired base)
    add_seen (member ref seen) ref seen

  unfoldable pub check_refs : List String → List String → Result WireError (List String)
  check_refs seen [] = ok seen
  check_refs seen (ref ∷ refs) = do next ← check_ref seen ref; check_refs next refs

  not_empty : List String → Result WireError (List String)
  not_empty [] = err empty_group
  not_empty (r ∷ rs) = ok (r ∷ rs)

  -- the loop over the groups
  unfoldable pub check_groups : List String → List (List String) → Result WireError (List String)
  unfolding not_empty
  check_groups seen [] = ok seen
  check_groups seen (group ∷ groups) = do
    refs ← not_empty group
    next ← check_refs seen refs
    check_groups next groups

  -- The groups of the tier, where all checks pass.
  unfoldable pub tier_from_wire : List (List String) → Result WireError (List (List String))
  tier_from_wire [] = err no_groups
  tier_from_wire (group ∷ groups) = do seen ← check_groups [] (group ∷ groups); ok (group ∷ groups)

  -- The reference parses, and its model has one owner.
  abbrev pub IsResolved : String → Type 0
  IsResolved ref =
      (base : String) × (suffix : String) × (mid : String) × (parse_model_ref ref
        ≡ ok (base, suffix))
      × (resolve_model desired base ≡ ok mid)

  -- the references, from the last to the first
  abbrev pub pushed : List String → List String → List String
  pushed [] seen = seen
  pushed (r ∷ rs) seen = pushed rs (r ∷ seen)

  abbrev pub pushed_groups : List (List String) → List String → List String
  pushed_groups [] seen = seen
  pushed_groups (g ∷ gs) seen = pushed_groups gs (pushed g seen)

  -- No reference is an earlier one again.
  abbrev pub NoRepeat : List String → Type 0
  NoRepeat [] = Unit {0}
  NoRepeat (r ∷ earlier) = (member r earlier ≡ false) × NoRepeat earlier

  check_ref-ok :
      (seen : List String) (ref : String) (next : List String)
      → check_ref seen ref ≡ ok next
      → (next ≡ ref ∷ seen) × (member ref seen ≡ false) × IsResolved ref
  unfolding check_ref
  check_ref-ok seen ref next h = elim (Result-cases (parse_model_ref ref)) [
    | inr e ↦ absurd (ground (arith, e.1))
    | inl (r, p) ↦ elim (Result-cases (resolve_model desired r.0)) [
      | inr e ↦ absurd (ground (arith, e.1))
      | inl (mid, o) ↦ elim (Bool-cases (member ref seen)) [
        | inl d ↦ absurd (ground arith)
        | inr d ↦ (ground arith, d, (r.0, r.1, mid, p, o))
      ]
    ]
  ]

  check_refs-ok :
      (seen refs next : List String)
      → NoRepeat seen
      → check_refs seen refs ≡ ok next
      → (next ≡ pushed refs seen) × NoRepeat next × All IsResolved refs
  unfolding check_refs
  check_refs-ok seen [] next n h = let e : next ≡ seen = ground arith in (e, rw e n, tt)
  check_refs-ok seen (ref ∷ refs) next n h =
      let (mid, em, h') = >>=-eq-ok (check_ref seen ref) _ h in
      let (e, d, r) = check_ref-ok seen ref mid em in
      let (e2, n2, all) =
        check_refs-ok (ref ∷ seen) refs next (d, n) (ap (λ x. check_refs x refs) (sym e) ∙ h') in
      (e2, n2, (r, all))

  -- A group that is not empty, of references that resolve.
  abbrev pub IsValidGroup : List String → Type 0
  IsValidGroup g = (is_nil g ≡ false) × All IsResolved g

  not_empty-ok : (g rs : List String) → not_empty g ≡ ok rs → (rs ≡ g) × (is_nil g ≡ false)
  unfolding not_empty
  not_empty-ok [] rs h = absurd (ground arith)
  not_empty-ok (r ∷ g) rs h = (ground arith, refl)

  check_groups-ok :
      (seen : List String) (groups : List (List String)) (next : List String)
      → NoRepeat seen
      → check_groups seen groups ≡ ok next
      → (next ≡ pushed_groups groups seen) × NoRepeat next × All IsValidGroup groups
  unfolding check_groups
  check_groups-ok seen [] next n h = let e : next ≡ seen = ground arith in (e, rw e n, tt)
  check_groups-ok seen (g ∷ groups) next n h =
      let (rs, er, h') = >>=-eq-ok (not_empty g) _ h in
      let (same, filled) = not_empty-ok g rs er in
      let (mid, em, h'') = >>=-eq-ok (check_refs seen rs) _ h' in
      let (e, n2, all) = check_refs-ok seen g mid n (ap (check_refs seen) (sym same) ∙ em) in
      let (e2, n3, rest) = check_groups-ok mid groups next n2 h'' in
      (e2 ∙ ap (pushed_groups groups) e, n3, ((filled, all), rest))

  -- A tier that is accepted has the decoded groups, at least one, and none is empty; each reference
  -- parses and its model has one owner; and no reference occurs twice in the tier.
  pub tier_from_wire_sound :
      (groups accepted : List (List String))
      → tier_from_wire groups ≡ ok accepted
      → (accepted ≡ groups)
        × (is_nil groups ≡ false)
        × All IsValidGroup groups
        × NoRepeat (pushed_groups groups [])
  unfolding tier_from_wire
  tier_from_wire_sound [] accepted h = absurd (ground arith)
  tier_from_wire_sound (g ∷ groups) accepted h =
      let (seen, es, h') = >>=-eq-ok (check_groups [] (g ∷ groups)) _ h in
      let (e, n, all) = check_groups-ok [] (g ∷ groups) seen tt es in
      (ground arith, refl, all, rw e at n)
