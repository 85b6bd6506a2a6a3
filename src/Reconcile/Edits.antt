-- ===== src/Reconcile/Edits.antt =====
-- Proofs about `Build` of internal/reconcile/reconcile.go: where each edit of a plan comes from.
use polytoken_quota.Prelude.{
  ◌≡◌, refl, Bool, true, false, List, [], ◌∷◌, ◌++◌, String, Result, ok, err, map, stable_sort, ◌⊎◌,
  inl, inr, arith, All, All-append, All-map, All-stable_sort, In, All-In, >>=-eq-ok,
}
use polytoken_quota.Floats.{Float}
use polytoken_quota.State.{State}
use polytoken_quota.Policy.{Mapping, ModelBaseline, Desired, Chain, Definition, Target}
use polytoken_quota.Reconcile.Modes.{mapping_mode}
use polytoken_quota.Reconcile.Survivors.{Survivor, RankLookup, ChainError, resolve_survivors}
use polytoken_quota.Reconcile.Plans.{
  scalar, enabled, FieldEdit, BuildError, empty_chain, config_file, Edits, ScalarField,
  scalar_fields, required, fallback_value, model_enabled, by_key, scalar_edit, scalar_step,
  scalar_loop, definition_step, definition_loop, model_edit, mapping_edits, model_loop, model_edits,
  build_edits, finish, build,
}

module _ {F : Type 0} ⦃fl : Float F⦄ (desired : Desired F) (observed : State F) (target : Target)
    (ranks : RankLookup) where
  -- The first survivor of a chain and those after it.
  abbrev pub HasSurvivors : Chain → Survivor → List Survivor → Type 0
  HasSurvivors chain s rest = resolve_survivors desired observed chain ranks ≡ ok (s ∷ rest)

  -- A field of config.yaml: its value is the first survivor of its chain.
  abbrev pub IsScalarEdit : FieldEdit → Type 0
  IsScalarEdit e =
      (target.uses_model_groups ≡ false)
      × ((sp : ScalarField) × (s : Survivor) × (rest : List Survivor) × In sp (scalar_fields target)
          × HasSurvivors sp.chain s rest
          × (e ≡ record { file = config_file; path = sp.path; value = scalar s.ref.spelling }))

  -- A key of a facet or subagent definition: the model is the first survivor of its chain, the
  -- fallback list holds the others, and is removed where there are none.
  abbrev pub IsDefinitionEdit : FieldEdit → Type 0
  IsDefinitionEdit e =
      (def : Definition) × (s : Survivor) × (rest : List Survivor) × In def target.definitions
      × HasSurvivors def.chain s rest
      × ((e ≡ record {
        file = def.path;
        path = "polytoken" ∷ "model" ∷ [];
        value = scalar s.ref.spelling;
      })
          ⊎ (e ≡ record {
            file = def.path;
            path = "polytoken" ∷ "fallback_models" ∷ [];
            value = fallback_value rest;
          }))

  -- The enable state of a model of a mapping: off where the mapping's mode is "disabled", else
  -- what the baseline says.
  abbrev pub IsModelEdit : FieldEdit → Type 0
  IsModelEdit e =
      (target.global ≡ true)
      × ((id : String) × (m : Mapping F) × (base : String) × (b : ModelBaseline) × In (id, m)
            desired.providers
          × In (base, b) m.models
          × (e ≡ record {
            file = config_file;
            path = "models" ∷ base ∷ "enabled" ∷ [];
            value = enabled (model_enabled (mapping_mode desired observed id) b);
          }))

  abbrev pub HasOrigin : FieldEdit → Type 0
  HasOrigin e = IsScalarEdit e ⊎ IsDefinitionEdit e ⊎ IsModelEdit e

  required-ok :
      (r : Result ChainError (List Survivor)) (x : BuildError) (s : Survivor) (rest : List Survivor)
      → required r x ≡ ok (s, rest)
      → r ≡ ok (s ∷ rest)
  unfolding required
  required-ok (ok []) x s rest h = absurd (ground arith)
  required-ok (ok (t ∷ ts)) x s rest h = ground arith
  required-ok (err e) x s rest h = absurd (ground arith)

  scalar_step-All :
      (groups : Bool) (chain : Chain) (sp : ScalarField) (edits : Edits)
      → target.uses_model_groups ≡ groups
      → In sp (scalar_fields target)
      → scalar_step desired observed target ranks groups chain sp ≡ ok edits
      → All IsScalarEdit edits.made
  unfolding scalar_step scalar_edit
  scalar_step-All groups [] sp edits g i h = let e : edits.made ≡ [] = ground arith in rw e tt
  scalar_step-All true (c ∷ chain) sp edits g i h =
      let e : edits.made ≡ [] = ground arith in rw e tt
  scalar_step-All false (c ∷ chain) sp edits g i h =
      let empty = empty_chain target.id config_file sp.field in
      let (e, ee, h') = >>=-eq-ok (scalar_edit desired observed target ranks sp) _ h in
      let (s, es, h'') =
        >>=-eq-ok (required (resolve_survivors desired observed sp.chain ranks) empty) _ ee in
      let m : edits.made ≡ e ∷ [] = ground arith in
      let v : e ≡ record { file = config_file; path = sp.path; value = scalar s.0.ref.spelling } =
        ground arith in
      rw m ((g, (sp, s.0, s.1, i, required-ok _ empty s.0 s.1 es, v)), tt)

  scalar_loop-All :
      (groups : Bool) (fields : List ScalarField) (edits : Edits)
      → target.uses_model_groups ≡ groups
      → ((sp : ScalarField) → In sp fields → In sp (scalar_fields target))
      → scalar_loop desired observed target ranks groups fields ≡ ok edits
      → All IsScalarEdit edits.made
  unfolding scalar_loop
  scalar_loop-All groups [] edits g inc h = let e : edits.made ≡ [] = ground arith in rw e tt
  scalar_loop-All groups (sp ∷ fields) edits g inc h =
      let (a, ea, h') =
        >>=-eq-ok (scalar_step desired observed target ranks groups sp.chain sp) _ h in
      let (b, eb, h'') = >>=-eq-ok (scalar_loop desired observed target ranks groups fields) _ h' in
      let e : edits.made ≡ a.made ++ b.made = ground arith in
      rw e (
        All-append IsScalarEdit a.made b.made
          (scalar_step-All groups sp.chain sp a g (inc sp (inl refl)) ea)
          (scalar_loop-All groups fields b g (λ x i. inc x (inr i)) eb))

  definition_step-All :
      (chain : Chain) (def : Definition) (edits : List FieldEdit)
      → In def target.definitions
      → definition_step desired observed target ranks chain def ≡ ok edits
      → All IsDefinitionEdit edits
  unfolding definition_step
  definition_step-All [] def edits i h = let e : edits ≡ [] = ground arith in rw e tt
  definition_step-All (c ∷ chain) def edits i h =
      let empty = empty_chain target.id def.path "polytoken.model" in
      let (s, es, h') =
        >>=-eq-ok (required (resolve_survivors desired observed def.chain ranks) empty) _ h in
      let from = required-ok _ empty s.0 s.1 es in
      let primary : FieldEdit = record {
        file = def.path;
        path = "polytoken" ∷ "model" ∷ [];
        value = scalar s.0.ref.spelling;
      } in
      let fallback : FieldEdit = record {
        file = def.path;
        path = "polytoken" ∷ "fallback_models" ∷ [];
        value = fallback_value s.1;
      } in
      let e : edits ≡ primary ∷ fallback ∷ [] = ground arith in
      rw e ((def, s.0, s.1, i, from, inl refl), ((def, s.0, s.1, i, from, inr refl), tt))

  definition_loop-All :
      (defs : List Definition) (edits : List FieldEdit)
      → ((def : Definition) → In def defs → In def target.definitions)
      → definition_loop desired observed target ranks defs ≡ ok edits
      → All IsDefinitionEdit edits
  unfolding definition_loop
  definition_loop-All [] edits inc h = let e : edits ≡ [] = ground arith in rw e tt
  definition_loop-All (def ∷ defs) edits inc h =
      let (a, ea, h') =
        >>=-eq-ok (definition_step desired observed target ranks def.chain def) _ h in
      let (b, eb, h'') = >>=-eq-ok (definition_loop desired observed target ranks defs) _ h' in
      let e : edits ≡ a ++ b = ground arith in
      rw e (
        All-append IsDefinitionEdit a b
          (definition_step-All def.chain def a (inc def (inl refl)) ea)
          (definition_loop-All defs b (λ x i. inc x (inr i)) eb))

  mapping_edits-All :
      (id : String) (m : Mapping F) (ms : List (String × ModelBaseline))
      → target.global ≡ true
      → In (id, m) desired.providers
      → All (λ x. In x m.models) ms
      → All IsModelEdit
          (map (model_edit desired observed target ranks (mapping_mode desired observed id)) ms)
  unfolding model_edit
  mapping_edits-All id m [] g i h = tt
  mapping_edits-All id m ((base, b) ∷ ms) g i h =
      ((g, (id, m, base, b, i, h.0, refl)), mapping_edits-All id m ms g i h.1)

  model_loop-All :
      (ms : List (String × Mapping F))
      → target.global ≡ true
      → All (λ x. In x desired.providers) ms
      → All IsModelEdit (model_loop desired observed target ranks ms)
  unfolding model_loop mapping_edits
  model_loop-All [] g h = tt
  model_loop-All ((id, m) ∷ ms) g h =
      All-append IsModelEdit _ _
        (mapping_edits-All id m (stable_sort by_key m.models) g h.0
          (All-stable_sort by_key (λ x. In x m.models) m.models (All-In m.models)))
        (model_loop-All ms g h.1)

  model_edits-All :
      (global : Bool)
      → target.global ≡ global
      → All IsModelEdit (model_edits desired observed target ranks global)
  unfolding model_edits
  model_edits-All false g = tt
  model_edits-All true g = model_loop-All (stable_sort by_key desired.providers) g (
      All-stable_sort by_key (λ x. In x desired.providers) desired.providers
        (All-In desired.providers))

  build_edits-All :
      (edits : Edits)
      → build_edits desired observed target ranks ≡ ok edits
      → All HasOrigin edits.made
  unfolding build_edits
  build_edits-All edits h =
      let (a, ea, h') =
        >>=-eq-ok
          (scalar_loop desired observed target ranks target.uses_model_groups
            (scalar_fields target))
          _ h in
      let (b, eb, h'') =
        >>=-eq-ok (definition_loop desired observed target ranks target.definitions) _ h' in
      let ms : List FieldEdit = model_edits desired observed target ranks target.global in
      let e : edits.made ≡ (a.made ++ b) ++ ms = ground arith in
      rw e (
        All-append HasOrigin (a.made ++ b) ms
          (All-append HasOrigin a.made b
            (All-map IsScalarEdit HasOrigin a.made (λ x k. inl k)
              (scalar_loop-All target.uses_model_groups (scalar_fields target) a refl (λ x i. i)
                ea))
            (All-map IsDefinitionEdit HasOrigin b (λ x k. inr (inl k))
              (definition_loop-All target.definitions b (λ x i. i) eb)))
          (All-map IsModelEdit HasOrigin ms (λ x k. inr (inr k))
            (model_edits-All target.global refl)))

  finish-All :
      (r : Result BuildError Edits)
      → ((edits : Edits) → r ≡ ok edits → All HasOrigin edits.made)
      → All HasOrigin (finish desired observed target ranks r).0.edits
  unfolding finish
  finish-All (ok e) f = f e refl
  finish-All (err x) f = tt

  -- Every edit of a plan is one of three: a field of config.yaml with the first survivor of its
  -- chain, where the target uses no model groups; a key of a definition, the model with the first
  -- survivor of its chain or the fallback list with the others; or the enable state of a model of
  -- a mapping, where the target is global.
  pub build-HasOrigin : All HasOrigin (build desired observed target ranks).0.edits
  unfolding build
  build-HasOrigin = finish-All (build_edits desired observed target ranks) build_edits-All
