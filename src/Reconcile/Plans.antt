-- ===== src/Reconcile/Plans.antt =====
-- The plan of internal/reconcile/reconcile.go: `Build`, which turns a target's chains into the
-- edits of its managed fields.
use polytoken_quota.Prelude.{
  ℕ, Bool, true, false, Option, none, some, List, [], ◌∷◌, ◌++◌, String, Result, ok, err, ◌>>=◌,
  map, stable_sort, str_ltb,
}
use polytoken_quota.Floats.{Float}
use polytoken_quota.State.{Mode, State}
use polytoken_quota.Policy.{Mapping, ModelBaseline, Desired, Chain, Definition, Target}
use polytoken_quota.Reconcile.Modes.{mapping_mode}
use polytoken_quota.Reconcile.Survivors.{Survivor, RankLookup, ChainError, resolve_survivors}

-- What an edit carries: one of Scalar, Sequence and Enabled, or the removal of the key.
pub data EditValue : Type 0 where
  scalar : String → EditValue
  sequence : List String → EditValue
  enabled : Bool → EditValue
  remove : EditValue

pub record FieldEdit : Type 0 where
  pub file : String
  pub path : List String
  pub value : EditValue

pub record SkippedEdit : Type 0 where
  pub field : String
  pub reason : String

pub record Plan : Type 0 where
  pub target_id : String
  pub revision : ℕ
  pub edits : List FieldEdit
  pub skipped : List SkippedEdit
  pub provider_only : Bool

pub data BuildError : Type 0 where
  chain_error : ChainError → BuildError
  empty_chain : (target file field : String) → BuildError

abbrev pub config_file : String
config_file = "config.yaml"

abbrev pub model_groups_skip_reason : String
model_groups_skip_reason = "config uses modelgroups"

-- The edits and the skipped edits that a part of `Build` appends.
pub record Edits : Type 0 where
  pub made : List FieldEdit
  pub skips : List SkippedEdit

-- a field of config.yaml that takes the first survivor: its name, its path, its chain
pub record ScalarField : Type 0 where
  pub field : String
  pub path : List String
  pub chain : Chain

unfoldable pub scalar_fields : Target → List ScalarField
scalar_fields t =
    record { field = "defaults.full"; path = "defaults" ∷ "full" ∷ []; chain = t.full }
    ∷ record { field = "defaults.mini"; path = "defaults" ∷ "mini" ∷ []; chain = t.mini }
    ∷ record { field = "defaults.nano"; path = "defaults" ∷ "nano" ∷ []; chain = t.nano }
    ∷ record {
      field = "autonomous_permission_matcher.classifier_model";
      path = "autonomous_permission_matcher" ∷ "classifier_model" ∷ [];
      chain = t.classifier;
    }
    ∷ []

-- the survivors of a required chain: its first and the rest
unfoldable pub required :
    Result ChainError (List Survivor) → BuildError → Result BuildError (Survivor × List Survivor)
required (err e) empty = err (chain_error e)
required (ok []) empty = err empty
required (ok (s ∷ rest)) empty = ok (s, rest)

unfoldable pub fallback_value : List Survivor → EditValue
fallback_value [] = remove
fallback_value (s ∷ rest) = sequence (map (λ v. v.ref.spelling) (s ∷ rest))

unfoldable pub model_enabled : Mode → ModelBaseline → Bool
model_enabled Mode.disabled b = false
model_enabled _ b = b.enabled

abbrev pub by_key : {A : Type 0} → String × A → String × A → Bool
by_key a b = str_ltb a.0 b.0

module _ {F : Type 0} ⦃fl : Float F⦄ (desired : Desired F) (observed : State F) (target : Target)
    (ranks : RankLookup) where
  -- one field of config.yaml, whose chain is not empty
  unfoldable pub scalar_edit : ScalarField → Result BuildError FieldEdit
  unfolding required
  scalar_edit sp = do
    s ←
        required (resolve_survivors desired observed sp.chain ranks)
          (empty_chain target.id config_file sp.field)
    ok (record { file = config_file; path = sp.path; value = scalar s.0.ref.spelling })

  -- the body of the loop over the fields
  unfoldable pub scalar_step : Bool → Chain → ScalarField → Result BuildError Edits
  scalar_step groups [] sp = ok (record { made = []; skips = [] })
  scalar_step true (c ∷ chain) sp = ok (record {
    made = [];
    skips = record { field = sp.field; reason = model_groups_skip_reason } ∷ [];
  })
  scalar_step false (c ∷ chain) sp = do
    e ← scalar_edit sp
    ok (record { made = e ∷ []; skips = [] })

  unfoldable pub scalar_loop : Bool → List ScalarField → Result BuildError Edits
  unfolding scalar_step
  scalar_loop groups [] = ok (record { made = []; skips = [] })
  scalar_loop groups (sp ∷ fields) = do
    a ← scalar_step groups sp.chain sp
    b ← scalar_loop groups fields
    ok (record { made = a.made ++ b.made; skips = a.skips ++ b.skips })

  -- the body of the loop over the facet and subagent definitions
  unfoldable pub definition_step : Chain → Definition → Result BuildError (List FieldEdit)
  unfolding required
  definition_step [] def = ok []
  definition_step (c ∷ chain) def = do
    s ←
        required (resolve_survivors desired observed def.chain ranks)
          (empty_chain target.id def.path "polytoken.model")
    ok (
        record {
          file = def.path;
          path = "polytoken" ∷ "model" ∷ [];
          value = scalar s.0.ref.spelling;
        }
        ∷ record {
          file = def.path;
          path = "polytoken" ∷ "fallback_models" ∷ [];
          value = fallback_value s.1;
        }
        ∷ [])

  unfoldable pub definition_loop : List Definition → Result BuildError (List FieldEdit)
  unfolding definition_step
  definition_loop [] = ok []
  definition_loop (def ∷ defs) = do
    a ← definition_step def.chain def
    b ← definition_loop defs
    ok (a ++ b)

  -- the enable state of one model of a mapping in the given mode
  unfoldable pub model_edit : Mode → String × ModelBaseline → FieldEdit
  unfolding model_enabled
  model_edit mode (base, b) = record {
    file = config_file;
    path = "models" ∷ base ∷ "enabled" ∷ [];
    value = enabled (model_enabled mode b);
  }

  -- the enable states of one mapping, by the models' names
  unfoldable pub mapping_edits : String × Mapping F → List FieldEdit
  mapping_edits (id, m) =
      map (model_edit (mapping_mode desired observed id)) (stable_sort by_key m.models)

  unfoldable pub model_loop : List (String × Mapping F) → List FieldEdit
  model_loop [] = []
  model_loop (m ∷ ms) = mapping_edits m ++ model_loop ms

  unfoldable pub model_edits : Bool → List FieldEdit
  model_edits false = []
  model_edits true = model_loop (stable_sort by_key desired.providers)

  abbrev pub plan_of : List FieldEdit → List SkippedEdit → Plan
  plan_of edits skipped = record {
    target_id = target.id;
    revision = observed.revision;
    edits = edits;
    skipped = skipped;
    provider_only = false;
  }

  unfoldable pub build_edits : Result BuildError Edits
  build_edits = do
    scalars ← scalar_loop target.uses_model_groups (scalar_fields target)
    defs ← definition_loop target.definitions
    ok (record { made = scalars.made ++ defs ++ model_edits target.global; skips = scalars.skips })

  -- an error comes with the plan that has no edits
  unfoldable pub finish : Result BuildError Edits → Plan × Option BuildError
  finish (ok e) = (plan_of e.made e.skips, none)
  finish (err e) = (plan_of [] [], some e)

  unfoldable pub build : Plan × Option BuildError
  unfolding finish build_edits
  build = finish build_edits
