-- ===== src/Policy.antt =====
-- internal/policy/types.go, and the graph queries of internal/policy/load.go. The operational
-- settings and the selection settings of `Desired`, and the reading of desired.yaml, are not
-- modelled.
pub mod ModelRef
pub mod Owner
use Prim.Native.Char.{Char, code}
use polytoken_quota.Prelude.{
  ℕ, zero, suc, ◌*◌, ◌≡◌, Bool, true, false, not, ◌&&◌, ◌||◌, Option, none, some, List, [], ◌∷◌,
  String, ℤ, ◌==◌, if◌then◌else◌, Dict, lookup, is_empty, is_some, Result, ok, err,
}
use polytoken_quota.Clock.{Time, Duration, minute}
use polytoken_quota.Floats.{Float, zero_f}
use polytoken_quota.Schedule.{Schedule}

pub record ModelBaseline : Type 0 where
  pub enabled : Bool
  pub had_enabled_key : Bool

pub record SignalGateConfig (F : Type 0) : Type 0 where
  pub disabled : Bool
  pub threshold : F

pub record QuotaGateConfig : Type 0 where
  pub disabled : Bool

pub record QuotaConfig (F : Type 0) : Type 0 where
  pub adapter : String
  pub freshness_ttl : Duration
  pub balance_group : String
  pub weight : ℤ
  pub monthly_budget_usd : F
  pub schedule : Option Schedule
  pub signal_gate : SignalGateConfig F
  pub gate : QuotaGateConfig

pub record Mapping (F : Type 0) : Type 0 where
  pub models : Dict ModelBaseline
  pub keep_enabled : Bool
  pub quota : Option (QuotaConfig F)

abbrev pub Chain : Type 0
Chain = List String

pub record Definition : Type 0 where
  pub path : String
  pub chain : Chain

pub record Target : Type 0 where
  pub id : String
  pub root : String
  pub global : Bool
  pub definitions : List Definition
  pub full : Chain
  pub mini : Chain
  pub nano : Chain
  pub classifier : Chain
  pub uses_model_groups : Bool

pub record RoutingConfig : Type 0 where
  pub enabled : Bool

pub data PolicyMode : Type 0 where
  legacy provider_only : PolicyMode

pub record Desired (F : Type 0) : Type 0 where
  pub version : ℤ
  pub providers : Dict (Mapping F)
  pub global : Target
  pub projects : List Target
  pub mode : PolicyMode
  pub routing : RoutingConfig

-- DefaultQuotaFreshness
abbrev pub default_quota_freshness : ℕ
default_quota_freshness = 30 * minute

-- SignalGateConfig.Resolved
unfoldable pub resolved : {F : Type 0} ⦃fl : Float F⦄ → SignalGateConfig F → SignalGateConfig F
resolved ⦃fl⦄ p =
    if fl.ltb_f zero_f p.threshold || fl.is_nan p.threshold || fl.is_inf p.threshold
    then record p { threshold = zero_f }
    else p

pub data ModelRefError : Type 0 where
  empty_reference unbalanced_suffix empty_base malformed_suffix : ModelRefError

pub data ResolveError : Type 0 where
  unresolved ambiguous : ResolveError

-- the variables of the loop in ResolveModel
owner_loop : {F : Type 0} → String → String → ℕ → Dict (Mapping F) → String × ℕ
owner_loop base found count [] = (found, count)
owner_loop base found count ((id, m) ∷ rest) =
    let has = is_some (lookup base m.models) in
    owner_loop base (if has then id else found) (if has then suc count else count) rest

owner_of : String → ℕ → Result ResolveError String
owner_of found zero = err unresolved
owner_of found (suc zero) = ok found
owner_of found (suc (suc n)) = err ambiguous

unfoldable pub resolve_model : {F : Type 0} → Desired F → String → Result ResolveError String
unfolding owner_loop owner_of
resolve_model d base = let (found, count) = owner_loop base "" 0 d.providers in owner_of found count

prepend : Char → Option (String × String) → Option (String × String)
prepend x none = none
prepend x (some (a, b)) = some (String.◌∷◌ x a, b)

-- The text before the first `c`, and the text behind it: strings.IndexByte with the two slices.
unfoldable pub cut : ℕ → String → Option (String × String)
unfolding prepend
cut c String.[] = none
cut c (String.◌∷◌ x s) =
    let rest = cut c s in if code x == c then some (String.[], s) else prepend x rest

extend : Char → Option (String × Char) → String × Char
extend x none = (String.[], x)
extend x (some (a, y)) = (String.◌∷◌ x a, y)

-- all but the last character, and the last
unfoldable pub split_last : String → Option (String × Char)
unfolding extend
split_last String.[] = none
split_last (String.◌∷◌ x s) = some (extend x (split_last s))

unfoldable pub has_code : ℕ → String → Bool
has_code c String.[] = false
has_code c (String.◌∷◌ x s) = code x == c || has_code c s

-- the test of the last byte, and of what stands between the parentheses
suffix_of : String → Option (String × Char) → Result ModelRefError (String × String)
suffix_of base none = err malformed_suffix
suffix_of base (some (inner, last)) =
    if not (code last == b')')
    then err malformed_suffix
    else if is_empty inner || has_code b'(' inner || has_code b')' inner
    then err malformed_suffix
    else ok (base, inner)

split_entry : String → Option (String × String) → Result ModelRefError (String × String)
unfolding suffix_of
split_entry entry none = if has_code b')' entry then err unbalanced_suffix else ok (entry, "")
split_entry entry (some (base, rest)) =
    if is_empty base then err empty_base else suffix_of base (split_last rest)

unfoldable pub parse_model_ref : String → Result ModelRefError (String × String)
unfolding split_entry
parse_model_ref entry =
    if is_empty entry then err empty_reference else split_entry entry (cut b'(' entry)
