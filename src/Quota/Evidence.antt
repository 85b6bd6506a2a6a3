-- ===== src/Quota/Evidence.antt =====
-- internal/quota/evidence.go: the contract evidence of provider adapters, and the gates that it
-- decides. The formatting of a date is the parameter `format_day`; a registry is the list of its
-- records, with one for each provider and contract.
pub mod Release
use Prim.Native.String.{◌++◌}
use polytoken_quota.Prelude.{
  ◌≡◌, Bool, true, false, not, ◌&&◌, ◌||◌, Option, none, some, List, [], ◌∷◌, String, if◌then◌else◌,
  is_empty, is_some, str_eq, str_ltb, stable_sort, member, is_nil,
}
use mathlib.Core.List.{◌++◌ as append}
use polytoken_quota.Clock.{Time, after, is_zero}

pub record Evidence : Type 0 where
  pub provider : String
  pub contract_id : String
  pub endpoint : String
  pub method : String
  pub auth_type : String
  pub schema_note : String
  pub fixture_path : String
  pub recorded_at : Time
  pub review_by : Time

pub data EvidenceState : Type 0 where
  fresh expired incomplete absent : EvidenceState

pub record EvidenceStatus : Type 0 where
  pub state : EvidenceState
  pub reason : String

pub record SupportStatus : Type 0 where
  pub supported : Bool
  pub reason : String

abbrev pub codex_provider_name : String
codex_provider_name = "codex"

abbrev pub codex_usage_contract : String
codex_usage_contract = "usage"

abbrev pub codex_reset_credits_contract : String
codex_reset_credits_contract = "reset_credits"

-- `if test { missing = append(missing, name) }`, in front of what follows
unfoldable pub missing_if : Bool → String → List String → List String
missing_if true name rest = name ∷ rest
missing_if false name rest = rest

unfoldable pub missing_evidence_fields : Evidence → List String
unfolding missing_if
missing_evidence_fields e = missing_if (is_empty e.provider) "provider" (
    missing_if (is_empty e.endpoint) "endpoint" (
      missing_if (is_empty e.method) "method" (
        missing_if (is_empty e.auth_type) "auth_type" (
          missing_if (is_zero e.recorded_at) "recorded_at"
            (missing_if (is_zero e.review_by) "review_by" [])))))

-- strings.Join(parts, ", ")
join : List String → String
join [] = ""
join (s ∷ []) = s
join (s ∷ t ∷ rest) = s ++ ", " ++ join (t ∷ rest)

unfoldable pub is_fresh : EvidenceState → Bool
is_fresh fresh = true
is_fresh _ = false

unfoldable pub get_contract : List Evidence → String → String → Option Evidence
get_contract [] provider contract = none
get_contract (e ∷ es) provider contract =
    if str_eq e.provider provider && str_eq e.contract_id contract
    then some e
    else get_contract es provider contract

-- Register: the record of the same provider and contract is replaced
unfoldable pub register : Evidence → List Evidence → List Evidence
register e [] = e ∷ []
register e (x ∷ xs) =
    if str_eq x.provider e.provider && str_eq x.contract_id e.contract_id
    then e ∷ xs
    else x ∷ register e xs

-- Get
unfoldable pub get_default : List Evidence → String → Option Evidence
unfolding get_contract
get_default reg provider = elim (get_contract reg provider "") [
  | some e ↦ some e
  | none ↦
      if str_eq provider codex_provider_name
      then get_contract reg provider codex_usage_contract
      else none
]

-- the lookup of StatusContract, with the fallback of the usage contract
unfoldable pub status_record : List Evidence → String → String → Option Evidence
unfolding get_contract
status_record reg provider contract = elim (get_contract reg provider contract) [
  | some e ↦ some e
  | none ↦
      if str_eq provider codex_provider_name && str_eq contract codex_usage_contract
      then get_contract reg provider ""
      else none
]

unfoldable pub contracts_of : String → List String
contracts_of provider =
    if str_eq provider codex_provider_name
    then codex_usage_contract ∷ codex_reset_credits_contract ∷ []
    else "" ∷ []

unfoldable pub support_from_evidence : EvidenceStatus → SupportStatus
unfolding is_fresh
support_from_evidence es =
    if is_fresh es.state
    then record { supported = true; reason = "" }
    else record { supported = false; reason = es.reason }

module _ (format_day : Time → String) where
  -- EvaluateEvidence on a record
  unfoldable pub evaluate_record : Evidence → Time → EvidenceStatus
  unfolding missing_evidence_fields join
  evaluate_record e now =
      let missing = missing_evidence_fields e in
      if not (is_nil missing)
      then record {
        state = incomplete;
        reason =
            "provider "
            ++ e.provider
            ++ " contract evidence is incomplete (missing "
            ++ join missing
            ++ "); record complete evidence";
      }
      else if after now e.review_by
      then record {
        state = expired;
        reason =
            "provider "
            ++ e.provider
            ++ " contract evidence expired on "
            ++ format_day e.review_by
            ++ "; re-verify and update";
      }
      else record { state = fresh; reason = "" }

  unfoldable pub evaluate_evidence : Option Evidence → Time → EvidenceStatus
  unfolding evaluate_record
  evaluate_evidence none now = record { state = absent; reason = "" }
  evaluate_evidence (some e) now = evaluate_record e now

  unfoldable pub status_contract : List Evidence → String → String → Time → EvidenceStatus
  unfolding status_record evaluate_record
  status_contract reg provider contract now = elim (status_record reg provider contract) [
    | none ↦ record {
      state = absent;
      reason =
          "provider "
          ++ provider
          ++ (if is_empty contract then "" else "/" ++ contract)
          ++ " has no recorded contract evidence; record evidence before enabling";
    }
    | some e ↦ evaluate_record e now
  ]

  -- Status
  unfoldable pub status_of : List Evidence → String → Time → EvidenceStatus
  unfolding status_contract
  status_of reg provider now =
      status_contract reg provider
        (if str_eq provider codex_provider_name then codex_usage_contract else "") now

  unfoldable pub lacks_fixture : Option Evidence → Bool
  lacks_fixture none = true
  lacks_fixture (some e) = is_empty e.fixture_path

  -- one status of ValidateRelease
  unfoldable pub release_status : List Evidence → String → String → Time → EvidenceStatus
  unfolding status_contract lacks_fixture is_fresh
  release_status reg provider contract now =
      let status = status_contract reg provider contract now in
      if is_fresh status.state && lacks_fixture (get_contract reg provider contract)
      then record {
        state = incomplete;
        reason =
            "provider " ++ provider ++ "/" ++ contract
            ++ " release evidence is incomplete (missing fixture_path); record complete evidence";
      }
      else status

  unfoldable pub contract_loop : List Evidence → String → Time → List String → List EvidenceStatus
  unfolding release_status
  contract_loop reg provider now [] = []
  contract_loop reg provider now (c ∷ cs) =
      release_status reg provider c now ∷ contract_loop reg provider now cs

  unfoldable pub validate_release : List Evidence → List String → Time → List EvidenceStatus
  unfolding contract_loop contracts_of
  validate_release reg [] now = []
  validate_release reg (p ∷ ps) now =
      append (contract_loop reg p now (contracts_of p)) (validate_release reg ps now)
