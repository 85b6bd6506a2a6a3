-- ===== src/Selection.antt =====
-- internal/selection/policy.go and internal/selection/selector.go: candidate policies, and the
-- choice of a candidate by its quota evidence. The YAML decoding of a policy document is not
-- modelled: `tier_from_wire` of Selection.Wire starts from the decoded lists.
pub mod Candidates
pub mod Wire
pub mod Evidence
pub mod Choice
pub mod Select
pub mod Exclusion
use polytoken_quota.Prelude.{
  ℕ, suc, zero, ◌+◌, ◌≡◌, Bool, true, false, not, ◌&&◌, ◌||◌, Option, none, some, List, [], ◌∷◌,
  ◌++◌, String, ℤ, pos, if◌then◌else◌, ltb, ltb_ℤ, leb_ℤ, ◌==◌, Dict, lookup, length, keep, member,
  is_empty, any_true, Result, ok, err, ◌>>=◌,
}
use polytoken_quota.Clock.{Time}
use polytoken_quota.Floats.{Float}
use polytoken_quota.State.{State}
use polytoken_quota.Policy.{Desired}
use polytoken_quota.Selection.Candidates.{Candidate, Candidacy, classify}

pub data Tier : Type 0 where
  routine normal difficult very_difficult : Tier
  -- a text that names no tier
  other : String → Tier

-- TierIndex: the position in Tiers, none for -1
unfoldable pub tier_index : Tier → Option ℕ
tier_index Tier.routine = some 0
tier_index Tier.normal = some 1
tier_index Tier.difficult = some 2
tier_index Tier.very_difficult = some 3
tier_index (Tier.other s) = none

unfoldable pub valid_tier : Tier → Bool
valid_tier t = elim (tier_index t) [ none ↦ false | some i ↦ true ]

abbrev pub Group : Type 0
Group = List String

pub record TierPolicy : Type 0 where
  pub groups : List Group

-- Go's `map[Tier]TierPolicy`: a tier that is absent has `none`
abbrev pub PhasePolicy : Type 0
PhasePolicy = Tier → Option TierPolicy

pub record Policy : Type 0 where
  pub version : ℤ
  pub phases : Dict PhasePolicy

pub data Kind : Type 0 where
  confirmed uncertain : Kind

pub record Outcome (F : Type 0) : Type 0 where
  pub version : ℤ
  pub phase : String
  pub tier : Tier
  pub reference : String
  pub base : String
  pub suffix : String
  pub mapping : String
  pub kind : Kind
  pub headroom : Option F
  pub evidence : String

pub data SelectError : Type 0 where
  unknown_tier unknown_phase no_tier no_candidate : SelectError

-- One classified candidate and the index of its group.
pub record Scored (F : Type 0) : Type 0 where
  pub c : Candidate F
  pub gi : ℕ

abbrev pub is_confirmed : Candidacy → Bool
is_confirmed Candidacy.confirmed = true
is_confirmed _ = false

abbrev pub is_uncertain : Candidacy → Bool
is_uncertain Candidacy.uncertain = true
is_uncertain _ = false

unfoldable pub build_result : {F : Type 0} → Kind → Candidate F → String → Tier → Outcome F
build_result Kind.confirmed c phase tier = record {
  version = pos 1;
  phase = phase;
  tier = tier;
  reference = c.ref;
  base = c.base;
  suffix = c.suffix;
  mapping = c.mapping;
  kind = Kind.confirmed;
  headroom = c.headroom;
  evidence = "";
}
build_result Kind.uncertain c phase tier = record {
  version = pos 1;
  phase = phase;
  tier = tier;
  reference = c.ref;
  base = c.base;
  suffix = c.suffix;
  mapping = c.mapping;
  kind = Kind.uncertain;
  headroom = none;
  evidence = c.reason;
}

unfoldable pub find_tier : Policy → String → Tier → Result SelectError TierPolicy
find_tier p phase tier =
    if not (valid_tier tier) then err unknown_tier else elim (lookup phase p.phases) [
      | none ↦ err unknown_phase
      | some pp ↦ elim (pp tier) [ none ↦ err no_tier | some tp ↦ ok tp ]
    ]

-- The families of the set: the empty text names none.
abbrev pub families : List String → List String
families excluded = keep (λ f. not (is_empty f)) excluded

module _ {F : Type 0} ⦃fl : Float F⦄ where
  -- `*e.c.headroom > *best.headroom`. A confirmed candidate has a headroom.
  abbrev pub more_headroom : Option F → Option F → Bool
  more_headroom (some h) (some best) = fl.ltb_f best h
  more_headroom _ _ = false

  -- `best == nil || *e.c.headroom > *best.headroom`
  unfoldable pub better : Scored F → Option (Scored F) → Bool
  better e none = true
  better e (some best) = more_headroom e.c.headroom best.c.headroom

  -- the loop over the entries for the best confirmed candidate of a group
  unfoldable pub best_loop : ℕ → Option (Scored F) → List (Scored F) → Option (Scored F)
  unfolding better
  best_loop gi best [] = best
  best_loop gi best (e ∷ entries) =
      best_loop gi (if e.gi == gi && is_confirmed e.c.status && better e best then some e else best)
        entries

  -- the loop over the entries for the first uncertain candidate of a group
  unfoldable pub first_uncertain : ℕ → List (Scored F) → Option (Scored F)
  first_uncertain gi [] = none
  first_uncertain gi (e ∷ entries) =
      if e.gi == gi && is_uncertain e.c.status then some e else first_uncertain gi entries

  -- `for gi := range tp.Groups`, from the group `gi` on, over `n` groups
  unfoldable pub group_loop : (ℕ → Option (Scored F)) → ℕ → ℕ → Option (Scored F)
  group_loop pick gi zero = none
  group_loop pick gi (suc n) = elim (pick gi) [
    | none ↦ group_loop pick (suc gi) n
    | some e ↦ some e
  ]

  module _ (desired : Desired F) (st : State F) (as_of : Time) (excluded : List String) where
    unfoldable pub score_group : ℕ → Group → List (Scored F)
    score_group gi [] = []
    score_group gi (ref ∷ refs) =
        record { c = classify desired st as_of excluded ref; gi = gi } ∷ score_group gi refs

    -- the entries, in policy order
    unfoldable pub score_groups : ℕ → List Group → List (Scored F)
    unfolding score_group
    score_groups gi [] = []
    score_groups gi (g ∷ groups) = score_group gi g ++ score_groups (suc gi) groups

  unfoldable pub choose_uncertain :
      Option (Scored F) → String → Tier → Result SelectError (Outcome F)
  choose_uncertain none phase tier = err no_candidate
  choose_uncertain (some e) phase tier = ok (build_result Kind.uncertain e.c phase tier)

  unfoldable pub choose :
      Option (Scored F) → Option (Scored F) → String → Tier → Result SelectError (Outcome F)
  unfolding choose_uncertain
  choose (some e) fallback phase tier = ok (build_result Kind.confirmed e.c phase tier)
  choose none fallback phase tier = choose_uncertain fallback phase tier

  unfoldable pub select_groups :
      List (Scored F) → ℕ → String → Tier → Result SelectError (Outcome F)
  unfolding choose
  select_groups entries n phase tier =
      choose (group_loop (λ gi. best_loop gi none entries) 0 n)
        (group_loop (λ gi. first_uncertain gi entries) 0 n) phase tier

  unfoldable pub select :
      Policy
      → Desired F
      → State F
      → Time
      → String
      → Tier
      → List String
      → Result SelectError (Outcome F)
  select p desired st as_of phase tier excluded = do
    tp ← find_tier p phase tier
    select_groups (score_groups desired st as_of (families excluded) 0 tp.groups) (length tp.groups)
        phase tier
