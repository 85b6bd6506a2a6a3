-- ===== src/Gate/PlanLaws.antt =====
-- Proofs about the loop of planProviderGate (internal/service/provider_gate.go): the plan does
-- with each enrolled provider what the decision on it says, and nothing with any other.
use polytoken_quota.Prelude.{
  ◌≡◌, refl, ap, ◌∙◌, Bool, true, false, ◌&&◌, ◌||◌, Option, none, some, List, [], ◌∷◌, ◌++◌,
  String, arith, if◌then◌else◌, Dict, lookup, lookup-insert, lookup-delete, member, str_eq,
  str_eq_iff, str_eq_refl, member-append,
}
use polytoken_quota.Floats.{Float}
use polytoken_quota.State.{ProviderOwnership}
use polytoken_quota.State.Ownership.{ownership_map}
use polytoken_quota.Reconcile.Plans.{FieldEdit, EditValue, scalar, sequence, enabled, remove}
use polytoken_quota.Gate.{LiveField, ProviderGatePlan, provider_field_edit}
use polytoken_quota.Gate.Decide.{ClaimChange, keep_claim, put_claim, drop_claim, Facts, decide}
use polytoken_quota.Gate.Decisions.{claim_after}
use polytoken_quota.Gate.Rounds.{field_after}
use polytoken_quota.Gate.Plans.{apply_claim, list_if, edits_of, add_decision, plan_loop}

path_eq : List String → List String → Bool
path_eq [] [] = true
path_eq (a ∷ p) (b ∷ q) = str_eq a b && path_eq p q
path_eq _ _ = false

-- What a list of edits does to the key `providers.<id>.enabled`: the edits of that path, in order.
unfoldable pub field_with : List FieldEdit → String → LiveField → LiveField
unfolding field_after path_eq
field_with [] id lf = lf
field_with (e ∷ es) id lf = field_with es id (
    if path_eq e.path ("providers" ∷ id ∷ "enabled" ∷ [])
    then field_after (some e.value) lf
    else lf)

field_with-append :
    (es fs : List FieldEdit) (id : String) (lf : LiveField)
    → field_with (es ++ fs) id lf ≡ field_with fs id (field_with es id lf)
unfolding field_with
field_with-append [] fs id lf = refl
field_with-append (e ∷ es) fs id lf = field_with-append es fs id _

path_eq-providers :
    (i id : String)
    → path_eq ("providers" ∷ i ∷ "enabled" ∷ []) ("providers" ∷ id ∷ "enabled" ∷ []) ≡ str_eq i id
unfolding path_eq
path_eq-providers i id = ground (arith, str_eq_refl "providers", str_eq_refl "enabled")

field_after-none : (lf : LiveField) → field_after none lf ≡ lf
unfolding field_after
field_after-none lf = refl

field_with-edits_of :
    (i id : String) (o : Option EditValue) (lf : LiveField)
    → field_with (edits_of i o) id lf ≡ (if str_eq i id then field_after o lf else lf)
unfolding edits_of field_with provider_field_edit
field_with-edits_of i id none lf = ground (arith, field_after-none lf)
field_with-edits_of i id (some v) lf = rw (path_eq-providers i id)

field_after_twice :
    (o : Option EditValue) (lf : LiveField) → field_after o (field_after o lf) ≡ field_after o lf
unfolding field_after
field_after_twice none lf = refl
field_after_twice (some (scalar s)) lf = refl
field_after_twice (some (sequence s)) lf = refl
field_after_twice (some (enabled b)) lf = refl
field_after_twice (some remove) lf = refl

member-list_if : (b : Bool) (i id : String) → member id (list_if b i) ≡ (str_eq i id && b)
unfolding list_if
member-list_if true i id = ground arith
member-list_if false i id = ground arith

-- One round for provider `i` (`b` says that it is the one asked for), then the others.
merge :
    {A : Type 0} (b m : Bool) (g h : A → A) (x : A)
    → (b ≡ true → g ≡ h)
    → h (h x) ≡ h x
    → (let y = if b then g x else x in if m then h y else y) ≡ (if b || m then h x else x)
merge true true g h x e k = rw (e refl) k
merge true false g h x e k = rw (e refl)
merge false true g h x e k = refl
merge false false g h x e k = refl

both_flags : (d m : Bool) → (d || (m && d)) ≡ d
both_flags true m = refl
both_flags false m = ground arith

merge_flag :
    (p b m c d : Bool) → (b ≡ true → c ≡ d) → ((p || (b && c)) || (m && d)) ≡ (p || ((b || m) && d))
merge_flag true b m c d e = refl
merge_flag false true m c d e = rw (e refl) (both_flags d m)
merge_flag false false m c d e = refl

module _ {F : Type 0} ⦃fl : Float F⦄ where
  claim_after_twice :
      (c : ClaimChange F) (o : Option (ProviderOwnership F))
      → claim_after c (claim_after c o) ≡ claim_after c o
  unfolding claim_after
  claim_after_twice keep_claim o = refl
  claim_after_twice (put_claim r) o = refl
  claim_after_twice drop_claim o = refl

  no_entry : (id : String) → lookup id (ownership_map {F = F} none) ≡ none
  unfolding lookup ownership_map
  no_entry id = refl

  lookup-apply_claim :
      (c : ClaimChange F) (i id : String) (m : Option (Dict (ProviderOwnership F)))
      → lookup id (ownership_map (apply_claim c i m)) ≡ (
          if str_eq i id
          then claim_after c (lookup id (ownership_map m))
          else lookup id (ownership_map m))
  unfolding apply_claim ownership_map claim_after
  lookup-apply_claim keep_claim i id m = ground arith
  lookup-apply_claim (put_claim r) i id m = lookup-insert i id r (ownership_map m)
  lookup-apply_claim drop_claim i id none = ground (arith, no_entry id)
  lookup-apply_claim drop_claim i id (some m) = lookup-delete i id m

  -- what a plan says about one provider, by the facts of each
  module _ (facts : String → Facts F) (id : String) where
    pub plan_loop-field :
        (ids : List String) (plan : ProviderGatePlan F) (lf : LiveField)
        → let before = field_with plan.edits id lf in
          field_with (plan_loop facts ids plan).edits id lf
          ≡ (if member id ids then field_after (decide (facts id)).edit before else before)
    unfolding plan_loop add_decision
    plan_loop-field [] plan lf = refl
    plan_loop-field (i ∷ ids) plan lf =
        let f = facts i in
        let next = add_decision i f.verdict f.gate_threshold (decide f) plan in
        let before = field_with plan.edits id lf in
        let one =
          field_with-append plan.edits (edits_of i (decide f).edit) id lf
          ∙ field_with-edits_of i id (decide f).edit before in
        plan_loop-field ids next lf
        ∙ rw one (
            merge (str_eq i id) (member id ids) (field_after (decide f).edit)
              (field_after (decide (facts id)).edit) before
              (λ e. ap (λ j. field_after (decide (facts j)).edit) ((str_eq_iff i id).0 e))
              (field_after_twice (decide (facts id)).edit before))

    pub plan_loop-published :
        (ids : List String) (plan : ProviderGatePlan F)
        → let before = lookup id (ownership_map plan.published_ownership) in
          lookup id (ownership_map (plan_loop facts ids plan).published_ownership)
          ≡ (if member id ids then claim_after (decide (facts id)).published before else before)
    unfolding plan_loop add_decision
    plan_loop-published [] plan = refl
    plan_loop-published (i ∷ ids) plan =
        let f = facts i in
        let next = add_decision i f.verdict f.gate_threshold (decide f) plan in
        let before = lookup id (ownership_map plan.published_ownership) in
        plan_loop-published ids next
        ∙ rw (lookup-apply_claim (decide f).published i id plan.published_ownership) (
            merge (str_eq i id) (member id ids) (claim_after (decide f).published)
              (claim_after (decide (facts id)).published) before
              (λ e. ap (λ j. claim_after (decide (facts j)).published) ((str_eq_iff i id).0 e))
              (claim_after_twice (decide (facts id)).published before))

    pub plan_loop-refusal :
        (ids : List String) (plan : ProviderGatePlan F)
        → let before = lookup id (ownership_map plan.refusal_ownership) in
          lookup id (ownership_map (plan_loop facts ids plan).refusal_ownership)
          ≡ (if member id ids then claim_after (decide (facts id)).refusal before else before)
    unfolding plan_loop add_decision
    plan_loop-refusal [] plan = refl
    plan_loop-refusal (i ∷ ids) plan =
        let f = facts i in
        let next = add_decision i f.verdict f.gate_threshold (decide f) plan in
        let before = lookup id (ownership_map plan.refusal_ownership) in
        plan_loop-refusal ids next
        ∙ rw (lookup-apply_claim (decide f).refusal i id plan.refusal_ownership) (
            merge (str_eq i id) (member id ids) (claim_after (decide f).refusal)
              (claim_after (decide (facts id)).refusal) before
              (λ e. ap (λ j. claim_after (decide (facts j)).refusal) ((str_eq_iff i id).0 e))
              (claim_after_twice (decide (facts id)).refusal before))

    pub plan_loop-conflicts :
        (ids : List String) (plan : ProviderGatePlan F)
        → member id (plan_loop facts ids plan).conflicts
          ≡ (member id plan.conflicts || (member id ids && (decide (facts id)).conflict))
    unfolding plan_loop add_decision
    plan_loop-conflicts [] plan = ground arith
    plan_loop-conflicts (i ∷ ids) plan =
        let f = facts i in
        let next = add_decision i f.verdict f.gate_threshold (decide f) plan in
        plan_loop-conflicts ids next
        ∙ rw
            (
              member-append id plan.conflicts (list_if (decide f).conflict i),
              member-list_if (decide f).conflict i id,
            )
            (merge_flag (member id plan.conflicts) (str_eq i id) (member id ids) (decide f).conflict
              (decide (facts id)).conflict
              (λ e. ap (λ j. (decide (facts j)).conflict) ((str_eq_iff i id).0 e)))
