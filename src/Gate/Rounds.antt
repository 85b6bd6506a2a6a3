-- ===== src/Gate/Rounds.antt =====
-- One provider over a run of passes of the provider gate (internal/service/provider_gate.go), and
-- what the run comes to for the operator. That an edit of a published pass sets or removes the key
-- is what the document editor is asked for: `field_after`.
use polytoken_quota.Prelude.{
  ◌≡◌, refl, Bool, true, false, not, ◌&&◌, ◌||◌, Option, none, some, List, [], ◌∷◌, arith, inl, inr,
  if◌then◌else◌, Bool-cases,
}
use polytoken_quota.Floats.{Float}
use polytoken_quota.State.{ProviderOwnership}
use polytoken_quota.Reconcile.Plans.{EditValue, enabled, remove}
use polytoken_quota.Gate.{LiveField, is_off}
use polytoken_quota.Gate.Decide.{Facts, decide, owned_claim, signal_gates}
use polytoken_quota.Gate.Decisions.{
  is_gated, edit_table, baseline, baseline_edit, baseline_table, claim_after, decide-edit,
  decide-baseline, IsOwnedClaim, owned_claim_lem,
}

-- the live field under an edit
unfoldable pub field_after : Option EditValue → LiveField → LiveField
field_after (some (enabled b)) lf = record { present = true; value = b }
field_after (some remove) lf = record { present = false; value = false }
field_after _ lf = lf

-- A field that is read from the config has no value where the key is absent.
abbrev pub IsRead : LiveField → Type 0
IsRead lf = lf.present || not lf.value ≡ true

pub record World (F : Type 0) : Type 0 where
  pub field : LiveField
  pub claim : Option (ProviderOwnership F)

-- A pass: what it reads besides the field and the claim, and whether it is published.
pub record Pass (F : Type 0) : Type 0 where
  pub facts : Facts F
  pub published : Bool

-- the live field after a published pass, by the baseline on record
field_table : Option LiveField → Bool → LiveField → LiveField
unfolding is_off
field_table none true lf = if is_off lf then lf else record { present = true; value = false }
field_table (some b) false lf =
    if is_off lf then if b.present then b else record { present = false; value = false } else lf
field_table _ _ lf = lf

-- The abstract view: the operator's field `o`, and whether the gate holds the provider off. The
-- last two arguments are the live field and the baseline on record.
abbrev pub StandsBy : LiveField → Bool → LiveField → Option LiveField → Type 0
StandsBy o false lf b = (lf ≡ o) × (b ≡ none)
StandsBy o true lf b = (is_off lf ≡ true) × (is_off o ≡ false) × (b ≡ some o)

turned_off : is_off (record { present = true; value = false }) ≡ true
unfolding is_off
turned_off = refl

free_step :
    (o : LiveField) (gates : Bool)
    → StandsBy o (gates && not (is_off o)) (field_table none gates o) (baseline_table none gates o)
unfolding field_table baseline_table
free_step o false = (refl, refl)
free_step o true = elim (Bool-cases (is_off o)) [
  | inl e ↦ rw e (refl, refl)
  | inr e ↦ rw e (turned_off, e, refl)
]

held_step :
    (o lf : LiveField) (gates : Bool)
    → IsRead o
    → is_off lf ≡ true
    → is_off o ≡ false
    → StandsBy o
        (gates && not (is_off o))
        (field_table (some o) gates lf)
        (baseline_table (some o) gates lf)
unfolding field_table baseline_table
held_step o lf true read off on = rw on (off, on, refl)
held_step o lf false read off on = rw off (ground arith, refl)

table_step :
    (o : LiveField) (held gates : Bool) (lf : LiveField) (b : Option LiveField)
    → IsRead o
    → StandsBy o held lf b
    → StandsBy o (gates && not (is_off o)) (field_table b gates lf) (baseline_table b gates lf)
unfolding field_table baseline_table is_off
table_step o false gates lf b read (e, n) = rw (e, n) (free_step o gates)
table_step o true gates lf b read (off, on, e) = rw e (held_step o lf gates read off on)

module _ {F : Type 0} ⦃fl : Float F⦄ where
  -- the facts of a pass in a world
  unfoldable pub facts_in : World F → Facts F → Facts F
  facts_in w f = record f { field = w.field; claim = w.claim }

  -- A pass publishes its edit and its ownership map, or it refuses and keeps the field.
  unfoldable pub pass_step : World F → Pass F → World F
  unfolding facts_in field_after claim_after
  pass_step w p =
      let d = decide (facts_in w p.facts) in
      if p.published
      then record { field = field_after d.edit w.field; claim = claim_after d.published w.claim }
      else record { field = w.field; claim = claim_after d.refusal w.claim }

  unfoldable pub run_passes : World F → List (Pass F) → World F
  unfolding pass_step
  run_passes w [] = w
  run_passes w (p ∷ ps) = run_passes (pass_step w p) ps

  abbrev pub Stands : LiveField → Bool → World F → Type 0
  Stands o held w = StandsBy o held w.field (baseline w.claim)

  -- The abstract gate: a published pass holds the provider exactly where some axis gates it and
  -- the operator does not hold it off himself; a refused pass changes nothing.
  unfoldable pub held_after : LiveField → Bool → Pass F → Bool
  unfolding is_gated is_off
  held_after o held p = if p.published then is_gated p.facts && not (is_off o) else held

  unfoldable pub held_at_end : LiveField → Bool → List (Pass F) → Bool
  unfolding held_after
  held_at_end o held [] = held
  held_at_end o held (p ∷ ps) = held_at_end o (held_after o held p) ps

  field-edit_table :
      (c o : Option (ProviderOwnership F)) (gates : Bool) (lf : LiveField)
      → IsOwnedClaim c o
      → field_after (edit_table o gates (is_off lf)) lf ≡ field_table (baseline c) gates lf
  unfolding field_after edit_table field_table baseline baseline_edit
  field-edit_table c none true lf h = ground arith
  field-edit_table c none false lf h = ground arith
  field-edit_table c (some r) true lf h = ground arith
  field-edit_table c (some r) false lf h = ground arith

  decide-field :
      (f : Facts F)
      → field_after (decide f).edit f.field ≡ field_table (baseline f.claim) (is_gated f) f.field
  decide-field f = rw (decide-edit f) (
      field-edit_table f.claim (owned_claim f.claim) (is_gated f) f.field (owned_claim_lem f.claim))

  is_gated-facts_in : (w : World F) (f : Facts F) → is_gated (facts_in w f) ≡ is_gated f
  unfolding facts_in is_gated signal_gates
  is_gated-facts_in w f = refl

  published_step :
      (o : LiveField) (held : Bool) (w : World F) (f : Facts F)
      → IsRead o
      → Stands o held w
      → let d = decide (facts_in w f) in
        Stands o
          (is_gated f && not (is_off o))
          (record { field = field_after d.edit w.field; claim = claim_after d.published w.claim })
  unfolding facts_in
  published_step o held w f read s =
      let k : StandsBy o (is_gated f && not (is_off o))
          (field_table (baseline w.claim) (is_gated f) w.field)
          (baseline_table (baseline w.claim) (is_gated f) w.field) =
        table_step o held (is_gated f) w.field (baseline w.claim) read s in
      let field = decide-field (facts_in w f) in
      let claim = (decide-baseline (facts_in w f)).0 in
      let g = is_gated-facts_in w f in rw (field, claim, g) k

  refused_step :
      (o : LiveField) (held : Bool) (w : World F) (f : Facts F)
      → Stands o held w
      → Stands o held
          (record { field = w.field; claim = claim_after (decide (facts_in w f)).refusal w.claim })
  unfolding facts_in
  refused_step o held w f s = rw (decide-baseline (facts_in w f)).1 s

  pass_step-Stands :
      (o : LiveField) (held : Bool) (w : World F) (p : Pass F)
      → IsRead o
      → Stands o held w
      → Stands o (held_after o held p) (pass_step w p)
  unfolding pass_step held_after
  pass_step-Stands o held w p read s = elim (Bool-cases p.published) [
    | inl e ↦ rw e (published_step o held w p.facts read s)
    | inr e ↦ rw e (refused_step o held w p.facts s)
  ]

  -- With no edit of the operator in between, a run of passes over one provider refines the
  -- abstract gate, which remembers whether it holds the provider off: while it does, the live
  -- field says "off" and the claim records the operator's field; while it does not, the live field
  -- is the operator's and no claim is held. A published pass holds it exactly where some axis gates
  -- it and the operator's own field does not say "off"; a refused pass changes nothing.
  pub run_passes-refines :
      (o : LiveField) (held : Bool) (w : World F) (ps : List (Pass F))
      → IsRead o
      → Stands o held w
      → Stands o (held_at_end o held ps) (run_passes w ps)
  unfolding run_passes held_at_end
  run_passes-refines o held w [] read s = s
  run_passes-refines o held w (p ∷ ps) read s =
      run_passes-refines o (held_after o held p) (pass_step w p) ps read
        (pass_step-Stands o held w p read s)
