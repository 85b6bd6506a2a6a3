-- ===== src/State/Ownership.antt =====
-- internal/state/ownership.go: the ownership records and their normalization. Key sanitizing
-- (`sanitizeProviderOwnership`) is not modelled.
use polytoken_quota.Prelude.{
  ◌⊎◌, ◌↔◌, str_eq_iff, ◌≡◌, refl, ap, sym, ◌∙◌, Bool, true, false, not, ◌&&◌, ◌||◌, Option, none,
  some, [], ◌∷◌, String, arith, inl, inr, Dict, lookup, insert, map_entries, lookup-insert,
  lookup-map_entries, map_option, str_eq, if◌then◌else◌, Bool-cases, any_true,
}
use polytoken_quota.Floats.{Float, zero_f}
use polytoken_quota.State.{State, ProviderOwnership}

abbrev pub axis_legacy : String
axis_legacy = ""

abbrev pub axis_signal : String
axis_signal = "signal"

abbrev pub axis_reserve : String
axis_reserve = "reserve"

abbrev pub axis_disabled : String
axis_disabled = "disabled"

unfoldable pub valid_ownership_axis : String → Bool
valid_ownership_axis axis =
    str_eq axis axis_legacy
    || str_eq axis axis_signal
    || str_eq axis axis_reserve
    || str_eq axis axis_disabled

unfoldable pub signal_held : {F : Type 0} → ProviderOwnership F → Bool
signal_held o = o.owned && str_eq o.axis axis_signal

unfoldable pub ownership_map :
    {F : Type 0} → Option (Dict (ProviderOwnership F)) → Dict (ProviderOwnership F)
ownership_map none = []
ownership_map (some m) = m

unfoldable pub ownership_of : {F : Type 0} → State F → String → Option (ProviderOwnership F)
unfolding ownership_map
ownership_of s id = lookup id (ownership_map s.provider_ownership)

-- A copy of a value is the value.
unfoldable pub clone_provider_ownership :
    {F : Type 0} → Option (Dict (ProviderOwnership F)) → Option (Dict (ProviderOwnership F))
clone_provider_ownership m = m

unfoldable pub with_ownership : {F : Type 0} → State F → String → ProviderOwnership F → State F
unfolding ownership_map clone_provider_ownership
with_ownership s id o = record s {
  provider_ownership =
      some (insert id o (ownership_map (clone_provider_ownership s.provider_ownership)));
}

valid_legacy : valid_ownership_axis axis_legacy ≡ true
unfolding valid_ownership_axis str_eq
valid_legacy = refl

-- the axes that the program writes
abbrev pub IsKnownAxis : String → Type 0
IsKnownAxis axis = (axis ≡ "") ⊎ (axis ≡ "signal") ⊎ (axis ≡ "reserve") ⊎ (axis ≡ "disabled")

known_iff : (axis : String) → (valid_ownership_axis axis ≡ true) ↔ IsKnownAxis axis
unfolding valid_ownership_axis
known_iff axis =
    let a = str_eq_iff axis "" in
    let b = str_eq_iff axis "signal" in
    let c = str_eq_iff axis "reserve" in
    let d = str_eq_iff axis "disabled" in (λ h. ground arith, λ h. ground arith)

module _ {F : Type 0} ⦃fl : Float F⦄ where
  -- the loop body: an unknown axis becomes the legacy axis, and its attribution is cleared
  unfoldable pub normalize_entry : ProviderOwnership F → ProviderOwnership F
  normalize_entry v =
      if valid_ownership_axis v.axis
      then v
      else record v { axis = axis_legacy; threshold = zero_f; engaged_revision = 0 }

  unfoldable pub normalize_provider_ownership_axes : State F → State F
  unfolding normalize_entry ownership_map
  normalize_provider_ownership_axes s =
      let m = ownership_map s.provider_ownership in
      if any_true (λ entry. not (valid_ownership_axis entry.1.axis)) m
      then record s { provider_ownership = some (map_entries (λ k v. normalize_entry v) m) }
      else s

  normalize_entry-valid :
      (v : ProviderOwnership F) → valid_ownership_axis (normalize_entry v).axis ≡ true
  unfolding normalize_entry
  normalize_entry-valid v = ground (arith, valid_legacy)

  -- What becomes of a record: with a known axis it stays as it is; with an unknown one it has the
  -- legacy axis, no threshold and no revision, and keeps what it owns, its baseline and its
  -- conflict.
  abbrev pub IsNormalized : ProviderOwnership F → ProviderOwnership F → Type 0
  IsNormalized v w =
      (IsKnownAxis v.axis × (w ≡ v))
      ⊎ ((¬ IsKnownAxis v.axis)
          × (w.axis ≡ "")
          × (w.threshold ≡ zero_f)
          × (w.engaged_revision ≡ 0)
          × (w.owned ≡ v.owned)
          × (w.baseline_present ≡ v.baseline_present)
          × (w.baseline_value ≡ v.baseline_value)
          × (w.conflict ≡ v.conflict))

  IsNormalized-normalize_entry : (v : ProviderOwnership F) → IsNormalized v (normalize_entry v)
  unfolding normalize_entry
  IsNormalized-normalize_entry v = elim (Bool-cases (valid_ownership_axis v.axis)) [
    | inl e ↦ rw e (inl ((known_iff v.axis).0 e, refl))
    | inr e ↦
        rw e (
          inr (λ k. let t = (known_iff v.axis).1 k in cc, refl, refl, refl, refl, refl, refl, refl))
  ]

  -- The records of a provider before and after.
  abbrev pub IsNormalizedAt : Option (ProviderOwnership F) → Option (ProviderOwnership F) → Type 0
  IsNormalizedAt none o = o ≡ none
  IsNormalizedAt (some v) o = (w : ProviderOwnership F) × (o ≡ some w) × IsNormalized v w

  normalized_at :
      (o : Option (ProviderOwnership F)) → IsNormalizedAt o (map_option normalize_entry o)
  normalized_at none = refl
  normalized_at (some v) = (normalize_entry v, refl, IsNormalized-normalize_entry v)

  normalized_entries :
      (m : Dict (ProviderOwnership F))
      → any_true
          (λ entry. not (valid_ownership_axis entry.1.axis))
          (map_entries (λ k v. normalize_entry v) m)
        ≡ false
  unfolding map_entries
  normalized_entries [] = refl
  normalized_entries ((k, v) ∷ m) = ground (arith, normalize_entry-valid v, normalized_entries m)

  all_normal :
      (m : Dict (ProviderOwnership F))
      → any_true (λ entry. not (valid_ownership_axis entry.1.axis)) m ≡ false
      → map_entries (λ k v. normalize_entry v) m ≡ m
  unfolding map_entries normalize_entry
  all_normal [] h = refl
  all_normal ((k, v) ∷ m) h = ground (arith, all_normal m (ground arith))

  normalized_lookup :
      (s : State F) (id : String)
      → ownership_of (normalize_provider_ownership_axes s) id
        ≡ map_option normalize_entry (ownership_of s id)
  unfolding normalize_provider_ownership_axes ownership_of
  normalized_lookup s id =
      let m : Dict (ProviderOwnership F) = ownership_map s.provider_ownership in
      let each : lookup id (map_entries (λ k v. normalize_entry v) m)
          ≡ map_option normalize_entry (lookup id m) =
        lookup-map_entries (λ k v. normalize_entry v) id m in
      elim (Bool-cases (any_true (λ entry. not (valid_ownership_axis entry.1.axis)) m)) [
        | inl e ↦ rw (e, normalize_provider_ownership_axes) each
        | inr e ↦
            rw (e, normalize_provider_ownership_axes) (ap (lookup id) (sym (all_normal m e)) ∙ each)
      ]

  normalized_twice :
      (s : State F)
      → normalize_provider_ownership_axes (normalize_provider_ownership_axes s)
        ≡ normalize_provider_ownership_axes s
  unfolding normalize_provider_ownership_axes
  normalized_twice s =
      let m : Dict (ProviderOwnership F) = ownership_map s.provider_ownership in
      elim (Bool-cases (any_true (λ entry. not (valid_ownership_axis entry.1.axis)) m)) [
        | inl e ↦
            rw (e, normalize_provider_ownership_axes)
              (rw (normalized_entries m, normalize_provider_ownership_axes))
        | inr e ↦
            rw (e, normalize_provider_ownership_axes) (rw (e, normalize_provider_ownership_axes))
      ]

  -- After the normalization a provider has a record exactly where it had one. A record with a
  -- known axis (legacy, signal, reserve or disabled) is unchanged; one with another axis has the
  -- legacy axis, no threshold and no engaged revision, and keeps what it owns, its baseline and its
  -- conflict. Normalizing again changes nothing.
  pub normalize_provider_ownership_axes_lem :
      (s : State F) (id : String)
      → let next = normalize_provider_ownership_axes s in
        IsNormalizedAt (ownership_of s id) (ownership_of next id)
        × (normalize_provider_ownership_axes next ≡ next)
  normalize_provider_ownership_axes_lem s id =
      (rw (normalized_lookup s id) (normalized_at (ownership_of s id)), normalized_twice s)

-- A record that is written is read back, and the other providers' records stay.
pub ownership_of-with_ownership :
    {F : Type 0} (s : State F) (id j : String) (o : ProviderOwnership F)
    → ownership_of (with_ownership s id o) j ≡ (if str_eq id j then some o else ownership_of s j)
unfolding ownership_of with_ownership
ownership_of-with_ownership s id j o = lookup-insert id j o (ownership_map s.provider_ownership)
