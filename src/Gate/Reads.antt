-- ===== src/Gate/Reads.antt =====
-- Small facts that the theorems on a plan of the provider gate share.
use polytoken_quota.Prelude.{
  ◌≡◌, refl, Bool, true, false, not, ◌&&◌, Option, none, some, List, [], ◌∷◌, String, arith, member,
  is_nil,
}
use polytoken_quota.Floats.{Float}
use polytoken_quota.State.{Mode, ProviderOwnership}
use polytoken_quota.Gate.{LiveField, is_off, is_on, durable_gate_applies}
use polytoken_quota.Gate.Pool.{otherwise_enabled}
use polytoken_quota.Gate.Decisions.{edit_table}

pub no_ids : (id : String) (ids : List String) → is_nil ids ≡ true → member id ids ≡ false
no_ids id [] h = refl
no_ids id (x ∷ xs) h = absurd (cc)

pub untouched :
    {F : Type 0} ⦃fl : Float F⦄ (o : Option (ProviderOwnership F)) → edit_table o false false ≡ none
unfolding edit_table
untouched none = refl
untouched (some r) = refl

pub is_on-not_off : (lf : LiveField) → is_on lf ≡ not (is_off lf)
unfolding is_on is_off
is_on-not_off lf = ground arith

pub counted_lem :
    (gated on held exempt : String → Bool) (mode : String → Mode) (a : String)
    → otherwise_enabled gated on held exempt mode a
      ≡ (on a && not (durable_gate_applies (mode a) (exempt a)))
unfolding otherwise_enabled
counted_lem gated on held exempt mode a = refl

pub and_left : (a b : Bool) → (a && b) ≡ true → a ≡ true
and_left a b h = ground arith

pub not_right : (a b : Bool) → (a && not b) ≡ true → b ≡ false
not_right a b h = ground arith

pub zero_field : LiveField
zero_field = record { present = false; value = false }
