-- ===== src/Reconcile/Order.antt =====
-- Proofs about `resolveSurvivors` and `EffectiveOrder` of internal/reconcile/reconcile.go.
use mathlib.Core.List.{Perm, perm_append_comm}
use mathlib.Core.List.Perm
use polytoken_quota.Prelude.{
  ◌≡◌, ◌≢◌, ◌∙◌, refl, sym, ap, Bool, true, false, not, Option, none, some, List, [], ◌∷◌, ◌++◌,
  String, arith, inl, inr, map, keep, keep-perm, map-Perm, All, All-keep, All-append, All-map,
  All-both, ok, keep-All, Result-cases, >>=-eq-ok, In,
}
use polytoken_quota.Floats.{Float}
use polytoken_quota.State.{Mode, State}
use polytoken_quota.Policy.{Desired, Chain, resolve_model}
use polytoken_quota.Reconcile.Modes.{mapping_mode}
use polytoken_quota.Reconcile.Overlay.{apply_routing_overlay-perm, apply_routing_overlay-All}
use polytoken_quota.Reconcile.Survivors.{
  Survivor, ModelRef, RankLookup, parse_ref, baseline_of, baseline_disabled, is_reserve,
  survivor_of, add_survivor, collect, overlay_if, arrange, resolve_survivors, effective_order,
}

module _ {F : Type 0} ⦃fl : Float F⦄ (d : Desired F) (s : State F) where
  -- A survivor is a reference that parses and resolves to its mapping, whose model the baseline
  -- does not disable, and whose mapping's mode it carries and is not "disabled".
  pub record IsUsable (v : Survivor) : Type 0 where
    pub parsed : parse_ref v.ref.spelling ≡ ok v.ref
    pub owner : resolve_model d v.ref.base ≡ ok v.mid
    pub enabled : baseline_disabled (baseline_of d v.mid v.ref.base) ≡ false
    pub current : v.mode ≡ mapping_mode d s v.mid
    pub alive : v.mode ≢ Mode.disabled

  parse_ref-spelling :
      (entry : String) (ref : ModelRef) → parse_ref entry ≡ ok ref → ref.spelling ≡ entry
  unfolding parse_ref
  parse_ref-spelling entry ref h = ground arith

  survivor_of-IsUsable :
      (entry : String) (v : Survivor)
      → survivor_of d s entry ≡ ok (some v)
      → IsUsable v × (v.ref.spelling ≡ entry)
  unfolding survivor_of
  survivor_of-IsUsable entry v h = elim (Result-cases (parse_ref entry)) [
    | inr e ↦ absurd (ground arith)
    | inl r ↦ elim (Result-cases (resolve_model d r.0.base)) [
      | inr e ↦ absurd (ground arith)
      | inl m ↦
          let vr : v.ref ≡ r.0 = ground arith in
          let vm : v.mid ≡ m.0 = ground arith in
          let sp : v.ref.spelling ≡ entry =
            ap (λ (x : ModelRef). x.spelling) vr ∙ parse_ref-spelling entry r.0 r.1 in
          (
            record {
              parsed = ap parse_ref sp ∙ r.1 ∙ ap ok (sym vr);
              owner = rw (vr, vm) m.1;
              enabled = rw (vr, vm) (ground arith);
              current = rw vm (ground arith);
              alive = λ e. ground arith;
            },
            sp,
          )
    ]
  ]

  abbrev pub FromChain : Chain → Survivor → Type 0
  FromChain chain v = IsUsable v × In v.ref.spelling chain

  All-add_survivor :
      (P : Survivor → Type 0) (o : Option Survivor) (rest : List Survivor)
      → ((v : Survivor) → o ≡ some v → P v)
      → All P rest
      → All P (add_survivor o rest)
  All-add_survivor P none rest f h = h
  All-add_survivor P (some v) rest f h = (f v refl, h)

  -- The survivors in desired order: usable, and each an entry of the chain.
  collect-IsUsable :
      (chain : Chain) (sv : List Survivor) → collect d s chain ≡ ok sv → All (FromChain chain) sv
  unfolding collect
  collect-IsUsable [] sv h = let e : sv ≡ [] = ground arith in rw e tt
  collect-IsUsable (entry ∷ chain) sv h =
      let (o, eo, h') = >>=-eq-ok (survivor_of d s entry) _ h in
      let (rest, er, h'') = >>=-eq-ok (collect d s chain) _ h' in
      let e : sv ≡ add_survivor o rest = ground arith in
      rw e (
        All-add_survivor (FromChain (entry ∷ chain)) o rest
          (λ v eq. let (u, sp) = survivor_of-IsUsable entry v (eo ∙ ap ok eq) in (u, inl (sym sp)))
          (All-map (FromChain chain) (FromChain (entry ∷ chain)) rest (λ v k. (k.0, inr k.1))
            (collect-IsUsable chain rest er)))

  -- Two blocks of survivors: first those in mode "normal", then those in reserve.
  abbrev pub IsPartitioned : List Survivor → Type 0
  IsPartitioned sv =
      (normal : List Survivor) × (reserve : List Survivor) × (sv ≡ normal ++ reserve)
      × All (λ v. v.mode ≡ Mode.normal) normal
      × All (λ v. v.mode ≡ Mode.reserve) reserve

  overlay_if-All :
      (enabled : Bool) (P : Survivor → Type 0) (ranks : RankLookup) (sv : List Survivor)
      → All P sv
      → All P (overlay_if enabled d ranks sv)
  unfolding overlay_if
  overlay_if-All true P ranks sv h = apply_routing_overlay-All d ranks P sv h
  overlay_if-All false P ranks sv h = h

  overlay_if-perm :
      (enabled : Bool) (ranks : RankLookup) (sv : List Survivor)
      → Perm (overlay_if enabled d ranks sv) sv
  unfolding overlay_if
  overlay_if-perm true ranks sv = apply_routing_overlay-perm d ranks sv
  overlay_if-perm false ranks sv = Perm.refl sv

  arrange-All :
      (P : Survivor → Type 0) (ranks : RankLookup) (sv : List Survivor)
      → All P sv
      → All P (arrange d ranks sv)
  unfolding arrange
  arrange-All P ranks sv h =
      All-append P _ _
        (overlay_if-All d.routing.enabled P ranks _
          (All-keep P (λ v. not (is_reserve v.mode)) sv h))
        (overlay_if-All d.routing.enabled P ranks _ (All-keep P (λ v. is_reserve v.mode) sv h))

  arrange-perm : (ranks : RankLookup) (sv : List Survivor) → Perm (arrange d ranks sv) sv
  unfolding arrange
  arrange-perm ranks sv =
      Perm.trans
        (Perm.append (overlay_if-perm d.routing.enabled ranks _)
          (overlay_if-perm d.routing.enabled ranks _))
        (Perm.trans
          (perm_append_comm (keep (λ v. not (is_reserve v.mode)) sv)
            (keep (λ v. is_reserve v.mode) sv))
          (Perm.symm (keep-perm (λ v. is_reserve v.mode) sv)))

  not_reserve : (v : Survivor) → IsUsable v → not (is_reserve v.mode) ≡ true → v.mode ≡ Mode.normal
  unfolding is_reserve
  not_reserve v u h = let a : v.mode ≢ Mode.disabled = u.alive in ground arith

  reserve_mode : (v : Survivor) → is_reserve v.mode ≡ true → v.mode ≡ Mode.reserve
  unfolding is_reserve
  reserve_mode v h = ground arith

  arrange-IsPartitioned :
      (ranks : RankLookup) (sv : List Survivor)
      → All IsUsable sv
      → IsPartitioned (arrange d ranks sv)
  unfolding arrange
  arrange-IsPartitioned ranks sv h =
      let pn = λ (v : Survivor). not (is_reserve v.mode) in
      let pr = λ (v : Survivor). is_reserve v.mode in
      let hn : All (λ v. v.mode ≡ Mode.normal) (keep pn sv) =
        All-map _ _ (keep pn sv) (λ v k. not_reserve v k.0 k.1)
          (All-both _ _ (keep pn sv) (All-keep IsUsable pn sv h) (keep-All pn sv)) in
      let hr : All (λ v. v.mode ≡ Mode.reserve) (keep pr sv) =
        All-map _ _ (keep pr sv) reserve_mode (keep-All pr sv) in
      (
        overlay_if d.routing.enabled d ranks (keep pn sv),
        overlay_if d.routing.enabled d ranks (keep pr sv),
        refl,
        overlay_if-All d.routing.enabled _ ranks _ hn,
        overlay_if-All d.routing.enabled _ ranks _ hr,
      )

  -- Every survivor of a chain is one of its entries, resolves to the mapping it names, is enabled
  -- by the baseline and has a mode that is not "disabled"; and the survivors in mode "normal" stand
  -- before those in reserve.
  pub resolve_survivors_lem :
      (chain : Chain) (ranks : RankLookup) (sv : List Survivor)
      → resolve_survivors d s chain ranks ≡ ok sv
      → All (FromChain chain) sv × IsPartitioned sv
  unfolding resolve_survivors
  resolve_survivors_lem chain ranks sv h =
      let (found, ef, h') = >>=-eq-ok (collect d s chain) _ h in
      let e : sv ≡ arrange d ranks found = ground arith in
      let from = collect-IsUsable chain found ef in
      rw e (
        arrange-All (FromChain chain) ranks found from,
        arrange-IsPartitioned ranks found (All-map _ _ found (λ v k. k.0) from),
      )

  -- Where the entries of a chain resolve, the effective order exists and is a permutation of the
  -- surviving entries, whatever the ranks are.
  pub effective_order-perm :
      (chain : Chain) (ranks : RankLookup)
      → (found : List Survivor) → collect d s chain ≡ ok found
      → (order : List String) × (effective_order d s chain ranks ≡ ok order)
        × Perm order (map (λ v. v.ref.spelling) found)
  unfolding effective_order resolve_survivors
  effective_order-perm chain ranks found h = (
    map (λ v. v.ref.spelling) (arrange d ranks found),
    simp h,
    map-Perm (λ v. v.ref.spelling) (arrange-perm ranks found),
  )
