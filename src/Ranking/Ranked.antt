-- ===== src/Ranking/Ranked.antt =====
-- Proofs about ComputeRanking (internal/service/ranking.go).
use mathlib.Core.List.{Perm, Permᴰ}
use mathlib.Core.Logic.{∥∥₁_elim}
use mathlib.Core.Bool.{Bool-set}
use polytoken_quota.Prelude.{
  ◌≡◌, refl, sym, ap, ◌∙◌, Bool, true, false, ◌&&◌, ◌||◌, Option, none, some, List, [], ◌∷◌, String,
  pos, arith, inl, inr, if◌then◌else◌, Dict, lookup, insert, lookup-insert, member, map, any_true,
  str_eq, str_eq_iff, str_eq_refl, str_ltb, stable_sort, member-stable_sort, is_some, Bool-cases,
  Option-cases,
}
use polytoken_quota.Clock.{Time}
use polytoken_quota.Floats.{Float}
use polytoken_quota.State.{State}
use polytoken_quota.Policy.{Desired, QuotaConfig}
use polytoken_quota.Reconcile.Survivors.{RankLookup}
use polytoken_quota.Routing.{ProviderObs, check_eligibility}
use polytoken_quota.Routing.Rank.{RankEntry, RankingInput, rank, obs_loop}
use polytoken_quota.Routing.Rank.Ranks.{ranked_standing, policy_standing, rank-Perm}
use polytoken_quota.Gate.{sorted_provider_ids}
use polytoken_quota.Ranking.{
  quota_of, routing_policy, ranks_loop, routing_obs, routing_policies, routing_observations,
  ranking_input, compute_ranking,
}

any_true-Permᴰ :
    {A : Type 0} (p : A → Bool) {xs ys : List A} → Permᴰ xs ys → any_true p xs ≡ any_true p ys
any_true-Permᴰ p Permᴰ.nil = refl
any_true-Permᴰ p (Permᴰ.cons e q) = rw (e, any_true-Permᴰ p q)
any_true-Permᴰ p (Permᴰ.swap e f) = rw (e, f) (ground arith)
any_true-Permᴰ p (Permᴰ.trans q r) = any_true-Permᴰ p q ∙ any_true-Permᴰ p r

any_true-Perm :
    {A : Type 0} (p : A → Bool) {xs ys : List A} → Perm xs ys → any_true p xs ≡ any_true p ys
any_true-Perm p q = ∥∥₁_elim q (Bool-set _ _) (any_true-Permᴰ p)

-- a row of the given mapping that is eligible
is_row : String → String × Bool → Bool
is_row id x = x.1 && str_eq x.0 id

is_some-ranks_loop :
    (id : String) (m : RankLookup) (es : List RankEntry)
    → is_some (lookup id (ranks_loop m es))
      ≡ (is_some (lookup id m) || any_true (is_row id) (map ranked_standing es))
unfolding ranks_loop is_row
is_some-ranks_loop id m [] = ground arith
is_some-ranks_loop id m (e ∷ es) = elim (Bool-cases e.eligible) [
  | inr q ↦ rw q (is_some-ranks_loop id m es)
  | inl q ↦
      rw
        (
          q,
          is_some-ranks_loop id (insert e.mapping_id (pos e.rank) m) es,
          lookup-insert e.mapping_id id (pos e.rank) m,
        )
        (ground arith)
]

keys : {A : Type 0} → Dict A → List String
keys m = map (λ entry. entry.0) m

member-keys : {A : Type 0} (id : String) (m : Dict A) → is_some (lookup id m) ≡ member id (keys m)
unfolding keys lookup
member-keys id [] = refl
member-keys id ((k, v) ∷ m) = ground (arith, member-keys id m)

-- One entry that is written first, and the rounds behind it.
merge_found :
    {A : Type 0} (b m : Bool) (x y z : A)
    → (b ≡ true → x ≡ y)
    → (if m then y else if b then x else z) ≡ (if b || m then y else z)
merge_found true true x y z e = refl
merge_found true false x y z e = e refl
merge_found false true x y z e = refl
merge_found false false x y z e = refl

-- the standing of a mapping whose observation is found
found_row :
    {A : Type 0} (o : Option A) (f : A → Bool) (b : Bool) {a : A}
    → o ≡ some a
    → b ≡ true
    → (elim o [ none ↦ false | some x ↦ f x ] && b) ≡ f a
found_row o f b e t = rw (e, t) (ground arith)

-- a row that comes twice
twice : (r rest b m k : Bool) → r ≡ k → rest ≡ (m && k) → b ≡ true → (r || rest) ≡ ((b || m) && k)
twice r rest b m k e f t = rw (e, f, t) (ground arith)

module _ {F : Type 0} ⦃fl : Float F⦄ (desired : Desired F) (observed : State F) where
  -- what CheckEligibility says about the mapping's quota section and its observation
  pub rankable_now : Time → String → Bool
  rankable_now now id = elim (quota_of desired id) [
    | none ↦ false
    | some q ↦
        (check_eligibility (routing_policy id q) (routing_obs desired observed id) now).rankable
  ]

  rankable_now-none :
      (now : Time) (id : String) → quota_of desired id ≡ none → rankable_now now id ≡ false
  unfolding rankable_now
  rankable_now-none now id n = rw (n, rankable_now) refl

  rankable_now-some :
      (now : Time) (id : String) (q : QuotaConfig F)
      → quota_of desired id ≡ some q
      → rankable_now now id
        ≡ (check_eligibility (routing_policy id q) (routing_obs desired observed id) now).rankable
  unfolding rankable_now
  rankable_now-some now id q e = rw (e, rankable_now) refl

  -- a mapping with a quota section is among the sorted IDs
  member-sorted_provider_ids :
      (id : String) (q : QuotaConfig F)
      → quota_of desired id ≡ some q
      → member id (sorted_provider_ids desired) ≡ true
  unfolding sorted_provider_ids quota_of keys
  member-sorted_provider_ids id q e =
      member-stable_sort id str_ltb (keys desired.providers)
      ∙ sym (member-keys id desired.providers)
      ∙ elim (Option-cases (lookup id desired.providers)) [
        | inl n ↦ absurd (let h = rw (n, quota_of) at e in cc)
        | inr (m, f) ↦ rw f refl
      ]

  mapping_id-routing_obs : (id : String) → (routing_obs desired observed id).mapping_id ≡ id
  unfolding routing_obs
  mapping_id-routing_obs id = refl

  -- mappings of which one has a quota section and one has none
  not_same :
      (i id : String) {q : QuotaConfig F}
      → quota_of desired i ≡ none
      → quota_of desired id ≡ some q
      → str_eq i id ≡ false
  not_same i id n e = elim (Bool-cases (str_eq i id)) [
    | inr f ↦ f
    | inl t ↦ let same : i ≡ id = (str_eq_iff i id).0 t in absurd (cc)
  ]

  not_equal :
      (j id : String) {q : QuotaConfig F}
      → quota_of desired j ≡ some q
      → quota_of desired id ≡ none
      → str_eq j id ≡ false
  not_equal j id e n = elim (Bool-cases (str_eq j id)) [
    | inr f ↦ f
    | inl t ↦ let same : j ≡ id = (str_eq_iff j id).0 t in absurd (cc)
  ]

  -- each mapping with a quota section has its observation
  lookup-observations :
      (id : String) (q : QuotaConfig F)
      → quota_of desired id ≡ some q
      → (ids : List String) (m : Dict (ProviderObs F))
      → lookup id (obs_loop m (routing_observations desired observed ids))
        ≡ (if member id ids then some (routing_obs desired observed id) else lookup id m)
  unfolding routing_observations obs_loop
  lookup-observations id q e [] m = refl
  lookup-observations id q e (i ∷ ids) m = elim (Option-cases (quota_of desired i)) [
    | inl n ↦
        let apart : str_eq i id ≡ false = not_same i id n e in
        rw (n, routing_observations) (lookup-observations id q e ids m ∙ rw (apart, member))
    | inr (p, s) ↦
        let o = routing_obs desired observed i in
        let one : lookup id (insert o.mapping_id o m)
            ≡ (if str_eq i id then some o else lookup id m) =
          ap (λ k. lookup id (insert k o m)) (mapping_id-routing_obs i) ∙ lookup-insert i id o m in
        rw (s, routing_observations)
          (lookup-observations id q e ids (insert o.mapping_id o m)
            ∙ ap (λ t. if member id ids then some (routing_obs desired observed id) else t) one
            ∙ merge_found (str_eq i id) (member id ids) (some o)
                (some (routing_obs desired observed id)) (lookup id m)
                (λ w. ap (λ j. some (routing_obs desired observed j)) ((str_eq_iff i id).0 w)))
  ]

  module _ (i : RankingInput F) (id : String) where
    rows : List String → Bool
    rows ids =
        any_true (is_row id) (map (policy_standing i) (routing_policies desired observed ids))

    -- a mapping with no quota section has no row
    rows-none : (ids : List String) → quota_of desired id ≡ none → rows ids ≡ false
    unfolding rows routing_policies is_row routing_policy
    rows-none [] n = refl
    rows-none (j ∷ ids) n = elim (Option-cases (quota_of desired j)) [
      | inl e ↦ rw (e, routing_policies) (rows-none ids n)
      | inr (p, e) ↦
          let apart : str_eq j id ≡ false = not_equal j id e n in
          rw (e, routing_policies) (ground (arith, rows-none ids n))
    ]

    -- the row that a policy in front of the others adds
    policy_row : String → QuotaConfig F → Bool
    policy_row j p = is_row id (policy_standing i (routing_policy j p))

    rows-front :
        (j : String) (p : QuotaConfig F) (ids : List String)
        → quota_of desired j ≡ some p
        → rows (j ∷ ids) ≡ (policy_row j p || rows ids)
    unfolding rows policy_row routing_policies
    rows-front j p ids s = rw (s, routing_policies) refl

    rows-skip :
        (j : String) (ids : List String) → quota_of desired j ≡ none → rows (j ∷ ids) ≡ rows ids
    unfolding rows routing_policies
    rows-skip j ids n = rw (n, routing_policies) refl

    policy_row-other :
        (j : String) (p : QuotaConfig F) → str_eq j id ≡ false → policy_row j p ≡ false
    unfolding policy_row is_row routing_policy
    policy_row-other j p f = rw f (ground arith)

    policy_row-own :
        (q : QuotaConfig F)
        → quota_of desired id ≡ some q
        → lookup id (obs_loop [] i.obs) ≡ some (routing_obs desired observed id)
        → policy_row id q ≡ rankable_now i.now id
    unfolding policy_row is_row routing_policy check_eligibility
    policy_row-own q e found =
        let one : policy_row id q
            ≡ (check_eligibility (routing_policy id q) (routing_obs desired observed id)
                i.now).rankable =
          found_row (lookup id (obs_loop [] i.obs))
            (λ o. (check_eligibility (routing_policy id q) o i.now).rankable) (str_eq id id) found
            (str_eq_refl id) in
        one ∙ sym (rankable_now-some i.now id q e)

    -- a mapping with a quota section has its own row
    rows-some :
        (q : QuotaConfig F)
        → quota_of desired id ≡ some q
        → lookup id (obs_loop [] i.obs) ≡ some (routing_obs desired observed id)
        → (ids : List String) → rows ids ≡ (member id ids && rankable_now i.now id)
    unfolding rows routing_policies
    rows-some q e found [] = refl
    rows-some q e found (j ∷ ids) = elim (Bool-cases (str_eq j id)) [
      | inl t ↦
          let one : j ≡ id = (str_eq_iff j id).0 t in
          let same : quota_of desired j ≡ some q = ap (quota_of desired) one ∙ e in
          let front : policy_row j q ≡ rankable_now i.now id =
            ap (λ k. policy_row k q) one ∙ policy_row-own q e found in
          rows-front j q ids same
          ∙ twice (policy_row j q) (rows ids) (str_eq j id) (member id ids) (rankable_now i.now id)
              front (rows-some q e found ids) t
      | inr f ↦ elim (Option-cases (quota_of desired j)) [
        | inl n ↦ rows-skip j ids n ∙ rows-some q e found ids ∙ rw (f, member)
        | inr (p, s) ↦
            rows-front j p ids s
            ∙ rw (policy_row-other j p f) (rows-some q e found ids ∙ rw (f, member))
      ]
    ]

  -- ComputeRanking's lookup has a rank for a mapping exactly when the mapping's provider has a
  -- quota section and CheckEligibility, given that section and the mapping's aggregated
  -- observation, calls it rankable.
  pub compute_ranking_iff :
      (format_signed : F → String) (now : Time) (id : String)
      → is_some (lookup id (compute_ranking desired observed format_signed now).0)
        ≡ rankable_now now id
  unfolding compute_ranking ranking_input rows lookup stable_sort
  compute_ranking_iff format_signed now id =
      let i = ranking_input desired observed now in
      let ids = sorted_provider_ids desired in
      let found : is_some (lookup id (compute_ranking desired observed format_signed now).0)
          ≡ rows i id ids =
        is_some-ranks_loop id [] (rank format_signed i)
        ∙ any_true-Perm (is_row id) (rank-Perm format_signed i) in
      elim (Option-cases (quota_of desired id)) [
        | inl n ↦ found ∙ rows-none i id ids n ∙ sym (rankable_now-none now id n)
        | inr (q, e) ↦
            let there : member id ids ≡ true = member-sorted_provider_ids id q e in
            let obs : lookup id (obs_loop [] i.obs) ≡ some (routing_obs desired observed id) =
              lookup-observations id q e ids [] ∙ rw there refl in
            found ∙ rows-some i id q e obs ids ∙ rw there refl
      ]
