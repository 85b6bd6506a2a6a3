-- ===== src/Routing/Rank/Keys.antt =====
-- The keys of rankItem.less in internal/routing/policy.go, one lexicographic step at a time.
use polytoken_quota.Prelude.{
  ℕ, ◌+◌, ◌≤◌, ◌≡◌, Bool, true, false, not, ◌&&◌, arith, ◌↔◌, ℤ, eq_ℤ, ltb_ℤ, if◌then◌else◌,
  bool_eq,
}

-- an order of two integers that the tests decide
pub ltb-asym : (a b : ℤ) → ltb_ℤ a b ≡ true → ltb_ℤ b a ≡ false
ltb-asym a b h = ground arith

pub ltb-through : (a b c : ℤ) → ltb_ℤ b a ≡ false → ltb_ℤ c b ≡ false → ltb_ℤ c a ≡ false
ltb-through a b c h k = ground arith

pub eq-ltb : (a b : ℤ) → eq_ℤ a b ≡ (not (ltb_ℤ a b) && not (ltb_ℤ b a))
eq-ltb a b = ground arith

-- one lexicographic step: the first keys, and the order that the rest of the keys have
unfoldable pub lex : ℤ → ℤ → Bool → Bool
lex a b rest = if not (eq_ℤ a b) then ltb_ℤ a b else rest

pub lex-through :
    (a b c : ℤ) (ba cb ca : Bool)
    → (ba ≡ false → cb ≡ false → ca ≡ false)
    → lex b a ba ≡ false
    → lex c b cb ≡ false
    → lex c a ca ≡ false
unfolding lex
lex-through a b c ba cb ca rest h k = ground (
  arith,
  ltb-through a b c,
  eq-ltb b a,
  eq-ltb c b,
  eq-ltb c a,
  ltb-through b a c,
  ltb-through a c b,
  ltb-asym b a,
  ltb-asym c b,
  ltb-asym c a,
)

unfoldable pub peak_key : Bool → Bool → Bool → Bool
peak_key a b rest = if not (bool_eq a b) then a else rest

pub peak_key-through :
    (a b c ba cb ca : Bool)
    → (ba ≡ false → cb ≡ false → ca ≡ false)
    → peak_key b a ba ≡ false
    → peak_key c b cb ≡ false
    → peak_key c a ca ≡ false
unfolding peak_key
peak_key-through a b c ba cb ca rest h k = ground arith

pub same_rest :
    (a b : Bool) (v w : ℤ)
    → (bool_eq a b && eq_ℤ v w) ≡ (not (peak_key a b (ltb_ℤ w v)) && not (peak_key b a (ltb_ℤ v w)))
unfolding peak_key
same_rest a b v w = ground (arith, eq-ltb v w)

pub same_lex :
    (c d : ℤ) (r s t : Bool)
    → t ≡ (not r && not s)
    → (if not (eq_ℤ c d) then false else t) ≡ (not (lex c d r) && not (lex d c s))
unfolding lex
same_lex c d r s t e = ground (arith, eq-ltb c d, eq-ltb d c)

pub chain_flags :
    (xz zx xy yx yz zy : Bool)
    → yx ≡ false
    → zy ≡ false
    → zx ≡ false
    → (xz ≡ false → xy ≡ false)
    → (xz ≡ false → yz ≡ false)
    → (xy ≡ false → yz ≡ false → xz ≡ false)
    → (not xz && not zx) ≡ ((not xy && not yx) && (not yz && not zy))
chain_flags xz zx xy yx yz zy a b c d e f = ground arith

pub step_rank :
    (lo r : ℕ) (fp pe fe : Bool)
    → lo ≤ r
    → (lo ≡ r) ↔ (fp ≡ true)
    → fe ≡ (fp && pe)
    → let next = if not pe then r + 1 else r in (lo ≤ next) × ((lo ≡ next) ↔ (fe ≡ true))
step_rank lo r fp true fe le same e =
    (le, (λ q. ground (arith, same.0 q), λ q. same.1 (ground arith)))
step_rank lo r fp false fe le same e =
    (omega arith, (λ q. absurd (omega arith), λ q. absurd (ground arith)))
