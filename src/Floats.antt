-- ===== src/Floats.antt =====
-- Go's `float64`, which the models take as a type `F` with its operations: the comparison, the
-- tests for NaN and the infinities, the arithmetic that the program calls. The laws are the order
-- of IEEE 754: a comparison with NaN is false, and the other values are weakly ordered. Nothing is
-- assumed of rounding.
use polytoken_quota.Prelude.{◌≡◌, Bool, true, false, not, ◌&&◌, ◌⊎◌, ℤ, Bool-cases, inl, inr, leb_ℤ}

pub record Float (F : Type 0) : Type 0 where
  pub ltb_f : F → F → Bool
  pub is_nan : F → Bool
  pub is_inf : F → Bool
  -- the conversion of a whole number
  pub of_int : ℤ → F
  pub add_f : F → F → F
  pub sub_f : F → F → F
  pub mul_f : F → F → F
  pub div_f : F → F → F
  -- math.Max and math.Min
  pub max_f : F → F → F
  pub min_f : F → F → F
  -- the literals of the program that are no whole numbers: 1.0 / 3.0 and 0.20
  pub third : F
  pub fifth : F
  pub lt-nan_left : (a b : F) → is_nan a ≡ true → ltb_f a b ≡ false
  pub lt-nan_right : (a b : F) → is_nan b ≡ true → ltb_f a b ≡ false
  pub lt_asym : (a b : F) → ltb_f a b ≡ true → ltb_f b a ≡ false
  -- a value between two others is above the one or below the other
  pub lt_cotrans :
      (a b c : F) → is_nan b ≡ false → ltb_f a c ≡ true → (ltb_f a b ≡ true) ⊎ (ltb_f b c ≡ true)
  pub not-nan-int : (n : ℤ) → is_nan (of_int n) ≡ false
  pub zero_lt_one : ltb_f (of_int (ℤ.pos 0)) (of_int (ℤ.pos 1)) ≡ true
  -- the conversion is monotone
  pub of_int_mono : (m n : ℤ) → leb_ℤ m n ≡ true → ltb_f (of_int n) (of_int m) ≡ false
  pub max-not-lt : (a b : F) → (ltb_f (max_f a b) a ≡ false) × (ltb_f (max_f a b) b ≡ false)
  pub min-not-gt : (a b : F) → (ltb_f a (min_f a b) ≡ false) × (ltb_f b (min_f a b) ≡ false)
  pub max-cases : (a b : F) → (max_f a b ≡ a) ⊎ (max_f a b ≡ b) ⊎ (is_nan (max_f a b) ≡ true)

-- What the laws give, over any type of floats.
module _ {F : Type 0} ⦃fl : Float F⦄ where
  open fl use {ltb_f, is_nan, lt_cotrans, of_int, lt_asym}

  abbrev pub zero_f : F
  zero_f = of_int (ℤ.pos 0)

  abbrev pub one_f : F
  one_f = of_int (ℤ.pos 1)

  -- a <= b
  abbrev pub leb_f : F → F → Bool
  leb_f a b = not (ltb_f b a) && not (is_nan a) && not (is_nan b)

  -- "not greater than" goes on through a value that is a number
  pub not-gt_trans :
      (a b c : F) → is_nan b ≡ false → ltb_f b a ≡ false → ltb_f c b ≡ false → ltb_f c a ≡ false
  not-gt_trans a b c n h k = elim (Bool-cases (ltb_f c a)) [
    | inr e ↦ e
    | inl e ↦ elim (lt_cotrans c b a n e) [ inl p ↦ cc | inr p ↦ cc ]
  ]

  pub lt_irrefl : (a : F) → ltb_f a a ≡ false
  lt_irrefl a = elim (Bool-cases (ltb_f a a)) [ inr e ↦ e | inl e ↦ lt_asym a a e ]
