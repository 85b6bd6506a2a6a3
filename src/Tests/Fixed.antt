-- ===== src/Tests/Fixed.antt =====
-- Fixed-point numbers with 300 units to one: a type of floats for the witnesses. It satisfies the
-- laws of `Float`, and has no NaN and no infinity.
use polytoken_quota.Prelude.{
  ℕ, suc, Bool, ◌+◌, ◌-◌, ◌*◌, ◌/◌, ◌≡◌, true, false, ℤ, pos, negsuc, neg_ℕ, pos_part, neg_part,
  ltb_ℤ, leb_ℤ, leb, if◌then◌else◌, arith, inl, inr, ◌⊎◌, refl, Bool-cases,
}
use polytoken_quota.Floats.{Float}

abbrev diff : ℕ → ℕ → ℤ
diff a b = if leb b a then pos (a - b) else neg_ℕ (b - a)

abbrev scale : ℤ → ℤ
scale (pos n) = pos (n * 300)
scale (negsuc n) = negsuc (n * 300 + 299)

abbrev add : ℤ → ℤ → ℤ
add a b = diff (pos_part a + pos_part b) (neg_part a + neg_part b)

abbrev minus : ℤ → ℤ → ℤ
minus a b = diff (pos_part a + neg_part b) (neg_part a + pos_part b)

abbrev times : ℤ → ℤ → ℤ
times (pos a) (pos b) = pos (a * b / 300)
times (pos a) (negsuc b) = neg_ℕ (a * suc b / 300)
times (negsuc a) (pos b) = neg_ℕ (suc a * b / 300)
times (negsuc a) (negsuc b) = pos (suc a * suc b / 300)

abbrev quotient : ℤ → ℤ → ℤ
quotient (pos a) (pos b) = pos (a * 300 / b)
quotient (pos a) (negsuc b) = neg_ℕ (a * 300 / suc b)
quotient (negsuc a) (pos b) = neg_ℕ (suc a * 300 / b)
quotient (negsuc a) (negsuc b) = pos (suc a * 300 / suc b)

pub cotrans : (a b c : ℤ) → ltb_ℤ a c ≡ true → (ltb_ℤ a b ≡ true) ⊎ (ltb_ℤ b c ≡ true)
cotrans a b c h = elim (Bool-cases (ltb_ℤ a b)) [ inl e ↦ inl e | inr e ↦ inr (ground arith) ]

pub scale_mono : (m n : ℤ) → leb_ℤ m n ≡ true → ltb_ℤ (scale n) (scale m) ≡ false
scale_mono (pos m) (pos n) h = ground arith
scale_mono (pos m) (negsuc n) h = ground arith
scale_mono (negsuc m) (pos n) h = ground arith
scale_mono (negsuc m) (negsuc n) h = ground arith

abbrev larger : ℤ → ℤ → ℤ
larger a b = if ltb_ℤ a b then b else a

abbrev smaller : ℤ → ℤ → ℤ
smaller a b = if ltb_ℤ b a then b else a

pub larger_lem : (a b : ℤ) → (ltb_ℤ (larger a b) a ≡ false) × (ltb_ℤ (larger a b) b ≡ false)
larger_lem a b = elim (Bool-cases (ltb_ℤ a b)) [
  | inl e ↦ rw e (ground arith, ground arith)
  | inr e ↦ rw e (ground arith, e)
]

pub smaller_lem : (a b : ℤ) → (ltb_ℤ a (smaller a b) ≡ false) × (ltb_ℤ b (smaller a b) ≡ false)
smaller_lem a b = elim (Bool-cases (ltb_ℤ b a)) [
  | inl e ↦ rw e (ground arith, ground arith)
  | inr e ↦ rw e (ground arith, e)
]

larger-cases : (a b : ℤ) → (larger a b ≡ a) ⊎ (larger a b ≡ b)
larger-cases a b = elim (Bool-cases (ltb_ℤ a b)) [ inl e ↦ inr (rw e) | inr e ↦ inl (rw e) ]

pub larger-case : (a b : ℤ) → (larger a b ≡ a) ⊎ (larger a b ≡ b) ⊎ (false ≡ true)
larger-case a b = elim (larger-cases a b) [ inl e ↦ inl e | inr e ↦ inr (inl e) ]

pub no_nan : (b : Bool) → false ≡ true → b ≡ false
no_nan b h = absurd (cc)

pub asym : (a b : ℤ) → ltb_ℤ a b ≡ true → ltb_ℤ b a ≡ false
asym a b h = ground arith

instance abbrev pub fixed : Float ℤ
fixed = record {
  ltb_f = ltb_ℤ;
  is_nan = λ x. false;
  is_inf = λ x. false;
  of_int = scale;
  add_f = add;
  sub_f = minus;
  mul_f = times;
  div_f = quotient;
  max_f = larger;
  min_f = smaller;
  third = pos 100;
  fifth = pos 60;
  lt-nan_left = λ a b h. no_nan (ltb_ℤ a b) h;
  lt-nan_right = λ a b h. no_nan (ltb_ℤ a b) h;
  lt_asym = asym;
  lt_cotrans = λ a b c n h. cotrans a b c h;
  not-nan-int = λ n. refl;
  zero_lt_one = refl;
  of_int_mono = scale_mono;
  max-not-lt = larger_lem;
  min-not-gt = smaller_lem;
  max-cases = larger-case;
}
