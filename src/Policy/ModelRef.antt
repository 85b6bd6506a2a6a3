-- ===== src/Policy/ModelRef.antt =====
-- Proofs about `ParseModelRef` of internal/policy/load.go: it is the inverse of the spelling
-- `base(suffix)`.
use Prim.Native.Char.{Char, code}
use Prim.Native.String.{◌++◌}
use text.Mathlib.TextLemmas.{nil-append, cons-append}
use text.Mathlib.TextEquality.{Char-path}
use polytoken_quota.Prelude.{
  ℕ, ◌≡◌, ◌⊎◌, ◌∙◌, refl, ap, sym, false, none, some, String, ◌==◌, ok, arith, inl, inr, Bool-cases,
  Option-cases, is_empty,
}
use polytoken_quota.Policy.{cut, split_last, has_code, parse_model_ref}

abbrev pub open_paren : Char
open_paren = "("

abbrev pub close_paren : Char
close_paren = ")"

cut_sound :
    (c : ℕ) (s a b : String)
    → cut c s ≡ some (a, b)
    → (x : Char) × (s ≡ a ++ String.◌∷◌ x b) × (code x ≡ c) × (has_code c a ≡ false)
unfolding cut has_code
cut_sound c String.[] a b h = absurd (cc)
cut_sound c (String.◌∷◌ x s) a b h = elim (Bool-cases (code x == c)) [
  | inl e ↦
      let a0 : a ≡ String.[] = ground arith in
      let b0 : b ≡ s = ground arith in
      (x, rw (a0, b0) (sym (nil-append (String.◌∷◌ x s))), ground arith, rw a0)
  | inr e ↦ elim (Option-cases (cut c s)) [
    | inl n ↦ absurd (ground arith)
    | inr p ↦
        let (y, sy, cy, hy) = cut_sound c s p.0.0 p.0.1 p.1 in
        let a0 : a ≡ String.◌∷◌ x p.0.0 = ground arith in
        let b0 : b ≡ p.0.1 = ground arith in
        (
          y,
          rw (a0, b0) (ap (String.◌∷◌ x) sy ∙ sym (cons-append x p.0.0 (String.◌∷◌ y p.0.1))),
          cy,
          rw a0 (rw e hy),
        )
  ]
]

cut-none : (c : ℕ) (s : String) → cut c s ≡ none → has_code c s ≡ false
unfolding cut has_code
cut-none c String.[] h = refl
cut-none c (String.◌∷◌ x s) h = elim (Option-cases (cut c s)) [
  | inl n ↦ ground (arith, cut-none c s n)
  | inr p ↦ absurd (ground arith)
]

cut_append :
    (c : ℕ) (x : Char) (a b : String)
    → code x ≡ c
    → has_code c a ≡ false
    → cut c (a ++ String.◌∷◌ x b) ≡ some (a, b)
unfolding cut has_code
cut_append c x String.[] b e h = rw (nil-append (String.◌∷◌ x b)) (ground arith)
cut_append c x (String.◌∷◌ y a) b e h =
    rw (cons-append y a (String.◌∷◌ x b)) (ground (arith, cut_append c x a b e))

split_last-none : (s : String) → split_last s ≡ none → s ≡ String.[]
unfolding split_last
split_last-none String.[] h = refl
split_last-none (String.◌∷◌ y s) h = absurd (cc)

split_last_sound :
    (s a : String) (x : Char) → split_last s ≡ some (a, x) → s ≡ a ++ String.◌∷◌ x String.[]
unfolding split_last
split_last_sound String.[] a x h = absurd (cc)
split_last_sound (String.◌∷◌ y s) a x h = elim (Option-cases (split_last s)) [
  | inl n ↦
      let a0 : a ≡ String.[] = ground arith in
      let x0 : x ≡ y = ground arith in
      rw (a0, x0, split_last-none s n) (sym (nil-append (String.◌∷◌ y String.[])))
  | inr p ↦
      let a0 : a ≡ String.◌∷◌ y p.0.0 = ground arith in
      let x0 : x ≡ p.0.1 = ground arith in
      rw (a0, x0)
        (ap (String.◌∷◌ y) (split_last_sound s p.0.0 p.0.1 p.1)
          ∙ sym (cons-append y p.0.0 (String.◌∷◌ p.0.1 String.[])))
]

split_last_append : (a : String) (x : Char) → split_last (a ++ String.◌∷◌ x String.[]) ≡ some (a, x)
unfolding split_last
split_last_append String.[] x = rw (nil-append (String.◌∷◌ x String.[]))
split_last_append (String.◌∷◌ y a) x =
    rw (cons-append y a (String.◌∷◌ x String.[])) (rw (split_last_append a x))

abbrev pub HasNoParen : String → Type 0
HasNoParen s = (has_code b'(' s ≡ false) × (has_code b')' s ≡ false)

-- The spelling of a model with a reasoning suffix.
abbrev pub spell : String → String → String
spell base suffix = base ++ String.◌∷◌ open_paren (suffix ++ String.◌∷◌ close_paren String.[])

nonempty_append : (a : String) (x : Char) (b : String) → is_empty (a ++ String.◌∷◌ x b) ≡ false
nonempty_append String.[] x b = rw (nil-append (String.◌∷◌ x b))
nonempty_append (String.◌∷◌ y a) x b = rw (cons-append y a (String.◌∷◌ x b))

-- ParseModelRef reads the spelling `base(suffix)` back, for a base that is not empty and has no
-- opening parenthesis, and a suffix that is not empty and has no parenthesis.
pub parse_model_ref-spell :
    (base suffix : String)
    → is_empty base ≡ false
    → has_code b'(' base ≡ false
    → is_empty suffix ≡ false
    → HasNoParen suffix
    → parse_model_ref (spell base suffix) ≡ ok (base, suffix)
unfolding parse_model_ref
parse_model_ref-spell base suffix nb hb ns hs =
    let inner : String = suffix ++ String.◌∷◌ close_paren String.[] in
    let step : cut b'(' (base ++ String.◌∷◌ open_paren inner) ≡ some (base, inner) =
      cut_append b'(' open_paren base inner refl hb in
    let tail : split_last inner ≡ some (suffix, close_paren) =
      split_last_append suffix close_paren in
    let full : is_empty (base ++ String.◌∷◌ open_paren inner) ≡ false =
      nonempty_append base open_paren inner in
    rw (full, parse_model_ref) (rw (step, nb) (rw tail (ground arith)))

-- What ParseModelRef accepts is a bare reference with no parenthesis, returned as it is with no
-- suffix, or exactly the spelling `base(suffix)` with the base and the suffix that it returns.
pub parse_model_ref_sound :
    (entry base suffix : String)
    → parse_model_ref entry ≡ ok (base, suffix)
    → ((entry ≡ base) × (suffix ≡ "") × (is_empty base ≡ false) × HasNoParen base)
      ⊎ ((entry ≡ spell base suffix)
          × (is_empty base ≡ false)
          × (has_code b'(' base ≡ false)
          × (is_empty suffix ≡ false)
          × HasNoParen suffix)
unfolding parse_model_ref
parse_model_ref_sound entry base suffix h = elim (Option-cases (cut b'(' entry)) [
  | inl n ↦
      let eb : entry ≡ base = ground arith in
      let np : has_code b'(' entry ≡ false = cut-none b'(' entry n in
      inl (eb, ground arith, rw (← eb) (ground arith), (rw (← eb) np, rw (← eb) (ground arith)))
  | inr p ↦ elim (Option-cases (split_last p.0.1)) [
    | inl n ↦ absurd (ground arith)
    | inr q ↦
        let (x, es, cx, hx) = cut_sound b'(' entry p.0.0 p.0.1 p.1 in
        let er : p.0.1 ≡ q.0.0 ++ String.◌∷◌ q.0.1 String.[] =
          split_last_sound p.0.1 q.0.0 q.0.1 q.1 in
        let xo : x ≡ open_paren = Char-path x open_paren cx in
        let cc' : code q.0.1 ≡ code close_paren = ground arith in
        let yc : q.0.1 ≡ close_paren = Char-path q.0.1 close_paren cc' in
        let b0 : base ≡ p.0.0 = ground arith in
        let s0 : suffix ≡ q.0.0 = ground arith in
        inr (
          rw (b0, s0)
              (es
                ∙ ap (λ (r : String). p.0.0 ++ String.◌∷◌ x r) er
                ∙ ap (λ (c : Char). p.0.0 ++ String.◌∷◌ c (q.0.0 ++ String.◌∷◌ q.0.1 String.[])) xo
                ∙ ap
                    (λ (c : Char). p.0.0 ++ String.◌∷◌ open_paren (q.0.0 ++ String.◌∷◌ c String.[]))
                    yc),
          ground arith,
          rw b0 hx,
          ground arith,
          (ground arith, ground arith),
        )
  ]
]
