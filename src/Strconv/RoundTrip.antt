-- ===== src/Strconv/RoundTrip.antt =====
-- Atoi reads what Itoa writes.
use Prim.Native.Char.{code}
use text.Mathlib.TextEquality.{eq_iff}
use text.Mathlib.TextLemmas.{cons-ne-nil}
use community_waste_collecti.Base.{
  ℕ, zero, suc, ◌+◌, ◌-◌, ◌*◌, ◌/◌, ◌%◌, ◌≤◌, ◌<◌, ◌≡◌, refl, sym, ◌∙◌, ap, inl, inr, String, true,
  false, some, ◌==◌, nat_eq, string_eq, arith, ltb, leb, Bool-cases, pos,
}
use community_waste_collecti.Strconv.{digits_from, max_int, atoi, digit, itoa, itoa_from}

digit_code : (d : ℕ) → d < 10 → code (digit d) ≡ 48 + d
digit_code zero h = refl
digit_code (suc zero) h = refl
digit_code (suc (suc zero)) h = refl
digit_code (suc (suc (suc zero))) h = refl
digit_code (suc (suc (suc (suc zero)))) h = refl
digit_code (suc (suc (suc (suc (suc zero))))) h = refl
digit_code (suc (suc (suc (suc (suc (suc zero)))))) h = refl
digit_code (suc (suc (suc (suc (suc (suc (suc zero))))))) h = refl
digit_code (suc (suc (suc (suc (suc (suc (suc (suc zero)))))))) h = refl
digit_code (suc (suc (suc (suc (suc (suc (suc (suc (suc d))))))))) h = ground arith

digits_from-digit :
    (value d : ℕ) (s : String)
    → d < 10
    → digits_from value (String.◌∷◌ (digit d) s) ≡ digits_from (value * 10 + d) s
unfolding digits_from
digits_from-digit value d s h =
    let from_zero : leb 48 (48 + d) ≡ true = ground arith in
    let to_nine : leb (48 + d) 57 ≡ true = ground arith in
    let back : 48 + d - 48 ≡ d = omega arith in rw (digit_code d h, from_zero, to_nine, back) refl

digits_from-itoa_from :
    (fuel n : ℕ) (s : String) → n < fuel → digits_from 0 (itoa_from fuel n s) ≡ digits_from n s
unfolding itoa_from
digits_from-itoa_from zero n s h = elim h [ ]
digits_from-itoa_from (suc fuel) n s h = elim (Bool-cases (ltb n 10)) [
  | inl small ↦
      rw small
        (digits_from-digit 0 n s (ground arith) ∙ ap (λ (k : ℕ). digits_from k s) (omega arith))
  | inr large ↦ rw large (
      digits_from-itoa_from fuel (n / 10) (String.◌∷◌ (digit (n % 10)) s) (ground arith)
      ∙ digits_from-digit (n / 10) (n % 10) s (omega arith)
      ∙ ap (λ (k : ℕ). digits_from k s) (omega arith))
]

-- The first character of a numeral is a digit.
itoa_from-head :
    (fuel n : ℕ) (s : String)
    → n < fuel
    → (d : ℕ) × (d < 10) × (t : String) × (itoa_from fuel n s ≡ String.◌∷◌ (digit d) t)
unfolding itoa_from
itoa_from-head zero n s h = elim h [ ]
itoa_from-head (suc fuel) n s h = elim (Bool-cases (ltb n 10)) [
  | inl small ↦ (n, ground arith, s, rw small refl)
  | inr large ↦
      rw large (itoa_from-head fuel (n / 10) (String.◌∷◌ (digit (n % 10)) s) (ground arith))
]

-- A digit is no sign, so a text that begins with one is read whole.
atoi_digits :
    (d : ℕ) (t : String) (n : ℕ)
    → d < 10
    → digits_from 0 (String.◌∷◌ (digit d) t) ≡ some n
    → n ≤ max_int
    → atoi (String.◌∷◌ (digit d) t) ≡ some (pos n)
unfolding atoi
atoi_digits d t n small read bound =
    let no_minus : (code (digit d) == 45) ≡ false = rw (digit_code d small) (ground arith) in
    let no_plus : (code (digit d) == 43) ≡ false = rw (digit_code d small) (ground arith) in
    let fits : leb n max_int ≡ true = ground arith in rw (no_minus, no_plus, read, fits) refl

-- Atoi reads back what Itoa writes, in the range of an int64.
pub atoi-itoa : (n : ℕ) → n ≤ max_int → atoi (itoa n) ≡ some (pos n)
unfolding itoa digits_from
atoi-itoa n bound =
    let (d, small, t, e) = itoa_from-head (suc n) n "" (omega arith) in
    let read : digits_from 0 (itoa_from (suc n) n "") ≡ some n =
      digits_from-itoa_from (suc n) n "" (omega arith) in
    rw e (atoi_digits d t n small (rw e at read) bound)

pub itoa_not_empty : (n : ℕ) → (itoa n == "") ≡ false
unfolding itoa
itoa_not_empty n =
    let (d, small, t, e) = itoa_from-head (suc n) n "" (omega arith) in
    elim (Bool-cases (itoa_from (suc n) n "" == "")) [
      | inl same ↦ absurd (cons-ne-nil (digit d) t (sym e ∙ (eq_iff _ _).0 same))
      | inr other ↦ other
    ]
