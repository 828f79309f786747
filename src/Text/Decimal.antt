-- ===== src/Text/Decimal.antt =====
-- What `%d` prints: atoi reads it back, and how long it is.
use dubbo_service_mesh.Base.{
  ℕ, zero, suc, ◌+◌, ◌-◌, ◌*◌, ◌/◌, ◌%◌, ◌<◌, ◌≡◌, ◌≤◌, length, refl, ap, inl, inr, ◌∙◌, true, List,
  [], ◌∷◌, arith, ◌==◌, ℤ, pos, negsuc, All, Bool-cases,
}
use dubbo_service_mesh.Text.{is_digit, digits_value, atoi, decimal_from, decimal, decimal_int}

digits_value-decimal_from :
    (f n : ℕ) (acc : List ℕ) → n < f → digits_value 0 (decimal_from f n acc) ≡ digits_value n acc
unfolding decimal_from digits_value
digits_value-decimal_from zero n acc h = elim h [ ]
digits_value-decimal_from (suc f) n acc h = elim (Bool-cases (n / 10 == 0)) [
  | inl last ↦ rw last (
      let digit : is_digit (b'0' + n % 10) ≡ true = ground arith in
      let value : 0 * 10 + (b'0' + n % 10 - b'0') ≡ n = ground arith in rw (digit, value))
  | inr more ↦ rw more (
      digits_value-decimal_from f (n / 10) _ (ground arith)
      ∙ (let digit : is_digit (b'0' + n % 10) ≡ true = ground arith in
          let value : n / 10 * 10 + (b'0' + n % 10 - b'0') ≡ n = omega arith in rw (digit, value)))
]

decimal_from-digits :
    (f n : ℕ) (acc : List ℕ)
    → All (λ c. is_digit c ≡ true) acc
    → All (λ c. is_digit c ≡ true) (decimal_from f n acc)
unfolding decimal_from
decimal_from-digits zero n acc a = a
decimal_from-digits (suc f) n acc a = elim (Bool-cases (n / 10 == 0)) [
  | inl last ↦ rw last (ground arith, a)
  | inr more ↦ rw more (decimal_from-digits f (n / 10) _ (ground arith, a))
]

pub decimal-digits : (n : ℕ) → All (λ c. is_digit c ≡ true) (decimal n)
unfolding decimal
decimal-digits n = decimal_from-digits (suc n) n [] tt

atoi_digits : (s : List ℕ) → All (λ c. is_digit c ≡ true) s → atoi s ≡ pos (digits_value 0 s)
unfolding atoi digits_value
atoi_digits [] a = refl
atoi_digits (c ∷ cs) a = ground arith

decimal-value : (n : ℕ) → digits_value 0 (decimal n) ≡ n
unfolding decimal digits_value
decimal-value n = digits_value-decimal_from (suc n) n [] (omega arith)

minus : (ds : List ℕ) (n : ℕ) → digits_value 0 ds ≡ suc n → atoi (b'-' ∷ ds) ≡ negsuc n
unfolding atoi
minus ds n v = rw v (ground arith)

-- atoi reads back the number that `%d` has printed.
pub atoi-decimal : (n : ℕ) → atoi (decimal n) ≡ pos n
atoi-decimal n = atoi_digits (decimal n) (decimal-digits n) ∙ ap pos (decimal-value n)

-- The same of an int, the sign included.
pub atoi-decimal_int : (i : ℤ) → atoi (decimal_int i) ≡ i
unfolding decimal_int
atoi-decimal_int (pos n) = atoi-decimal n
atoi-decimal_int (negsuc n) = minus (decimal (suc n)) n (decimal-value (suc n))

-- Ten to the power.
abbrev pub below : ℕ → ℕ
below zero = 1
below (suc k) = below k * 10

length-decimal_from :
    (k f n : ℕ) (acc : List ℕ)
    → n < below (suc k)
    → length (decimal_from f n acc) ≤ suc k + length acc
unfolding decimal_from
length-decimal_from k zero n acc h = omega arith
length-decimal_from zero (suc f) n acc h =
    let one : n / 10 ≡ 0 = omega arith in rw one (omega arith)
length-decimal_from (suc k) (suc f) n acc h = elim (Bool-cases (n / 10 == 0)) [
  | inl last ↦ rw last (omega arith)
  | inr more ↦ rw more (
      let small : n / 10 < below (suc k) = omega arith in
      omega (arith, length-decimal_from k f (n / 10) ((b'0' + n % 10) ∷ acc) small))
]

-- A number below 10 ^ (k + 1) has at most k + 1 digits.
pub length-decimal : (k n : ℕ) → n < below (suc k) → length (decimal n) ≤ suc k
unfolding decimal
length-decimal k n h = omega (arith, length-decimal_from k (suc n) n [] h)
