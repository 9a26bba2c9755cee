-- ===== src/Json/Text/Decimal.antt =====
-- Decimal numerals: printing by division, reading by a fold, and that reading undoes printing.
use gpcl.Base.{
  ℕ, zero, suc, ◌+◌, ◌-◌, ◌*◌, ◌/◌, ◌%◌, ◌<◌, ◌≡◌, refl, Bool, true, ◌&&◌, List, [], ◌∷◌, ◌++◌,
  arith, ltb, if◌then◌else◌, Bool-cases, inl, inr, ltb→lt, Bytes, is_digit,
}

-- With fuel above the number, since each round divides by ten.
decimal_fuel : ℕ → ℕ → Bytes
decimal_fuel zero n = []
decimal_fuel (suc f) n =
    let more = decimal_fuel f (n / 10) in
    if ltb n 10 then (n + b'0') ∷ [] else more ++ (n % 10 + b'0') ∷ []

unfoldable pub decimal : ℕ → Bytes
unfolding decimal_fuel
decimal n = decimal_fuel (suc n) n

-- The number that digits stand for, read from the left.
unfoldable pub read_decimal : ℕ → Bytes → ℕ
read_decimal acc [] = acc
read_decimal acc (c ∷ cs) = read_decimal (acc * 10 + (c - b'0')) cs

abbrev pub is_digits : Bytes → Bool
is_digits [] = true
is_digits (c ∷ cs) = is_digit c && is_digits cs

read_decimal-append :
    (acc : ℕ) (xs ys : Bytes) → read_decimal acc (xs ++ ys) ≡ read_decimal (read_decimal acc xs) ys
unfolding read_decimal
read_decimal-append acc [] ys = refl
read_decimal-append acc (x ∷ xs) ys = read_decimal-append (acc * 10 + (x - b'0')) xs ys

is_digits-append :
    (xs ys : Bytes) → is_digits xs ≡ true → is_digits ys ≡ true → is_digits (xs ++ ys) ≡ true
is_digits-append [] ys h k = k
is_digits-append (x ∷ xs) ys h k = ground (arith, is_digits-append xs ys)

read-decimal_fuel : (f n : ℕ) → n < f → read_decimal 0 (decimal_fuel f n) ≡ n
unfolding decimal_fuel
read-decimal_fuel zero n h = absurd (omega arith)
read-decimal_fuel (suc f) n h = elim (Bool-cases (ltb n 10)) [
  | inl small ↦ rw small (unfold read_decimal in omega arith)
  | inr large ↦ rw large (
      rw read_decimal-append
        (rw (read-decimal_fuel f (n / 10) (ground arith)) (unfold read_decimal in omega arith)))
]

digit : (d : ℕ) → d < 10 → is_digits ((d + b'0') ∷ []) ≡ true
digit d h = ground arith

is_digits-decimal_fuel : (f n : ℕ) → is_digits (decimal_fuel f n) ≡ true
unfolding decimal_fuel
is_digits-decimal_fuel zero n = refl
is_digits-decimal_fuel (suc f) n = elim (Bool-cases (ltb n 10)) [
  | inl s ↦ rw s (digit n (ltb→lt n 10 s))
  | inr l ↦ rw l (
      is_digits-append (decimal_fuel f (n / 10)) _ (is_digits-decimal_fuel f (n / 10))
        (digit (n % 10) (omega arith)))
]

pub read-decimal : (n : ℕ) → read_decimal 0 (decimal n) ≡ n
unfolding decimal
read-decimal n = read-decimal_fuel (suc n) n (omega arith)

pub is_digits-decimal : (n : ℕ) → is_digits (decimal n) ≡ true
unfolding decimal
is_digits-decimal n = is_digits-decimal_fuel (suc n) n

-- A numeral is not empty.
append_one {ℓ} :
    {A : Type ℓ} (xs : List A) (a : A) → (c : A) × (cs : List A) × (xs ++ a ∷ [] ≡ c ∷ cs)
append_one [] a = (a, [], refl)
append_one (x ∷ xs) a = (x, xs ++ a ∷ [], refl)

pub decimal-head : (n : ℕ) → (c : ℕ) × (cs : Bytes) × (decimal n ≡ c ∷ cs)
unfolding decimal decimal_fuel
decimal-head n = elim (Bool-cases (ltb n 10)) [
  | inl s ↦ (n + b'0', [], rw s)
  | inr l ↦ let (c, cs, e) = append_one (decimal_fuel n (n / 10)) (n % 10 + b'0') in (c, cs, rw l e)
]
