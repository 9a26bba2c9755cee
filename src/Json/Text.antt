-- ===== src/Json/Text.antt =====
-- Characters and numerals as the JSON code uses them from the C and C++ standard libraries, in the
-- "C" locale: `std::isspace` and its relatives, `operator<<` and `operator>>` for `std::int64_t`.
-- A character is its code.
mod Decimal
unfoldable pub use Decimal.{decimal, read_decimal}
pub use Decimal.{read-decimal, is_digits, is_digits-decimal, decimal-head}
use gpcl.Base.{
  ℕ, zero, suc, ◌+◌, ◌-◌, ◌*◌, ◌^◌, ◌≡◌, refl, Bool, true, false, ◌&&◌, ◌||◌, Option, none, some,
  List, [], ◌∷◌, ◌++◌, arith, ltb, leb, ◌==◌, if◌then◌else◌, Bytes, is_digit,
}
use gpcl.Base.Int.{ℤ, pos, negsuc}

abbrev pub is_space : ℕ → Bool
is_space c = c == b' ' || leb b'\t' c && leb c b'\r'

abbrev pub is_alpha : ℕ → Bool
is_alpha c = leb b'a' c && leb c b'z' || leb b'A' c && leb c b'Z'

abbrev pub is_alnum : ℕ → Bool
is_alnum c = is_alpha c || is_digit c

-- The bounds of `std::int64_t`: a magnitude below `int64_bound`, or equal to it if negative.
abbrev pub int64_bound : ℕ
int64_bound = 2 ^ 63

-- `os << i`
unfoldable pub print_integer : ℤ → Bytes
print_integer (pos n) = decimal n
print_integer (negsuc n) = b'-' ∷ decimal (suc n)

negate : ℕ → ℤ
negate zero = pos 0
negate (suc n) = negsuc n

-- The digits behind the sign, if they make a number in the range.
read_magnitude : Bool → Bytes → Option ℤ
read_magnitude negative [] = none
read_magnitude negative (c ∷ cs) =
    if is_digits (c ∷ cs)
    then (let n = read_decimal 0 (c ∷ cs) in
        if negative
        then (if leb n int64_bound then some (negate n) else none)
        else (if ltb n int64_bound then some (pos n) else none))
    else none

-- `lexical_cast<std::int64_t>`: a sign, digits, and nothing behind them; `none` for
-- `bad_lexical_cast`. A numeral has no white space in front here, since the parser collects none.
unfoldable pub read_integer : Bytes → Option ℤ
unfolding read_magnitude negate
read_integer [] = none
read_integer (c ∷ cs) =
    if c == b'-'
    then read_magnitude true cs
    else if c == b'+'
    then read_magnitude false cs
    else read_magnitude false (c ∷ cs)
