-- ===== src/Tests/Json.antt =====
-- include/gpcl/json.hpp at concrete texts and values.
use gpcl.Base.{ℕ, ◌+◌, ◌-◌, ◌≡◌, refl, true, Option, none, some, [], ◌∷◌, arith, Bytes, codes}
use gpcl.Base.Int.{pos, negsuc}
use gpcl.Base.Results.{Result, ok, err}
use gpcl.Json.Builder.{parse, handle_event, handle_value, get_value}
use gpcl.Json.Parser.{
  Event, put, put_char, put_state, put_indeterminate, put_literal, put_number, put_string, equals,
  contains,
}
use gpcl.Json.RoundTrip.Printable.{IsPrintable, ReadsAs, settle}
use gpcl.Json.RoundTrip.Whole.{parse-serialize, parse-negative}
use gpcl.Json.Serializer.{
  json_print_compressed, json_print_pretty, serialize, visit, escaped, newline, space, deeper,
}
use gpcl.Json.Text.{decimal, read_decimal, read_integer, print_integer}
use gpcl.Json.Totality.Outcome.{parse_outcome, IsParseError}
use gpcl.Json.Totality.Rule.{Good}
use gpcl.Json.Value.{
  Value, null, boolean, integer, real, string, object, array, nil, cons, end, field, owned, shared,
  Error, json_error, failed_to_parse, bad_variant_access, bad_lexical_cast, assertion_failure,
  clone, emplace_back, insert, key_lt,
}

-- Reals for the tests: a digit and a half.
abbrev print_half : ℕ → Bytes
print_half r = (r + b'0') ∷ b'.' ∷ b'5' ∷ []

abbrev read_half : Bytes → Option ℕ
read_half [] = none
read_half (c ∷ cs) = some (c - b'0')

abbrev sample : Value ℕ
sample = object owned (
    field (codes "a")
      (array owned (cons (integer (pos 12)) (cons (boolean true) (cons null (cons (real 2) nil)))))
      (field (codes "b") (string owned (codes "hi")) end))

-- All that the tests compute with.
program : Unit {0}
unfolding parse put put_char put_state put_indeterminate put_literal put_number put_string equals
    contains read_integer read_decimal handle_event handle_value get_value clone emplace_back insert
    key_lt serialize visit escaped print_integer newline space deeper decimal settle
program = tt

sample_compressed :
    serialize print_half json_print_compressed sample
    ≡ codes "{\"a\":[12,true,null,2.5],\"b\":\"hi\"}"
unfolding program
sample_compressed = refl

pretty_text :
    serialize print_half json_print_pretty (array owned (cons (integer (negsuc 6)) nil))
    ≡ codes "[\n    -7\n]"
unfolding program
pretty_text = refl

-- Colons are asked for: without one, the key is a value, and an object takes no value without a key.
parse_no_colon : parse read_half (codes "{\"k\" 1}") ≡ err assertion_failure
unfolding program
parse_no_colon = refl

-- A key that comes twice keeps its first value, and commas mean nothing.
parse_lenient :
    parse read_half (codes "{,\"k\": 1 \"k\": 2,,}")
    ≡ ok (object shared (field (codes "k") (integer (pos 1)) end))
unfolding program
parse_lenient = refl

parse_mismatch : parse read_half (codes "[1}") ≡ err bad_variant_access
unfolding program
parse_mismatch = refl

parse_range : parse read_half (codes "[9223372036854775808]") ≡ err bad_lexical_cast
unfolding program
parse_range = refl

sample-IsPrintable : IsPrintable print_half read_half sample
unfolding program
sample-IsPrintable = (
  record { plain = refl; filled = cc },
  (refl, tt),
  (omega arith, (tt, (tt, (half, tt)))),
  (record { plain = refl; filled = cc }, tt, refl, tt),
)
  where
    half : ReadsAs read_half 2 (print_half 2)
    half = record {
      head = b'2';
      tail = codes ".5";
      splits = refl;
      opens = refl;
      digits = refl;
      pointed = refl;
      reads = refl;
    }

parse-serialize_example :
    parse read_half (serialize print_half json_print_pretty sample) ≡ ok (settle sample)
parse-serialize_example =
    parse-serialize print_half read_half json_print_pretty sample refl sample-IsPrintable

parse-negative_example :
    parse read_half
      (serialize print_half json_print_compressed (array owned (cons (integer (negsuc 6)) nil)))
    ≡ err (json_error failed_to_parse)
parse-negative_example = parse-negative print_half read_half json_print_compressed owned 6 nil

parse_outcome_example : Good IsParseError (λ _. Unit {0}) (parse read_half (codes "[1}"))
parse_outcome_example = parse_outcome read_half (codes "[1}")

-- A visitor that only counts events accepts errors too.
abbrev counting : ℕ → Event ℕ → Result Error ℕ
counting n e = ok n
