-- ===== src/Json/Totality.antt =====
-- include/gpcl/json.hpp: the parser's loops end, and how `parse` may fail.
pub mod Rule
pub mod Outcome
use gpcl.Base.{
  ℕ, zero, suc, ◌≡◌, ◌≢◌, refl, ◌∙◌, sym, Bool, true, false, Option, List, [], ◌∷◌, ◌++◌, ◌&&◌,
  ◌||◌, not, arith, Bytes, is_digit, ◌==◌,
}
use gpcl.Base.Results.{Result, ok, err, ◌>>=◌, >>=-congr}
use gpcl.Json.Builder.{
  Context, value_context, array_context, object_context, Stack, handle_value, handle_in,
  handle_event, get_value, parse, initial, rounds,
}
use gpcl.Json.Parser.{
  Event, error_event, null_event, true_event, false_event, integer_event, float_event, string_event,
  start_array_event, end_array_event, start_object_event, object_key_event, end_object_event,
  ParsingState, indeterminate_state, parsing_literal, parsing_number, parsing_string, put, put_char,
  put_state, put_indeterminate, put_literal, put_number, put_string,
}
use gpcl.Json.Text.{is_space, is_alpha}
use gpcl.Json.Value.{
  Value, Error, json_error, failed_to_parse, bad_lexical_cast, bad_variant_access,
  assertion_failure, empty_stack, no_fuel,
}

-- A character that is no part of the parser's language between two tokens.
abbrev pub opens_nothing : ℕ → Bool
opens_nothing c = not (
    is_space c
    || is_alpha c
    || is_digit c
    || c == b'+'
    || c == b'"'
    || c == b'['
    || c == b','
    || c == b']'
    || c == b'{'
    || c == b'}')

module _ {R S : Type 0} (read_real : Bytes → Option R)
    (visitor : S → Event R → Result Error S) where
  -- A visitor that accepts an error keeps the inner loop going for ever on a character that opens no
  -- token, whatever the number of rounds.
  put_char-endless :
      (fuel ch : ℕ) (s : S)
      → ((s' : S) → visitor s' error_event ≡ ok s')
      → opens_nothing ch ≡ true
      → put_char read_real visitor fuel indeterminate_state ch s ≡ err no_fuel
  unfolding put_char put_state
  put_char-endless zero ch s accepts h = refl
  put_char-endless (suc fuel) ch s accepts h =
      rw (refused ch s h) (rw (accepts s) (put_char-endless fuel ch s accepts h))
    where
      refused :
          (ch : ℕ) (s : S)
          → opens_nothing ch ≡ true
          → put_indeterminate read_real visitor ch s
            ≡ (visitor s error_event >>= λ s'. ok (false, indeterminate_state, s'))
      refused ch s h = unfold put_indeterminate in ground arith
