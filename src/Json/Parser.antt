-- ===== src/Json/Parser.antt =====
-- The push parser of include/gpcl/json.hpp, `basic_json::parser`, over any event visitor: a visitor
-- has a state of type `S`, and a call of it gives the next state or throws.
use gpcl.Base.{
  ℕ, zero, suc, Bool, true, false, ◌&&◌, ◌||◌, not, Option, none, some, [], ◌∷◌, ◌++◌, ◌==◌,
  if◌then◌else◌, Bytes, is_digit,
}
use gpcl.Base.Int.{ℤ}
use gpcl.Base.Results.{Result, ok, err, ◌>>=◌}
use gpcl.Json.Text.{is_space, is_alpha, is_alnum, read_integer}
use gpcl.Json.Value.{Error, bad_lexical_cast, no_fuel}

pub data Event (R : Type 0) : Type 0 where
  error_event null_event true_event false_event : Event R
  integer_event : ℤ → Event R
  float_event : R → Event R
  string_event : Bytes → Event R
  start_array_event end_array_event start_object_event : Event R
  object_key_event : Bytes → Event R
  end_object_event : Event R

pub data ParsingState : Type 0 where
  indeterminate_state : ParsingState
  parsing_literal parsing_number : Bytes → ParsingState
  parsing_string : Bytes → Bool → ParsingState

-- `std::string::operator==`, and `find(ch) != npos`
unfoldable pub equals : Bytes → Bytes → Bool
equals [] [] = true
equals (x ∷ xs) (y ∷ ys) = x == y && equals xs ys
equals _ _ = false

unfoldable pub contains : ℕ → Bytes → Bool
contains c [] = false
contains c (x ∷ xs) = x == c || contains c xs

abbrev pub word_null : Bytes
word_null = b'n' ∷ b'u' ∷ b'l' ∷ b'l' ∷ []

abbrev pub word_true : Bytes
word_true = b't' ∷ b'r' ∷ b'u' ∷ b'e' ∷ []

abbrev pub word_false : Bytes
word_false = b'f' ∷ b'a' ∷ b'l' ∷ b's' ∷ b'e' ∷ []

-- A `put` returns whether the character was consumed, with the states of parser and visitor.
abbrev pub Put : Type 0 → Type 0
Put S = Result Error (Bool × ParsingState × S)

-- `json_cast` of the collected characters
abbrev cast : {A : Type 0} → Option A → Result Error A
cast (some a) = ok a
cast none = err bad_lexical_cast

-- `lexical_cast<double>`, which is the standard library's, is the argument `read_real`.
module _ {R S : Type 0} (read_real : Bytes → Option R)
    (visitor : S → Event R → Result Error S) where
  -- The event is reported, and the parser is between two tokens.
  report : S → Event R → Bool → Put S
  report s event consumed = do s' ← visitor s event; ok (consumed, indeterminate_state, s')

  unfoldable pub put_indeterminate : ℕ → S → Put S
  unfolding report
  put_indeterminate ch s =
      if is_space ch
      then ok (true, indeterminate_state, s)
      else if is_alpha ch
      then ok (true, parsing_literal (ch ∷ []), s)
      else if is_digit ch || ch == b'+' || ch == b'+'
      then ok (true, parsing_number (ch ∷ []), s)
      else if ch == b'"'
      then ok (true, parsing_string [] false, s)
      else if ch == b'['
      then report s start_array_event true
      else if ch == b','
      then ok (true, indeterminate_state, s)
      else if ch == b']'
      then report s end_array_event true
      else if ch == b'{'
      then report s start_object_event true
      else if ch == b'}'
      then report s end_object_event true
      else report s error_event false

  unfoldable pub put_literal : Bytes → ℕ → S → Put S
  unfolding report equals
  put_literal chars ch s =
      if is_alnum ch
      then ok (true, parsing_literal (chars ++ ch ∷ []), s)
      else if equals chars word_null
      then report s null_event false
      else if equals chars word_true
      then report s true_event false
      else if equals chars word_false
      then report s false_event false
      else report s error_event false

  unfoldable pub put_number : Bytes → ℕ → S → Put S
  unfolding report contains
  put_number chars ch s =
      if is_digit ch || ch == b'.'
      then ok (true, parsing_number (chars ++ ch ∷ []), s)
      else if contains b'.' chars
      then (do r ← cast (read_real chars); report s (float_event r) false)
      else (do i ← cast (read_integer chars); report s (integer_event i) false)

  unfoldable pub put_string : Bytes → Bool → ℕ → S → Put S
  unfolding report
  put_string chars quote_closed ch s =
      if not quote_closed
      then (if not (ch == b'"')
          then ok (true, parsing_string (chars ++ ch ∷ []) false, s)
          else ok (true, parsing_string chars true, s))
      else if is_space ch
      then ok (true, parsing_string chars true, s)
      else if ch == b':'
      then report s (object_key_event chars) true
      else report s (string_event chars) false

  -- `visit` on the parser's state
  unfoldable pub put_state : ParsingState → ℕ → S → Put S
  put_state indeterminate_state ch s = put_indeterminate ch s
  put_state (parsing_literal chars) ch s = put_literal chars ch s
  put_state (parsing_number chars) ch s = put_number chars ch s
  put_state (parsing_string chars quote_closed) ch s = put_string chars quote_closed ch s

  -- `do … while (!consumed)`, with fuel for the rounds
  unfoldable pub put_char : ℕ → ParsingState → ℕ → S → Result Error (ParsingState × S)
  put_char zero st ch s = err no_fuel
  put_char (suc fuel) st ch s = do
    (consumed, st', s') ← put_state st ch s
    elim consumed [ true ↦ ok (st', s') | false ↦ put_char fuel st' ch s' ]

  -- `while (first != last)`; the fuel is for the rounds of each character.
  unfoldable pub put : ℕ → Bytes → ParsingState → S → Result Error (ParsingState × S)
  put fuel [] st s = ok (st, s)
  put fuel (ch ∷ rest) st s = do (st', s') ← put_char fuel st ch s; put fuel rest st' s'
