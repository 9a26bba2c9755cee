-- ===== src/Json/RoundTrip/Scalars.antt =====
-- The parser over one scalar of what the serializer writes: words, numerals, quoted texts.
use gpcl.Base.{
  ℕ, ◌<◌, ◌≡◌, refl, ap, ◌∙◌, sym, Bool, true, false, ◌&&◌, ◌||◌, not, Option, some, [], ◌∷◌, ◌++◌,
  append-nil, append_assoc, arith, lt→ltb, ◌==◌, Bytes, is_digit,
}
use gpcl.Base.Int.{pos}
use gpcl.Base.Results.{Result, ok, err, ◌>>=◌}
use gpcl.Json.Parser.{
  Event, null_event, true_event, false_event, integer_event, float_event, string_event,
  object_key_event, indeterminate_state, parsing_literal, parsing_number, parsing_string, put,
  put_char, put_state, put_indeterminate, put_literal, put_number, put_string, contains, equals,
  word_null, word_true, word_false,
}
use gpcl.Json.RoundTrip.Tokens.{
  is_closer, is_break, closer-break, run, run-finish, run-ended, run-newline_closed,
}
use gpcl.Json.Serializer.{PrintStyle, newline, quoted, escaped}
use gpcl.Json.Text.{
  decimal, read_decimal, read-decimal, is_digits, is_digits-decimal, decimal-head, read_integer,
  int64_bound, is_space, is_alpha, is_alnum,
}
use gpcl.Json.Value.{Error}

-- A digit or a point
abbrev pub is_number_char : ℕ → Bool
is_number_char c = is_digit c || c == b'.'

abbrev pub is_number_text : Bytes → Bool
is_number_text [] = true
is_number_text (c ∷ cs) = is_number_char c && is_number_text cs

-- A text with no quote and no backslash, which `std::quoted` leaves as it is.
abbrev pub is_plain : Bytes → Bool
is_plain [] = true
is_plain (c ∷ cs) = not (c == b'"') && not (c == b'\\') && is_plain cs

read_integer-decimal : (n : ℕ) → n < int64_bound → read_integer (decimal n) ≡ some (pos n)
unfolding read_integer
read_integer-decimal n h =
    let (c, cs, e) = decimal-head n in
    let digits : is_digits (c ∷ cs) ≡ true = ap is_digits (sym e) ∙ is_digits-decimal n in
    let value : read_decimal 0 (c ∷ cs) ≡ n = ap (read_decimal 0) (sym e) ∙ read-decimal n in
    rw e (ground (arith, digits, value, lt→ltb n int64_bound h))

pub digits-number_text : (cs : Bytes) → is_digits cs ≡ true → is_number_text cs ≡ true
digits-number_text [] h = refl
digits-number_text (c ∷ cs) h = ground (arith, digits-number_text cs)

contains-digits : (cs : Bytes) → is_digits cs ≡ true → contains b'.' cs ≡ false
unfolding contains
contains-digits [] h = refl
contains-digits (c ∷ cs) h = ground (arith, contains-digits cs)

digit-not_space : (c : ℕ) → is_digit c ≡ true → is_space c ≡ false
digit-not_space c h = ground arith

digit-not_alpha : (c : ℕ) → is_digit c ≡ true → is_alpha c ≡ false
digit-not_alpha c h = ground arith

break-not_number : (c : ℕ) → is_break c ≡ true → is_number_char c ≡ false
break-not_number c h = ground arith

break-not_alnum : (c : ℕ) → is_break c ≡ true → is_alnum c ≡ false
break-not_alnum c h = ground arith

closer-not_space : (c : ℕ) → is_closer c ≡ true → is_space c ≡ false
closer-not_space c h = ground arith

closer-not_colon : (c : ℕ) → is_closer c ≡ true → (c == b':') ≡ false
closer-not_colon c h = ground arith

module _ {R S : Type 0} (read_real : Bytes → Option R)
    (visitor : S → Event R → Result Error S) where
  pub run-digits :
      (cs acc rest : Bytes) (s : S)
      → is_number_text cs ≡ true
      → run read_real visitor (cs ++ rest) (parsing_number acc) s
        ≡ run read_real visitor rest (parsing_number (acc ++ cs)) s
  unfolding put put_char put_state put_number
  run-digits [] acc rest s h = rw append-nil
  run-digits (c ∷ cs) acc rest s h =
      let first : is_number_char c ≡ true = ground arith in
      let later : is_number_text cs ≡ true = ground arith in
      rw first (run-digits cs (acc ++ c ∷ []) rest s later ∙ rw append_assoc)

  -- A digit opens a numeral.
  pub run-first_digit :
      (c : ℕ) (rest : Bytes) (s : S)
      → is_digit c ≡ true
      → run read_real visitor (c ∷ rest) indeterminate_state s
        ≡ run read_real visitor rest (parsing_number (c ∷ [])) s
  unfolding put put_char put_state put_indeterminate
  run-first_digit c rest s h = rw (digit-not_space c h, digit-not_alpha c h, h)

  run-escaped :
      (cs acc rest : Bytes) (s : S)
      → is_plain cs ≡ true
      → run read_real visitor (escaped cs (b'"' ∷ rest)) (parsing_string acc false) s
        ≡ run read_real visitor rest (parsing_string (acc ++ cs) true) s
  unfolding escaped put put_char put_state put_string
  run-escaped [] acc rest s h = rw append-nil
  run-escaped (c ∷ cs) acc rest s h =
      let quote : (c == b'"') ≡ false = ground arith in
      let backslash : (c == b'\\') ≡ false = ground arith in
      let later : is_plain cs ≡ true = ground arith in
      rw (quote, backslash)
        (rw quote (run-escaped cs (acc ++ c ∷ []) rest s later ∙ rw append_assoc))

  pub run-quoted :
      (cs rest : Bytes) (s : S)
      → is_plain cs ≡ true
      → run read_real visitor (quoted cs rest) indeterminate_state s
        ≡ run read_real visitor rest (parsing_string cs true) s
  unfolding put put_char put_state put_indeterminate
  run-quoted cs rest s h = run-escaped cs [] rest s h

  module _ (g : PrintStyle) (j d : ℕ) (rest : Bytes) (s : S) (closer : is_closer d ≡ true) where
    run-numeral :
        (c : ℕ) (cs : Bytes) (m : Result Error S)
        → is_digit c ≡ true
        → is_number_text cs ≡ true
        → ((ch : ℕ)
            → is_break ch ≡ true
            → put_number read_real visitor (c ∷ cs) ch s
              ≡ (m >>= λ s'. ok (false, indeterminate_state, s')))
        → run read_real visitor ((c ∷ cs) ++ newline g j (d ∷ rest)) indeterminate_state s
          ≡ (m >>= λ s'. run read_real visitor (d ∷ rest) indeterminate_state s')
    unfolding put_state
    run-numeral c cs m h k e =
        run-first_digit c _ s h
        ∙ run-digits cs (c ∷ []) _ s k
        ∙ run-finish read_real visitor (parsing_number (c ∷ cs)) g j d rest s m closer e

    pub run-integer :
        (n : ℕ)
        → n < int64_bound
        → run read_real visitor (decimal n ++ newline g j (d ∷ rest)) indeterminate_state s ≡ (
            visitor s (integer_event (pos n)) >>= λ s'.
            run read_real visitor (d ∷ rest) indeterminate_state s')
    unfolding put_number
    run-integer n h =
        let (c, cs, e) = decimal-head n in
        let digits : is_digits (c ∷ cs) ≡ true = ap is_digits (sym e) ∙ is_digits-decimal n in
        let value = ap read_integer (sym e) ∙ read_integer-decimal n h in
        let first : is_digit c ≡ true = ground arith in
        let later : is_digits cs ≡ true = ground arith in
        rw e (
          run-numeral c cs (visitor s (integer_event (pos n))) first (digits-number_text cs later)
            (λ ch b. rw (break-not_number ch b, contains-digits (c ∷ cs) digits, value)))

    pub run-real :
        (c : ℕ) (cs : Bytes) (r : R)
        → is_digit c ≡ true
        → is_number_text cs ≡ true
        → contains b'.' (c ∷ cs) ≡ true
        → read_real (c ∷ cs) ≡ some r
        → run read_real visitor ((c ∷ cs) ++ newline g j (d ∷ rest)) indeterminate_state s ≡ (
            visitor s (float_event r) >>= λ s'.
            run read_real visitor (d ∷ rest) indeterminate_state s')
    unfolding put_number
    run-real c cs r h k p e =
        run-numeral c cs (visitor s (float_event r)) h k (λ ch b. rw (break-not_number ch b, p, e))

    pub run-null :
        run read_real visitor (word_null ++ newline g j (d ∷ rest)) indeterminate_state s
        ≡ (visitor s null_event >>= λ s'. run read_real visitor (d ∷ rest) indeterminate_state s')
    unfolding put put_char put_state put_indeterminate put_literal equals
    run-null =
        run-finish read_real visitor (parsing_literal word_null) g j d rest s (visitor s null_event)
          closer (λ c b. rw (break-not_alnum c b))

    pub run-true :
        run read_real visitor (word_true ++ newline g j (d ∷ rest)) indeterminate_state s
        ≡ (visitor s true_event >>= λ s'. run read_real visitor (d ∷ rest) indeterminate_state s')
    unfolding put put_char put_state put_indeterminate put_literal equals
    run-true =
        run-finish read_real visitor (parsing_literal word_true) g j d rest s (visitor s true_event)
          closer (λ c b. rw (break-not_alnum c b))

    pub run-false :
        run read_real visitor (word_false ++ newline g j (d ∷ rest)) indeterminate_state s
        ≡ (visitor s false_event >>= λ s'. run read_real visitor (d ∷ rest) indeterminate_state s')
    unfolding put put_char put_state put_indeterminate put_literal equals
    run-false =
        run-finish read_real visitor (parsing_literal word_false) g j d rest s
          (visitor s false_event) closer (λ c b. rw (break-not_alnum c b))

    -- Up to the closing quote the text is collected; what is behind it tells a value from a key.
    pub run-string :
        (cs : Bytes)
        → is_plain cs ≡ true
        → run read_real visitor (quoted cs (newline g j (d ∷ rest))) indeterminate_state s ≡ (
            visitor s (string_event cs) >>= λ s'.
            run read_real visitor (d ∷ rest) indeterminate_state s')
    unfolding put_state put_string
    run-string cs h =
        run-quoted cs _ s h
        ∙ run-newline_closed read_real visitor g j (d ∷ rest) cs s
        ∙ run-ended read_real visitor (parsing_string cs true) d rest s
            (visitor s (string_event cs)) (closer-break d closer)
            (rw (closer-not_space d closer, closer-not_colon d closer))

  pub run-key :
      (cs rest : Bytes) (s : S)
      → is_plain cs ≡ true
      → run read_real visitor (quoted cs (b':' ∷ rest)) indeterminate_state s ≡ (
          visitor s (object_key_event cs) >>= λ s'.
          run read_real visitor rest indeterminate_state s')
  run-key cs rest s h = run-quoted cs _ s h ∙ at_colon (visitor s (object_key_event cs)) refl
    where
      at_colon :
          (m : Result Error S)
          → visitor s (object_key_event cs) ≡ m
          → run read_real visitor (b':' ∷ rest) (parsing_string cs true) s
            ≡ (m >>= λ s'. run read_real visitor rest indeterminate_state s')
      at_colon (ok s') e = unfold put put_char put_state put_string in rw e
      at_colon (err x) e = unfold put put_char put_state put_string in rw e
