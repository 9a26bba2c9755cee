-- ===== src/Json/Totality/Rule.antt =====
-- The rule for an invariant of the visitor's state under the parser of include/gpcl/json.hpp, with
-- the errors that may be thrown. A visitor that throws on every error event lets the inner loop end
-- within two rounds.
use gpcl.Base.{
  ℕ, ◌≡◌, Bool, true, false, Option, none, some, [], ◌∷◌, ◌||◌, not, Bytes, is_digit, ◌==◌,
  if◌then◌else◌,
}
use gpcl.Base.Int.{ℤ}
use gpcl.Base.Results.{Result, ok, err, ◌>>=◌}
use gpcl.Json.Builder.{rounds}
use gpcl.Json.Parser.{
  Event, error_event, null_event, true_event, false_event, integer_event, float_event, string_event,
  start_array_event, end_array_event, start_object_event, object_key_event, end_object_event,
  ParsingState, indeterminate_state, parsing_literal, parsing_number, parsing_string, put, put_char,
  put_state, put_indeterminate, put_literal, put_number, put_string, contains, equals, word_null,
  word_true, word_false, Put,
}
use gpcl.Json.Text.{is_space, is_alpha, is_alnum, read_integer}
use gpcl.Json.Value.{Error, bad_lexical_cast}

-- An outcome whose value satisfies `P`, or whose error is allowed.
abbrev pub Good : {A : Type 0} → (Error → Type 0) → (A → Type 0) → Result Error A → Type 0
Good Allowed P (ok a) = P a
Good Allowed P (err x) = Allowed x

pub >>=-Good :
    {A B : Type 0} (Allowed : Error → Type 0) (P : A → Type 0) (Q : B → Type 0) (m : Result Error A)
    (f : A → Result Error B)
    → Good Allowed P m
    → ((a : A) → P a → Good Allowed Q (f a))
    → Good Allowed Q (m >>= f)
>>=-Good Allowed P Q (ok a) f h k = k a h
>>=-Good Allowed P Q (err x) f h k = h

if_both {ℓ κ} :
    {A : Type ℓ} (P : A → Type κ) (b : Bool) {x y : A} → P x → P y → P (if b then x else y)
if_both P true h k = h
if_both P false h k = k

module _ {R S : Type 0} (read_real : Bytes → Option R) (visitor : S → Event R → Result Error S)
    (Allowed : Error → Type 0) (Inv : S → Type 0) where
  -- Consumed; or not consumed, and between two tokens.
  abbrev Once : Bool × ParsingState × S → Type 0
  Once (true, q, s) = Inv s
  Once (false, indeterminate_state, s) = Inv s
  Once (false, _, s) = ⊥

  abbrev Consumed : Bool × ParsingState × S → Type 0
  Consumed (true, q, s) = Inv s
  Consumed (false, q, s) = ⊥

  module _ (keeps : (s : S) (e : Event R) → Inv s → Good Allowed Inv (visitor s e))
      (throws : (s : S) → Inv s → (x : Error) × (visitor s error_event ≡ err x) × Allowed x)
      (cast_fails : Allowed bad_lexical_cast) where
    report_true :
        (s : S) (e : Event R)
        → Inv s
        → Good Allowed Consumed (visitor s e >>= λ s'. ok (true, indeterminate_state, s'))
    report_true s e h = >>=-Good Allowed Inv Consumed (visitor s e) _ (keeps s e h) (λ s' k. k)

    report_false :
        (s : S) (e : Event R)
        → Inv s
        → Good Allowed Once (visitor s e >>= λ s'. ok (false, indeterminate_state, s'))
    report_false s e h = >>=-Good Allowed Inv Once (visitor s e) _ (keeps s e h) (λ s' k. k)

    indeterminate_lem :
        (ch : ℕ) (s : S) → Inv s → Good Allowed Consumed (put_indeterminate read_real visitor ch s)
    unfolding put_indeterminate
    indeterminate_lem ch s h =
        let P = λ (r : Put S). Good Allowed Consumed r in
        if_both P (is_space ch) h (
          if_both P (is_alpha ch) h (
            if_both P (is_digit ch || ch == b'+' || ch == b'+') h (
              if_both P (ch == b'"') h (
                if_both P (ch == b'[') (report_true s start_array_event h) (
                  if_both P (ch == b',') h (
                    if_both P (ch == b']') (report_true s end_array_event h) (
                      if_both P (ch == b'{') (report_true s start_object_event h)
                        (if_both P (ch == b'}') (report_true s end_object_event h) refused))))))))
      where
        refused :
            Good Allowed Consumed
              (visitor s error_event >>= λ s'. ok (false, indeterminate_state, s'))
        refused = let (x, e, a) = throws s h in rw e a

    weaken : (r : Put S) → Good Allowed Consumed r → Good Allowed Once r
    weaken (ok (true, q, s)) h = h
    weaken (ok (false, q, s)) h = elim h [ ]
    weaken (err x) h = h

    literal_lem :
        (chars : Bytes) (ch : ℕ) (s : S)
        → Inv s
        → Good Allowed Once (put_literal read_real visitor chars ch s)
    unfolding put_literal
    literal_lem chars ch s h =
        let P = λ (r : Put S). Good Allowed Once r in
        if_both P (is_alnum ch) h (
          if_both P (equals chars word_null) (report_false s null_event h) (
            if_both P (equals chars word_true) (report_false s true_event h) (
              if_both P (equals chars word_false) (report_false s false_event h)
                (report_false s error_event h))))

    number_lem :
        (chars : Bytes) (ch : ℕ) (s : S)
        → Inv s
        → Good Allowed Once (put_number read_real visitor chars ch s)
    unfolding put_number
    number_lem chars ch s h =
        let P = λ (r : Put S). Good Allowed Once r in
        if_both P (is_digit ch || ch == b'.') h
          (if_both P (contains b'.' chars) (real (read_real chars)) (integer (read_integer chars)))
      where
        real :
            (o : Option R)
            → Good Allowed Once (
                elim o [ some a ↦ ok a | none ↦ err bad_lexical_cast ] >>= λ r.
                visitor s (float_event r) >>= λ s'. ok (false, indeterminate_state, s'))
        real (some r) = report_false s (float_event r) h
        real none = cast_fails

        integer :
            (o : Option ℤ)
            → Good Allowed Once (
                elim o [ some a ↦ ok a | none ↦ err bad_lexical_cast ] >>= λ r.
                visitor s (integer_event r) >>= λ s'. ok (false, indeterminate_state, s'))
        integer (some i) = report_false s (integer_event i) h
        integer none = cast_fails

    string_lem :
        (chars : Bytes) (closed : Bool) (ch : ℕ) (s : S)
        → Inv s
        → Good Allowed Once (put_string read_real visitor chars closed ch s)
    unfolding put_string
    string_lem chars closed ch s h =
        let P = λ (r : Put S). Good Allowed Once r in
        if_both P (not closed) (if_both P (not (ch == b'"')) h h) (
          if_both P (is_space ch) h (
            if_both P (ch == b':') (weaken _ (report_true s (object_key_event chars) h))
              (report_false s (string_event chars) h)))

    state_lem :
        (q : ParsingState) (ch : ℕ) (s : S)
        → Inv s
        → Good Allowed Once (put_state read_real visitor q ch s)
    unfolding put_state
    state_lem indeterminate_state ch s h = weaken _ (indeterminate_lem ch s h)
    state_lem (parsing_literal chars) ch s h = literal_lem chars ch s h
    state_lem (parsing_number chars) ch s h = number_lem chars ch s h
    state_lem (parsing_string chars closed) ch s h = string_lem chars closed ch s h

    abbrev pub Kept : ParsingState × S → Type 0
    Kept (q, s) = Inv s

    char_lem :
        (q : ParsingState) (ch : ℕ) (s : S)
        → Inv s
        → Good Allowed Kept (put_char read_real visitor rounds q ch s)
    unfolding put_char put_state
    char_lem q ch s h =
        >>=-Good Allowed Once Kept (put_state read_real visitor q ch s) _ (state_lem q ch s h) next
      where
        last :
            (t : Bool × ParsingState × S)
            → Consumed t
            → Good Allowed Kept (elim t.0 [
              | true ↦ ok (t.1, t.2)
              | false ↦ put_char read_real visitor 0 t.1 ch t.2
            ])
        last (true, q', s') k = k
        last (false, q', s') k = elim k [ ]

        next :
            (t : Bool × ParsingState × S)
            → Once t
            → Good Allowed Kept (elim t.0 [
              | true ↦ ok (t.1, t.2)
              | false ↦ put_char read_real visitor 1 t.1 ch t.2
            ])
        next (true, q', s') k = k
        next (false, indeterminate_state, s') k =
            >>=-Good Allowed Consumed Kept (put_indeterminate read_real visitor ch s') _
              (indeterminate_lem ch s' k) last
        next (false, parsing_literal cs, s') k = elim k [ ]
        next (false, parsing_number cs, s') k = elim k [ ]
        next (false, parsing_string cs b, s') k = elim k [ ]

    -- A text leaves the invariant in place, or ends in an allowed error.
    pub put_lem :
        (text : Bytes) (q : ParsingState) (s : S)
        → Inv s
        → Good Allowed Kept (put read_real visitor rounds text q s)
    unfolding put
    put_lem [] q s h = h
    put_lem (ch ∷ text) q s h =
        >>=-Good Allowed Kept Kept (put_char read_real visitor rounds q ch s) _ (char_lem q ch s h)
          (λ t k. put_lem text t.0 t.1 k)
