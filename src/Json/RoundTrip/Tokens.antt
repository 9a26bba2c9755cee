-- ===== src/Json/RoundTrip/Tokens.antt =====
-- The parser over one token of what the serializer writes, with any text behind it and any visitor.
use gpcl.Base.{
  ℕ, zero, suc, ◌≡◌, refl, ap, ◌∙◌, ◌⊎◌, inl, inr, Bool, true, false, ◌||◌, Option, ◌∷◌, arith,
  ◌==◌, Bytes,
}
use gpcl.Base.Results.{Result, ok, err, ◌>>=◌, >>=-congr}
use gpcl.Json.Builder.{rounds}
use gpcl.Json.Parser.{
  Event, end_array_event, end_object_event, ParsingState, indeterminate_state, parsing_string, put,
  put_char, put_state, put_indeterminate, put_string,
}
use gpcl.Json.Serializer.{
  PrintStyle, json_print_compressed, json_print_pretty, newline, indents, space,
}
use gpcl.Json.Text.{is_space}
use gpcl.Json.Value.{Error}

-- What may stand behind a value: a comma or a closing bracket.
abbrev pub is_closer : ℕ → Bool
is_closer c = c == b',' || c == b']' || c == b'}'

abbrev pub is_break : ℕ → Bool
is_break c = c == b'\n' || is_closer c

break-cases : (d : ℕ) → is_break d ≡ true → (d ≡ b'\n') ⊎ ((d ≡ b',') ⊎ ((d ≡ b']') ⊎ (d ≡ b'}')))
break-cases d h = ground arith

pub closer-break : (d : ℕ) → is_closer d ≡ true → is_break d ≡ true
closer-break d h = ground arith

module _ {R S : Type 0} (read_real : Bytes → Option R)
    (visitor : S → Event R → Result Error S) where
  abbrev pub run : Bytes → ParsingState → S → Result Error (ParsingState × S)
  run = put read_real visitor rounds

  run-space :
      (c : ℕ) (rest : Bytes) (s : S)
      → is_space c ≡ true
      → run (c ∷ rest) indeterminate_state s ≡ run rest indeterminate_state s
  unfolding put put_char put_state put_indeterminate
  run-space c rest s h = rw h

  run-indents :
      (n : ℕ) (rest : Bytes) (s : S)
      → run (indents n rest) indeterminate_state s ≡ run rest indeterminate_state s
  unfolding indents put put_char put_state put_indeterminate
  run-indents zero rest s = refl
  run-indents (suc n) rest s = run-indents n rest s

  pub run-newline :
      (g : PrintStyle) (j : ℕ) (rest : Bytes) (s : S)
      → run (newline g j rest) indeterminate_state s ≡ run rest indeterminate_state s
  unfolding newline put put_char put_state put_indeterminate
  run-newline json_print_compressed j rest s = refl
  run-newline json_print_pretty j rest s = run-indents j rest s

  pub run-space_gap :
      (g : PrintStyle) (rest : Bytes) (s : S)
      → run (space g rest) indeterminate_state s ≡ run rest indeterminate_state s
  unfolding space put put_char put_state put_indeterminate
  run-space_gap json_print_compressed rest s = refl
  run-space_gap json_print_pretty rest s = refl

  run-indents_closed :
      (n : ℕ) (rest cs : Bytes) (s : S)
      → run (indents n rest) (parsing_string cs true) s ≡ run rest (parsing_string cs true) s
  unfolding indents put put_char put_state put_string
  run-indents_closed zero rest cs s = refl
  run-indents_closed (suc n) rest cs s = run-indents_closed n rest cs s

  pub run-newline_closed :
      (g : PrintStyle) (j : ℕ) (rest cs : Bytes) (s : S)
      → run (newline g j rest) (parsing_string cs true) s ≡ run rest (parsing_string cs true) s
  unfolding newline put put_char put_state put_string
  run-newline_closed json_print_compressed j rest cs s = refl
  run-newline_closed json_print_pretty j rest cs s = run-indents_closed j rest cs s

  -- A comma says nothing to the visitor.
  pub run-comma :
      (rest : Bytes) (s : S)
      → run (b',' ∷ rest) indeterminate_state s ≡ run rest indeterminate_state s
  unfolding put put_char put_state put_indeterminate
  run-comma rest s = refl

  -- Between tokens, a character that ends one is consumed, whatever the visitor says.
  consumes :
      (d : ℕ) (s : S)
      → is_break d ≡ true
      → (m : Result Error S) × (put_indeterminate read_real visitor d s
          ≡ (m >>= λ s'. ok (true, indeterminate_state, s')))
  unfolding put_indeterminate
  consumes d s h = elim (break-cases d h) [
    | inl e ↦ (ok s, rw e)
    | inr (inl e) ↦ (ok s, rw e)
    | inr (inr (inl e)) ↦ (visitor s end_array_event, rw e)
    | inr (inr (inr e)) ↦ (visitor s end_object_event, rw e)
  ]

  -- Such a character is consumed in the second round as it would be in the first.
  round_two :
      (d : ℕ) (s : S)
      → is_break d ≡ true
      → put_char read_real visitor 1 indeterminate_state d s
        ≡ put_char read_real visitor 2 indeterminate_state d s
  unfolding put_char put_state
  round_two d s h = let (m, e) = consumes d s h in rw e (once m)
    where
      once :
          (m : Result Error S)
          → ((m >>= λ s'. ok (true, indeterminate_state, s')) >>= λ (t : Bool × ParsingState × S).
              elim t.0 [ true ↦ ok (t.1, t.2) | false ↦ put_char read_real visitor 0 t.1 d t.2 ])
            ≡ ((m >>= λ s'. ok (true, indeterminate_state, s')) >>= λ (t : Bool × ParsingState × S).
                elim t.0 [ true ↦ ok (t.1, t.2) | false ↦ put_char read_real visitor 1 t.1 d t.2 ])
      once (ok s') = refl
      once (err x) = refl

  -- A token `q` that a break ends, with `m` for what the visitor makes of it.
  pub run-ended :
      (q : ParsingState) (d : ℕ) (rest : Bytes) (s : S) (m : Result Error S)
      → is_break d ≡ true
      → put_state read_real visitor q d s ≡ (m >>= λ s'. ok (false, indeterminate_state, s'))
      → run (d ∷ rest) q s ≡ (m >>= λ s'. run (d ∷ rest) indeterminate_state s')
  unfolding put put_char
  run-ended q d rest s (ok s') h e =
      rw e (ap (λ r. r >>= λ t. put read_real visitor 2 rest t.0 t.1) (round_two d s' h))
  run-ended q d rest s (err x) h e = rw e

  -- The same with white space before the closer.
  pub run-finish :
      (q : ParsingState) (g : PrintStyle) (j d : ℕ) (rest : Bytes) (s : S) (m : Result Error S)
      → is_closer d ≡ true
      → ((c : ℕ)
          → is_break c ≡ true
          → put_state read_real visitor q c s ≡ (m >>= λ s'. ok (false, indeterminate_state, s')))
      → run (newline g j (d ∷ rest)) q s ≡ (m >>= λ s'. run (d ∷ rest) indeterminate_state s')
  unfolding newline
  run-finish q json_print_compressed j d rest s m h e =
      run-ended q d rest s m (closer-break d h) (e d (closer-break d h))
  run-finish q json_print_pretty j d rest s m h e =
      run-ended q b'\n' _ s m refl (e b'\n' refl)
      ∙ >>=-congr m (λ s'. run-newline json_print_pretty j (d ∷ rest) s')
