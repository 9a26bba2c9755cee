-- ===== src/Json/RoundTrip/Whole.antt =====
-- include/gpcl/json.hpp: what `parse` makes of a whole text that `operator<<` wrote.
use gpcl.Base.{
  ℕ, ◌≡◌, refl, ap, ◌∙◌, sym, Bool, true, false, Option, [], ◌∷◌, append-nil, Bytes, is_digit,
  arith,
}
use gpcl.Base.Int.{pos, negsuc}
use gpcl.Base.Results.{ok, err, ◌>>=◌}
use gpcl.Json.Builder.{handle_value, handle_event, get_value, parse, initial}
use gpcl.Json.Parser.{put, put_char, put_state, put_indeterminate, put_literal, parsing_number}
use gpcl.Json.RoundTrip.Printable.{IsPrintable, settle}
use gpcl.Json.RoundTrip.Scalars.{
  run-digits, run-first_digit, run-quoted, digits-number_text, is_number_text,
}
use gpcl.Json.RoundTrip.Trees.{open_array, items_lem, open_object, fields_lem}
use gpcl.Json.RoundTrip.Tokens.{run, run-newline}
use gpcl.Json.Serializer.{PrintStyle, visit, serialize, deeper}
use gpcl.Json.Text.{print_integer, decimal-head, is_digits, is_digits-decimal}
use gpcl.Json.RoundTrip.Values.{clone_items-settle_items, clone_fields-settle_fields}
use gpcl.Json.Value.{
  shared, clone, Value, null, boolean, integer, real, string, object, array, cons, Items, Storage,
  json_error, failed_to_parse,
}

-- An array or an object, or neither
abbrev pub is_container : {R : Type 0} → Value R → Bool
is_container (array _ _) = true
is_container (object _ _) = true
is_container _ = false

module _ {R : Type 0} (print_real : R → Bytes) (read_real : Bytes → Option R)
    (style : PrintStyle) where
  -- A printable array or object comes back from its text, in either print style, with the same
  -- contents and every string, object and array in it shared. Printable means that integers are not
  -- negative and fit, numerals of reals are read back, texts and keys have nothing to escape, and
  -- the keys of each object are not empty and ascend, as they do in a `std::map`.
  pub parse-serialize :
      (v : Value R)
      → is_container v ≡ true
      → IsPrintable print_real read_real v
      → parse read_real (serialize print_real style v) ≡ ok (settle v)
  unfolding serialize visit parse settle
  parse-serialize (array m a) c p =
      ap (λ r. r >>= λ t. get_value t.1)
        (open_array print_real read_real style _ initial
          ∙ items_lem print_real read_real style a 0 [] initial p)
      ∙ unfold handle_value put clone in ap (λ b. ok (array shared b)) (clone_items-settle_items a)
  parse-serialize (object m o) c p =
      ap (λ r. r >>= λ t. get_value t.1)
        (open_object print_real read_real style _ initial
          ∙ fields_lem print_real read_real style o 0 [] initial p)
      ∙ unfold handle_value put clone in
        ap (λ b. ok (object shared b)) (clone_fields-settle_fields o)
  parse-serialize null c p = cc
  parse-serialize (boolean b) c p = cc
  parse-serialize (integer i) c p = cc
  parse-serialize (real r) c p = cc
  parse-serialize (string m s) c p = cc

  pending-digits :
      (c : ℕ) (cs : Bytes)
      → is_digit c ≡ true
      → is_number_text cs ≡ true
      → parse read_real (c ∷ cs) ≡ ok null
  unfolding parse
  pending-digits c cs h k =
      ap (λ r. r >>= λ t. get_value t.1)
        (run-first_digit read_real handle_event c cs initial h
          ∙ ap (λ u. run read_real handle_event u (parsing_number (c ∷ [])) initial)
              (sym (append-nil cs))
          ∙ run-digits read_real handle_event cs (c ∷ []) [] initial k)
      ∙ unfold put in refl

  -- A printable value that is no container is lost: its text parses to null, since the parser
  -- reports a scalar only when it meets the character behind it.
  parse-scalar :
      (v : Value R)
      → is_container v ≡ false
      → IsPrintable print_real read_real v
      → parse read_real (serialize print_real style v) ≡ ok null
  unfolding serialize visit
  parse-scalar null c p = unfold parse put put_char put_state put_indeterminate put_literal in refl
  parse-scalar (boolean true) c p =
      unfold parse put put_char put_state put_indeterminate put_literal in refl
  parse-scalar (boolean false) c p =
      unfold parse put put_char put_state put_indeterminate put_literal in refl
  parse-scalar (integer (pos n)) c p =
      let (d, ds, e) = decimal-head n in
      let digits : is_digits (d ∷ ds) ≡ true = ap is_digits (sym e) ∙ is_digits-decimal n in
      let first : is_digit d ≡ true = ground arith in
      let later : is_digits ds ≡ true = ground arith in
      unfold print_integer in
      rw append-nil (rw e (pending-digits d ds first (digits-number_text ds later)))
  parse-scalar (integer (negsuc n)) c p = elim p [ ]
  parse-scalar (real r) c p =
      rw p.splits (rw append-nil (pending-digits p.head p.tail p.opens p.digits))
  parse-scalar (string m s) c p =
      unfold parse in
      ap (λ r. r >>= λ t. get_value t.1) (run-quoted read_real handle_event s [] initial p)
      ∙ unfold put in refl
  parse-scalar (array m a) c p = cc
  parse-scalar (object m o) c p = cc

  -- A negative integer is written and cannot be read: its minus sign is no token of the parser, so
  -- an array that begins with one is refused, whatever comes behind.
  pub parse-negative :
      (m : Storage) (n : ℕ) (xs : Items R)
      → parse read_real (serialize print_real style (array m (cons (integer (negsuc n)) xs)))
        ≡ err (json_error failed_to_parse)
  unfolding serialize visit print_integer parse
  parse-negative m n xs =
      ap (λ r. r >>= λ t. get_value t.1)
        (open_array print_real read_real style _ initial
          ∙ run-newline read_real handle_event style (deeper style 0) _ _)
      ∙ unfold put put_char put_state put_indeterminate handle_event in refl
