-- ===== src/Json/Totality/Outcome.antt =====
-- include/gpcl/json.hpp: every call of `parse` ends, and how.
use gpcl.Base.{◌≡◌, refl, Option, [], ◌∷◌, Bytes}
use gpcl.Base.Results.{err}
use gpcl.Json.Builder.{
  value_context, array_context, object_context, Stack, handle_value, handle_event, get_value, parse,
  initial, rounds,
}
use gpcl.Json.Parser.{
  Event, error_event, null_event, true_event, false_event, integer_event, float_event, string_event,
  start_array_event, end_array_event, start_object_event, object_key_event, end_object_event,
  indeterminate_state, put,
}
use gpcl.Json.Totality.Rule.{Good, >>=-Good, Kept, put_lem}
use gpcl.Json.Value.{
  Value, null, integer, real, string, object, array, owned, Error, json_error, failed_to_parse,
  bad_lexical_cast, bad_variant_access, assertion_failure, empty_stack, no_fuel,
}

-- How `parse` may end without a value: never in another `json_error`, and it neither looks at an empty
-- stack nor leaves its loop by want of fuel.
abbrev pub IsParseError : Error → Type 0
IsParseError (json_error failed_to_parse) = Unit
IsParseError (json_error _) = ⊥
IsParseError bad_lexical_cast = Unit
IsParseError bad_variant_access = Unit
IsParseError assertion_failure = Unit
IsParseError empty_stack = ⊥
IsParseError no_fuel = ⊥

module _ {R : Type 0} where
  -- The value context is at the bottom of the stack, and only there.
  abbrev pub Rooted : Stack R → Type 0
  Rooted [] = ⊥
  Rooted (value_context v ∷ []) = Unit
  Rooted (value_context v ∷ _ ∷ _) = ⊥
  Rooted (array_context a ∷ below) = Rooted below
  Rooted (object_context o k ∷ below) = Rooted below

  handle_value-Rooted :
      (st : Stack R) (v : Value R) → Rooted st → Good IsParseError Rooted (handle_value st v)
  unfolding handle_value
  handle_value-Rooted [] v h = h
  handle_value-Rooted (value_context w ∷ []) v h = tt
  handle_value-Rooted (value_context w ∷ c ∷ cs) v h = h
  handle_value-Rooted (array_context a ∷ below) v h = h
  handle_value-Rooted (object_context o [] ∷ below) v h = tt
  handle_value-Rooted (object_context o (k ∷ ks) ∷ below) v h = h

  end_array-Rooted :
      (st : Stack R) → Rooted st → Good IsParseError Rooted (handle_event st end_array_event)
  unfolding handle_event
  end_array-Rooted [] h = h
  end_array-Rooted (array_context a ∷ below) h = handle_value-Rooted below (array owned a) h
  end_array-Rooted (value_context v ∷ below) h = tt
  end_array-Rooted (object_context o k ∷ below) h = tt

  end_object-Rooted :
      (st : Stack R) → Rooted st → Good IsParseError Rooted (handle_event st end_object_event)
  unfolding handle_event
  end_object-Rooted [] h = h
  end_object-Rooted (object_context o k ∷ below) h = handle_value-Rooted below (object owned o) h
  end_object-Rooted (value_context v ∷ below) h = tt
  end_object-Rooted (array_context a ∷ below) h = tt

  object_key-Rooted :
      (st : Stack R) (key : Bytes)
      → Rooted st
      → Good IsParseError Rooted (handle_event st (object_key_event key))
  unfolding handle_event
  object_key-Rooted [] key h = h
  object_key-Rooted (object_context o k ∷ below) key h = h
  object_key-Rooted (value_context v ∷ below) key h = tt
  object_key-Rooted (array_context a ∷ below) key h = tt

  -- Every event keeps the value context at the bottom, or ends in an error that `parse` may throw.
  handle_event-Rooted :
      (st : Stack R) (e : Event R) → Rooted st → Good IsParseError Rooted (handle_event st e)
  unfolding handle_event
  handle_event-Rooted st error_event h = tt
  handle_event-Rooted st null_event h = handle_value-Rooted st null h
  handle_event-Rooted st true_event h = handle_value-Rooted st _ h
  handle_event-Rooted st false_event h = handle_value-Rooted st _ h
  handle_event-Rooted st (integer_event i) h = handle_value-Rooted st (integer i) h
  handle_event-Rooted st (float_event r) h = handle_value-Rooted st (real r) h
  handle_event-Rooted st (string_event s) h = handle_value-Rooted st (string owned s) h
  handle_event-Rooted st start_array_event h = h
  handle_event-Rooted st end_array_event h = end_array-Rooted st h
  handle_event-Rooted st start_object_event h = h
  handle_event-Rooted st (object_key_event key) h = object_key-Rooted st key h
  handle_event-Rooted st end_object_event h = end_object-Rooted st h

  get_value_lem : (st : Stack R) → Rooted st → Good IsParseError (λ _. Unit {0}) (get_value st)
  unfolding get_value
  get_value_lem [] h = tt
  get_value_lem (value_context v ∷ []) h = tt
  get_value_lem (value_context v ∷ c ∷ cs) h = tt
  get_value_lem (array_context a ∷ []) h = tt
  get_value_lem (array_context a ∷ c ∷ cs) h = tt
  get_value_lem (object_context o k ∷ []) h = tt
  get_value_lem (object_context o k ∷ c ∷ cs) h = tt

  -- `parse` returns a value on every text, or throws `failed_to_parse`, a failed conversion of a numeral
  -- or `bad_variant_access`, for brackets that do not match, or it fails the assertion that a key is not
  -- empty, which by default aborts the process. Its loops end, two rounds for each character, and its
  -- stack is never empty.
  pub parse_outcome :
      (read_real : Bytes → Option R) (text : Bytes)
      → Good IsParseError (λ _. Unit {0}) (parse read_real text)
  unfolding parse
  parse_outcome read_real text =
      >>=-Good IsParseError
        (Kept read_real handle_event IsParseError Rooted handle_event-Rooted throws tt)
        (λ _. Unit {0}) (put read_real handle_event rounds text indeterminate_state initial) _
        (put_lem read_real handle_event IsParseError Rooted handle_event-Rooted throws tt text
          indeterminate_state initial tt)
        (λ t h. get_value_lem t.1 h)
    where
      throws :
          (st : Stack R)
          → Rooted st
          → (x : Error) × (handle_event st error_event ≡ err x) × IsParseError x
      throws st h = (json_error failed_to_parse, unfold handle_event in refl, tt)
