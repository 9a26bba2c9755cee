-- ===== src/Json/Builder.antt =====
-- `basic_json::value_builder` of include/gpcl/json.hpp, and `parse`, which drives it by the parser.
use gpcl.Base.{ℕ, true, false, Option, List, [], ◌∷◌, Bytes}
use gpcl.Base.Results.{Result, ok, err, ◌>>=◌}
use gpcl.Json.Value.{
  Value, null, boolean, integer, real, string, object, array, Items, nil, Fields, end, owned, clone,
  emplace_back, insert, Error, json_error, failed_to_parse, bad_variant_access, assertion_failure,
  empty_stack,
}
use gpcl.Json.Parser
use gpcl.Json.Parser.{
  Event, error_event, null_event, true_event, false_event, integer_event, float_event, string_event,
  start_array_event, end_array_event, start_object_event, object_key_event, end_object_event,
  indeterminate_state,
}

pub data Context (R : Type 0) : Type 0 where
  value_context : Value R → Context R
  array_context : Items R → Context R
  object_context : Fields R → Bytes → Context R

-- `stack_`, its back first
abbrev pub Stack : Type 0 → Type 0
Stack R = List (Context R)

-- No character takes more than two rounds of the parser's inner loop.
abbrev pub rounds : ℕ
rounds = 2

module _ {R : Type 0} where
  -- `handle_value(ctx, v)`. A key that was moved from is left empty, as the common libraries do.
  unfoldable pub handle_in : Context R → Value R → Result Error (Context R)
  handle_in (value_context _) v = ok (value_context v)
  handle_in (array_context a) v = ok (array_context (emplace_back a v))
  handle_in (object_context o []) v = err assertion_failure
  handle_in (object_context o (c ∷ cs)) v = ok (object_context (insert (c ∷ cs) v o) [])

  -- `handle_value(v)`: the visitor captures `v` by a copy.
  unfoldable pub handle_value : Stack R → Value R → Result Error (Stack R)
  unfolding clone handle_in
  handle_value [] v = err empty_stack
  handle_value (ctx ∷ below) v = do ctx' ← handle_in ctx (clone v); ok (ctx' ∷ below)

  end_array : Stack R → Result Error (Stack R)
  unfolding handle_value
  end_array [] = err empty_stack
  end_array (array_context a ∷ below) = handle_value below (array owned a)
  end_array (_ ∷ below) = err bad_variant_access

  end_object : Stack R → Result Error (Stack R)
  unfolding handle_value
  end_object [] = err empty_stack
  end_object (object_context o key ∷ below) = handle_value below (object owned o)
  end_object (_ ∷ below) = err bad_variant_access

  object_key : Stack R → Bytes → Result Error (Stack R)
  object_key [] key = err empty_stack
  object_key (object_context o _ ∷ below) key = ok (object_context o key ∷ below)
  object_key (_ ∷ below) key = err bad_variant_access

  -- `operator()(event)`
  unfoldable pub handle_event : Stack R → Event R → Result Error (Stack R)
  unfolding end_array end_object object_key
  handle_event st error_event = err (json_error failed_to_parse)
  handle_event st null_event = handle_value st null
  handle_event st true_event = handle_value st (boolean true)
  handle_event st false_event = handle_value st (boolean false)
  handle_event st (integer_event i) = handle_value st (integer i)
  handle_event st (float_event r) = handle_value st (real r)
  handle_event st (string_event s) = handle_value st (string owned s)
  handle_event st start_array_event = ok (array_context nil ∷ st)
  handle_event st end_array_event = end_array st
  handle_event st start_object_event = ok (object_context end [] ∷ st)
  handle_event st (object_key_event key) = object_key st key
  handle_event st end_object_event = end_object st

  unfoldable pub get_value : Stack R → Result Error (Value R)
  unfolding clone
  get_value [] = err (json_error failed_to_parse)
  get_value (value_context v ∷ []) = ok (clone v)
  get_value (_ ∷ []) = err bad_variant_access
  get_value (_ ∷ _ ∷ _) = err (json_error failed_to_parse)

  abbrev pub initial : Stack R
  initial = value_context null ∷ []

  unfoldable pub parse : (Bytes → Option R) → Bytes → Result Error (Value R)
  unfolding handle_event get_value
  parse read_real text = do
    (_, st) ← Parser.put read_real handle_event rounds text indeterminate_state initial
    get_value st
