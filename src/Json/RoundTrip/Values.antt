-- ===== src/Json/RoundTrip/Values.antt =====
-- The parser and the builder over a whole value of what the serializer writes.
use gpcl.Base.{ℕ, ◌≡◌, refl, ◌∙◌, sym, true, Option, [], ◌∷◌, Bytes}
use gpcl.Base.Results.{Result, ok, err, ◌>>=◌, >>=-congr}
use gpcl.Json.Builder.{array_context, object_context, Stack, handle_value, handle_event}
use gpcl.Json.Parser.{
  ParsingState, indeterminate_state, put, put_char, put_state, put_indeterminate,
}
use gpcl.Json.RoundTrip.Printable.{IsKey, settle, settle_items, settle_fields}
use gpcl.Json.RoundTrip.Scalars.{run-key}
use gpcl.Json.RoundTrip.Tokens.{is_closer, run, run-newline, run-space_gap}
use gpcl.Json.Serializer.{PrintStyle, newline, space, quoted, visit}
use gpcl.Json.Value.{
  Value, null, boolean, integer, real, string, object, array, Items, nil, cons, Fields, end, field,
  owned, shared, clone, clone_items, clone_fields, insert, Error,
}

-- What may follow a value: white space that the style asks for, then a comma or a closing bracket.
pub record Gap (text : Bytes) : Type 0 where
  pub style : PrintStyle
  pub indent : ℕ
  pub closer : ℕ
  pub rest : Bytes
  pub closes : is_closer closer ≡ true
  pub splits : text ≡ newline style indent (closer ∷ rest)

module _ {R : Type 0} where
  pub clone-settle : (v : Value R) → clone (settle v) ≡ settle v
  unfolding clone settle
  clone-settle null = refl
  clone-settle (boolean b) = refl
  clone-settle (integer i) = refl
  clone-settle (real r) = refl
  clone-settle (string m s) = refl
  clone-settle (object m o) = refl
  clone-settle (array m a) = refl

  pub clone_items-settle_items : (a : Items R) → clone_items (settle_items a) ≡ settle_items a
  unfolding clone settle
  clone_items-settle_items nil = refl
  clone_items-settle_items (cons x xs) = rw (clone-settle x, clone_items-settle_items xs) refl

  pub clone_fields-settle_fields : (o : Fields R) → clone_fields (settle_fields o) ≡ settle_fields o
  unfolding clone settle
  clone_fields-settle_fields end = refl
  clone_fields-settle_fields (field k x fs) =
      rw (clone-settle x, clone_fields-settle_fields fs) refl

  clone-clone : (v : Value R) → clone (clone v) ≡ clone v
  unfolding clone
  clone-clone null = refl
  clone-clone (boolean b) = refl
  clone-clone (integer i) = refl
  clone-clone (real r) = refl
  clone-clone (string m s) = refl
  clone-clone (object owned o) = refl
  clone-clone (object shared o) = refl
  clone-clone (array owned a) = refl
  clone-clone (array shared a) = refl

  pub handle_value-clone :
      (st : Stack R) (v : Value R) → handle_value st (clone v) ≡ handle_value st v
  unfolding handle_value
  handle_value-clone [] v = refl
  handle_value-clone (ctx ∷ below) v = rw (clone-clone v)

module _ {R : Type 0} (print_real : R → Bytes) (read_real : Bytes → Option R)
    (style : PrintStyle) where
  abbrev pub go : Bytes → Stack R → Result Error (ParsingState × Stack R)
  go text st = run read_real handle_event text indeterminate_state st

  pub go-newline :
      (g : PrintStyle) (j : ℕ) (rest : Bytes) (st : Stack R) → go (newline g j rest) st ≡ go rest st
  go-newline g j rest st = run-newline read_real handle_event g j rest st

  -- A scalar lemma at a text with a gap in front.
  pub go-Gap :
      (before : Bytes → Bytes) (m : Result Error (Stack R)) (st : Stack R) (t : Bytes)
      → ((g : PrintStyle) (j d : ℕ) (rest : Bytes)
          → is_closer d ≡ true
          → go (before (newline g j (d ∷ rest))) st ≡ (m >>= λ st'. go (d ∷ rest) st'))
      → Gap t
      → go (before t) st ≡ (m >>= λ st'. go t st')
  go-Gap before m st t h gap = rw gap.splits (
      h gap.style gap.indent gap.closer gap.rest gap.closes
      ∙ >>=-congr m (λ st'. sym (go-newline gap.style gap.indent _ st')))

  pub close_array :
      (acc : Items R) (t : Bytes) (st : Stack R)
      → go (b']' ∷ t) (array_context acc ∷ st)
        ≡ (handle_value st (array owned acc) >>= λ st'. go t st')
  close_array acc t st = at_end (handle_value st (array owned acc)) refl
    where
      at_end :
          (m : Result Error (Stack R))
          → handle_value st (array owned acc) ≡ m
          → go (b']' ∷ t) (array_context acc ∷ st) ≡ (m >>= λ st'. go t st')
      at_end (ok s) e = unfold put put_char put_state put_indeterminate handle_event in rw e
      at_end (err x) e = unfold put put_char put_state put_indeterminate handle_event in rw e

  pub close_object :
      (acc : Fields R) (key t : Bytes) (st : Stack R)
      → go (b'}' ∷ t) (object_context acc key ∷ st)
        ≡ (handle_value st (object owned acc) >>= λ st'. go t st')
  close_object acc key t st = at_end (handle_value st (object owned acc)) refl
    where
      at_end :
          (m : Result Error (Stack R))
          → handle_value st (object owned acc) ≡ m
          → go (b'}' ∷ t) (object_context acc key ∷ st) ≡ (m >>= λ st'. go t st')
      at_end (ok s) e = unfold put put_char put_state put_indeterminate handle_event in rw e
      at_end (err x) e = unfold put put_char put_state put_indeterminate handle_event in rw e

  -- A key and its value make a field of the object under construction.
  pub one_field :
      (k : ℕ) (key : Bytes) (x : Value R) (acc : Fields R) (t : Bytes) (st : Stack R)
      → IsKey key
      → ((st' : Stack R)
          → go (visit print_real style k x t) st' ≡ (handle_value st' (settle x) >>= λ s. go t s))
      → go
          (quoted key (b':' ∷ space style (visit print_real style k x t)))
          (object_context acc [] ∷ st)
        ≡ go t (object_context (insert key (settle x) acc) [] ∷ st)
  unfolding handle_event
  one_field k [] x acc t st ok_key h = absurd (ok_key.filled refl)
  one_field k (c ∷ cs) x acc t st ok_key h =
      run-key read_real handle_event (c ∷ cs) _ (object_context acc [] ∷ st) ok_key.plain
      ∙ run-space_gap read_real handle_event style _ _
      ∙ h (object_context acc (c ∷ cs) ∷ st)
      ∙ unfold handle_value in rw (clone-settle x)
