-- ===== src/Json/RoundTrip/Trees.antt =====
-- The parser and the builder over whole values, by induction on the value.
use gpcl.Base.{ℕ, ◌≡◌, refl, ap, ◌∙◌, sym, true, false, Option, [], ◌∷◌, ◌++◌, Bytes}
use gpcl.Base.Int.{ℤ, pos, negsuc}
use gpcl.Base.Results.{Result, ◌>>=◌}
use gpcl.Json.Builder.{array_context, object_context, Stack, handle_value, handle_event}
use gpcl.Json.Parser.{
  ParsingState, word_null, word_true, word_false, put, put_char, put_state, put_indeterminate,
}
use gpcl.Json.RoundTrip.Printable.{
  IsNatural, ReadsAs, IsPrintable, ArePrintable, ArePrintableFields, Above, settle, settle_items,
  settle_fields, emplace_all, insert_all,
}
use gpcl.Json.RoundTrip.Order.{IsAscending, emplace_all_self, insert_all_self}
use gpcl.Json.RoundTrip.Scalars.{
  run-null, run-true, run-false, run-integer, run-real, run-string, is_plain,
}
use gpcl.Json.RoundTrip.Tokens.{run-comma}
use gpcl.Json.RoundTrip.Values.{
  Gap, clone-settle, clone_items-settle_items, clone_fields-settle_fields, handle_value-clone, go,
  go-newline, go-Gap, close_array, close_object, one_field,
}
use gpcl.Json.Serializer.{
  PrintStyle, json_print_compressed, newline, deeper, visit, visit_items, visit_more, visit_fields,
  visit_more_fields, quoted,
}
use gpcl.Json.Text.{print_integer, decimal}
use gpcl.Json.Value.{
  Value, null, boolean, integer, real, string, object, array, Items, nil, cons, Fields, end, field,
  Storage, owned, shared, clone, emplace_back, insert, Error,
}

module _ {R : Type 0} (print_real : R → Bytes) (read_real : Bytes → Option R)
    (style : PrintStyle) where
  abbrev feed : Bytes → Stack R → Result Error (ParsingState × Stack R)
  feed text st = go print_real read_real style text st

  more-Gap :
      (xs : Items R) (k i : ℕ) (t : Bytes)
      → Gap (visit_more print_real style k xs (newline style i (b']' ∷ t)))
  unfolding visit newline
  more-Gap nil k i t = record {
    style = style;
    indent = i;
    closer = b']';
    rest = t;
    closes = refl;
    splits = refl;
  }
  more-Gap (cons x xs) k i t = record {
    style = json_print_compressed;
    indent = 0;
    closer = b',';
    rest = _;
    closes = refl;
    splits = refl;
  }

  more_fields-Gap :
      (fs : Fields R) (k i : ℕ) (t : Bytes)
      → Gap (visit_more_fields print_real style k fs (newline style i (b'}' ∷ t)))
  unfolding visit newline
  more_fields-Gap end k i t = record {
    style = style;
    indent = i;
    closer = b'}';
    rest = t;
    closes = refl;
    splits = refl;
  }
  more_fields-Gap (field key x fs) k i t = record {
    style = json_print_compressed;
    indent = 0;
    closer = b',';
    rest = _;
    closes = refl;
    splits = refl;
  }

  -- A value added to the array under construction
  to_array :
      (acc : Items R) (x : Value R) (st : Stack R) (t : Bytes)
      → (handle_value (array_context acc ∷ st) (settle x) >>= λ s. feed t s)
        ≡ feed t (array_context (emplace_back acc (settle x)) ∷ st)
  unfolding handle_value
  to_array acc x st t = rw (clone-settle x)

  scalar_null :
      (t : Bytes) (st : Stack R)
      → Gap t
      → feed (word_null ++ t) st ≡ (handle_value st null >>= λ s. feed t s)
  unfolding handle_event
  scalar_null t st gap =
      go-Gap print_real read_real style (λ u. word_null ++ u) (handle_value st null) st t
        (λ g j d rest c. run-null read_real handle_event g j d rest st c) gap

  scalar_true :
      (t : Bytes) (st : Stack R)
      → Gap t
      → feed (word_true ++ t) st ≡ (handle_value st (boolean true) >>= λ s. feed t s)
  unfolding handle_event
  scalar_true t st gap =
      go-Gap print_real read_real style (λ u. word_true ++ u) (handle_value st (boolean true)) st t
        (λ g j d rest c. run-true read_real handle_event g j d rest st c) gap

  scalar_false :
      (t : Bytes) (st : Stack R)
      → Gap t
      → feed (word_false ++ t) st ≡ (handle_value st (boolean false) >>= λ s. feed t s)
  unfolding handle_event
  scalar_false t st gap =
      go-Gap print_real read_real style (λ u. word_false ++ u) (handle_value st (boolean false)) st
        t (λ g j d rest c. run-false read_real handle_event g j d rest st c) gap

  scalar_integer :
      (i : ℤ) (t : Bytes) (st : Stack R)
      → Gap t
      → IsNatural i
      → feed (print_integer i ++ t) st ≡ (handle_value st (integer i) >>= λ s. feed t s)
  unfolding handle_event print_integer
  scalar_integer (pos n) t st gap p =
      go-Gap print_real read_real style (λ u. decimal n ++ u) (handle_value st (integer (pos n))) st
        t (λ g j d rest c. run-integer read_real handle_event g j d rest st c n p) gap
  scalar_integer (negsuc n) t st gap p = elim p [ ]

  scalar_real :
      (r : R) (t : Bytes) (st : Stack R)
      → Gap t
      → ReadsAs read_real r (print_real r)
      → feed (print_real r ++ t) st ≡ (handle_value st (real r) >>= λ s. feed t s)
  unfolding handle_event
  scalar_real r t st gap p = rw p.splits (
      go-Gap print_real read_real style (λ u. (p.head ∷ p.tail) ++ u) (handle_value st (real r)) st
        t
        (λ g j d rest c.
          run-real read_real handle_event g j d rest st c p.head p.tail r p.opens p.digits p.pointed
            p.reads)
        gap)

  scalar_string :
      (m : Storage) (cs : Bytes) (t : Bytes) (st : Stack R)
      → Gap t
      → is_plain cs ≡ true
      → feed (quoted cs t) st ≡ (handle_value st (string shared cs) >>= λ s. feed t s)
  unfolding handle_event clone
  scalar_string m cs t st gap p =
      go-Gap print_real read_real style (quoted cs) (handle_value st (string owned cs)) st t
        (λ g j d rest c. run-string read_real handle_event g j d rest st c cs p) gap
      ∙ ap (λ r. r >>= λ s. feed t s) (sym (handle_value-clone st (string owned cs)))

  unowned_array :
      (a : Items R) (st : Stack R)
      → handle_value st (array owned (settle_items a))
        ≡ handle_value st (array shared (settle_items a))
  unfolding clone
  unowned_array a st =
      sym (handle_value-clone st (array owned (settle_items a)))
      ∙ ap (λ b. handle_value st (array shared b)) (clone_items-settle_items a)

  unowned_object :
      (o : Fields R) (st : Stack R)
      → handle_value st (object owned (settle_fields o))
        ≡ handle_value st (object shared (settle_fields o))
  unfolding clone
  unowned_object o st =
      sym (handle_value-clone st (object owned (settle_fields o)))
      ∙ ap (λ b. handle_value st (object shared b)) (clone_fields-settle_fields o)

  pub open_array : (t : Bytes) (st : Stack R) → feed (b'[' ∷ t) st ≡ feed t (array_context nil ∷ st)
  unfolding put put_char put_state put_indeterminate handle_event
  open_array t st = refl

  pub open_object :
      (t : Bytes) (st : Stack R) → feed (b'{' ∷ t) st ≡ feed t (object_context end [] ∷ st)
  unfolding put put_char put_state put_indeterminate handle_event
  open_object t st = refl

  ascending :
      (fs : Fields R) → ArePrintableFields print_real read_real fs → IsAscending (settle_fields fs)
  unfolding settle
  ascending end p = tt
  ascending (field k x fs) p = (above k fs p.1, ascending fs p.3)
    where
      above : (k : Bytes) (fs : Fields R) → Above k fs → Above k (settle_fields fs)
      above k end a = tt
      above k (field j y fs) a = (a.0, above k fs a.1)

  mutual
    unfolding visit settle emplace_all insert_all

    value_lem :
        (v : Value R) (k : ℕ) (t : Bytes) (st : Stack R)
        → Gap t
        → IsPrintable print_real read_real v
        → feed (visit print_real style k v t) st ≡ (handle_value st (settle v) >>= λ s. feed t s)
    value_lem null k t st gap p = scalar_null t st gap
    value_lem (boolean true) k t st gap p = scalar_true t st gap
    value_lem (boolean false) k t st gap p = scalar_false t st gap
    value_lem (integer i) k t st gap p = scalar_integer i t st gap p
    value_lem (real r) k t st gap p = scalar_real r t st gap p
    value_lem (string m s) k t st gap p = scalar_string m s t st gap p
    value_lem (array m a) k t st gap p =
        open_array _ st ∙ items_lem a k t st p ∙ ap (λ r. r >>= λ s. feed t s) (unowned_array a st)
    value_lem (object m o) k t st gap p =
        open_object _ st
        ∙ fields_lem o k t st p
        ∙ ap (λ r. r >>= λ s. feed t s) (unowned_object o st)

    pub items_lem :
        (a : Items R) (k : ℕ) (t : Bytes) (st : Stack R)
        → ArePrintable print_real read_real a
        → feed (visit_items print_real style k a t) (array_context nil ∷ st)
          ≡ (handle_value st (array owned (settle_items a)) >>= λ s. feed t s)
    items_lem nil k t st p = close_array print_real read_real style nil t st
    items_lem (cons x xs) k t st p =
        go-newline print_real read_real style style (deeper style k) _ _
        ∙ value_lem x (deeper style k) _ _ (more-Gap xs (deeper style k) k t) p.0
        ∙ to_array nil x st _
        ∙ more_lem xs (deeper style k) k t (emplace_back nil (settle x)) st p.1
        ∙ ap (λ a. handle_value st (array owned a) >>= λ s. feed t s)
            (emplace_all_self (cons (settle x) (settle_items xs)))

    more_lem :
        (xs : Items R) (k i : ℕ) (t : Bytes) (acc : Items R) (st : Stack R)
        → ArePrintable print_real read_real xs
        → feed
            (visit_more print_real style k xs (newline style i (b']' ∷ t)))
            (array_context acc ∷ st)
          ≡ (handle_value st (array owned (emplace_all acc (settle_items xs))) >>= λ s. feed t s)
    more_lem nil k i t acc st p =
        go-newline print_real read_real style style i _ _
        ∙ close_array print_real read_real style acc t st
    more_lem (cons x xs) k i t acc st p =
        run-comma read_real handle_event _ _
        ∙ go-newline print_real read_real style style k _ _
        ∙ value_lem x k _ _ (more-Gap xs k i t) p.0
        ∙ to_array acc x st _
        ∙ more_lem xs k i t (emplace_back acc (settle x)) st p.1

    pub fields_lem :
        (o : Fields R) (k : ℕ) (t : Bytes) (st : Stack R)
        → ArePrintableFields print_real read_real o
        → feed (visit_fields print_real style k o t) (object_context end [] ∷ st)
          ≡ (handle_value st (object owned (settle_fields o)) >>= λ s. feed t s)
    fields_lem end k t st p = close_object print_real read_real style end [] t st
    fields_lem (field key x fs) k t st p =
        go-newline print_real read_real style style (deeper style k) _ _
        ∙ one_field print_real read_real style (deeper style k) key x end _ st p.0 (λ st'.
          value_lem x (deeper style k) _ st' (more_fields-Gap fs (deeper style k) k t) p.2)
        ∙ more_fields_lem fs (deeper style k) k t (insert key (settle x) end) st p.3
        ∙ ap (λ a. handle_value st (object owned a) >>= λ s. feed t s)
            (insert_all_self (settle_fields (field key x fs)) (ascending (field key x fs) p))

    more_fields_lem :
        (fs : Fields R) (k i : ℕ) (t : Bytes) (acc : Fields R) (st : Stack R)
        → ArePrintableFields print_real read_real fs
        → feed
            (visit_more_fields print_real style k fs (newline style i (b'}' ∷ t)))
            (object_context acc [] ∷ st)
          ≡ (handle_value st (object owned (insert_all acc (settle_fields fs))) >>= λ s. feed t s)
    more_fields_lem end k i t acc st p =
        go-newline print_real read_real style style i _ _
        ∙ close_object print_real read_real style acc [] t st
    more_fields_lem (field key x fs) k i t acc st p =
        run-comma read_real handle_event _ _
        ∙ go-newline print_real read_real style style k _ _
        ∙ one_field print_real read_real style k key x acc _ st p.0
            (λ st'. value_lem x k _ st' (more_fields-Gap fs k i t) p.2)
        ∙ more_fields_lem fs k i t (insert key (settle x) acc) st p.3
