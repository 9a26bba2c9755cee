-- ===== src/Json/Serializer.antt =====
-- Serializing, include/gpcl/json.hpp and include/gpcl/json_iomanip.hpp: `operator<<` with
-- `serializing_visitor`, on a stream that never fails. Each function gives what the stream holds
-- when `rest` is written behind it. `double` is printed by the argument `print_real`.
use gpcl.Base.{ℕ, zero, suc, true, false, ◌||◌, [], ◌∷◌, ◌++◌, ◌==◌, if◌then◌else◌, Bytes}
use gpcl.Json.Parser.{word_null, word_true, word_false}
use gpcl.Json.Text.{print_integer}
use gpcl.Json.Value.{
  Value, null, boolean, integer, real, string, object, array, Items, nil, cons, Fields, end, field,
}

pub data PrintStyle : Type 0 where
  json_print_compressed json_print_pretty : PrintStyle

-- The escapes of `std::quoted`
unfoldable pub escaped : Bytes → Bytes → Bytes
escaped [] rest = rest
escaped (c ∷ cs) rest =
    let more = escaped cs rest in if c == b'"' || c == b'\\' then b'\\' ∷ c ∷ more else c ∷ more

abbrev pub quoted : Bytes → Bytes → Bytes
quoted s rest = b'"' ∷ escaped s (b'"' ∷ rest)

-- `indent_item_`, four blanks, as often as the depth says
unfoldable pub indents : ℕ → Bytes → Bytes
indents zero rest = rest
indents (suc n) rest = b' ' ∷ b' ' ∷ b' ' ∷ b' ' ∷ indents n rest

unfoldable pub newline : PrintStyle → ℕ → Bytes → Bytes
unfolding indents
newline json_print_compressed indent rest = rest
newline json_print_pretty indent rest = b'\n' ∷ indents indent rest

unfoldable pub space : PrintStyle → Bytes → Bytes
space json_print_compressed rest = rest
space json_print_pretty rest = b' ' ∷ rest

-- What `indent_sentry` makes of the depth
unfoldable pub deeper : PrintStyle → ℕ → ℕ
deeper json_print_compressed indent = indent
deeper json_print_pretty indent = suc indent

module _ {R : Type 0} (print_real : R → Bytes) (style : PrintStyle) where
  unfoldable mutual
    pub visit : ℕ → Value R → Bytes → Bytes
    visit indent null rest = word_null ++ rest
    visit indent (boolean true) rest = word_true ++ rest
    visit indent (boolean false) rest = word_false ++ rest
    visit indent (integer i) rest = print_integer i ++ rest
    visit indent (real r) rest = print_real r ++ rest
    visit indent (string _ s) rest = quoted s rest
    visit indent (array _ a) rest = b'[' ∷ visit_items indent a rest
    visit indent (object _ o) rest = b'{' ∷ visit_fields indent o rest

    -- the elements and the closing bracket, within an `indent_sentry` if there are any
    pub visit_items : ℕ → Items R → Bytes → Bytes
    visit_items indent nil rest = b']' ∷ rest
    visit_items indent (cons x xs) rest = newline style (deeper style indent) (
        visit (deeper style indent) x
          (visit_more (deeper style indent) xs (newline style indent (b']' ∷ rest))))

    -- `while (++iter != end)`
    pub visit_more : ℕ → Items R → Bytes → Bytes
    visit_more indent nil rest = rest
    visit_more indent (cons x xs) rest =
        b',' ∷ newline style indent (visit indent x (visit_more indent xs rest))

    pub visit_fields : ℕ → Fields R → Bytes → Bytes
    visit_fields indent end rest = b'}' ∷ rest
    visit_fields indent (field k x fs) rest = newline style (deeper style indent) (
        quoted k (
          b':'
          ∷ space style (
              visit (deeper style indent) x
                (visit_more_fields (deeper style indent) fs (newline style indent (b'}' ∷ rest))))))

    pub visit_more_fields : ℕ → Fields R → Bytes → Bytes
    visit_more_fields indent end rest = rest
    visit_more_fields indent (field k x fs) rest =
        b','
        ∷ newline style indent
            (quoted k (b':' ∷ space style (visit indent x (visit_more_fields indent fs rest))))

  -- `os << v`
  unfoldable pub serialize : Value R → Bytes
  serialize v = visit 0 v []
