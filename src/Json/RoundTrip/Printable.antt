-- ===== src/Json/RoundTrip/Printable.antt =====
-- The values that the serializer writes and the parser reads back, and what comes back: the same
-- value with every string, object and array held through a shared pointer.
use gpcl.Base.{ℕ, ◌<◌, ◌≡◌, ◌≢◌, true, Option, some, [], ◌∷◌, Bytes, is_digit}
use gpcl.Base.Int.{ℤ, pos, negsuc}
use gpcl.Json.Parser.{contains}
use gpcl.Json.RoundTrip.Scalars.{is_number_text, is_plain}
use gpcl.Json.Text.{int64_bound}
use gpcl.Json.Value.{
  Value, null, boolean, integer, real, string, object, array, Items, nil, cons, Fields, end, field,
  shared, key_lt, emplace_back, insert,
}

-- The parser knows no minus sign.
abbrev pub IsNatural : ℤ → Type 0
IsNatural (pos n) = n < int64_bound
IsNatural (negsuc n) = ⊥

-- A key that may stand in an object: not empty, and nothing in it to escape.
pub record IsKey (k : Bytes) : Type 0 where
  pub plain : is_plain k ≡ true
  pub filled : k ≢ []

-- A numeral that the parser takes for a floating-point one, and that is read as `r`.
pub record ReadsAs {R : Type 0} (read_real : Bytes → Option R) (r : R) (text : Bytes) : Type 0 where
  pub head : ℕ
  pub tail : Bytes
  pub splits : text ≡ head ∷ tail
  pub opens : is_digit head ≡ true
  pub digits : is_number_text tail ≡ true
  pub pointed : contains b'.' (head ∷ tail) ≡ true
  pub reads : read_real (head ∷ tail) ≡ some r

module _ {R : Type 0} where
  -- Every key of the fields is above `k`, or below it.
  abbrev pub Above : Bytes → Fields R → Type 0
  Above k end = Unit
  Above k (field j w fs) = (key_lt k j ≡ true) × Above k fs

  abbrev pub Below : Fields R → Bytes → Type 0
  Below end k = Unit
  Below (field j w fs) k = (key_lt j k ≡ true) × Below fs k

module _ {R : Type 0} (print_real : R → Bytes) (read_real : Bytes → Option R) where
  abbrev mutual
    pub IsPrintable : Value R → Type 0
    IsPrintable null = Unit
    IsPrintable (boolean b) = Unit
    IsPrintable (integer i) = IsNatural i
    IsPrintable (real r) = ReadsAs read_real r (print_real r)
    IsPrintable (string _ s) = is_plain s ≡ true
    IsPrintable (array _ a) = ArePrintable a
    IsPrintable (object _ o) = ArePrintableFields o

    pub ArePrintable : Items R → Type 0
    ArePrintable nil = Unit
    ArePrintable (cons x xs) = IsPrintable x × ArePrintable xs

    pub ArePrintableFields : Fields R → Type 0
    ArePrintableFields end = Unit
    ArePrintableFields (field k x fs) = IsKey k × Above k fs × IsPrintable x × ArePrintableFields fs

module _ {R : Type 0} where
  unfoldable mutual
    pub settle : Value R → Value R
    settle null = null
    settle (boolean b) = boolean b
    settle (integer i) = integer i
    settle (real r) = real r
    settle (string _ s) = string shared s
    settle (array _ a) = array shared (settle_items a)
    settle (object _ o) = object shared (settle_fields o)

    pub settle_items : Items R → Items R
    settle_items nil = nil
    settle_items (cons x xs) = cons (settle x) (settle_items xs)

    pub settle_fields : Fields R → Fields R
    settle_fields end = end
    settle_fields (field k x fs) = field k (settle x) (settle_fields fs)

  -- What a builder holds after it was handed the elements, or the fields, one by one.
  unfoldable pub emplace_all : Items R → Items R → Items R
  emplace_all acc nil = acc
  emplace_all acc (cons x xs) = emplace_all (emplace_back acc x) xs

  unfoldable pub insert_all : Fields R → Fields R → Fields R
  insert_all acc end = acc
  insert_all acc (field k x fs) = insert_all (insert k x acc) fs
