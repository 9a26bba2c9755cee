-- ===== src/Json/Value.antt =====
-- The data of include/gpcl/json.hpp: `json`, that is `basic_json` over `std::int64_t`, `std::string`,
-- `std::map` ordered by key and `std::vector`. The type `R` stands for `double`.
-- `data_type` holds a string, an object or an array either itself or through a `shared_ptr` to a
-- constant one; the flag of type `Storage` says which.
use gpcl.Base.{Bool, true, false, ◌&&◌, [], ◌∷◌, ltb, ◌==◌, if◌then◌else◌, Bytes}
use gpcl.Base.Int.{ℤ}

pub data JsonErrc : Type 0 where
  bad_json_cast type_mismatch operation_not_supported out_of_range failed_to_parse : JsonErrc

-- What ends an operation: a `json_error`, an exception of `lexical_cast` or of `get`, a failed
-- `GPCL_ASSERT`, a use of `back()` on an empty vector, or a loop that outlives its fuel.
pub data Error : Type 0 where
  json_error : JsonErrc → Error
  bad_lexical_cast bad_variant_access assertion_failure empty_stack no_fuel : Error

pub data Storage : Type 0 where
  owned shared : Storage

mutual
  pub data Value (R : Type 0) : Type 0 where
    null : Value R
    boolean : Bool → Value R
    integer : ℤ → Value R
    real : R → Value R
    string : Storage → Bytes → Value R
    object : Storage → Fields R → Value R
    array : Storage → Items R → Value R

  -- `std::vector<value>`
  pub data Items (R : Type 0) : Type 0 where
    nil : Items R
    cons : Value R → Items R → Items R

  -- `std::map<std::string, value>`, in the order of the keys
  pub data Fields (R : Type 0) : Type 0 where
    end : Fields R
    field : Bytes → Value R → Fields R → Fields R

-- `std::less<std::string>`
unfoldable pub key_lt : Bytes → Bytes → Bool
key_lt [] [] = false
key_lt [] (y ∷ ys) = true
key_lt (x ∷ xs) [] = false
key_lt (x ∷ xs) (y ∷ ys) = if ltb x y then true else if x == y then key_lt xs ys else false

unfoldable pub key_eq : Bytes → Bytes → Bool
key_eq [] [] = true
key_eq (x ∷ xs) (y ∷ ys) = x == y && key_eq xs ys
key_eq _ _ = false

module _ {R : Type 0} where
  -- `clone_visitor`: a copy of a value shares the string, object or array. One that is shared already is
  -- not copied; one that is not is, with its elements.
  unfoldable mutual
    pub clone : Value R → Value R
    clone null = null
    clone (boolean b) = boolean b
    clone (integer i) = integer i
    clone (real r) = real r
    clone (string _ s) = string shared s
    clone (object shared o) = object shared o
    clone (object owned o) = object shared (clone_fields o)
    clone (array shared a) = array shared a
    clone (array owned a) = array shared (clone_items a)

    pub clone_items : Items R → Items R
    clone_items nil = nil
    clone_items (cons x xs) = cons (clone x) (clone_items xs)

    pub clone_fields : Fields R → Fields R
    clone_fields end = end
    clone_fields (field k x fs) = field k (clone x) (clone_fields fs)

  -- `std::vector::emplace_back`
  unfoldable pub emplace_back : Items R → Value R → Items R
  emplace_back nil v = cons v nil
  emplace_back (cons x xs) v = cons x (emplace_back xs v)

  -- `std::map::insert`: a key that is there keeps its value.
  unfoldable pub insert : Bytes → Value R → Fields R → Fields R
  insert k v end = field k v end
  insert k v (field j w fs) =
      let later = field j w (insert k v fs) in
      if key_lt k j then field k v (field j w fs) else if key_lt j k then later else field j w fs
