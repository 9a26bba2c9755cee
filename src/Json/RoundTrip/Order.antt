-- ===== src/Json/RoundTrip/Order.antt =====
-- Handing the elements of an array, or the fields of a sorted object, to an empty one gives it back.
use gpcl.Base.{◌≡◌, refl, ap, ◌∙◌, true, false, [], ◌∷◌, arith, Bytes}
use gpcl.Json.RoundTrip.Printable.{Above, Below, emplace_all, insert_all}
use gpcl.Json.Value.{Value, Items, nil, cons, Fields, end, field, key_lt, emplace_back, insert}

-- `std::less` is asymmetric.
key_lt_asymm : (j k : Bytes) → key_lt j k ≡ true → key_lt k j ≡ false
unfolding key_lt
key_lt_asymm [] [] h = refl
key_lt_asymm [] (y ∷ k) h = refl
key_lt_asymm (x ∷ j) [] h = cc
key_lt_asymm (x ∷ j) (y ∷ k) h = ground (arith, key_lt_asymm j k)

module _ {R : Type 0} where
  append_items : Items R → Items R → Items R
  append_items nil ys = ys
  append_items (cons x xs) ys = cons x (append_items xs ys)

  append_items-nil : (acc : Items R) → acc ≡ append_items acc nil
  unfolding append_items
  append_items-nil nil = refl
  append_items-nil (cons y acc) = ap (cons y) (append_items-nil acc)

  emplace_back-append :
      (acc : Items R) (x : Value R) (xs : Items R)
      → append_items (emplace_back acc x) xs ≡ append_items acc (cons x xs)
  unfolding append_items emplace_back
  emplace_back-append nil x xs = refl
  emplace_back-append (cons y acc) x xs = ap (cons y) (emplace_back-append acc x xs)

  emplace_all-append : (xs acc : Items R) → emplace_all acc xs ≡ append_items acc xs
  unfolding emplace_all
  emplace_all-append nil acc = append_items-nil acc
  emplace_all-append (cons x xs) acc =
      emplace_all-append xs (emplace_back acc x) ∙ emplace_back-append acc x xs

  pub emplace_all_self : (xs : Items R) → emplace_all nil xs ≡ xs
  emplace_all_self xs = emplace_all-append xs nil ∙ unfold append_items in refl

  append_fields : Fields R → Fields R → Fields R
  append_fields end gs = gs
  append_fields (field k x fs) gs = field k x (append_fields fs gs)

  append_fields-end : (fs : Fields R) → fs ≡ append_fields fs end
  unfolding append_fields
  append_fields-end end = refl
  append_fields-end (field k x fs) = ap (field k x) (append_fields-end fs)

  -- A key above all others goes to the end.
  insert-above :
      (acc : Fields R) (k : Bytes) (x : Value R) (fs : Fields R)
      → Below acc k
      → append_fields (insert k x acc) fs ≡ append_fields acc (field k x fs)
  unfolding append_fields insert
  insert-above end k x fs b = refl
  insert-above (field j w acc) k x fs b =
      rw (key_lt_asymm j k b.0, b.0) (ap (field j w) (insert-above acc k x fs b.1))

  Below-insert :
      (acc : Fields R) (k l : Bytes) (x : Value R)
      → Below acc k
      → Below acc l
      → key_lt k l ≡ true
      → Below (insert k x acc) l
  unfolding insert
  Below-insert end k l x b c h = (h, tt)
  Below-insert (field j w acc) k l x b c h =
      rw (key_lt_asymm j k b.0, b.0) (c.0, Below-insert acc k l x b.1 c.1 h)

  abbrev pub IsAscending : Fields R → Type 0
  IsAscending end = Unit
  IsAscending (field k x fs) = Above k fs × IsAscending fs

  -- Every key of the first is below every key of the second.
  abbrev Apart : Fields R → Fields R → Type 0
  Apart acc end = Unit
  Apart acc (field k x fs) = Below acc k × Apart acc fs

  Apart-insert :
      (fs acc : Fields R) (k : Bytes) (x : Value R)
      → Below acc k
      → Above k fs
      → Apart acc fs
      → Apart (insert k x acc) fs
  Apart-insert end acc k x b a p = tt
  Apart-insert (field l y fs) acc k x b a p =
      (Below-insert acc k l x b p.0 a.0, Apart-insert fs acc k x b a.1 p.1)

  insert_all-append :
      (fs acc : Fields R) → IsAscending fs → Apart acc fs → insert_all acc fs ≡ append_fields acc fs
  unfolding insert_all
  insert_all-append end acc s p = append_fields-end acc
  insert_all-append (field k x fs) acc s p =
      insert_all-append fs (insert k x acc) s.1 (Apart-insert fs acc k x p.0 s.0 p.1)
      ∙ insert-above acc k x fs p.0

  Apart-end : (fs : Fields R) → Apart end fs
  Apart-end end = tt
  Apart-end (field k x fs) = (tt, Apart-end fs)

  pub insert_all_self : (fs : Fields R) → IsAscending fs → insert_all end fs ≡ fs
  unfolding append_fields
  insert_all_self fs s = insert_all-append fs end s (Apart-end fs)
