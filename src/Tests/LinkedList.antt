-- ===== src/Tests/LinkedList.antt =====
-- include/gpcl/list.hpp on two small lists.
use mathlib.Core.List.{Perm}
use gpcl.Base.{
  ℕ, zero, suc, ◌<◌, ◌≡◌, ◌≢◌, refl, subst, Bool, true, false, List, [], ◌∷◌, Option, none, some,
  ltb, ◌==◌, if◌then◌else◌, Bool-cases, inl, inr, arith,
}
use gpcl.Base.Addresses.{Apart}
use gpcl.LinkedList.Link.{Ring}
use gpcl.LinkedList.Ring.{IsList}
use gpcl.LinkedList.Erase.Whole.{Erased, erase_range-Erased}
use gpcl.LinkedList.Insert.Emplace.{Emplaced, emplace-Emplaced}
use gpcl.LinkedList.Insert.Many.{Inserted, insert_range-Inserted}
use gpcl.LinkedList.Insert.Resize.{Refilled, resize-Refilled}
use gpcl.LinkedList.Insert.{
  create_node, emplace, insert_loop, insert_range, insert_count, resize, resize_default, push_back,
  push_front, roll_back, shrink_loop, grow_loop, check_size,
}
use gpcl.LinkedList.Splice.Same.{splice_same}
use gpcl.LinkedList.Splice.Other.{splice_other}
use gpcl.LinkedList.Splice.Empty.{splice_all-empty, swap-empty}
use gpcl.LinkedList.Splice.{
  distance, move_size, splice_range, splice_all, splice_one, swap_nodes, swap_sizes, swap,
  sort_inner, sort_outer, sort,
}
use gpcl.LinkedList.Assign.Steps.{Copied}
use gpcl.LinkedList.Assign.Whole.{copy_assign-Copied}
use gpcl.LinkedList.Assign.{
  set_val, overwrite_loop, overwrite, read_loop, read, insert_nodes, copy_list, copy_longer,
  copy_shorter, copy_assign, move_assign,
}
use gpcl.LinkedList.Sort.{Order, IsSorted}
use gpcl.LinkedList.Sort.Whole.{sort-IsSorted}
use gpcl.LinkedList.{
  Memory, Outcome, returned, threw, undefined, mem, get_next, get_prev, get_val, set_next, set_prev,
  get_size, add_size, sub_size, deallocate, destroy_node, construct, create_list, empty, front,
  back, erase, erase_loop, erase_range, clear, pop_front, pop_back,
}

-- An address above all live ones
abbrev greatest : List ℕ → ℕ
greatest [] = 0
greatest (p ∷ ps) = let g = greatest ps in if ltb g p then p else g

abbrev place : List ℕ → ℕ
place live = suc (greatest live)

above : (p : ℕ) (live : List ℕ) → greatest live < p → mem p live ≡ false
above p [] h = refl
above p (q ∷ live) h = elim (Bool-cases (ltb (greatest live) q)) [
  | inl t ↦
      let h' : q < p = subst (λ b. (if b then q else greatest live) < p) t h in
      let other : (p == q) ≡ false = ground arith in rw other (above p live (ground arith))
  | inr t ↦
      let h' : greatest live < p = subst (λ b. (if b then q else greatest live) < p) t h in
      let other : (p == q) ≡ false = ground arith in rw other (above p live h')
]

fresh : (live : List ℕ) → mem (place live) live ≡ false
fresh live = above (place live) live (omega arith)

-- The list 1 has the nodes 10, 11 and 12, the list 2 the node 20, and the list 3 is empty.
abbrev table : {B : Type 0} → List (ℕ × B) → B → ℕ → B
table [] d n = d
table ((m, b) ∷ rest) d n = let other = table rest d n in if n == m then b else other

abbrev next_of : ℕ → ℕ
next_of n = table ((1, 10) ∷ (10, 11) ∷ (11, 12) ∷ (12, 1) ∷ (2, 20) ∷ (20, 2) ∷ []) n n

abbrev prev_of : ℕ → ℕ
prev_of n = table ((1, 12) ∷ (12, 11) ∷ (11, 10) ∷ (10, 1) ∷ (2, 20) ∷ (20, 2) ∷ []) n n

abbrev val_of : ℕ → Option ℕ
val_of = table ((10, some 33) ∷ (11, some 11) ∷ (12, some 22) ∷ (20, some 44) ∷ []) none

abbrev size_of : ℕ → ℕ
size_of = table ((1, 3) ∷ (2, 1) ∷ []) 0

abbrev lives : List ℕ
lives = 1 ∷ 2 ∷ 3 ∷ 10 ∷ 11 ∷ 12 ∷ 20 ∷ []

abbrev memory : List Bool → Memory ℕ
memory faults = record {
  next = next_of;
  prev = prev_of;
  val = val_of;
  size = size_of;
  live = lives;
  faults = faults;
}

abbrev nodes : List ℕ
nodes = 10 ∷ 11 ∷ 12 ∷ []

abbrev values : List ℕ
values = 33 ∷ 11 ∷ 22 ∷ []

differ : {m n : ℕ} → (m == n) ≡ false → m ≢ n
differ e = λ q. ground arith

one-IsList : (faults : List Bool) → IsList (memory faults) 1 nodes values
one-IsList faults = record {
  ring = (refl, refl, (refl, refl, (refl, refl, (refl, refl, tt))));
  distinct = (
    (differ refl, (differ refl, (differ refl, tt))),
    ((differ refl, (differ refl, tt)), ((differ refl, tt), (tt, tt))),
  );
  alive = (refl, (refl, (refl, (refl, tt))));
  values = (refl, (refl, (refl, tt)));
  counted = refl;
}

two-IsList : (faults : List Bool) → IsList (memory faults) 2 (20 ∷ []) (44 ∷ [])
two-IsList faults = record {
  ring = (refl, refl, (refl, refl, tt));
  distinct = ((differ refl, tt), (tt, tt));
  alive = (refl, (refl, tt));
  values = (refl, tt);
  counted = refl;
}

three-IsList : (faults : List Bool) → IsList (memory faults) 3 [] []
three-IsList faults = record {
  ring = (refl, refl, tt);
  distinct = (tt, tt);
  alive = (refl, tt);
  values = tt;
  counted = refl;
}

program : Unit {0}
unfolding get_next get_prev get_val set_next set_prev get_size add_size sub_size deallocate
    destroy_node construct create_list empty front back erase erase_loop erase_range clear pop_front
    pop_back create_node emplace insert_loop insert_range insert_count resize resize_default
    push_back push_front roll_back shrink_loop grow_loop check_size distance move_size splice_range
    splice_all splice_one swap_nodes swap_sizes swap sort_inner sort_outer sort set_val
    overwrite_loop overwrite read_loop read insert_nodes copy_list copy_longer copy_shorter
    copy_assign move_assign
program = tt

-- The values of at most `n` nodes from `p` on, up to the list `this`
abbrev contents : ℕ → Memory ℕ → ℕ → ℕ → List (Option ℕ)
contents zero m this p = []
contents (suc n) m this p =
    let more = contents n m this (m.next p) in if p == this then [] else m.val p ∷ more

abbrev contents_behind : {R : Type 0} → ℕ → Outcome ℕ R → Option (List (Option ℕ))
contents_behind this (returned r m) = some (contents 20 m this (m.next this))
contents_behind this (threw m) = none
contents_behind this undefined = none

sorted : contents_behind 1 (sort ltb 1 (memory [])) ≡ some (some 11 ∷ some 22 ∷ some 33 ∷ [])
unfolding program
sorted = refl

resized_default :
    contents_behind 1 (resize_default place 1 5 0 (memory []))
    ≡ some (some 33 ∷ some 11 ∷ some 22 ∷ some 0 ∷ some 0 ∷ [])
unfolding program
resized_default = refl

moved_empty :
    contents_behind 1 (splice_all 1 1 3 (memory []))
    ≡ some (some 33 ∷ some 11 ∷ some 22 ∷ none ∷ [])
unfolding program
moved_empty = refl

first_and_last :
    ((m : Memory ℕ) × (front 1 (memory []) ≡ returned 33 m))
    × ((m : Memory ℕ) × (back 1 (memory []) ≡ returned 22 m))
    × ((m : Memory ℕ) × (empty 3 (memory []) ≡ returned true m))
unfolding program
first_and_last = ((memory [], refl), (memory [], refl), (memory [], refl))

end_is_no_element : erase 1 1 (memory []) ≡ undefined
unfolding program
end_is_no_element = refl

emplace-Emplaced_example :
    Emplaced place fresh
      (memory [])
      1
      (10 ∷ [])
      (11 ∷ 12 ∷ [])
      (33 ∷ [])
      (11 ∷ 22 ∷ [])
      77
      (emplace place 1 11 77 (memory []))
emplace-Emplaced_example =
    emplace-Emplaced place fresh (memory []) 1 (10 ∷ []) (11 ∷ 12 ∷ []) (33 ∷ []) (11 ∷ 22 ∷ []) 77
      (one-IsList []) refl

-- The constructor of the second element throws.
abbrev unlucky : List Bool
unlucky = false ∷ false ∷ false ∷ true ∷ []

insert_range-Inserted_example :
    Inserted lives unlucky 1
      (10 ∷ [])
      (11 ∷ 12 ∷ [])
      (33 ∷ [])
      (77 ∷ 88 ∷ [])
      (11 ∷ 22 ∷ [])
      (insert_range place 1 11 (77 ∷ 88 ∷ []) (memory unlucky))
insert_range-Inserted_example =
    insert_range-Inserted place fresh (memory unlucky) 1 (10 ∷ []) (11 ∷ 12 ∷ []) (33 ∷ [])
      (11 ∷ 22 ∷ []) (77 ∷ 88 ∷ []) (one-IsList unlucky) refl

resize-Refilled_example : Refilled (memory []) 1 nodes values 5 0 (resize place 1 5 0 (memory []))
resize-Refilled_example =
    resize-Refilled place fresh (memory []) 1 nodes values 5 0 (one-IsList []) (omega arith)
      (omega arith)

erase_range-Erased_example :
    Erased
      (memory [])
      1
      (10 ∷ [])
      (11 ∷ [])
      (12 ∷ [])
      (33 ∷ 22 ∷ [])
      (erase_range 1 11 12 (memory []))
erase_range-Erased_example =
    erase_range-Erased (memory []) 1 (10 ∷ []) (11 ∷ []) (12 ∷ []) (33 ∷ []) (11 ∷ []) (22 ∷ [])
      (one-IsList []) refl refl

splice_same_example :
    (m' : Memory ℕ) × (splice_range 1 10 1 12 1 (memory []) ≡ returned tt m')
    × (m'.live ≡ lives)
    × IsList m' 1 (12 ∷ 10 ∷ 11 ∷ []) (22 ∷ 33 ∷ 11 ∷ [])
splice_same_example =
    splice_same (memory []) 1 (10 ∷ 11 ∷ []) 12 [] [] [] (10 ∷ 11 ∷ []) (33 ∷ 11 ∷ []) (22 ∷ []) []
      [] (33 ∷ 11 ∷ []) (one-IsList []) refl refl refl refl refl

two-Apart : Apart (2 ∷ 20 ∷ []) (1 ∷ nodes)
two-Apart = (
  (differ refl, (differ refl, (differ refl, (differ refl, tt)))),
  ((differ refl, (differ refl, (differ refl, (differ refl, tt)))), tt),
)

splice_other_example :
    (m' : Memory ℕ) × (splice_range 2 20 1 10 12 (memory []) ≡ returned tt m')
    × (m'.live ≡ lives)
    × IsList m' 2 (10 ∷ 11 ∷ 20 ∷ []) (33 ∷ 11 ∷ 44 ∷ [])
    × IsList m' 1 (12 ∷ []) (22 ∷ [])
splice_other_example =
    splice_other (memory []) 2 1 [] (20 ∷ []) [] 10 (11 ∷ []) (12 ∷ []) [] (44 ∷ []) []
      (33 ∷ 11 ∷ []) (22 ∷ []) (two-IsList []) (one-IsList []) two-Apart refl refl refl

ltb-Order : Order ltb
ltb-Order = record { asym = λ x y h. ground arith; trans = λ x y z h k. ground arith }

sort-IsSorted_example :
    (m' : Memory ℕ) × ((qs : List ℕ) × ((ys : List ℕ) × (sort ltb 1 (memory []) ≡ returned tt m')
        × (m'.live ≡ lives)
        × IsList m' 1 qs ys
        × Perm values ys
        × IsSorted ltb ys))
sort-IsSorted_example = sort-IsSorted ltb 1 (memory []) nodes values ltb-Order (one-IsList [])

splice_all-empty_example :
    (m' : Memory ℕ) × (splice_all 1 1 3 (memory []) ≡ returned tt m')
    × Ring m'.next m'.prev 1 (10 ∷ 11 ∷ 12 ∷ 3 ∷ [])
    × (m'.size 1 ≡ 3)
splice_all-empty_example =
    splice_all-empty (memory []) 1 3 nodes [] values (one-IsList []) (three-IsList [])
      (differ refl, (differ refl, (differ refl, (differ refl, tt))))

swap-empty_example :
    (m' : Memory ℕ) × (swap 3 1 (memory []) ≡ returned tt m') × Ring m'.next m'.prev 3 (1 ∷ [])
swap-empty_example =
    swap-empty (memory []) 3 1 nodes values (three-IsList []) (one-IsList [])
      (differ refl, (differ refl, (differ refl, (differ refl, tt))))

-- An assignment that throws leaves the old value.
abbrev keep : ℕ → ℕ → ℕ
keep old new = old

-- The list 1 is copied to the list 2, which is shorter, and the other way round.
copied_longer :
    contents_behind 2 (copy_assign place keep 2 1 (memory []))
    ≡ some (some 33 ∷ some 11 ∷ some 22 ∷ [])
unfolding program
copied_longer = refl

copied_shorter : contents_behind 1 (copy_assign place keep 1 2 (memory [])) ≡ some (some 44 ∷ [])
unfolding program
copied_shorter = refl

copied_new :
    contents_behind 4 (copy_list place 4 1 (memory [])) ≡ some (some 33 ∷ some 11 ∷ some 22 ∷ [])
unfolding program
copied_new = refl

moved : contents_behind 2 (move_assign 2 1 (memory [])) ≡ some (some 33 ∷ some 11 ∷ some 22 ∷ [])
unfolding program
moved = refl

moved_from : contents_behind 1 (move_assign 2 1 (memory [])) ≡ some []
unfolding program
moved_from = refl

copy_assign-Copied_example :
    Copied keep
      (memory unlucky)
      2
      (20 ∷ [])
      (44 ∷ [])
      values
      (copy_assign place keep 2 1 (memory unlucky))
copy_assign-Copied_example =
    copy_assign-Copied keep place fresh (memory unlucky) 2 1 (20 ∷ []) nodes (44 ∷ []) values
      (two-IsList unlucky) (one-IsList unlucky)
      ((differ refl, (differ refl, (differ refl, tt))), tt) (omega arith) (omega arith)
