-- ===== src/Tests/Dynarray.antt =====
-- include/gpcl/dynarray.hpp at concrete arrays.
use gpcl.Base.{ℕ, ◌≡◌, refl, inr, true, false, List, [], ◌∷◌, arith}
use gpcl.Dynarray.Cells.{held}
use gpcl.Dynarray.Grow.{Reserved, Appended, reserve-Reserved, emplace_back-Appended}
use gpcl.Dynarray.Resize.{Resized, resize-Resized}
use gpcl.Dynarray.Assign.{Replaced, assign-Replaced}
use gpcl.Dynarray.{
  returned, threw, construct_at, construct_loop, destroy_at, destroy_loop, keep_first_n, release,
  construct, replace, reserve, grow, resize, emplace_back, shrink_to_fit, assign_at, assign_loop,
  assign, pop_back, at,
}

program : Unit {0}
unfolding construct_at construct_loop destroy_at destroy_loop keep_first_n release construct replace
    reserve grow resize emplace_back shrink_to_fit assign_at assign_loop assign pop_back at
program = tt

abbrev just_one : List ℕ
just_one = 1 ∷ []

abbrev just_five : List ℕ
just_five = 5 ∷ []

abbrev one_and_two : List ℕ
one_and_two = 1 ∷ 2 ∷ []

abbrev one_to_three : List ℕ
one_to_three = 1 ∷ 2 ∷ 3 ∷ []

abbrev one_to_four : List ℕ
one_to_four = 1 ∷ 2 ∷ 3 ∷ 4 ∷ []

-- A full array doubles.
emplace_back_full : emplace_back (held one_to_three 0) 4 [] ≡ returned (held one_to_four 2) []
unfolding program
emplace_back_full = refl

-- The third of the copies throws: the array is as it was.
reserve_third :
    reserve (held one_to_three 0) 5 (false ∷ false ∷ false ∷ true ∷ [])
    ≡ threw (held one_to_three 0) []
unfolding program
reserve_third = refl

resize_down : resize (held one_to_three 0) 1 9 [] ≡ returned (held just_one 2) []
unfolding program
resize_down = refl

reserve-Reserved_example :
    Reserved one_and_two 1 3
      (false ∷ true ∷ [])
      (reserve (held one_and_two 1) 5 (false ∷ true ∷ []))
reserve-Reserved_example = reserve-Reserved one_and_two 1 5 (false ∷ true ∷ []) (omega arith) refl

emplace_back-Appended_example :
    Appended one_and_two 3
      (false ∷ true ∷ [])
      (emplace_back (held one_and_two 0) 3 (false ∷ true ∷ []))
emplace_back-Appended_example = emplace_back-Appended one_and_two 0 3 (false ∷ true ∷ []) (inr refl)

resize-Resized_example : Resized one_and_two 7 4 [] (resize (held one_and_two 0) 4 7 [])
resize-Resized_example = resize-Resized one_and_two 0 4 7 [] (inr refl)

assign-Replaced_example :
    Replaced one_and_two 0 just_five [] (assign true (held one_and_two 0) just_five [])
assign-Replaced_example = assign-Replaced true one_and_two 0 just_five []
