-- ===== src/Tests/Split.antt =====
-- include/gpcl/string_utils.hpp at concrete texts.
use gpcl.Base.{◌≡◌, refl, true, false, [], ◌∷◌, some, Bytes, codes}
use gpcl.Split.Join.{Joined, split-Joined}
use gpcl.Split.{
  is_prefix, search, skip_spaces, until_space, trimmed, added, split_loop, split, split_old_loop,
  split_old,
}

program : Unit {0}
unfolding is_prefix search skip_spaces until_space trimmed added split_loop split split_old_loop
    split_old
program = tt

abbrev comma : Bytes
comma = codes ","

split_three : split false false (codes "a,,bc") comma ≡ some (codes "a" ∷ [] ∷ codes "bc" ∷ [])
unfolding program
split_three = refl

split_trimmed : split true true (codes " a b,,c") comma ≡ some (codes "a" ∷ codes "c" ∷ [])
unfolding program
split_trimmed = refl

split-Joined_example :
    Joined (codes ", ") (codes "a, b, ") (split false false (codes "a, b, ") (codes ", "))
split-Joined_example = split-Joined (codes "a, b, ") 44 (codes " ")
