-- ===== src/Tests/Getopt.antt =====
-- include/gpcl/impl/getopt.ipp at a concrete command line.
use gpcl.Base.{ℕ, ◌≡◌, refl, List, [], ◌∷◌, Option, none, some, arith, Bytes, codes}
use gpcl.Getopt.Calls.{standing, with_argument}
use gpcl.Getopt.Bundle.{plain, calls, calls-bundle, done}
use gpcl.Getopt.{
  GetoptOption, flag_or, found, Flags, initial, handle_option, long_option, short_option_at,
  short_option, scan, call,
}

abbrev name_of : ℕ → Option Bytes
name_of c = none

abbrev value_of : ℕ → ℕ
value_of c = c

-- -a and -b, -o with an argument, and --all, which or's a flag
abbrev options : List GetoptOption
options =
    plain none 97 97
    ∷ plain none 98 98
    ∷ with_argument none 111 5
    ∷ (record {
      name = some (codes "all");
      name_short = 0;
      type = flag_or;
      flag = some 0;
      value = 6;
    })
    ∷ []

abbrev argv : List Bytes
argv = codes "prog" ∷ codes "-ab" ∷ codes "-o" ∷ codes "file" ∷ codes "--all" ∷ codes "--no" ∷ []

abbrev flags : Flags
flags n = 3

program : Unit {0}
unfolding call scan long_option short_option short_option_at handle_option calls
program = tt

-- The first four calls; `3 | 6` is 7.
four_calls :
    calls argv options 3 initial flags
    ≡ some (
      found 97 ∷ found 98 ∷ found 5 ∷ [],
      standing 3 0 (some (3, 0)) (some (with_argument none 111 5)),
      flags,
    )
unfolding program
four_calls = refl

calls-bundle_example :
    calls argv options 2 (standing 0 0 none none) flags
    ≡ some (
      found 97 ∷ found 98 ∷ [],
      done argv options flags 0 97 (codes "b") name_of value_of 98,
      flags,
    )
calls-bundle_example =
    calls-bundle argv options flags 0 97 (codes "b") name_of value_of none none refl (omega arith)
      (omega arith, refl, (omega arith, refl, tt))
