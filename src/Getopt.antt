-- ===== src/Getopt.antt =====
-- include/gpcl/getopt.hpp and include/gpcl/impl/getopt.ipp: command line options, one by each call.
-- An argument is its characters, with a 0 behind the last one that the source reads too. A read behind
-- that, or of an argument that is not there, is `none`. The integers that flags point to stand in a
-- store, as words of 32 bits.
pub mod Calls
pub mod Bundle
use gpcl.Base.{
  ℕ, zero, suc, ◌+◌, ◌*◌, ◌/◌, ◌%◌, Bool, true, false, List, [], ◌∷◌, Option, none, some, ◌&&◌,
  ◌||◌, not, ◌==◌, leb, ltb, max, if◌then◌else◌, Bytes, length, drop, take, get_elem?,
}

pub data OptionType : Type 0 where
  no_arg required optional flag_set flag_and flag_or : OptionType

pub record GetoptOption : Type 0 where
  pub name : Option Bytes
  pub name_short : ℕ
  pub type : OptionType
  -- Where the flag stands in the store
  pub flag : Option ℕ
  pub value : ℕ

-- `optarg_` is the argument and the position in it.
pub record Getopt : Type 0 where
  pub optind : ℕ
  pub optpos : ℕ
  pub optarg : Option (ℕ × ℕ)
  pub opt : Option GetoptOption

abbrev pub initial : Getopt
initial = record { optind = 0; optpos = 0; optarg = none; opt = none }

-- What a call returns: -1, '?', 0 for an option that set a flag, or the option's value
pub data Answer : Type 0 where
  finished unknown flagged : Answer
  found : ℕ → Answer

abbrev pub Flags : Type 0
Flags = ℕ → ℕ

abbrev pub set_flag : Flags → ℕ → ℕ → Flags
set_flag flags at v i = if i == at then v else flags i

abbrev pub bit_and : ℕ → ℕ → ℕ → ℕ
bit_and zero a b = 0
bit_and (suc bits) a b = (a % 2) * (b % 2) + 2 * bit_and bits (a / 2) (b / 2)

abbrev pub bit_or : ℕ → ℕ → ℕ → ℕ
bit_or zero a b = 0
bit_or (suc bits) a b = max (a % 2) (b % 2) + 2 * bit_or bits (a / 2) (b / 2)

abbrev pub char_at : Bytes → ℕ → Option ℕ
char_at [] zero = some 0
char_at [] (suc i) = none
char_at (c ∷ cs) zero = some c
char_at (c ∷ cs) (suc i) = char_at cs i

abbrev pub char_is : Option ℕ → ℕ → Bool
char_is none c = false
char_is (some d) c = d == c

-- The text before the first '=', and whether there is one
abbrev pub until_equals : Bytes → Bytes × Bool
until_equals [] = ([], false)
until_equals (c ∷ cs) =
    let later = until_equals cs in if c == b'=' then ([], true) else (c ∷ later.0, later.1)

abbrev pub same : Bytes → Bytes → Bool
same [] [] = true
same [] (d ∷ ds) = false
same (c ∷ cs) [] = false
same (c ∷ cs) (d ∷ ds) = c == d && same cs ds

abbrev pub has_name : Bytes → GetoptOption → Bool
has_name arg o = elim o.name [ none ↦ false | some name ↦ same arg name ]

abbrev pub find_option : (GetoptOption → Bool) → List GetoptOption → Option GetoptOption
find_option test [] = none
find_option test (o ∷ os) = let later = find_option test os in if test o then some o else later

abbrev pub answer : GetoptOption → Getopt → Flags → Option (Answer × Getopt × Flags)
answer o g flags = elim o.flag [
  | none ↦ some (found o.value, g, flags)
  | some at ↦ elim o.type [
    | flag_set ↦ some (flagged, g, set_flag flags at o.value)
    | flag_and ↦ some (flagged, g, set_flag flags at (bit_and 32 (flags at) o.value))
    | flag_or ↦ some (flagged, g, set_flag flags at (bit_or 32 (flags at) o.value))
    | no_arg ↦ some (unknown, g, flags)
    | required ↦ some (unknown, g, flags)
    | optional ↦ some (unknown, g, flags)
  ]
]

module _ (argv : List Bytes) where
  -- The character `argv_[optind_][optpos_]`
  abbrev pub char_of : ℕ → ℕ → Option ℕ
  char_of optind optpos = elim (get_elem? argv optind) [
    | none ↦ none
    | some arg ↦ char_at arg optpos
  ]

  -- `optarg_ = &argv_[optind_++][optpos_]; optpos_ = 0`
  abbrev pub take_argument : GetoptOption → Getopt → Flags → Option (Answer × Getopt × Flags)
  take_argument o g flags = elim (char_of g.optind g.optpos) [
    | none ↦ none
    | some c ↦
        answer o
          (record g { optarg = some (g.optind, g.optpos); optind = suc g.optind; optpos = 0 }) flags
  ]

  -- From `handle_option` on
  unfoldable pub handle_option : GetoptOption → Getopt → Flags → Option (Answer × Getopt × Flags)
  handle_option o g flags = elim o.type [
    | required ↦ take_argument o (record g { opt = some o }) flags
    | optional ↦
        if ltb g.optind (length argv)
        then elim (char_of g.optind g.optpos) [
          | none ↦ none
          | some c ↦
              if c == b'-'
              then answer o (record g { opt = some o }) flags
              else take_argument o (record g { opt = some o }) flags
        ]
        else answer o (record g { opt = some o }) flags
    | no_arg ↦ answer o (record g { opt = some o; optarg = none }) flags
    | flag_set ↦ answer o (record g { opt = some o }) flags
    | flag_and ↦ answer o (record g { opt = some o }) flags
    | flag_or ↦ answer o (record g { opt = some o }) flags
  ]

module _ (argv : List Bytes) (opts : List GetoptOption) where
  unfoldable pub long_option : Bytes → Getopt → Flags → Option (Answer × Getopt × Flags)
  unfolding handle_option
  long_option arg g flags =
      let (name, equals) = until_equals (drop 2 arg) in
      elim (find_option (has_name name) opts) [
        | none ↦ some (unknown, g, flags)
        | some o ↦
            if equals
            then handle_option argv o (record g { optpos = 2 + length name + 1 }) flags
            else handle_option argv o (record g { optind = suc g.optind; optpos = 0 }) flags
      ]

  -- `optpos_` stands at the character to read.
  unfoldable pub short_option_at : Bytes → ℕ → Getopt → Flags → Option (Answer × Getopt × Flags)
  unfolding handle_option
  short_option_at arg at g flags = elim (char_at arg at) [
    | none ↦ none
    | some c ↦ elim (char_at arg (suc at)) [
      | none ↦ none
      | some next ↦
          let g' =
            if next == 0
            then record g { optind = suc g.optind; optpos = 0 }
            else record g { optpos = suc at } in
          elim (find_option (λ o. c == o.name_short) opts) [
            | none ↦ some (unknown, g', flags)
            | some o ↦ handle_option argv o g' flags
          ]
    ]
  ]

  unfoldable pub short_option : Bytes → Getopt → Flags → Option (Answer × Getopt × Flags)
  unfolding short_option_at
  short_option arg g flags = short_option_at arg (if g.optpos == 0 then 1 else g.optpos) g flags

  -- The tests on the argument at `optind_`
  unfoldable pub scan : Bytes → Getopt → Flags → Option (Answer × Getopt × Flags)
  unfolding long_option short_option
  scan arg g flags =
      if not (char_is (char_at arg 0) b'-')
      then some (finished, g, flags)
      else if char_is (char_at arg 1) 0
      then some (finished, g, flags)
      else if char_is (char_at arg 1) b'-' && char_is (char_at arg 2) 0
      then some (finished, record g { optind = suc g.optind }, flags)
      else if char_is (char_at arg 1) b'-'
      then long_option arg g flags
      else short_option arg g flags

  abbrev pub cleared : Getopt → Getopt
  cleared g = record g { optind = if g.optind == 0 then 1 else g.optind; optarg = none; opt = none }

  -- `getopt::operator()`
  unfoldable pub call : Getopt → Flags → Option (Answer × Getopt × Flags)
  unfolding scan
  call g flags = elim (get_elem? argv (cleared g).optind) [
    | none ↦ some (finished, cleared g, flags)
    | some arg ↦ scan arg (cleared g) flags
  ]
