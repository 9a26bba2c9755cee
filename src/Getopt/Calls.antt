-- ===== src/Getopt/Calls.antt =====
-- include/gpcl/impl/getopt.ipp: what calls of `getopt::operator()` do.
use gpcl.Base.{
  ℕ, suc, ◌≡◌, ◌≢◌, refl, ap, ◌∙◌, false, List, [], ◌∷◌, Option, none, some, arith, ◌==◌,
  if◌then◌else◌, Bytes, get_elem?,
}
use gpcl.Getopt.{
  required, GetoptOption, Getopt, Answer, finished, unknown, found, Flags, char_at, until_equals,
  has_name, find_option, take_argument, handle_option, long_option, short_option, short_option_at,
  scan, call,
}

-- A parser that stands at the argument `suc i`
abbrev pub standing : ℕ → ℕ → Option (ℕ × ℕ) → Option GetoptOption → Getopt
standing i p a o = record { optind = suc i; optpos = p; optarg = a; opt = o }

pub call-standing :
    (argv : List Bytes) (opts : List GetoptOption) (i p : ℕ) (a : Option (ℕ × ℕ))
    (o : Option GetoptOption) (flags : Flags) (arg : Bytes)
    → get_elem? argv (suc i) ≡ some arg
    → call argv opts (standing i p a o) flags ≡ scan argv opts arg (standing i p none none) flags
unfolding call
call-standing argv opts i p a o flags arg e =
    let nonzero : (suc i == 0) ≡ false = ground arith in
    ap (λ b. at (if b then 1 else suc i)) nonzero
    ∙ ap
        (λ r. (elim r as (λ x. Option (Answer × Getopt × Flags)) [
          | none ↦ some (finished, standing i p none none, flags)
          | some arg ↦ scan argv opts arg (standing i p none none) flags
        ]))
        e
  where
    at : ℕ → Option (Answer × Getopt × Flags)
    at n = elim (get_elem? argv n) [
      | none ↦ some (finished, record { optind = n; optpos = p; optarg = none; opt = none }, flags)
      | some arg ↦
          scan argv opts arg (record { optind = n; optpos = p; optarg = none; opt = none }) flags
    ]

-- An option with a required argument and no flag
abbrev pub with_argument : Option Bytes → ℕ → ℕ → GetoptOption
with_argument name c v = record {
  name = name;
  name_short = c;
  type = required;
  flag = none;
  value = v;
}

scan-unknown :
    (argv : List Bytes) (opts : List GetoptOption) (g : Getopt) (flags : Flags) (c : ℕ) (cs : Bytes)
    → c ≢ 0
    → find_option (has_name (until_equals (c ∷ cs)).0) opts ≡ none
    → scan argv opts (b'-' ∷ b'-' ∷ c ∷ cs) g flags ≡ some (unknown, g, flags)
unfolding scan long_option
scan-unknown argv opts g flags c cs z f =
    let nonzero : (c == 0) ≡ false = ground arith in rw (nonzero, long_option, f) refl

-- A long option that no description names is answered by '?', and the parser stays where it is: so is
-- every call from then on.
call-unknown :
    (argv : List Bytes) (opts : List GetoptOption) (i p : ℕ) (a : Option (ℕ × ℕ))
    (o : Option GetoptOption) (flags : Flags) (c : ℕ) (cs : Bytes)
    → get_elem? argv (suc i) ≡ some (b'-' ∷ b'-' ∷ c ∷ cs)
    → c ≢ 0
    → find_option (has_name (until_equals (c ∷ cs)).0) opts ≡ none
    → (call argv opts (standing i p a o) flags ≡ some (unknown, standing i p none none, flags))
      × (call argv opts (standing i p none none) flags
          ≡ some (unknown, standing i p none none, flags))
call-unknown argv opts i p a o flags c cs e z f =
    let scanned = scan-unknown argv opts (standing i p none none) flags c cs z f in
    (
      call-standing argv opts i p a o flags (b'-' ∷ b'-' ∷ c ∷ cs) e ∙ scanned,
      call-standing argv opts i p none none flags (b'-' ∷ b'-' ∷ c ∷ cs) e ∙ scanned,
    )

-- An argument has a first character, which may be the 0 behind it.
char_at-zero : (arg : Bytes) → (c : ℕ) × (char_at arg 0 ≡ some c)
char_at-zero [] = (0, refl)
char_at-zero (c ∷ cs) = (c, refl)

module _ (argv : List Bytes) (opts : List GetoptOption) (flags : Flags) where
  -- An argument that begins like short options is read as such.
  pub scan-short :
      (c : ℕ) (cs : Bytes) (g : Getopt)
      → c ≢ 0
      → c ≢ b'-'
      → scan argv opts (b'-' ∷ c ∷ cs) g flags ≡ short_option argv opts (b'-' ∷ c ∷ cs) g flags
  unfolding scan
  scan-short c cs g z h =
      let nonzero : (c == 0) ≡ false = ground arith in
      let no_dash : (c == b'-') ≡ false = ground arith in rw (nonzero, no_dash) refl

  short_option-last :
      (i c : ℕ) (q : GetoptOption)
      → find_option (λ o. c == o.name_short) opts ≡ some q
      → short_option argv opts (b'-' ∷ c ∷ []) (standing i 0 none none) flags
        ≡ handle_option argv q (standing (suc i) 0 none none) flags
  unfolding short_option short_option_at
  short_option-last i c q f = rw (short_option_at, f) refl

  handle_option-missing :
      (i v c : ℕ) (name : Option Bytes)
      → get_elem? argv (suc i) ≡ none
      → handle_option argv (with_argument name c v) (standing i 0 none none) flags ≡ none
  unfolding handle_option
  handle_option-missing i v c name e = rw (e, take_argument) refl

  handle_option-next :
      (i v c : ℕ) (name : Option Bytes) (arg : Bytes)
      → get_elem? argv (suc i) ≡ some arg
      → handle_option argv (with_argument name c v) (standing i 0 none none) flags
        ≡ some
            (found v, standing (suc i) 0 (some (suc i, 0)) (some (with_argument name c v)), flags)
  unfolding handle_option
  handle_option-next i v c name arg e =
      let (d, first) = char_at-zero arg in rw (e, take_argument, first) refl

  -- A short option with a required argument and no flag, alone behind its dash, takes the next argument
  -- from its start and moves behind it; where there is none, the call reads an argument that is not
  -- there.
  call-required :
      (i c v : ℕ) (name : Option Bytes) (a : Option (ℕ × ℕ)) (o : Option GetoptOption)
      → get_elem? argv (suc i) ≡ some (b'-' ∷ c ∷ [])
      → c ≢ 0
      → c ≢ b'-'
      → find_option (λ o. c == o.name_short) opts ≡ some (with_argument name c v)
      → (get_elem? argv (suc (suc i)) ≡ none → call argv opts (standing i 0 a o) flags ≡ none)
        × ((arg : Bytes)
            → get_elem? argv (suc (suc i)) ≡ some arg
            → call argv opts (standing i 0 a o) flags
              ≡ some (
                found v,
                standing (suc (suc i)) 0 (some (suc (suc i), 0)) (some (with_argument name c v)),
                flags,
              ))
  call-required i c v name a o e z h f =
      let read : call argv opts (standing i 0 a o) flags
          ≡ handle_option argv (with_argument name c v) (standing (suc i) 0 none none) flags =
        call-standing argv opts i 0 a o flags (b'-' ∷ c ∷ []) e
        ∙ scan-short c [] (standing i 0 none none) z h
        ∙ short_option-last i c (with_argument name c v) f in
      (
        λ n. read ∙ handle_option-missing (suc i) v c name n,
        λ arg s. read ∙ handle_option-next (suc i) v c name arg s,
      )
