-- ===== src/Getopt/Bundle.antt =====
-- include/gpcl/impl/getopt.ipp: bundles of short options.
use gpcl.Base.{
  ℕ, zero, suc, ◌≡◌, ◌≢◌, refl, ap, sym, ◌∙◌, false, Bool-cases, inl, inr, List, [], ◌∷◌, ◌++◌,
  append_assoc, length-append, Option, none, some, arith, ◌==◌, if◌then◌else◌, Bytes, length,
  get_elem?,
}
use gpcl.Getopt.Calls.{standing, call-standing, scan-short}
use gpcl.Getopt.{
  no_arg, GetoptOption, Getopt, Answer, found, Flags, char_at, find_option, handle_option,
  short_option, short_option_at, call,
}

-- An option without an argument and a flag
abbrev pub plain : Option Bytes → ℕ → ℕ → GetoptOption
plain name c v = record { name = name; name_short = c; type = no_arg; flag = none; value = v }

-- The answers of `n` calls
unfoldable pub calls :
    (argv : List Bytes) (opts : List GetoptOption)
    → ℕ
    → Getopt
    → Flags
    → Option (List Answer × Getopt × Flags)
unfolding call
calls argv opts zero g flags = some ([], g, flags)
calls argv opts (suc n) g flags = elim (call argv opts g flags) [
  | none ↦ none
  | some r ↦ elim (calls argv opts n r.1 r.2) [ none ↦ none | some s ↦ some (r.0 ∷ s.0, s.1, s.2) ]
]

char_at-here : (pre : Bytes) (c : ℕ) (cs : Bytes) → char_at (pre ++ c ∷ cs) (length pre) ≡ some c
char_at-here [] c cs = refl
char_at-here (x ∷ pre) c cs = char_at-here pre c cs

char_at-next :
    (pre : Bytes) (c : ℕ) (cs : Bytes) → char_at (pre ++ c ∷ cs) (suc (length pre)) ≡ char_at cs 0
char_at-next [] c cs = refl
char_at-next (x ∷ pre) c cs = char_at-next pre c cs

module _ (argv : List Bytes) (opts : List GetoptOption) (flags : Flags) (i f : ℕ) (rest : Bytes)
    (name : ℕ → Option Bytes) (value : ℕ → ℕ) where
  -- The options of a bundle, all described as plain ones
  abbrev pub Known : Bytes → Type 0
  Known [] = Unit
  Known (c ∷ cs) =
      (c ≢ 0)
      × (find_option (λ o. c == o.name_short) opts ≡ some (plain (name c) c (value c)))
      × Known cs

  -- The position behind a character, with `next` there
  abbrev behind : ℕ → ℕ → ℕ → Getopt
  behind p next c =
      if next == 0
      then standing (suc i) 0 none (some (plain (name c) c (value c)))
      else standing i (suc p) none (some (plain (name c) c (value c)))

  short_option_at-plain :
      (p c next q : ℕ)
      → char_at (f ∷ rest) p ≡ some c
      → char_at (f ∷ rest) (suc p) ≡ some next
      → find_option (λ o. c == o.name_short) opts ≡ some (plain (name c) c (value c))
      → short_option_at argv opts (b'-' ∷ f ∷ rest) (suc p) (standing i q none none) flags
        ≡ some (found (value c), behind (suc p) next c, flags)
  unfolding short_option_at handle_option
  short_option_at-plain p c next q h k e = elim (Bool-cases (next == 0)) [
    | inl t ↦ rw (short_option_at, h, k, e, t) refl
    | inr t ↦ rw (short_option_at, h, k, e, t) refl
  ]

  short_option-plain :
      (p c next q : ℕ)
      → char_at (f ∷ rest) p ≡ some c
      → char_at (f ∷ rest) (suc p) ≡ some next
      → find_option (λ o. c == o.name_short) opts ≡ some (plain (name c) c (value c))
      → (if q == 0 then 1 else q) ≡ suc p
      → short_option argv opts (b'-' ∷ f ∷ rest) (standing i q none none) flags
        ≡ some (found (value c), behind (suc p) next c, flags)
  unfolding short_option
  short_option-plain p c next q h k e w =
      ap (λ at. short_option_at argv opts (b'-' ∷ f ∷ rest) at (standing i q none none) flags) w
      ∙ short_option_at-plain p c next q h k e

  -- The last character of a bundle
  abbrev pub last_of : ℕ → Bytes → ℕ
  last_of c [] = c
  last_of c (d ∷ ds) = last_of d ds

  abbrev pub answers : Bytes → List Answer
  answers [] = []
  answers (c ∷ cs) = found (value c) ∷ answers cs

  -- The parser behind the bundle, with the last option it read
  abbrev pub done : ℕ → Getopt
  done c = standing (suc i) 0 none (some (plain (name c) c (value c)))

  none_left : (g : Getopt) → calls argv opts 0 g flags ≡ some ([], g, flags)
  unfolding calls
  none_left g = refl

  one_call :
      (g g' : Getopt) (n : ℕ) (x : Answer) (xs : List Answer) (g″ : Getopt)
      → call argv opts g flags ≡ some (x, g', flags)
      → calls argv opts n g' flags ≡ some (xs, g″, flags)
      → calls argv opts (suc n) g flags ≡ some (x ∷ xs, g″, flags)
  unfolding calls
  one_call g g' n x xs g″ e h = rw (calls, e, h) refl

  first_call :
      (cs pre : Bytes) (c q next : ℕ) (a : Option (ℕ × ℕ)) (o : Option GetoptOption)
      → get_elem? argv (suc i) ≡ some (b'-' ∷ f ∷ rest)
      → f ≢ 0
      → f ≢ b'-'
      → f ∷ rest ≡ pre ++ c ∷ cs
      → (if q == 0 then 1 else q) ≡ suc (length pre)
      → Known (c ∷ cs)
      → char_at cs 0 ≡ some next
      → call argv opts (standing i q a o) flags
        ≡ some (found (value c), behind (suc (length pre)) next c, flags)
  first_call cs pre c q next a o e z h s w k n =
      call-standing argv opts i q a o flags (b'-' ∷ f ∷ rest) e
      ∙ scan-short argv opts flags f rest (standing i q none none) z h
      ∙ short_option-plain (length pre) c next q
          (ap (λ l. char_at l (length pre)) s ∙ char_at-here pre c cs)
          (ap (λ l. char_at l (suc (length pre))) s ∙ char_at-next pre c cs ∙ n) k.1 w

  bundle_from :
      (cs pre : Bytes) (c q : ℕ) (a : Option (ℕ × ℕ)) (o : Option GetoptOption)
      → get_elem? argv (suc i) ≡ some (b'-' ∷ f ∷ rest)
      → f ≢ 0
      → f ≢ b'-'
      → f ∷ rest ≡ pre ++ c ∷ cs
      → (if q == 0 then 1 else q) ≡ suc (length pre)
      → Known (c ∷ cs)
      → calls argv opts (suc (length cs)) (standing i q a o) flags
        ≡ some (answers (c ∷ cs), done (last_of c cs), flags)
  bundle_from [] pre c q a o e z h s w k =
      one_call (standing i q a o) (done c) 0 (found (value c)) [] (done c)
        (first_call [] pre c q 0 a o e z h s w k refl) (none_left (done c))
  bundle_from (d ∷ cs) pre c q a o e z h s w k =
      let nonzero : (d == 0) ≡ false = ground (arith, k.2.0) in
      let g = standing i (suc (suc (length pre))) none (some (plain (name c) c (value c))) in
      let p : suc (length (pre ++ c ∷ [])) ≡ suc (suc (length pre)) =
        omega (arith, length-append pre (c ∷ [])) in
      let placed : (if suc (suc (length pre)) == 0 then 1 else suc (suc (length pre)))
          ≡ suc (length (pre ++ c ∷ [])) =
        ground (arith, p) in
      one_call (standing i q a o) g (suc (length cs)) (found (value c)) (answers (d ∷ cs))
        (done (last_of d cs))
        (first_call (d ∷ cs) pre c q d a o e z h s w k refl
          ∙ ap (λ b. some (found (value c), (if b then done c else g), flags)) nonzero)
        (bundle_from cs (pre ++ c ∷ []) d (suc (suc (length pre))) none
          (some (plain (name c) c (value c))) e z h (s ∙ sym (append_assoc pre (c ∷ []) (d ∷ cs)))
          placed k.2)

  -- A bundle of short options that take no argument and have no flag is answered one by each call, in
  -- order, and then the parser stands at the next argument.
  pub calls-bundle :
      (a : Option (ℕ × ℕ)) (o : Option GetoptOption)
      → get_elem? argv (suc i) ≡ some (b'-' ∷ f ∷ rest)
      → f ≢ b'-'
      → Known (f ∷ rest)
      → calls argv opts (suc (length rest)) (standing i 0 a o) flags
        ≡ some (answers (f ∷ rest), done (last_of f rest), flags)
  calls-bundle a o e h k = bundle_from rest [] f 0 a o e k.0 h refl refl k
