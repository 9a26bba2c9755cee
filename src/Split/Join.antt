-- ===== src/Split/Join.antt =====
-- include/gpcl/string_utils.hpp: `split` against joining.
use gpcl.Base.{
  ℕ, zero, suc, ◌<◌, ◌≡◌, refl, ap, sym, subst, ◌∙◌, Bool, true, false, Bool-cases, inl, inr, ◌⊎◌,
  List, [], ◌∷◌, ◌++◌, append-nil, ◌≢◌, Option, none, some, arith, ◌&&◌, ◌==◌, ==_iff, Bytes,
  length, drop, length-drop, length-append,
}
use gpcl.Split.{is_prefix, search, added, prepend, split_loop, split}

both : (a b : Bool) → (a && b) ≡ true → (a ≡ true) × (b ≡ true)
both true b h = (refl, h)
both false b h = cc

is_prefix-true :
    (delim text : Bytes) → is_prefix delim text ≡ true → text ≡ delim ++ drop (length delim) text
unfolding is_prefix
is_prefix-true [] text h = refl
is_prefix-true (d ∷ ds) [] h = cc
is_prefix-true (d ∷ ds) (c ∷ cs) h =
    let (e, h') = both (d == c) (is_prefix ds cs) h in
    rw ((==_iff d c).0 e) (ap (◌∷◌ c) (is_prefix-true ds cs h'))

-- What `search` finds: the text is cut in two, and the second part is empty or begins with the
-- delimiter.
search_lem :
    (delim text : Bytes)
    → (text ≡ (search delim text).0 ++ (search delim text).1)
      × (((search delim text).1 ≡ []) ⊎ (is_prefix delim (search delim text).1 ≡ true))
unfolding search
search_lem delim [] = (refl, inl refl)
search_lem delim (c ∷ cs) = elim (Bool-cases (is_prefix delim (c ∷ cs))) [
  | inl t ↦ rw t (refl, inr t)
  | inr t ↦ let (e, f) = search_lem delim cs in rw t (ap (◌∷◌ c) e, f)
]

-- The pieces with the delimiter between them
abbrev pub join : Bytes → Bytes → List Bytes → Bytes
join delim p [] = p
join delim p (q ∷ qs) = p ++ (delim ++ join delim q qs)

-- The pieces from which the text is joined
abbrev pub Joined : Bytes → Bytes → Option (List Bytes) → Type 0
Joined delim text none = ⊥
Joined delim text (some []) = ⊥
Joined delim text (some (p ∷ ps)) = join delim p ps ≡ text

Joined-prepend :
    (delim before text : Bytes) (r : Option (List Bytes))
    → Joined delim text r
    → Joined delim (before ++ (delim ++ text)) (prepend false false (before ∷ []) r)
Joined-prepend delim before text none h = h
Joined-prepend delim before text (some []) h = absurd h
Joined-prepend delim before text (some (p ∷ ps)) h = ap (λ l. before ++ (delim ++ l)) h

added_plain : (p : Bytes) → added false false p ≡ p ∷ []
unfolding added
added_plain [] = refl
added_plain (c ∷ cs) = refl

split_loop-Joined :
    (fuel d : ℕ) (ds text : Bytes)
    → length text < fuel
    → Joined (d ∷ ds) text (split_loop false false fuel (d ∷ ds) text)
unfolding split_loop
split_loop-Joined zero d ds text h = absurd (omega arith)
split_loop-Joined (suc fuel) d ds text h =
    let (e, f) = search_lem (d ∷ ds) text in
    found (search (d ∷ ds) text).0 (search (d ∷ ds) text).1 e f (split_loop-Joined fuel d ds)
  where
    found :
        (before after : Bytes)
        → text ≡ before ++ after
        → (after ≡ []) ⊎ (is_prefix (d ∷ ds) after ≡ true)
        → ((rest : Bytes)
            → length rest < fuel
            → Joined (d ∷ ds) rest (split_loop false false fuel (d ∷ ds) rest))
        → Joined (d ∷ ds) text (elim after [
          | [] ↦ some (added false false before)
          | c ∷ cs ↦
              prepend false false
                (added false false before)
                (split_loop false false fuel (d ∷ ds) (drop (length (d ∷ ds)) (c ∷ cs)))
        ])
    found before [] e f onward = rw (added_plain before) (sym (e ∙ append-nil before))
    found before (c ∷ cs) e (inl z) onward = cc
    found before (c ∷ cs) e (inr p) onward =
        let rest = drop (length ds) cs in
        let shorter : length rest < fuel =
          omega (arith, ap length e, length-append before (c ∷ cs), length-drop (length ds) cs) in
        rw (added_plain before) (
          subst
            (λ t.
              Joined (d ∷ ds) t
                (prepend false false (before ∷ []) (split_loop false false fuel (d ∷ ds) rest)))
            (sym (e ∙ ap (◌++◌ before) (is_prefix-true (d ∷ ds) (c ∷ cs) p)))
            (Joined-prepend (d ∷ ds) before rest (split_loop false false fuel (d ∷ ds) rest)
              (onward rest shorter)))

-- Without flags, and with a delimiter that is not empty, `split` ends, and the text is its pieces
-- joined by the delimiter.
pub split-Joined :
    (text : Bytes) (d : ℕ) (ds : Bytes) → Joined (d ∷ ds) text (split false false text (d ∷ ds))
unfolding split
split-Joined text d ds = split_loop-Joined (suc (length text)) d ds text (omega arith)

-- With an empty delimiter `split` never ends on a text that is not empty, whatever the flags are.
split_loop_endless :
    (skip_empty_string trim_results : Bool) (fuel c : ℕ) (cs : Bytes)
    → split_loop skip_empty_string trim_results fuel [] (c ∷ cs) ≡ none
unfolding split_loop search is_prefix
split_loop_endless skip_empty_string trim_results zero c cs = refl
split_loop_endless skip_empty_string trim_results (suc fuel) c cs =
    rw (split_loop_endless skip_empty_string trim_results fuel c cs) refl

-- A character that no piece has
abbrev pub Lacks : ℕ → Bytes → Type 0
Lacks d [] = Unit
Lacks d (c ∷ cs) = (d ≢ c) × Lacks d cs

abbrev pub AllLack : ℕ → List Bytes → Type 0
AllLack d [] = Unit
AllLack d (p ∷ ps) = Lacks d p × AllLack d ps

search-one : (d : ℕ) (p rest : Bytes) → Lacks d p → search (d ∷ []) (p ++ d ∷ rest) ≡ (p, d ∷ rest)
unfolding search is_prefix
search-one d [] rest h = let same : (d == d) ≡ true = (==_iff d d).1 refl in rw same refl
search-one d (c ∷ p) rest h =
    let other : (d == c) ≡ false = ground (arith, h.0) in rw (other, search-one d p rest h.1) refl

search-none : (d : ℕ) (p : Bytes) → Lacks d p → search (d ∷ []) p ≡ (p, [])
unfolding search is_prefix
search-none d [] h = refl
search-none d (c ∷ p) h =
    let other : (d == c) ≡ false = ground (arith, h.0) in rw (other, search-none d p h.1) refl

-- A round of `split` by what `search` found
pub round :
    (skip_empty_string trim_results : Bool) (fuel : ℕ) (delim text before after : Bytes)
    → search delim text ≡ (before, after)
    → split_loop skip_empty_string trim_results (suc fuel) delim text ≡ (elim after [
      | [] ↦ some (added skip_empty_string trim_results before)
      | c ∷ cs ↦
          prepend skip_empty_string trim_results
            (added skip_empty_string trim_results before)
            (split_loop skip_empty_string trim_results fuel delim (drop (length delim) (c ∷ cs)))
    ])
unfolding split_loop
round skip_empty_string trim_results fuel delim text before after e =
    ap
      (λ r. (elim r.1 as (λ x. Option (List Bytes)) [
        | [] ↦ some (added skip_empty_string trim_results r.0)
        | c ∷ cs ↦
            prepend skip_empty_string trim_results (added skip_empty_string trim_results r.0)
              (split_loop skip_empty_string trim_results fuel delim (drop (length delim) (c ∷ cs)))
      ]))
      e

split_loop-join :
    (ps : List Bytes) (fuel d : ℕ) (p : Bytes)
    → length (join (d ∷ []) p ps) < fuel
    → Lacks d p
    → AllLack d ps
    → split_loop false false fuel (d ∷ []) (join (d ∷ []) p ps) ≡ some (p ∷ ps)
split_loop-join ps zero d p h l a = absurd (omega arith)
split_loop-join [] (suc fuel) d p h l a =
    round false false fuel (d ∷ []) p p [] (search-none d p l) ∙ ap some (added_plain p)
split_loop-join (q ∷ ps) (suc fuel) d p h l a =
    let tail = join (d ∷ []) q ps in
    let shorter : length tail < fuel = omega (arith, length-append p (d ∷ tail)) in
    round false false fuel (d ∷ []) (p ++ d ∷ tail) p (d ∷ tail) (search-one d p tail l)
    ∙ ap (λ a. prepend false false a (split_loop false false fuel (d ∷ []) tail)) (added_plain p)
    ∙ ap (prepend false false (p ∷ [])) (split_loop-join ps fuel d q shorter a.0 a.1)

-- Splitting at one character what was joined with it gives the pieces back, if none has it.
split-join :
    (d : ℕ) (p : Bytes) (ps : List Bytes)
    → Lacks d p
    → AllLack d ps
    → split false false (join (d ∷ []) p ps) (d ∷ []) ≡ some (p ∷ ps)
unfolding split
split-join d p ps l a = split_loop-join ps (suc (length (join (d ∷ []) p ps))) d p (omega arith) l a
