-- ===== src/Split/Old.antt =====
-- include/gpcl/string_utils.hpp: `split_old` beside `split`, and `trimmed`.
use gpcl.Base.{
  ℕ, zero, suc, ◌<◌, ◌≡◌, refl, ap, sym, ◌∙◌, Bool, true, false, ◌&&◌, Bool-cases, inl, inr, List,
  [], ◌∷◌, ◌++◌, append_assoc, append-nil, Option, some, arith, leb, ◌==◌, Bytes, length, drop,
  length-drop,
}
use gpcl.Split.Join.{round}
use gpcl.Split.{
  is_prefix, search, added, prepend, split_loop, split, split_old_loop, split_old, trimmed,
  skip_spaces, until_space, is_space,
}

is_prefix_short : (delim text : Bytes) → length text < length delim → is_prefix delim text ≡ false
unfolding is_prefix
is_prefix_short [] text h = absurd (omega arith)
is_prefix_short (d ∷ ds) [] h = refl
is_prefix_short (d ∷ ds) (c ∷ cs) h = rw (is_prefix_short ds cs (omega arith)) (and_false (d == c))
  where
    and_false : (b : Bool) → (b && false) ≡ false
    and_false true = refl
    and_false false = refl

search_short : (delim text : Bytes) → length text < length delim → search delim text ≡ (text, [])
unfolding search
search_short delim [] h = refl
search_short delim (c ∷ cs) h =
    rw (is_prefix_short delim (c ∷ cs) h, search_short delim cs (omega arith)) refl

search-here :
    (delim : Bytes) (c : ℕ) (cs : Bytes)
    → is_prefix delim (c ∷ cs) ≡ true
    → search delim (c ∷ cs) ≡ ([], c ∷ cs)
unfolding search
search-here delim c cs h = rw h refl

search-later :
    (delim : Bytes) (c : ℕ) (cs : Bytes)
    → is_prefix delim (c ∷ cs) ≡ false
    → search delim (c ∷ cs) ≡ (c ∷ (search delim cs).0, (search delim cs).1)
unfolding search
search-later delim c cs h = rw h refl

module _ (skip : Bool) where
  -- What a round makes of the piece `before` and the text from the delimiter on
  abbrev ended : ℕ → Bytes → Bytes → Bytes → Option (List Bytes)
  ended fuel delim before after = elim after [
    | [] ↦ some (added skip false before)
    | c ∷ cs ↦
        prepend skip false (added skip false before)
          (split_loop skip false fuel delim (drop (length delim) (c ∷ cs)))
  ]

  -- `split_old` that has read `piece` ends as `split` does that finds the delimiter behind it, with any
  -- fuel that is enough for the text.
  split_old_loop_lem :
      (fuel fuel' d : ℕ) (ds piece text : Bytes)
      → length text < fuel
      → length text < suc fuel'
      → split_old_loop skip fuel (d ∷ ds) piece text
        ≡ ended fuel' (d ∷ ds) (piece ++ (search (d ∷ ds) text).0) (search (d ∷ ds) text).1
  unfolding split_old_loop
  split_old_loop_lem zero fuel' d ds piece text h h' = absurd (omega arith)
  split_old_loop_lem (suc fuel) fuel' d ds piece [] h h' =
      let t : leb (length (d ∷ ds)) 0 ≡ false = ground arith in
      rw t (
        ap (λ r. ended fuel' (d ∷ ds) (piece ++ r.0) r.1)
          (sym (search_short (d ∷ ds) [] (omega arith))))
  split_old_loop_lem (suc fuel) zero d ds piece (c ∷ cs) h h' = absurd (omega arith)
  split_old_loop_lem (suc fuel) (suc fuel') d ds piece (c ∷ cs) h h' =
      elim (Bool-cases (leb (length (d ∷ ds)) (length (c ∷ cs)))) [
        | inr t ↦ rw t (
            ap (λ r. ended (suc fuel') (d ∷ ds) (piece ++ r.0) r.1)
              (sym (search_short (d ∷ ds) (c ∷ cs) (ground arith))))
        | inl t ↦ elim (Bool-cases (is_prefix (d ∷ ds) (c ∷ cs))) [
          | inl p ↦
              let rest = drop (length ds) cs in
              let onward : split_old_loop skip fuel (d ∷ ds) [] rest
                  ≡ split_loop skip false (suc fuel') (d ∷ ds) rest =
                split_old_loop_lem fuel fuel' d ds [] rest
                  (omega (arith, length-drop (length ds) cs))
                  (omega (arith, length-drop (length ds) cs))
                ∙ sym (
                    round skip false fuel' (d ∷ ds) rest (search (d ∷ ds) rest).0
                      (search (d ∷ ds) rest).1 refl) in
              rw (t, p)
                (ap (prepend skip false (added skip false piece)) onward
                  ∙ ap (λ l. ended (suc fuel') (d ∷ ds) l (c ∷ cs)) (sym (append-nil piece))
                  ∙ ap (λ r. ended (suc fuel') (d ∷ ds) (piece ++ r.0) r.1)
                      (sym (search-here (d ∷ ds) c cs p)))
          | inr p ↦
              rw (t, p)
                (split_old_loop_lem fuel (suc fuel') d ds (piece ++ c ∷ []) cs (omega arith)
                    (omega arith)
                  ∙ ap (λ l. ended (suc fuel') (d ∷ ds) l (search (d ∷ ds) cs).1)
                      (append_assoc piece (c ∷ []) (search (d ∷ ds) cs).0)
                  ∙ ap (λ r. ended (suc fuel') (d ∷ ds) (piece ++ r.0) r.1)
                      (sym (search-later (d ∷ ds) c cs p)))
        ]
      ]

-- For a delimiter that is not empty `split_old` gives what `split` gives without trimming.
split_old-split :
    (skip_empty_string : Bool) (text : Bytes) (d : ℕ) (ds : Bytes)
    → split_old skip_empty_string text (d ∷ ds) ≡ split skip_empty_string false text (d ∷ ds)
unfolding split_old split
split_old-split skip text d ds =
    split_old_loop_lem skip (suc (length text)) (length text) d ds [] text (omega arith)
      (omega arith)
    ∙ sym (
        round skip false (length text) (d ∷ ds) text (search (d ∷ ds) text).0
          (search (d ∷ ds) text).1 refl)

-- A text of nothing but spaces; one without any
abbrev pub Spaces : Bytes → Type 0
Spaces [] = Unit
Spaces (c ∷ cs) = (is_space c ≡ true) × Spaces cs

abbrev pub Word : Bytes → Type 0
Word [] = Unit
Word (c ∷ cs) = (is_space c ≡ false) × Word cs

until_space-Word :
    (word : Bytes) (s : ℕ) (rest : Bytes)
    → Word word
    → is_space s ≡ true
    → until_space (word ++ s ∷ rest) ≡ word
unfolding until_space
until_space-Word [] s rest w h = rw h refl
until_space-Word (c ∷ cs) s rest w h = rw w.0 (ap (◌∷◌ c) (until_space-Word cs s rest w.1 h))

-- `trimmed` gives the first word, and drops what stands behind the space that follows it.
trimmed-Word :
    (spaces : Bytes) (c : ℕ) (cs : Bytes) (s : ℕ) (rest : Bytes)
    → Spaces spaces
    → Word (c ∷ cs)
    → is_space s ≡ true
    → trimmed (spaces ++ (c ∷ cs ++ s ∷ rest)) ≡ c ∷ cs
unfolding trimmed skip_spaces
trimmed-Word [] c cs s rest l w h = rw w.0 (until_space-Word (c ∷ cs) s rest w h)
trimmed-Word (x ∷ spaces) c cs s rest l w h = rw l.0 (trimmed-Word spaces c cs s rest l.1 w h)
