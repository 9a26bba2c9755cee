-- ===== src/Split.antt =====
-- include/gpcl/string_utils.hpp: splitting a text at a delimiter.
-- A text between two iterators is its list of characters, and an iterator is what is left of the text.
-- `std::search`, `std::equal`, `std::find_if` and `std::isspace` (in the "C" locale) are the standard
-- library's, written out. The flags are two Booleans. The loops run on fuel.
pub mod Join
pub mod Old
use gpcl.Base.{
  ℕ, zero, suc, Bool, true, false, List, [], ◌∷◌, ◌++◌, Option, none, some, ◌&&◌, ◌||◌, not, ◌==◌,
  leb, if◌then◌else◌, Bytes, length, drop, take,
}

abbrev pub is_space : ℕ → Bool
is_space ch = ch == 32 || (leb 9 ch && leb ch 13)

abbrev pub is_empty : Bytes → Bool
is_empty [] = true
is_empty (c ∷ cs) = false

-- `std::equal` of the delimiter and the start of the text
unfoldable pub is_prefix : Bytes → Bytes → Bool
is_prefix [] text = true
is_prefix (d ∷ ds) [] = false
is_prefix (d ∷ ds) (c ∷ cs) = d == c && is_prefix ds cs

-- `std::search`: the text before the first occurrence, and from there on; all of it and nothing
-- where there is none, as the position is then the end.
unfoldable pub search : Bytes → Bytes → Bytes × Bytes
unfolding is_prefix
search delim [] = ([], [])
search delim (c ∷ cs) =
    let found = search delim cs in
    if is_prefix delim (c ∷ cs) then ([], c ∷ cs) else (c ∷ found.0, found.1)

unfoldable pub skip_spaces : Bytes → Bytes
skip_spaces [] = []
skip_spaces (c ∷ cs) = let later = skip_spaces cs in if is_space c then later else c ∷ cs

unfoldable pub until_space : Bytes → Bytes
until_space [] = []
until_space (c ∷ cs) = let later = until_space cs in if is_space c then [] else c ∷ later

-- `sub_string::trimmed`
unfoldable pub trimmed : Bytes → Bytes
unfolding skip_spaces until_space
trimmed s = until_space (skip_spaces s)

module _ (skip_empty_string trim_results : Bool) where
  -- The test on a piece, and `rb.add`
  unfoldable pub added : Bytes → List Bytes
  unfolding trimmed
  added piece =
      if not (is_empty piece) || not skip_empty_string
      then (if trim_results then trimmed piece ∷ [] else piece ∷ [])
      else []

  abbrev pub prepend : List Bytes → Option (List Bytes) → Option (List Bytes)
  prepend ps none = none
  prepend ps (some qs) = some (ps ++ qs)

  unfoldable pub split_loop : ℕ → Bytes → Bytes → Option (List Bytes)
  unfolding added search
  split_loop zero delim text = none
  split_loop (suc fuel) delim text =
      let found = search delim text in
      elim found.1 [
        | [] ↦ some (added found.0)
        | c ∷ cs ↦ prepend (added found.0) (split_loop fuel delim (drop (length delim) (c ∷ cs)))
      ]

-- `split`: one round more than there are characters
unfoldable pub split : Bool → Bool → Bytes → Bytes → Option (List Bytes)
unfolding split_loop
split skip_empty_string trim_results text delim =
    split_loop skip_empty_string trim_results (suc (length text)) delim text

module _ (skip_empty_string : Bool) where
  -- `piece` is what stands between `substr_start` and `first`. It does not trim.
  unfoldable pub split_old_loop : ℕ → Bytes → Bytes → Bytes → Option (List Bytes)
  unfolding added is_prefix
  split_old_loop zero delim piece text = none
  split_old_loop (suc fuel) delim piece text =
      let found = split_old_loop fuel delim [] (drop (length delim) text) in
      let onward = split_old_loop fuel delim (piece ++ take 1 text) (drop 1 text) in
      if leb (length delim) (length text)
      then (if is_prefix delim text
          then prepend skip_empty_string false (added skip_empty_string false piece) found
          else onward)
      else some (added skip_empty_string false (piece ++ text))

unfoldable pub split_old : Bool → Bytes → Bytes → Option (List Bytes)
unfolding split_old_loop
split_old skip_empty_string text delim =
    split_old_loop skip_empty_string (suc (length text)) delim [] text
