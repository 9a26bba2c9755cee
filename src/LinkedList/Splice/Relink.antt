-- ===== src/LinkedList/Splice/Relink.antt =====
-- include/gpcl/list.hpp: the pointer writes of `splice`, and what they do to a list.
use gpcl.Base.{ℕ, ◌≡◌, refl, sym, ap, subst, ◌∙◌, true, [], ◌∷◌}
use gpcl.Base.Addresses.{assign}
use gpcl.LinkedList.Ring.{Alive}
use gpcl.LinkedList.Splice.{move_size, splice_range}
use gpcl.LinkedList.{Memory, returned, mem, get_prev, set_next, set_prev}

module _ {A : Type 0} where
  -- The nodes from `first` to `z` are taken out between `b` and `last`, and put between `c` and `pos`.
  abbrev pub relinked : Memory A → ℕ → ℕ → ℕ → ℕ → ℕ → ℕ → Memory A
  relinked m b last first z c pos = record m {
    next = assign (assign (assign m.next b last) z pos) c first;
    prev = assign (assign (assign m.prev last b) first c) pos z;
  }

  splice_range_returned :
      (m m' : Memory A) (this pos other first last : ℕ)
      → move_size this other first last m ≡ returned tt m'
      → mem first m'.live ≡ true
      → mem last m'.live ≡ true
      → mem (m'.prev first) m'.live ≡ true
      → mem (m'.prev last) m'.live ≡ true
      → mem pos m'.live ≡ true
      → mem (assign m'.prev last (m'.prev first) pos) m'.live ≡ true
      → splice_range this pos other first last m
        ≡ returned tt (
            relinked m'
              (m'.prev first)
              last
              first
              (m'.prev last)
              (assign m'.prev last (m'.prev first) pos)
              pos)
  unfolding splice_range get_prev set_next set_prev
  splice_range_returned m m' this pos other first last s f l b z p c =
      rw (s, f, l, b, l, p, f, z, c, p) refl

  relinked_eq :
      (m : Memory A) (b last first z c pos : ℕ)
      → m.prev first ≡ b
      → m.prev last ≡ z
      → assign m.prev last b pos ≡ c
      → relinked m
          (m.prev first)
          last
          first
          (m.prev last)
          (assign m.prev last (m.prev first) pos)
          pos
        ≡ relinked m b last first z c pos
  relinked_eq m b last first z c pos e f g =
      ap (λ b. relinked m b last first (m.prev last) (assign m.prev last b pos) pos) e
      ∙ (ap (λ z. relinked m b last first z (assign m.prev last b pos) pos) f
          ∙ ap (λ c. relinked m b last first z c pos) g)

  -- `splice` with the nodes that it reads
  pub splice_range-relinked :
      (m m' : Memory A) (this pos other first last b z c : ℕ)
      → move_size this other first last m ≡ returned tt m'
      → m'.prev first ≡ b
      → m'.prev last ≡ z
      → assign m'.prev last b pos ≡ c
      → Alive m'.live (first ∷ last ∷ b ∷ z ∷ pos ∷ c ∷ [])
      → splice_range this pos other first last m ≡ returned tt (relinked m' b last first z c pos)
  splice_range-relinked m m' this pos other first last b z c s e f g
        (h, (l, (i, (j, (k, (n, t)))))) =
      splice_range_returned m m' this pos other first last s h l
        (subst (λ a. mem a m'.live ≡ true) (sym e) i) (subst (λ a. mem a m'.live ≡ true) (sym f) j)
        k (subst (λ a. mem a m'.live ≡ true) (sym (ap (λ b. assign m'.prev last b pos) e ∙ g)) n)
      ∙ ap (returned tt) (relinked_eq m' b last first z c pos e f g)
