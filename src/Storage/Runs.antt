-- ===== src/Storage/Runs.antt =====
-- include/gpcl/simple_segregated_storage.hpp: `malloc_n`.
use gpcl.Base.{
  ℕ, zero, suc, ◌+◌, ◌*◌, ◌<◌, ◌≡◌, ◌≢◌, ◌⊎◌, inl, inr, refl, ap, subst, ◌∙◌, sym, Bool, true,
  false, not, List, [], ◌∷◌, ◌++◌, append_assoc, Option, none, some, arith, ◌==◌, ==_iff,
  if◌then◌else◌, Bool-cases, length,
}
use gpcl.Storage.Chain.{
  Absent-right, Chain, Keeps, Apart, Segment-split, read_end, end_slot, Keeps-write,
}
use gpcl.Storage.Ordered.{Apart-split}
use gpcl.Storage.Segregate.{chunks}
use gpcl.Storage.{Storage, Slot, free_list_slot, next_chunk, read, write, malloc_n, malloc_n_loop}

-- `ret` is the first of `n` adjacent free chunks, which `s'` no longer keeps; the others stay.
pub record Found (n sz : ℕ) (xs : List ℕ) (ret : ℕ) (s' : Storage) : Type 0 where
  pub before : List ℕ
  pub after : List ℕ
  pub splits : xs ≡ before ++ (chunks ret sz n ++ after)
  pub nonnull : ret ≢ 0
  pub kept : Keeps s' (before ++ after)

-- A null pointer and no change, or a run
abbrev pub Allocates : ℕ → ℕ → List ℕ → Storage → Option (ℕ × Storage) → Type 0
Allocates n sz xs s none = ⊥
Allocates n sz xs s (some (ret, s')) = ((ret ≡ 0) × (s' ≡ s)) ⊎ Found n sz xs ret s'

end_slot-append :
    (slot : Slot) (xs ys : List ℕ) → end_slot slot (xs ++ ys) ≡ end_slot (end_slot slot xs) ys
end_slot-append slot [] ys = refl
end_slot-append slot (x ∷ xs) ys = end_slot-append (next_chunk x) xs ys

abbrev HeadIs : List ℕ → ℕ → Type 0
HeadIs [] a = Unit
HeadIs (y ∷ ys) a = y ≡ a

chunks-snoc : (r sz m : ℕ) → chunks r sz m ++ (r + m * sz) ∷ [] ≡ chunks r sz (suc m)
chunks-snoc r sz zero = ap (λ a. a ∷ []) (omega arith)
chunks-snoc r sz (suc m) =
    let e : r + suc m * sz ≡ (r + sz) + m * sz = omega arith in
    rw e (ap (◌∷◌ r) (chunks-snoc (r + sz) sz m))

head_of_chunks :
    (next : ℕ → ℕ) (h r sz m : ℕ) (ys : List ℕ)
    → Chain next h (chunks r sz (suc m) ++ ys)
    → (h ≡ r) × (r ≢ 0)
head_of_chunks next h r sz m ys c = (c.0, c.1)

Apart-right : (xs ys zs : List ℕ) → Apart xs (ys ++ zs) → Apart xs zs
Apart-right [] ys zs a = tt
Apart-right (x ∷ xs) ys zs a = (Absent-right x ys zs a.0, Apart-right xs ys zs a.1)

module _ (s : Storage) (n sz : ℕ) where
  abbrev whole : List ℕ → ℕ → ℕ → List ℕ → List ℕ
  whole pre r m ys = pre ++ (chunks r sz m ++ ys)

  abbrev before_run : List ℕ → Slot
  before_run pre = end_slot free_list_slot pre

  abbrev in_run : List ℕ → ℕ → ℕ → Slot
  in_run pre r m = end_slot (before_run pre) (chunks r sz m)

  -- The slot behind the run holds the rest of the list.
  rest_of :
      (pre : List ℕ) (r m : ℕ) (ys : List ℕ)
      → Keeps s (whole pre r m ys)
      → Chain s.next (read s (in_run pre r m)) ys
  rest_of pre r m ys k =
      let (a, l, c) = Segment-split s.next s.free_list 0 pre (chunks r sz m ++ ys) k in
      let (b, mid, c') = Segment-split s.next a 0 (chunks r sz m) ys c in
      subst (λ h. Chain s.next h ys)
        (sym (
          read_end s a b (before_run pre) (chunks r sz m)
            (read_end s s.free_list a free_list_slot pre refl l) mid))
        c'

  -- One more chunk in the run is the same list.
  whole-snoc :
      (pre : List ℕ) (r m y : ℕ) (ys : List ℕ)
      → y ≡ r + m * sz
      → whole pre r m (y ∷ ys) ≡ whole pre r (suc m) ys
  whole-snoc pre r m y ys e = ap (◌++◌ pre) (
      sym (append_assoc (chunks r sz m) (y ∷ []) ys)
      ∙ ap (λ l. l ++ ys) (ap (λ a. chunks r sz m ++ a ∷ []) e ∙ chunks-snoc r sz m))

  -- The run is long enough: its first chunk is returned, and it is cut out of the list.
  found :
      (pre : List ℕ) (r m y : ℕ) (ys : List ℕ)
      → y ≡ r + m * sz
      → Keeps s (whole pre r m (y ∷ ys))
      → Found
          (suc m)
          sz
          (whole pre r m (y ∷ ys))
          (read s (before_run pre))
          (write s (before_run pre) (s.next y))
  found pre r m y ys h k =
      let e = whole-snoc pre r m y ys h in
      let k' = subst (Keeps s) e k in
      let (a, l, c) = Segment-split s.next s.free_list 0 pre (chunks r sz (suc m) ++ ys) k' in
      let ret = read_end s s.free_list a free_list_slot pre refl l ∙ c.0 in
      record {
        before = pre;
        after = ys;
        splits = e ∙ ap (λ b. pre ++ (chunks b sz (suc m) ++ ys)) (sym ret);
        nonnull = λ z. c.1 (sym ret ∙ z);
        kept = Keeps-write s (s.next y) a pre ys l (rest_of pre r m (y ∷ ys) k).3 (
            Apart-right pre (chunks r sz (suc m)) ys
              (Apart-split s.next s.free_list 0 pre (chunks r sz (suc m) ++ ys) k'));
      }

  in_run-snoc : (pre : List ℕ) (r m y : ℕ) → y ≡ r + m * sz → next_chunk y ≡ in_run pre r (suc m)
  in_run-snoc pre r m y h =
      sym (end_slot-append (before_run pre) (chunks r sz m) (y ∷ []))
      ∙ ap (end_slot (before_run pre)) (ap (λ a. chunks r sz m ++ a ∷ []) h ∙ chunks-snoc r sz m)

  -- The list with everything up to `y` left behind
  whole_restart :
      (pre : List ℕ) (r m y r' : ℕ) (ys : List ℕ)
      → whole pre r m (y ∷ ys) ≡ whole (pre ++ (chunks r sz m ++ y ∷ [])) r' 0 ys
  whole_restart pre r m y r' ys =
      ap (◌++◌ pre) (sym (append_assoc (chunks r sz m) (y ∷ []) ys))
      ∙ sym (append_assoc pre (chunks r sz m ++ y ∷ []) ys)

  before_run_restart :
      (pre : List ℕ) (r m y : ℕ) → next_chunk y ≡ before_run (pre ++ (chunks r sz m ++ y ∷ []))
  before_run_restart pre r m y =
      sym (end_slot-append (in_run pre r m) [] (y ∷ []))
      ∙ sym (end_slot-append (before_run pre) (chunks r sz m) (y ∷ []))
      ∙ sym (end_slot-append free_list_slot pre (chunks r sz m ++ y ∷ []))

  head_next : (h y : ℕ) (ys : List ℕ) → Chain s.next h (y ∷ ys) → HeadIs ys (s.next y)
  head_next h y [] c = tt
  head_next h y (z ∷ ys) c = sym c.3.0

  malloc_n_loop_lem :
      (ys : List ℕ) (fuel : ℕ) (pre : List ℕ) (r m : ℕ)
      → length ys < fuel
      → HeadIs ys (r + m * sz)
      → Keeps s (whole pre r m ys)
      → Allocates n sz
          (whole pre r m ys)
          s
          (malloc_n_loop fuel s n sz (in_run pre r m) (before_run pre) m)
  unfolding malloc_n_loop
  malloc_n_loop_lem ys zero pre r m f h k = absurd (omega arith)
  malloc_n_loop_lem [] (suc fuel) pre r m f h k = rw (rest_of pre r m [] k) (inl (refl, refl))
  malloc_n_loop_lem (y ∷ ys) (suc fuel) pre r m f h k =
      let c = rest_of pre r m (y ∷ ys) k in
      let nonnull : (y == 0) ≡ false = ground (arith, c.1) in
      let pre' = pre ++ (chunks r sz m ++ y ∷ []) in
      rw (c.0, nonnull)
        (at_chunk c
          (malloc_n_loop_lem ys fuel pre' (s.next y) 0 (omega arith) (no_gap (head_next _ y ys c))
            (subst (Keeps s) (whole_restart pre r m y (s.next y) ys) k))
          (λ g.
            malloc_n_loop_lem ys fuel pre r (suc m) (omega arith) g
              (subst (Keeps s) (whole-snoc pre r m y ys h) k))
          (s.next y == y + sz) refl)
    where
      no_gap : HeadIs ys (s.next y) → HeadIs ys (s.next y + 0 * sz)
      no_gap = subst (HeadIs ys) (omega arith)

      at_chunk :
          Chain s.next (read s (in_run pre r m)) (y ∷ ys)
          → Allocates n sz (whole (pre ++ (chunks r sz m ++ y ∷ [])) (s.next y) 0 ys) s (
              malloc_n_loop fuel s n sz
                (before_run (pre ++ (chunks r sz m ++ y ∷ [])))
                (before_run (pre ++ (chunks r sz m ++ y ∷ [])))
                0)
          → (HeadIs ys (r + suc m * sz)
              → Allocates n sz
                  (whole pre r (suc m) ys)
                  s
                  (malloc_n_loop fuel s n sz (in_run pre r (suc m)) (before_run pre) (suc m)))
          → (b : Bool) → (s.next y == y + sz) ≡ b
          → Allocates n sz (whole pre r m (y ∷ ys)) s (
              if not b
              then malloc_n_loop fuel s n sz (next_chunk y) (next_chunk y) 0
              else if suc m == n
              then some (read s (before_run pre), write s (before_run pre) (s.next y))
              else malloc_n_loop fuel s n sz (next_chunk y) (before_run pre) (suc m))
      at_chunk c again on false t =
          subst (λ q. Allocates n sz (whole pre r m (y ∷ ys)) s (malloc_n_loop fuel s n sz q q 0))
            (sym (before_run_restart pre r m y))
            (subst
              (λ l. Allocates n sz l s (
                malloc_n_loop fuel s n sz (before_run (pre ++ (chunks r sz m ++ y ∷ [])))
                  (before_run (pre ++ (chunks r sz m ++ y ∷ []))) 0))
              (sym (whole_restart pre r m y (s.next y) ys)) again)
      at_chunk c again on true t = elim (Bool-cases (suc m == n)) [
        | inl b ↦ rw b (
            inr (
              subst
                (λ w.
                  Found w sz (whole pre r m (y ∷ ys)) (read s (before_run pre))
                    (write s (before_run pre) (s.next y)))
                ((==_iff (suc m) n).0 b) (found pre r m y ys h k)))
        | inr b ↦
            let adjacent : s.next y ≡ r + suc m * sz =
              grind (arith, (==_iff (s.next y) (y + sz)).0 t) in
            rw b (
              subst
                (λ q.
                  Allocates n sz (whole pre r m (y ∷ ys)) s
                    (malloc_n_loop fuel s n sz q (before_run pre) (suc m)))
                (sym (in_run-snoc pre r m y h))
                (subst
                  (λ l.
                    Allocates n sz l s
                      (malloc_n_loop fuel s n sz (in_run pre r (suc m)) (before_run pre) (suc m)))
                  (sym (whole-snoc pre r m y ys h))
                  (on (subst (HeadIs ys) adjacent (head_next _ y ys c)))))
      ]

  -- `malloc_n` ends within one round more than there are free chunks. It returns a null pointer and
  -- changes nothing, or it returns the first of `n` adjacent chunks that stand one behind the other in
  -- the free list, and takes these out of it.
  pub malloc_n-Allocates :
      (fuel : ℕ) (xs : List ℕ)
      → Keeps s xs
      → length xs < fuel
      → Allocates n sz xs s (malloc_n fuel s n sz)
  unfolding malloc_n
  malloc_n-Allocates fuel xs k f = malloc_n_loop_lem xs fuel [] (head xs) 0 f (own xs) k
    where
      head : List ℕ → ℕ
      head [] = 0
      head (x ∷ xs) = x

      own : (xs : List ℕ) → HeadIs xs (head xs + 0 * sz)
      own [] = tt
      own (x ∷ xs) = omega arith

  lone_run :
      (j m fuel y : ℕ) (start p : Slot)
      → suc j < fuel
      → 0 < sz
      → m + suc j ≡ n
      → Chain s.next (read s p) (chunks y sz (suc j))
      → malloc_n_loop fuel s n sz p start m ≡ some (0, s)
  unfolding malloc_n_loop
  lone_run j m zero y start p f h e c = absurd (omega arith)
  lone_run j m (suc zero) y start p f h e c = absurd (omega arith)
  lone_run zero m (suc (suc fuel)) y start p f h e c =
      let nonnull : (y == 0) ≡ false = ground (arith, c.1) in
      let gap : (0 == y + sz) ≡ false = ground (arith, c.1) in rw (c.0, nonnull, c.3, gap) refl
  lone_run (suc j) m (suc (suc fuel)) y start p f h e c =
      let nonnull : (y == 0) ≡ false = ground (arith, c.1) in
      let adjacent : (s.next y == y + sz) ≡ true = (==_iff (s.next y) (y + sz)).1 c.3.0 in
      let short : (suc m == n) ≡ false = ground arith in
      let onward =
        lone_run j (suc m) (suc fuel) (y + sz) start (next_chunk y) (omega arith) h (omega arith)
          c.3 in
      rw (c.0, nonnull, adjacent, short) onward

  -- A free list of exactly `n` adjacent chunks of a positive size does not serve a request for `n`
  -- chunks: `malloc_n` wants one more chunk behind the run, returns a null pointer and changes nothing.
  malloc_n-lone :
      (fuel j y : ℕ)
      → suc j < fuel
      → 0 < sz
      → suc j ≡ n
      → Keeps s (chunks y sz (suc j))
      → malloc_n fuel s n sz ≡ some (0, s)
  unfolding malloc_n
  malloc_n-lone fuel j y f h e k =
      lone_run j 0 fuel y free_list_slot free_list_slot f h (omega arith) k
