-- ===== src/Storage/Ordered.antt =====
-- include/gpcl/simple_segregated_storage.hpp: `upper_bound` and `ordered_free`.
use gpcl.Base.{
  ℕ, zero, suc, ◌+◌, ◌<◌, ◌≡◌, ◌≢◌, inl, inr, refl, ap, subst, sym, Bool, false, List, [], ◌∷◌,
  ◌++◌, some, arith, ltb, ltb→lt, ◌==◌, if◌then◌else◌, Bool-cases, length,
}
use gpcl.Storage.Chain.{
  Absent, Segment, Chain, Keeps, Apart, Absent-left, Absent-right, update_same, Segment-update,
  Segment-split, read_end, end_slot, Keeps-write,
}
use gpcl.Storage.{
  Storage, Slot, free_list_slot, next_chunk, update, read, write, upper_bound, ordered_free,
}

-- The chunks up to the first one above `p`, and those from it on.
abbrev pub lower : ℕ → List ℕ → List ℕ
lower p [] = []
lower p (y ∷ ys) = if ltb p y then [] else y ∷ lower p ys

abbrev pub upper : ℕ → List ℕ → List ℕ
upper p [] = []
upper p (y ∷ ys) = if ltb p y then y ∷ ys else upper p ys

-- Where `ordered_free` puts a chunk: the first chunk of the list is never compared with it.
abbrev pub placed : ℕ → List ℕ → List ℕ
placed p [] = p ∷ []
placed p (x ∷ xs) = x ∷ (lower p xs ++ p ∷ upper p xs)

lower-upper : (p : ℕ) (xs : List ℕ) → lower p xs ++ upper p xs ≡ xs
lower-upper p [] = refl
lower-upper p (y ∷ ys) = elim (Bool-cases (ltb p y)) [
  | inl h ↦ rw h
  | inr h ↦ rw h (ap (◌∷◌ y) (lower-upper p ys))
]

upper_bound_lem :
    (xs : List ℕ) (fuel : ℕ) (s : Storage) (p x : ℕ) (slot : Slot)
    → length xs + 1 < fuel
    → Chain s.next (read s slot) (x ∷ xs)
    → upper_bound fuel s p slot ≡ some (end_slot slot (x ∷ lower p xs))
unfolding upper_bound
upper_bound_lem xs zero s p x slot f c = absurd (omega arith)
upper_bound_lem [] (suc zero) s p x slot f c = absurd (omega arith)
upper_bound_lem [] (suc (suc fuel)) s p x slot f c =
    let nonnull : (x == 0) ≡ false = ground (arith, c.1) in
    let last : ltb p (s.next x) ≡ false = ground (arith, c.3) in rw (c.0, nonnull, last, c.3)
upper_bound_lem (y ∷ ys) (suc fuel) s p x slot f c =
    let nonnull : (x == 0) ≡ false = ground (arith, c.1) in
    rw (c.0, nonnull)
      (at_next (ltb p y)
        (upper_bound_lem ys fuel s p y (next_chunk x) (omega arith) (c.3.0, c.3.1, c.3.2, c.3.3)))
  where
    at_next :
        (b : Bool)
        → upper_bound fuel s p (next_chunk x) ≡ some (end_slot (next_chunk x) (y ∷ lower p ys))
        → (if ltb p (s.next x) then some (next_chunk x) else upper_bound fuel s p (next_chunk x))
          ≡ some (end_slot (next_chunk x) (lower p (y ∷ ys)))
    at_next b ih = elim (Bool-cases (ltb p y)) [ inl h ↦ rw (c.3.0, h) | inr h ↦ rw (c.3.0, h) ih ]

pub Apart-split :
    (next : ℕ → ℕ) (h e : ℕ) (xs ys : List ℕ) → Segment next h (xs ++ ys) e → Apart xs ys
Apart-split next h e [] ys c = tt
Apart-split next h e (x ∷ xs) ys c =
    (Absent-right x xs ys c.2, Apart-split next (next x) e xs ys c.3)

Apart-cons : (p : ℕ) (xs ys : List ℕ) → Absent p xs → Apart xs ys → Apart xs (p ∷ ys)
Apart-cons p [] ys n a = tt
Apart-cons p (x ∷ xs) ys n a = ((λ e. n.0 (sym e), a.0), Apart-cons p xs ys n.1 a.1)

abbrev linked_at : Storage → ℕ → Slot → Storage
linked_at s p pos = write (record s { next = update s.next p (read s pos) }) pos p

-- A chunk linked in behind `pre`
Keeps-linked_at :
    (s : Storage) (p : ℕ) (pre post : List ℕ)
    → p ≢ 0
    → Absent p (pre ++ post)
    → Keeps s (pre ++ post)
    → Keeps (linked_at s p (end_slot free_list_slot pre)) (pre ++ p ∷ post)
Keeps-linked_at s p pre post z n k =
    let pos = end_slot free_list_slot pre in
    let left = Absent-left p pre post n in
    let right = Absent-right p pre post n in
    let (m, l, r) = Segment-split s.next s.free_list 0 pre post k in
    let at_pos = read_end s s.free_list m free_list_slot pre refl l in
    let v = read s pos in
    Keeps-write (record s { next = update s.next p v }) p m pre (p ∷ post)
      (Segment-update s.next s.free_list m p v pre left l)
      (
        refl,
        z,
        right,
        rw (update_same s.next p v) (
            Segment-update s.next v 0 p v post right
              (subst (λ a. Chain s.next a post) (sym at_pos) r)),
      )
      (Apart-cons p pre post left (Apart-split s.next s.free_list 0 pre post k))

-- `ordered_free` ends within one round more than there are free chunks, and puts the chunk behind
-- the first one of the list, and there in front of the first that is above it.
pub ordered_free-placed :
    (fuel : ℕ) (s : Storage) (p : ℕ) (xs : List ℕ)
    → p ≢ 0
    → Absent p xs
    → Keeps s xs
    → length xs < fuel
    → (s' : Storage) × (ordered_free fuel s p ≡ some s') × Keeps s' (placed p xs)
unfolding ordered_free
ordered_free-placed zero s p xs z n k f = absurd (omega arith)
ordered_free-placed (suc fuel) s p [] z n k f =
    let nonnull : (p == 0) ≡ false = ground arith in
    (linked_at s p free_list_slot, rw (k, nonnull), Keeps-linked_at s p [] [] z n k)
ordered_free-placed (suc fuel) s p (x ∷ xs) z n k f =
    let nonnull : (p == 0) ≡ false = ground arith in
    let pre = x ∷ lower p xs in
    let whole = ap (◌∷◌ x) (sym (lower-upper p xs)) in
    (
      linked_at s p (end_slot free_list_slot pre),
      rw (
        upper_bound_lem xs (suc fuel) s p x free_list_slot (omega arith) k,
        nonnull,
        ordered_free,
      ),
      Keeps-linked_at s p pre (upper p xs) z (subst (Absent p) whole n) (subst (Keeps s) whole k),
    )

-- The addresses ascend.
abbrev pub Above : ℕ → List ℕ → Type 0
Above p [] = Unit
Above p (x ∷ xs) = (p < x) × Above p xs

abbrev pub IsOrdered : List ℕ → Type 0
IsOrdered [] = Unit
IsOrdered (x ∷ xs) = Above x xs × IsOrdered xs

Above-insert : (a p : ℕ) (xs : List ℕ) → a < p → Above a xs → Above a (lower p xs ++ p ∷ upper p xs)
Above-insert a p [] h k = (h, tt)
Above-insert a p (y ∷ ys) h k = elim (Bool-cases (ltb p y)) [
  | inl b ↦ rw b (h, k)
  | inr b ↦ rw b (k.0, Above-insert a p ys h k.1)
]

Above-weaken : (a b : ℕ) (xs : List ℕ) → a < b → Above b xs → Above a xs
Above-weaken a b [] h k = tt
Above-weaken a b (x ∷ xs) h k = (omega arith, Above-weaken a b xs h k.1)

IsOrdered-insert :
    (p : ℕ) (xs : List ℕ) → Absent p xs → IsOrdered xs → IsOrdered (lower p xs ++ p ∷ upper p xs)
IsOrdered-insert p [] n o = (tt, tt)
IsOrdered-insert p (y ∷ ys) n o = elim (Bool-cases (ltb p y)) [
  | inl b ↦ rw b ((ltb→lt p y b, Above-weaken p y ys (ltb→lt p y b) o.0), o)
  | inr b ↦
      let below : y < p = ground (arith, n.0) in
      rw b (Above-insert y p ys below o.0, IsOrdered-insert p ys n.1 o.1)
]

-- Where the chunk belongs behind the first one, `ordered_free` keeps an ordered list ordered.
ordered_free-IsOrdered :
    (fuel : ℕ) (s : Storage) (p x : ℕ) (xs : List ℕ)
    → x < p
    → Absent p xs
    → Keeps s (x ∷ xs)
    → length xs + 1 < fuel
    → IsOrdered (x ∷ xs)
    → (s' : Storage) × (ys : List ℕ) × (ordered_free fuel s p ≡ some s')
      × Keeps s' ys
      × IsOrdered ys
ordered_free-IsOrdered fuel s p x xs h n k f o =
    let (s', e, k') =
      ordered_free-placed fuel s p (x ∷ xs) (omega arith) (omega arith, n) k (omega arith) in
    (s', placed p (x ∷ xs), e, k', (Above-insert x p xs h o.0, IsOrdered-insert p xs n o.1))

-- A chunk below the first one of the list is put behind it all the same: whatever list the storage
-- then keeps is not ordered.
ordered_free_below :
    (fuel : ℕ) (s : Storage) (p x : ℕ) (xs : List ℕ)
    → p < x
    → p ≢ 0
    → Absent p xs
    → Keeps s (x ∷ xs)
    → length xs + 1 < fuel
    → (s' : Storage) × (ys : List ℕ) × (ordered_free fuel s p ≡ some s')
      × Keeps s' ys
      × (¬ (IsOrdered ys))
ordered_free_below fuel s p x xs h z n k f =
    let (s', e, k') = ordered_free-placed fuel s p (x ∷ xs) z (omega arith, n) k (omega arith) in
    (s', placed p (x ∷ xs), e, k', λ o. disorder xs o.0)
  where
    disorder : (xs : List ℕ) → Above x (lower p xs ++ p ∷ upper p xs) → ⊥
    disorder [] a = omega arith
    disorder (y ∷ ys) a = elim (Bool-cases (ltb p y)) [
      | inl b ↦ let c = rw b at a in omega arith
      | inr b ↦ let c = rw b at a in disorder ys c.1
    ]
