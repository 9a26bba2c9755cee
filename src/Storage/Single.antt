-- ===== src/Storage/Single.antt =====
-- include/gpcl/simple_segregated_storage.hpp: `malloc`, `free`, `is_free` and `ordered_free`.
use gpcl.Base.{
  ℕ, zero, suc, ◌<◌, ◌≡◌, ◌≢◌, refl, Bool, true, false, ◌||◌, List, [], ◌∷◌, some, arith, ◌==◌,
  if◌then◌else◌, length,
}
use gpcl.Storage.Chain.{Absent, Chain, Keeps, update_same, Segment-update}
use gpcl.Storage.{Storage, update, malloc, free, is_free, is_free_loop}

free_lem :
    (s : Storage) (chunk : ℕ) (xs : List ℕ)
    → chunk ≢ 0
    → Absent chunk xs
    → Keeps s xs
    → (s' : Storage) × (free s chunk ≡ some s') × Keeps s' (chunk ∷ xs)
unfolding free
free_lem s chunk xs z n k =
    let nonnull : (chunk == 0) ≡ false = ground arith in
    (
      record { next = update s.next chunk s.free_list; free_list = chunk },
      rw nonnull,
      (
        refl,
        z,
        n,
        rw (update_same s.next chunk s.free_list)
            (Segment-update s.next s.free_list 0 chunk s.free_list xs n k),
      ),
    )

malloc_lem :
    (s : Storage) (x : ℕ) (xs : List ℕ)
    → Keeps s (x ∷ xs)
    → (s' : Storage) × (malloc s ≡ some (x, s')) × Keeps s' xs
unfolding malloc
malloc_lem s x xs k =
    let nonnull : (s.free_list == 0) ≡ false = ground arith in
    (record s { free_list = s.next s.free_list }, rw (nonnull, k.0), rw k.0 k.3)

-- A chunk that is freed is the next one allocated, and then the free list is as before: allocation
-- is last in, first out.
malloc-free :
    (s : Storage) (chunk : ℕ) (xs : List ℕ)
    → chunk ≢ 0
    → Absent chunk xs
    → Keeps s xs
    → (s₁ s₂ : Storage) × (free s chunk ≡ some s₁) × (malloc s₁ ≡ some (chunk, s₂)) × Keeps s₂ xs
malloc-free s chunk xs z n k = after (free_lem s chunk xs z n k)
  where
    after :
        ((s' : Storage) × (free s chunk ≡ some s') × Keeps s' (chunk ∷ xs))
        → (s₁ s₂ : Storage) × (free s chunk ≡ some s₁)
          × (malloc s₁ ≡ some (chunk, s₂))
          × Keeps s₂ xs
    after (s₁, e, k₁) = let (s₂, e₂, k₂) = malloc_lem s₁ chunk xs k₁ in (s₁, s₂, e, e₂, k₂)

abbrev pub mem : ℕ → List ℕ → Bool
mem p [] = false
mem p (x ∷ xs) = x == p || mem p xs

is_free_loop_lem :
    (xs : List ℕ) (fuel : ℕ) (s : Storage) (p h : ℕ)
    → length xs < fuel
    → Chain s.next h xs
    → is_free_loop fuel s p h ≡ some (mem p xs)
unfolding is_free_loop
is_free_loop_lem xs zero s p h f c = absurd (omega arith)
is_free_loop_lem [] (suc fuel) s p h f c = rw c
is_free_loop_lem (x ∷ xs) (suc fuel) s p h f c =
    let nonnull : (x == 0) ≡ false = ground (arith, c.1) in
    rw (c.0, nonnull)
      (at_chunk (x == p) (is_free_loop_lem xs fuel s p (s.next x) (omega arith) c.3))
  where
    at_chunk :
        (b : Bool)
        → is_free_loop fuel s p (s.next x) ≡ some (mem p xs)
        → (if b then some true else is_free_loop fuel s p (s.next x)) ≡ some (b || mem p xs)
    at_chunk true ih = refl
    at_chunk false ih = ih

-- `is_free` ends within one round more than there are free chunks, and tells whether the chunk is
-- one of them.
is_free-mem :
    (fuel : ℕ) (s : Storage) (p : ℕ) (xs : List ℕ)
    → Keeps s xs
    → length xs < fuel
    → is_free fuel s p ≡ some (mem p xs)
unfolding is_free
is_free-mem fuel s p xs k f = is_free_loop_lem xs fuel s p s.free_list f k
