-- ===== src/Storage/Chain.antt =====
-- The free list of include/gpcl/simple_segregated_storage.hpp as a list of chunks.
use gpcl.Base.{ℕ, ◌≡◌, ◌≢◌, refl, ◌∙◌, sym, List, [], ◌∷◌, ◌++◌, arith}
pub use gpcl.Base.Addresses.{Absent, Absent-append, Absent-left, Absent-right, Apart}
use gpcl.Storage.{Storage, Slot, free_list_slot, next_chunk, update, read, write}

-- From the pointer `h` the memory holds the chunks `xs`, all different and none null, up to `e`.
abbrev pub Segment : (ℕ → ℕ) → ℕ → List ℕ → ℕ → Type 0
Segment next h [] e = h ≡ e
Segment next h (x ∷ xs) e = (h ≡ x) × (x ≢ 0) × Absent x xs × Segment next (next x) xs e

abbrev pub Chain : (ℕ → ℕ) → ℕ → List ℕ → Type 0
Chain next h xs = Segment next h xs 0

-- The storage keeps the free chunks `xs`, in this order.
abbrev pub Keeps : Storage → List ℕ → Type 0
Keeps s xs = Chain s.next s.free_list xs

-- The slot behind the chunks `xs`, where `slot` is the one before them.
abbrev pub end_slot : Slot → List ℕ → Slot
end_slot slot [] = slot
end_slot slot (x ∷ xs) = end_slot (next_chunk x) xs

pub update_same : (f : ℕ → ℕ) (a v : ℕ) → update f a v a ≡ v
update_same f a v = ground arith

pub update_other : (f : ℕ → ℕ) (a v b : ℕ) → a ≢ b → update f a v b ≡ f b
update_other f a v b h = ground arith

-- A write to an address outside the list leaves the list alone.
pub Segment-update :
    (next : ℕ → ℕ) (h e a v : ℕ) (xs : List ℕ)
    → Absent a xs
    → Segment next h xs e
    → Segment (update next a v) h xs e
Segment-update next h e a v [] n c = c
Segment-update next h e a v (x ∷ xs) n c = (
  c.0,
  c.1,
  c.2,
  rw (update_other next a v x n.0) (Segment-update next (next x) e a v xs n.1 c.3),
)

-- A list in two pieces
pub Segment-split :
    (next : ℕ → ℕ) (h e : ℕ) (xs ys : List ℕ)
    → Segment next h (xs ++ ys) e
    → (m : ℕ) × Segment next h xs m × Segment next m ys e
Segment-split next h e [] ys c = (h, refl, c)
Segment-split next h e (x ∷ xs) ys c =
    let (m, l, r) = Segment-split next (next x) e xs ys c.3 in
    (m, (c.0, c.1, Absent-left x xs ys c.2, l), r)

-- The pointer behind the first piece is what its end slot holds.
pub read_end :
    (s : Storage) (h e : ℕ) (slot : Slot) (xs : List ℕ)
    → read s slot ≡ h
    → Segment s.next h xs e
    → read s (end_slot slot xs) ≡ e
read_end s h e slot [] r c = r ∙ c
read_end s h e slot (x ∷ xs) r c = read_end s (s.next x) e (next_chunk x) xs refl c.3

-- A write behind `q ∷ xs` changes no chunk outside.
write_end_other :
    (s : Storage) (q v b : ℕ) (xs : List ℕ)
    → Absent b (q ∷ xs)
    → (write s (end_slot (next_chunk q) xs) v).next b ≡ s.next b
write_end_other s q v b [] n = update_other s.next q v b (λ e. n.0 (sym e))
write_end_other s q v b (x ∷ xs) n = write_end_other s x v b xs n.1

-- What is written behind the chunks `q ∷ xs` becomes the rest of the list.
Segment-write :
    (s : Storage) (q v m : ℕ) (xs ys : List ℕ)
    → Absent q xs
    → Segment s.next (s.next q) xs m
    → Chain s.next v ys
    → Apart (q ∷ xs) ys
    → Chain
        (write s (end_slot (next_chunk q) xs) v).next
        ((write s (end_slot (next_chunk q) xs) v).next q)
        (xs ++ ys)
Segment-write s q v m [] ys n c d a =
    rw (update_same s.next q v) (Segment-update s.next v 0 q v ys a.0 d)
Segment-write s q v m (x ∷ xs) ys n c d a = (
  write_end_other s x v q xs n ∙ c.0,
  c.1,
  Absent-append x xs ys c.2 a.1.0,
  Segment-write s x v m xs ys c.2 c.3 d a.1,
)

pub Keeps-write :
    (s : Storage) (v m : ℕ) (xs ys : List ℕ)
    → Segment s.next s.free_list xs m
    → Chain s.next v ys
    → Apart xs ys
    → Keeps (write s (end_slot free_list_slot xs) v) (xs ++ ys)
Keeps-write s v m [] ys c d a = d
Keeps-write s v m (x ∷ xs) ys c d a = (
  free_list_same x xs ∙ c.0,
  c.1,
  Absent-append x xs ys c.2 a.0,
  Segment-write s x v m xs ys c.2 c.3 d a,
)
  where
    free_list_same :
        (x : ℕ) (xs : List ℕ) → (write s (end_slot (next_chunk x) xs) v).free_list ≡ s.free_list
    free_list_same x [] = refl
    free_list_same x (y ∷ xs) = free_list_same y xs
