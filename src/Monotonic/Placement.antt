-- ===== src/Monotonic/Placement.antt =====
-- include/gpcl/pmr/impl/monotonic_buffer_resource.ipp: where an allocation is placed.
use gpcl.Base.{
  ℕ, ◌+◌, ◌-◌, ◌*◌, ◌%◌, ◌^◌, ◌≤◌, ◌<◌, ◌≡◌, refl, ap, sym, subst, ◌∙◌, ◌⊎◌, inl, inr, false,
  Bool-cases, List, [], ◌∷◌, Option, none, some, arith, ltb,
}
use gpcl.Base.Results.{Result, ok, err, ◌>>=◌}
use gpcl.Monotonic.{
  Block, Monotonic, Error, offset, advance, alloc_from_buffer, request_from_upstream, enlarged,
  do_allocate, release,
}

-- The alignments of types without extended alignment
abbrev pub Fundamental : ℕ → Type 0
Fundamental a = (a ≡ 1) ⊎ (a ≡ 2) ⊎ (a ≡ 4) ⊎ (a ≡ 8) ⊎ (a ≡ 16)

offset_lem : (d a : ℕ) → Fundamental a → ((d + offset d a) % a ≡ 0) × (offset d a < 16)
offset_lem d a (inl e) = rw e (omega arith, omega arith)
offset_lem d a (inr (inl e)) = rw e (omega arith, omega arith)
offset_lem d a (inr (inr (inl e))) = rw e (omega arith, omega arith)
offset_lem d a (inr (inr (inr (inl e)))) = rw e (omega arith, omega arith)
offset_lem d a (inr (inr (inr (inr e)))) = rw e (omega arith, omega arith)

-- `p` is aligned, and the bytes from it on are cut out of the front of the buffer: they lie in it, and
-- what is left is behind them, up to the same end.
pub record Placed (m m' : Monotonic) (p bytes alignment : ℕ) : Type 0 where
  pub aligned : p % alignment ≡ 0
  pub from_start : m.data_ ≤ p
  pub behind : m'.data_ ≡ p + bytes
  pub same_end : m'.data_ + m'.size_ ≡ m.data_ + m.size_

abbrev pub PlacedIn : Monotonic → ℕ → ℕ → Option ℕ × Monotonic → Type 0
PlacedIn m bytes alignment (none, m') = m.size_ < bytes + 16
PlacedIn m bytes alignment (some p, m') = Placed m m' p bytes alignment

alloc_from_buffer-PlacedIn :
    (m : Monotonic) (bytes alignment : ℕ)
    → Fundamental alignment
    → PlacedIn m bytes alignment (alloc_from_buffer m bytes alignment)
unfolding alloc_from_buffer
alloc_from_buffer-PlacedIn m bytes alignment f =
    let (aligned, small) = offset_lem m.data_ alignment f in
    elim (Bool-cases (ltb m.size_ (offset m.data_ alignment))) [
      | inl t ↦ rw t (ground arith)
      | inr t ↦ elim (Bool-cases (ltb (m.size_ - offset m.data_ alignment) bytes)) [
        | inl u ↦ rw (t, u) (ground arith)
        | inr u ↦
            rw (t, u)
              (record {
                aligned = aligned;
                from_start = omega arith;
                behind = refl;
                same_end = ground arith;
              })
      ]
    ]

offset-aligned : (d a : ℕ) → d % 16 ≡ 0 → Fundamental a → offset d a ≡ 0
offset-aligned d a h (inl e) = rw e (omega arith)
offset-aligned d a h (inr (inl e)) = rw e (omega arith)
offset-aligned d a h (inr (inr (inl e))) = rw e (omega arith)
offset-aligned d a h (inr (inr (inr (inl e)))) = rw e (omega arith)
offset-aligned d a h (inr (inr (inr (inr e)))) = rw e (omega arith)

-- At the start of a block that is aligned and big enough an allocation succeeds.
alloc_from_buffer-fresh :
    (m : Monotonic) (bytes alignment : ℕ)
    → m.data_ % 16 ≡ 0
    → bytes ≤ m.size_
    → Fundamental alignment
    → alloc_from_buffer m bytes alignment ≡ (some (m.data_ + 0), advance (advance m 0) bytes)
unfolding alloc_from_buffer
alloc_from_buffer-fresh m bytes alignment h b f =
    let none_off : offset m.data_ alignment ≡ 0 = offset-aligned m.data_ alignment h f in
    let fits : ltb m.size_ 0 ≡ false = ground arith in
    let holds : ltb (m.size_ - 0) bytes ≡ false = ground arith in rw (none_off, fits, holds) refl

-- The blocks do not matter for the pointer.
alloc_from_buffer-same :
    (m : Monotonic) (bs : List Block) (bytes alignment : ℕ)
    → (alloc_from_buffer (record m { block_list = bs }) bytes alignment).0
      ≡ (alloc_from_buffer m bytes alignment).0
unfolding alloc_from_buffer
alloc_from_buffer-same m bs bytes alignment =
    elim (Bool-cases (ltb m.size_ (offset m.data_ alignment))) [
      | inl t ↦ rw t refl
      | inr t ↦ elim (Bool-cases (ltb (m.size_ - offset m.data_ alignment) bytes)) [
        | inl u ↦ rw (t, u) refl
        | inr u ↦ rw (t, u) refl
      ]
    ]

-- The buffer of a block of which nothing is given out
abbrev pub fresh : Block → List Block → ℕ → Monotonic
fresh b bs next = record {
  data_ = b.ptr;
  size_ = b.size;
  next_buffer_bytes = next;
  block_list = bs;
}

module _ (upstream : ℕ → List Block → Result Error ℕ) where
  -- Placed in the buffer, with the same blocks, or in a new block, for which upstream has been asked
  -- with the place for a `block_info`; an error is one of upstream.
  abbrev pub Allocated : Monotonic → ℕ → ℕ → Result Error (Option ℕ × Monotonic) → Type 0
  Allocated m bytes alignment (err e) = (n : ℕ) × (bs : List Block) × (upstream n bs ≡ err e)
  Allocated m bytes alignment (ok (none, m')) = ⊥
  Allocated m bytes alignment (ok (some p, m')) =
      (Placed m m' p bytes alignment × (m'.block_list ≡ m.block_list))
      ⊎ ((b : Block) × Placed (fresh b m.block_list 0) m' p bytes alignment
          × (m'.block_list ≡ b ∷ m.block_list)
          × (upstream (b.size + 24) m.block_list ≡ ok b.ptr))

  -- The addresses that upstream gives are aligned as it promises without a request.
  abbrev pub GivesAligned : Type 0
  GivesAligned = (n : ℕ) (bs : List Block) (p : ℕ) → upstream n bs ≡ ok p → p % 16 ≡ 0

  from_new_block :
      (m : Monotonic) (bytes alignment n : ℕ) (bs : List Block) (r : Result Error ℕ)
      → upstream ((n + 24) % 2 ^ 64) bs ≡ r
      → n + 24 < 2 ^ 64
      → bs ≡ m.block_list
      → bytes ≤ n
      → GivesAligned
      → Fundamental alignment
      → Allocated m bytes alignment (
          (r >>= λ p. ok (record {
            data_ = p;
            size_ = n;
            next_buffer_bytes = n * 2 % 2 ^ 64;
            block_list = (record { ptr = p; size = n }) ∷ bs;
          }))
          >>= λ m'. ok (alloc_from_buffer m' bytes alignment))
  from_new_block m bytes alignment n bs (err e) u w s h g f = ((n + 24) % 2 ^ 64, bs, u)
  from_new_block m bytes alignment n bs (ok p) u w s h g f =
      let b : Block = record { ptr = p; size = n } in
      let a = g ((n + 24) % 2 ^ 64) bs p u in
      let asked : (n + 24) % 2 ^ 64 ≡ n + 24 = omega arith in
      let new : Monotonic = fresh b (b ∷ bs) (n * 2 % 2 ^ 64) in
      let at : (p + 0) % alignment ≡ 0 =
        subst (λ o. (p + o) % alignment ≡ 0) (offset-aligned p alignment a f)
          (offset_lem p alignment f).0 in
      subst (λ r. Allocated m bytes alignment (ok r))
        (sym (alloc_from_buffer-fresh new bytes alignment a h f))
        (inr (
          b,
          record { aligned = at; from_start = omega arith; behind = refl; same_end = omega arith },
          ap (◌∷◌ b) s,
          subst (λ k. upstream k m.block_list ≡ ok p) asked
              (subst (λ l. upstream ((n + 24) % 2 ^ 64) l ≡ ok p) s u),
        ))

  enough :
      (m : Monotonic) (bytes : ℕ)
      → bytes + 55 < 2 ^ 64
      → m.next_buffer_bytes + 24 < 2 ^ 64
      → (bytes ≤ (enlarged m bytes).next_buffer_bytes)
        × ((enlarged m bytes).next_buffer_bytes + 24 < 2 ^ 64)
  enough m bytes h k = elim (Bool-cases (ltb m.next_buffer_bytes bytes)) [
    | inl t ↦ rw t (omega arith, omega arith)
    | inr t ↦ rw t (ground arith, k)
  ]

  alloc_from_buffer-block_list :
      (m : Monotonic) (bytes alignment : ℕ)
      → ((alloc_from_buffer m bytes alignment).1.block_list ≡ m.block_list)
        × ((alloc_from_buffer m bytes alignment).1.next_buffer_bytes ≡ m.next_buffer_bytes)
  unfolding alloc_from_buffer
  alloc_from_buffer-block_list m bytes alignment =
      elim (Bool-cases (ltb m.size_ (offset m.data_ alignment))) [
        | inl t ↦ rw t (refl, refl)
        | inr t ↦ elim (Bool-cases (ltb (m.size_ - offset m.data_ alignment) bytes)) [
          | inl u ↦ rw (t, u) (refl, refl)
          | inr u ↦ rw (t, u) (refl, refl)
        ]
      ]

  -- `do_allocate` gives aligned memory for every request of an alignment of at most 16: it lies in the
  -- front of the buffer that is left, or of a new block of upstream, and what is left begins behind it, so
  -- that no two allocations from one block overlap; or it throws what upstream throws. It is so where
  -- upstream gives addresses that are aligned to 16, and neither the bytes nor the size of the next block
  -- are within 55 and 24 of 2 ^ 64.
  pub do_allocate-Allocated :
      (m : Monotonic) (bytes alignment : ℕ)
      → Fundamental alignment
      → GivesAligned
      → bytes + 55 < 2 ^ 64
      → m.next_buffer_bytes + 24 < 2 ^ 64
      → Allocated m bytes alignment (do_allocate upstream m bytes alignment)
  unfolding do_allocate request_from_upstream
  do_allocate-Allocated m bytes alignment f g l k =
      from_first (alloc_from_buffer m bytes alignment).0 (alloc_from_buffer m bytes alignment).1
        (alloc_from_buffer-block_list m bytes alignment)
        (alloc_from_buffer-PlacedIn m bytes alignment f)
    where
      from_first :
          (q : Option ℕ) (m' : Monotonic)
          → (m'.block_list ≡ m.block_list) × (m'.next_buffer_bytes ≡ m.next_buffer_bytes)
          → PlacedIn m bytes alignment (q, m')
          → Allocated m bytes alignment (elim q [
            | some p ↦ ok (some p, m')
            | none ↦ request_from_upstream upstream (enlarged m' bytes) >>= λ m″.
                ok (alloc_from_buffer m″ bytes alignment)
          ])
      from_first (some p) m' s h = inl (h, s.0)
      from_first none m' s h =
          let (fits, asked) = enough m' bytes l (omega (arith, s.1)) in
          from_new_block m bytes alignment (enlarged m' bytes).next_buffer_bytes m'.block_list
            (upstream (((enlarged m' bytes).next_buffer_bytes + 24) % 2 ^ 64) m'.block_list) refl
            asked s.0 fits g f

  -- `release` gives all blocks back and leaves the buffer pointing into the last one: a request that
  -- fits in it is served from there without a block.
  release-dangling :
      (m : Monotonic) (bytes alignment p : ℕ)
      → (alloc_from_buffer m bytes alignment).0 ≡ some p
      → (m' : Monotonic) × (do_allocate upstream (release m).1 bytes alignment ≡ ok (some p, m'))
        × (m'.block_list ≡ [])
  unfolding do_allocate release
  release-dangling m bytes alignment p e =
      let empty : Monotonic = record m { block_list = [] } in
      let after = (alloc_from_buffer empty bytes alignment).1 in
      (
        after,
        ap
            (λ q. (elim q as (λ x. Result Error (Option ℕ × Monotonic)) [
              | some p ↦ ok (some p, after)
              | none ↦ request_from_upstream upstream (enlarged after bytes) >>= λ m'.
                  ok (alloc_from_buffer m' bytes alignment)
            ]))
            (alloc_from_buffer-same m [] bytes alignment ∙ e),
        (alloc_from_buffer-block_list empty bytes alignment).0,
      )
