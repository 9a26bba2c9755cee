-- ===== src/Storage/Segregate.antt =====
-- include/gpcl/simple_segregated_storage.hpp: `segregate`, `add_block` and `free_n`.
use gpcl.Base.{
  ℕ, zero, suc, ◌+◌, ◌-◌, ◌*◌, ◌≤◌, ◌<◌, ◌≡◌, ◌⊎◌, inr, refl, ◌∙◌, true, false, List, [], ◌∷◌, ◌++◌,
  some, arith, ltb, lt→ltb, ◌==◌,
}
use gpcl.Storage.Chain.{Absent, Chain, Keeps, update_same, update_other, Segment-update}
use gpcl.Storage.{Storage, update, segregate_loop, add_block, free_n}

-- `n` chunks of size `p` from `b` on
abbrev pub chunks : ℕ → ℕ → ℕ → List ℕ
chunks b p zero = []
chunks b p (suc n) = b ∷ chunks (b + p) p n

-- No chunk of the list lies within `sz` bytes from `b` on.
abbrev pub Outside : ℕ → ℕ → List ℕ → Type 0
Outside b sz [] = Unit
Outside b sz (x ∷ xs) = ((x < b) ⊎ (b + sz ≤ x)) × Outside b sz xs

-- The block of `sz` bytes makes `suc n` chunks: the last one has its end in the block, and behind it
-- there is room for at most one more.
pub record Cuts (sz p n : ℕ) : Type 0 where
  pub positive : 0 < p
  pub fits : (n ≡ 0) × (p ≤ sz) ⊎ (suc n * p < sz)
  pub tight : sz ≤ suc n * p + p

Absent-chunks : (a b p n : ℕ) (xs : List ℕ) → a < b → Absent a xs → Absent a (chunks b p n ++ xs)
Absent-chunks a b p zero xs h k = k
Absent-chunks a b p (suc n) xs h k = (omega arith, Absent-chunks a (b + p) p n xs (omega arith) k)

Absent-Outside : (a b sz : ℕ) (xs : List ℕ) → b ≤ a → a < b + sz → Outside b sz xs → Absent a xs
Absent-Outside a b sz [] h k o = tt
Absent-Outside a b sz (x ∷ xs) h k o = (omega arith, Absent-Outside a b sz xs h k o.1)

-- What the loop makes of memory: the chunks in front of `xs`, and nothing changed below `chunk`.
record Linked (next next' : ℕ → ℕ) (chunk p n : ℕ) (xs : List ℕ) : Type 0 where
  linked : Chain next' chunk (chunks chunk p (suc n) ++ xs)
  below : (b : ℕ) → b < chunk → next' b ≡ next b

segregate_loop_lem :
    (n fuel : ℕ) (next : ℕ → ℕ) (chunk p block_end end : ℕ) (xs : List ℕ)
    → n < fuel
    → 0 < p
    → 0 < chunk
    → ((n ≡ 0) ⊎ (chunk + n * p < block_end))
    → block_end ≤ chunk + n * p + p
    → ((a : ℕ) → chunk ≤ a → a ≤ chunk + n * p → Absent a xs)
    → Chain next end xs
    → (next' : ℕ → ℕ) × (segregate_loop fuel next chunk p block_end end ≡ some next')
      × Linked next next' chunk p n xs
unfolding segregate_loop
segregate_loop_lem n zero next chunk p block_end end xs hf hp hc fits tight apart c =
    absurd (omega arith)
segregate_loop_lem zero (suc fuel) next chunk p block_end end xs hf hp hc fits tight apart c =
    let stop : ltb (chunk + p) block_end ≡ false = ground arith in
    let alone = apart chunk (omega arith) (omega arith) in
    (
      update next chunk end,
      rw stop,
      record {
        linked = (
          refl,
          omega arith,
          alone,
          rw (update_same next chunk end) (Segment-update next end 0 chunk end xs alone c),
        );
        below = λ b h. update_other next chunk end b (omega arith);
      },
    )
segregate_loop_lem (suc n) (suc fuel) next chunk p block_end end xs hf hp hc fits tight apart c =
    let onward : ltb (chunk + p) block_end ≡ true = lt→ltb _ _ (grind arith) in
    let alone = apart chunk (omega arith) (grind arith) in
    let (next', e, l) =
      segregate_loop_lem n fuel (update next chunk (chunk + p)) (chunk + p) p block_end end xs
        (omega arith) hp (omega arith) (inr (grind arith)) (grind arith)
        (λ a h k. apart a (omega arith) (grind arith))
        (Segment-update next end 0 chunk (chunk + p) xs alone c) in
    (
      next',
      rw onward e,
      record {
        linked = (
          refl,
          omega arith,
          Absent-chunks chunk (chunk + p) p (suc n) xs (omega arith) alone,
          rw (l.below chunk (omega arith) ∙ update_same next chunk (chunk + p)) l.linked,
        );
        below =
            λ b h. l.below b (omega arith) ∙ update_other next chunk (chunk + p) b (omega arith);
      },
    )

-- A block of `sz` bytes puts `suc n` chunks in front of the free list, where the last of them ends
-- before the end of the block if there is more than one, with room for at most one more behind it.
-- So a block that is an exact multiple of the chunk size, of two chunks or more, loses its last one.
add_block_lem :
    (s : Storage) (block sz p n : ℕ) (xs : List ℕ)
    → 0 < block
    → Cuts sz p n
    → Outside block sz xs
    → Keeps s xs
    → (s' : Storage) × (add_block s block sz p ≡ some s') × Keeps s' (chunks block p (suc n) ++ xs)
unfolding add_block
add_block_lem s block sz p n xs hb cut out k = finish (
    segregate_loop_lem n (suc sz) s.next block p (block + sz - p) s.free_list xs fuel cut.positive
      hb start (grind (arith, room))
      (λ a h h'. Absent-Outside a block sz xs h (grind (arith, room)) out) k)
  where
    room : n * p + p ≤ sz
    room = grind arith

    fuel : n < suc sz
    fuel = grind (arith, room)

    start : (n ≡ 0) ⊎ (block + n * p < block + sz - p)
    start = grind arith

    nonnull : (block == 0) ≡ false
    nonnull = ground arith

    enough : ltb sz p ≡ false
    enough = ground (arith, room)

    finish :
        ((next' : ℕ → ℕ) × (segregate_loop (suc sz) s.next block p (block + sz - p) s.free_list
            ≡ some next')
          × Linked s.next next' block p n xs)
        → (s' : Storage) × (add_block s block sz p ≡ some s')
          × Keeps s' (chunks block p (suc n) ++ xs)
    finish (next', e, l) =
        (record { next = next'; free_list = block }, rw (nonnull, enough, e, add_block), l.linked)

-- Freeing an array of two chunks or more, which `malloc_n` gave as one run, brings all but its last
-- chunk back to the free list.
free_n_lem :
    (s : Storage) (chunk p m : ℕ) (xs : List ℕ)
    → 0 < chunk
    → 0 < p
    → Outside chunk (p * suc (suc m)) xs
    → Keeps s xs
    → (s' : Storage) × (free_n s chunk p (suc (suc m)) ≡ some s')
      × Keeps s' (chunks chunk p (suc m) ++ xs)
unfolding free_n
free_n_lem s chunk p m xs hc hp out k =
    add_block_lem s chunk (p * suc (suc m)) p m xs hc
      (record { positive = hp; fits = inr (grind arith); tight = grind arith }) out k
