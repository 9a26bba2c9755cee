-- ===== src/Pool/Sizes.antt =====
-- include/gpcl/pool.hpp: the sizes of blocks and of arrays.
use gpcl.Base.{
  ℕ, zero, suc, ◌+◌, ◌-◌, ◌*◌, ◌%◌, ◌^◌, ◌≤◌, ◌<◌, ◌≡◌, refl, ◌⊎◌, inl, inr, Bool-cases, some,
  arith, ltb,
}
use native.Mathlib.Nat.{div-add-mod', mod-lt}
use gpcl.Pool.{Pool, enough_size, chunk_count}

-- From a size that is not 0, where no more than 2 ^ 63 bytes are needed, the loop of `request_new_block`
-- ends: the size is enough, and it is the one it began with or less than twice what is needed. The least
-- size, as fuel, is enough.
pub enough_size_lem :
    (fuel sz least : ℕ)
    → 0 < sz
    → 0 < fuel
    → least < sz + fuel
    → least ≤ 2 ^ 63
    → (r : ℕ) × (enough_size fuel sz least ≡ some r) × (least ≤ r) × ((r ≡ sz) ⊎ (r < 2 * least))
unfolding enough_size
enough_size_lem zero sz least h z e b = absurd (omega arith)
enough_size_lem (suc fuel) sz least h z e b = elim (Bool-cases (ltb sz least)) [
  | inl t ↦
      let small : sz < least = ground arith in
      let (r, s, l, o) =
        enough_size_lem fuel (sz * 2 % 2 ^ 64) least (omega arith) (omega arith) (omega arith) b in
      (r, rw t s, l, inr (doubled r o small))
  | inr t ↦ (sz, rw t refl, ground arith, inl refl)
]
  where
    doubled : (r : ℕ) → (r ≡ sz * 2 % 2 ^ 64) ⊎ (r < 2 * least) → sz < least → r < 2 * least
    doubled r (inl s) l = omega arith
    doubled r (inr s) l = s

-- The chunks counted for an array of `n` objects hold it, and one fewer would not, where its size and
-- that of a chunk add up to a size.
chunk_count_bounds :
    (p : Pool) (n : ℕ)
    → 0 < p.chunk_size
    → n * p.requested_size + p.chunk_size < 2 ^ 64
    → (n * p.requested_size ≤ chunk_count p n * p.chunk_size)
      × (chunk_count p n * p.chunk_size < n * p.requested_size + p.chunk_size)
unfolding chunk_count
chunk_count_bounds p n h b =
    let whole : (n * p.requested_size % 2 ^ 64 + p.chunk_size - 1) % 2 ^ 64
        ≡ n * p.requested_size + p.chunk_size - 1 =
      omega arith in
    let e = div-add-mod' (n * p.requested_size + p.chunk_size - 1) p.chunk_size in
    let l = mod-lt (n * p.requested_size + p.chunk_size - 1) h in
    rw whole (omega arith, omega arith)
