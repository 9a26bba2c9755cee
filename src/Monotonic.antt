-- ===== src/Monotonic.antt =====
-- include/gpcl/pmr/monotonic_buffer_resource.hpp and its implementation in
-- include/gpcl/pmr/impl/monotonic_buffer_resource.ipp: memory that is given out front to back.
-- Addresses and sizes are numbers, sizes are of 64 bits and wrap around, and 0 is the null pointer. The resource upstream is an argument,
-- which gives an address for a size and the blocks that it has given already; it may throw.
-- `std::max_align_t` has 32 bytes, aligned to 16, and `block_info` has 24.
pub mod Placement
use gpcl.Base.{
  ℕ, suc, ◌+◌, ◌-◌, ◌*◌, ◌/◌, ◌%◌, ◌^◌, Bool, true, false, List, [], ◌∷◌, Option, none, some, ltb,
  if◌then◌else◌,
}
use gpcl.Base.Results.{Result, ok, err, ◌>>=◌}

pub record Block : Type 0 where
  pub ptr : ℕ
  pub size : ℕ

-- `buffer_` is what is left of the last block; `block_list_` is the blocks, the last one first.
pub record Monotonic : Type 0 where
  pub data_ : ℕ
  pub size_ : ℕ
  pub next_buffer_bytes : ℕ
  pub block_list : List Block

pub data Error : Type 0 where
  bad_alloc : Error

-- How far the address is from the next multiple of the alignment
abbrev pub offset : ℕ → ℕ → ℕ
offset address alignment = (alignment - address % alignment) % alignment

-- `buffer_ += n`, for an `n` within the buffer
abbrev pub advance : Monotonic → ℕ → Monotonic
advance m n = record m { data_ = m.data_ + n; size_ = m.size_ - n }

-- The pointer, or a null pointer, where the buffer may have been moved on to the alignment
unfoldable pub alloc_from_buffer : Monotonic → ℕ → ℕ → Option ℕ × Monotonic
alloc_from_buffer m bytes alignment =
    let off = offset m.data_ alignment in
    if ltb m.size_ off
    then (none, m)
    else if ltb (m.size_ - off) bytes
    then (none, advance m off)
    else (some (m.data_ + off), advance (advance m off) bytes)

-- `next_buffer_bytes_` is made enough for the request.
abbrev pub enlarged : Monotonic → ℕ → Monotonic
enlarged m bytes = record m {
  next_buffer_bytes =
      if ltb m.next_buffer_bytes bytes
      then (bytes + 32 - 1) % 2 ^ 64 / 32 * 32
      else m.next_buffer_bytes;
}

module _ (upstream : ℕ → List Block → Result Error ℕ) where
  unfoldable pub request_from_upstream : Monotonic → Result Error Monotonic
  request_from_upstream m = do
    p ← upstream ((m.next_buffer_bytes + 24) % 2 ^ 64) m.block_list
    ok (record {
      data_ = p;
      size_ = m.next_buffer_bytes;
      next_buffer_bytes = m.next_buffer_bytes * 2 % 2 ^ 64;
      block_list = (record { ptr = p; size = m.next_buffer_bytes }) ∷ m.block_list;
    })

  unfoldable pub do_allocate : Monotonic → ℕ → ℕ → Result Error (Option ℕ × Monotonic)
  unfolding alloc_from_buffer request_from_upstream
  do_allocate m bytes alignment =
      let first = alloc_from_buffer m bytes alignment in
      elim first.0 [
        | some p ↦ ok (some p, first.1)
        | none ↦ request_from_upstream (enlarged first.1 bytes) >>= λ m'.
            ok (alloc_from_buffer m' bytes alignment)
      ]

-- `release` gives every block back, with the place for its `block_info`. It leaves `buffer_` alone.
unfoldable pub release : Monotonic → List Block × Monotonic
release m = (given_back m.block_list, record m { block_list = [] })
  where
    given_back : List Block → List Block
    given_back [] = []
    given_back (b ∷ bs) = record b { size = (b.size + 24) % 2 ^ 64 } ∷ given_back bs
