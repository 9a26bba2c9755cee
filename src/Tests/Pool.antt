-- ===== src/Tests/Pool.antt =====
-- include/gpcl/pool.hpp at concrete sizes.
use gpcl.Base.{
  ℕ, ◌*◌, ◌+◌, ◌^◌, ◌≤◌, ◌<◌, ◌≡◌, ◌⊎◌, refl, List, [], Option, none, some, arith, true, false,
  Bool,
}
use gpcl.Pool.Sizes.{enough_size_lem}
use gpcl.Pool.{
  Pool, BlockInfo, create, block_info_offset, chunk_count, enough_size, add_block,
  request_new_block, malloc, is_from, is_from_loop,
}
use gpcl.Storage

program : Unit {0}
unfolding create block_info_offset chunk_count enough_size add_block request_new_block malloc
    is_from is_from_loop Storage.add_block Storage.segregate Storage.segregate_loop Storage.malloc
    Storage.empty
program = tt

-- Objects of 12 bytes, in chunks of 24
abbrev twelve : Pool
twelve = record {
  requested_size = 12;
  chunk_size = 24;
  next_size = 2;
  block_list = [];
  storage = record { next = λ a. 0; free_list = 0 };
}

abbrev user_malloc : ℕ → List BlockInfo → Option ℕ
user_malloc sz bs = some 4096

result : Option (ℕ × Pool) → Option (ℕ × Bool × Bool)
unfolding is_from
result none = none
result (some r) = some (r.0, is_from r.1 4120, is_from r.1 4121)

-- The first chunk of a new block of 96 bytes
first_chunk : result (malloc user_malloc 9 false twelve) ≡ some (4096, true, false)
unfolding program result
first_chunk = refl

-- The size wraps around to 0, and no fuel is enough.
never_ends : enough_size 200 48 (2 ^ 63 + 2 ^ 62 + 1) ≡ none
unfolding program
never_ends = refl

enough_size_lem_example :
    (r : ℕ) × (enough_size 57 48 56 ≡ some r) × (56 ≤ r) × ((r ≡ 48) ⊎ (r < 2 * 56))
enough_size_lem_example =
    enough_size_lem 57 48 56 (omega arith) (omega arith) (omega arith) (omega arith)
