-- ===== src/Pool.antt =====
-- include/gpcl/pool.hpp: `pool`, blocks of memory cut into chunks by the segregated storage.
-- The allocator of blocks is an argument: the address for a size and the blocks there are, or none for
-- a null pointer. The list of blocks, which the source links through the ends of the blocks, is a list
-- here. `block_info` has 16 bytes, aligned to 8; pointers and sizes have 8. The mutex is left out: each
-- operation runs alone. A failed assert is `none`; an operation gives its result and the pool.
pub mod Sizes
use gpcl.Base.{
  ℕ, zero, suc, ◌+◌, ◌-◌, ◌*◌, ◌/◌, ◌%◌, ◌^◌, Bool, true, false, not, List, [], ◌∷◌, Option, none,
  some, ltb, leb, ◌==◌, ◌&&◌, if◌then◌else◌, length,
}
use gpcl.Storage

pub record BlockInfo : Type 0 where
  pub ptr : ℕ
  pub size : ℕ

pub record Pool : Type 0 where
  pub requested_size : ℕ
  pub chunk_size : ℕ
  pub next_size : ℕ
  pub block_list : List BlockInfo
  pub storage : Storage.Storage

-- `std::lcm` of a size and 8, the least common multiple of the sizes of a pointer and of a size
abbrev pub lcm_eight : ℕ → ℕ
lcm_eight n =
    if n % 8 == 0 then n else if n % 4 == 0 then n * 2 else if n % 2 == 0 then n * 4 else n * 8

unfoldable pub create : ℕ → Option Pool
create requested =
    if requested == 0
    then none
    else some (record {
      requested_size = requested;
      chunk_size = lcm_eight requested;
      next_size = 32;
      block_list = [];
      storage = record { next = λ a. 0; free_list = 0 };
    })

unfoldable pub block_info_offset : ℕ → ℕ
block_info_offset block_size = (block_size - 16) / 8 * 8

unfoldable pub chunk_count : Pool → ℕ → ℕ
chunk_count p n =
    let array_size = n * p.requested_size % 2 ^ 64 in
    (array_size + p.chunk_size - 1) % 2 ^ 64 / p.chunk_size

-- `while (sz < min_size + sizeof(block_info) * 2) sz *= 2;`, on `std::size_t`: beyond 2 ^ 63 the size wraps around to 0, and the loop never ends.
unfoldable pub enough_size : ℕ → ℕ → ℕ → Option ℕ
enough_size zero sz least = none
enough_size (suc fuel) sz least =
    let doubled = enough_size fuel (sz * 2 % 2 ^ 64) least in
    if ltb sz least then doubled else some sz

unfoldable pub add_block : ℕ → Pool → ℕ → ℕ → Bool → Option Pool
unfolding Storage.add_block Storage.add_ordered_block block_info_offset
add_block fuel p ptr sz ordered =
    elim (if ordered
      then Storage.add_ordered_block fuel p.storage ptr (block_info_offset sz) p.chunk_size
      else Storage.add_block p.storage ptr (block_info_offset sz) p.chunk_size) [
        | none ↦ none
        | some s ↦ some (record p {
          storage = s;
          block_list = (record { ptr = ptr; size = sz }) ∷ p.block_list;
        })
      ]

module _ (user_malloc : ℕ → List BlockInfo → Option ℕ) (fuel : ℕ) where
  unfoldable pub request_new_block : Pool → ℕ → Bool → Option (Bool × Pool)
  unfolding enough_size add_block
  request_new_block p min_size ordered =
      let least = (min_size + 32) % 2 ^ 64 in
      elim (enough_size (suc least) (p.next_size * p.chunk_size % 2 ^ 64) least) [
        | none ↦ none
        | some sz ↦ elim (user_malloc sz p.block_list) [
          | none ↦ some (false, record p { next_size = p.next_size * 2 % 2 ^ 64 })
          | some block ↦
              elim (add_block fuel (record p { next_size = p.next_size * 2 % 2 ^ 64 }) block sz
                ordered) [
                  | none ↦ none
                  | some p' ↦ if Storage.empty p'.storage then none else some (true, p')
                ]
        ]
      ]

  abbrev pub take_chunk : Pool → Option (ℕ × Pool)
  take_chunk p = elim (Storage.malloc p.storage) [
    | none ↦ none
    | some r ↦ some (r.0, record p { storage = r.1 })
  ]

  -- `malloc` and `ordered_malloc`; a null pointer is 0.
  unfoldable pub malloc : Bool → Pool → Option (ℕ × Pool)
  unfolding request_new_block Storage.empty Storage.malloc
  malloc ordered p =
      if Storage.empty p.storage
      then elim (request_new_block p p.chunk_size ordered) [
        | none ↦ none
        | some r ↦ if r.0 then take_chunk r.1 else some (0, r.1)
      ]
      else take_chunk p

  abbrev pub take_chunks : Pool → ℕ → Option (ℕ × Pool)
  take_chunks p count = elim (Storage.malloc_n fuel p.storage count p.chunk_size) [
    | none ↦ none
    | some r ↦ some (r.0, record p { storage = r.1 })
  ]

  -- `ordered_malloc(n)`: whether the new block was granted is not tested.
  unfoldable pub ordered_malloc : Pool → ℕ → Option (ℕ × Pool)
  unfolding request_new_block chunk_count Storage.malloc_n
  ordered_malloc p n = if n == 0 then none else elim (take_chunks p (chunk_count p n)) [
    | none ↦ none
    | some r ↦
        if not (r.0 == 0)
        then some r
        else elim (request_new_block r.1 (chunk_count p n * p.chunk_size % 2 ^ 64) true) [
          | none ↦ none
          | some q ↦ take_chunks q.1 (chunk_count p n)
        ]
  ]

abbrev pub with_storage : Pool → Option Storage.Storage → Option Pool
with_storage p none = none
with_storage p (some s) = some (record p { storage = s })

unfoldable pub free : Pool → ℕ → Option Pool
unfolding Storage.free
free p ptr = with_storage p (Storage.free p.storage ptr)

unfoldable pub ordered_free : ℕ → Pool → ℕ → Option Pool
unfolding Storage.ordered_free
ordered_free fuel p ptr = with_storage p (Storage.ordered_free fuel p.storage ptr)

unfoldable pub ordered_free_n : ℕ → Pool → ℕ → ℕ → Option Pool
unfolding Storage.ordered_free_n chunk_count
ordered_free_n fuel p ptr n =
    with_storage p (Storage.ordered_free_n fuel p.storage ptr (chunk_count p n) p.chunk_size)

unfoldable pub set_next_size : Pool → ℕ → Option Pool
set_next_size p n = if n == 0 then none else some (record p { next_size = n })

unfoldable pub is_from_loop : ℕ → ℕ → List BlockInfo → Bool
unfolding block_info_offset
is_from_loop chunk_size p [] = false
is_from_loop chunk_size p (b ∷ bs) =
    let later = is_from_loop chunk_size p bs in
    if leb b.ptr p && ltb p (b.ptr + block_info_offset b.size)
    then (p - b.ptr) % chunk_size == 0
    else later

unfoldable pub is_from : Pool → ℕ → Bool
unfolding is_from_loop
is_from pool p = is_from_loop pool.chunk_size p pool.block_list
