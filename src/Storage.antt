-- ===== src/Storage.antt =====
-- include/gpcl/simple_segregated_storage.hpp: a free list threaded through the free chunks.
-- Memory is the pointer that stands at each address; 0 is `nullptr`. A `void_pointer &` is a `Slot`:
-- the member `free_list_` or the pointer in a chunk. `GPCL_ASSERT` and a read through a null pointer
-- are `none`. Loops over the list take fuel.
pub mod Chain
pub mod Segregate
pub mod Single
pub mod Ordered
pub mod Runs
use gpcl.Base.{
  ℕ, zero, suc, ◌+◌, ◌-◌, ◌*◌, Bool, true, false, Option, none, some, ltb, leb, ◌==◌, if◌then◌else◌,
  not,
}

pub record Storage : Type 0 where
  pub next : ℕ → ℕ
  pub free_list : ℕ

pub data Slot : Type 0 where
  free_list_slot : Slot
  next_chunk : ℕ → Slot

abbrev pub update : (ℕ → ℕ) → ℕ → ℕ → ℕ → ℕ
update f a v b = if b == a then v else f b

abbrev pub read : Storage → Slot → ℕ
read s free_list_slot = s.free_list
read s (next_chunk p) = s.next p

abbrev pub write : Storage → Slot → ℕ → Storage
write s free_list_slot v = record s { free_list = v }
write s (next_chunk p) v = record s { next = update s.next p v }

-- `segregate`: the loop links chunk to chunk, and the last one to `end`.
unfoldable pub segregate_loop : ℕ → (ℕ → ℕ) → ℕ → ℕ → ℕ → ℕ → Option (ℕ → ℕ)
segregate_loop zero next chunk partition_sz block_end end = none
segregate_loop (suc fuel) next chunk partition_sz block_end end =
    let onward =
      segregate_loop fuel (update next chunk (chunk + partition_sz)) (chunk + partition_sz)
        partition_sz block_end end in
    if ltb (chunk + partition_sz) block_end then onward else some (update next chunk end)

-- The asserts on `block` and `sz`; the fuel is the size, since each round moves by a chunk.
unfoldable pub segregate : (ℕ → ℕ) → ℕ → ℕ → ℕ → ℕ → Option (ℕ → ℕ)
segregate next block sz partition_sz end =
    if block == 0
    then none
    else if ltb sz partition_sz
    then none
    else segregate_loop (suc sz) next block partition_sz (block + sz - partition_sz) end

unfoldable pub add_block : Storage → ℕ → ℕ → ℕ → Option Storage
unfolding segregate
add_block s block sz partition_sz = elim (segregate s.next block sz partition_sz s.free_list) [
  | none ↦ none
  | some next ↦ some (record { next = next; free_list = block })
]

unfoldable pub upper_bound : ℕ → Storage → ℕ → Slot → Option Slot
upper_bound zero s p pp = none
upper_bound (suc fuel) s p pp =
    let onward = upper_bound fuel s p (next_chunk (read s pp)) in
    if read s pp == 0
    then some pp
    else if ltb p (s.next (read s pp))
    then some (next_chunk (read s pp))
    else onward

unfoldable pub add_ordered_block : ℕ → Storage → ℕ → ℕ → ℕ → Option Storage
unfolding segregate
add_ordered_block fuel s block sz partition_sz = elim (upper_bound fuel s block free_list_slot) [
  | none ↦ none
  | some pos ↦ elim (segregate s.next block sz partition_sz (read s pos)) [
    | none ↦ none
    | some next ↦ some (write (record s { next = next }) pos block)
  ]
]

unfoldable pub empty : Storage → Bool
empty s = s.free_list == 0

-- The chunk taken, and the storage without it
unfoldable pub malloc : Storage → Option (ℕ × Storage)
malloc s =
    if s.free_list == 0
    then none
    else some (s.free_list, record s { free_list = s.next s.free_list })

-- `malloc_n`: `p` runs over the list, `start` is the slot before the current run, of `m` chunks.
-- A pointer of 0 is returned where no run is found.
unfoldable pub malloc_n_loop : ℕ → Storage → ℕ → ℕ → Slot → Slot → ℕ → Option (ℕ × Storage)
malloc_n_loop zero s n partition_sz p start m = none
malloc_n_loop (suc fuel) s n partition_sz p start m =
    let chunk = read s p in
    let restart = malloc_n_loop fuel s n partition_sz (next_chunk chunk) (next_chunk chunk) 0 in
    let onward = malloc_n_loop fuel s n partition_sz (next_chunk chunk) start (suc m) in
    if chunk == 0
    then some (0, s)
    else if not (s.next chunk == chunk + partition_sz)
    then restart
    else if suc m == n
    then some (read s start, write s start (s.next chunk))
    else onward

unfoldable pub malloc_n : ℕ → Storage → ℕ → ℕ → Option (ℕ × Storage)
unfolding malloc_n_loop
malloc_n fuel s n partition_sz = malloc_n_loop fuel s n partition_sz free_list_slot free_list_slot 0

unfoldable pub free : Storage → ℕ → Option Storage
free s chunk =
    if chunk == 0
    then none
    else some (record { next = update s.next chunk s.free_list; free_list = chunk })

unfoldable pub free_n : Storage → ℕ → ℕ → ℕ → Option Storage
unfolding add_block
free_n s chunk partition_sz n = add_block s chunk (partition_sz * n) partition_sz

unfoldable pub ordered_free : ℕ → Storage → ℕ → Option Storage
unfolding upper_bound
ordered_free fuel s chunk = elim (upper_bound fuel s chunk free_list_slot) [
  | none ↦ none
  | some pos ↦
      if chunk == 0
      then none
      else some (write (record s { next = update s.next chunk (read s pos) }) pos chunk)
]

unfoldable pub ordered_free_n : ℕ → Storage → ℕ → ℕ → ℕ → Option Storage
unfolding add_ordered_block
ordered_free_n fuel s chunk n partition_sz =
    add_ordered_block fuel s chunk (partition_sz * n) partition_sz

unfoldable pub is_free_loop : ℕ → Storage → ℕ → ℕ → Option Bool
is_free_loop zero s p iter = none
is_free_loop (suc fuel) s p iter =
    let onward = is_free_loop fuel s p (s.next iter) in
    if iter == 0 then some false else if iter == p then some true else onward

unfoldable pub is_free : ℕ → Storage → ℕ → Option Bool
unfolding is_free_loop
is_free fuel s p = is_free_loop fuel s p s.free_list

unfoldable pub reset : Storage → Storage
reset s = record s { free_list = 0 }
