-- ===== src/Tests/Storage.antt =====
-- include/gpcl/simple_segregated_storage.hpp at concrete blocks.
use gpcl.Base.{ℕ, ◌≡◌, refl, [], ◌∷◌, some, arith}
use gpcl.Storage.Chain.{Keeps}
use gpcl.Storage.Ordered.{ordered_free-placed}
use gpcl.Storage.Runs.{Allocates, malloc_n-Allocates}
use gpcl.Storage.{
  Storage, update, add_block, malloc_n, ordered_free, segregate, segregate_loop, malloc_n_loop,
  upper_bound,
}

abbrev null_memory : ℕ → ℕ
null_memory a = 0

abbrev no_chunks : Storage
no_chunks = record { next = null_memory; free_list = 0 }

-- The chunks 64, 72 and 88
abbrev three_chunks : Storage
three_chunks = record { next = update (update null_memory 64 72) 72 88; free_list = 64 }

three_chunks-Keeps : Keeps three_chunks (64 ∷ 72 ∷ 88 ∷ [])
three_chunks-Keeps = (
  refl,
  omega arith,
  (omega arith, (omega arith, tt)),
  (refl, omega arith, (omega arith, tt), (refl, omega arith, tt, refl)),
)

abbrev two_chunks : Storage
two_chunks = record { next = update null_memory 64 72; free_list = 64 }

two_chunks-Keeps : Keeps two_chunks (64 ∷ 72 ∷ [])
two_chunks-Keeps = (refl, omega arith, (omega arith, tt), (refl, omega arith, tt, refl))

program : Unit {0}
unfolding add_block segregate segregate_loop malloc_n malloc_n_loop upper_bound ordered_free
program = tt

-- A run in the middle of the list: the chunk behind the run is needed.
malloc_n_two : malloc_n 4 three_chunks 1 8 ≡ some (64, record three_chunks { free_list = 72 })
unfolding program
malloc_n_two = refl

ordered_free-placed_example :
    (s' : Storage) × (ordered_free 4 three_chunks 80 ≡ some s') × Keeps s' (64 ∷ 72 ∷ 80 ∷ 88 ∷ [])
ordered_free-placed_example =
    ordered_free-placed 4 three_chunks 80 (64 ∷ 72 ∷ 88 ∷ []) (omega arith)
      (omega arith, (omega arith, (omega arith, tt))) three_chunks-Keeps (omega arith)

malloc_n-Allocates_example :
    Allocates 2 8 (64 ∷ 72 ∷ 88 ∷ []) three_chunks (malloc_n 4 three_chunks 2 8)
malloc_n-Allocates_example =
    malloc_n-Allocates three_chunks 2 8 4 (64 ∷ 72 ∷ 88 ∷ []) three_chunks-Keeps (omega arith)
