-- ===== src/Tests/Monotonic.antt =====
-- include/gpcl/pmr/impl/monotonic_buffer_resource.ipp with an upstream of blocks side by side.
use gpcl.Base.{ℕ, ◌+◌, ◌*◌, ◌%◌, ◌≡◌, refl, ap, inl, inr, List, [], ◌∷◌, some, arith, length}
use gpcl.Base.Results.{Result, ok, err}
use gpcl.Monotonic.Placement.{Allocated, do_allocate-Allocated}
use gpcl.Monotonic.{
  Block, Monotonic, Error, alloc_from_buffer, request_from_upstream, do_allocate, release,
}

-- The blocks stand 65536 bytes apart.
abbrev upstream : ℕ → List Block → Result Error ℕ
upstream n bs = ok (4096 + 65536 * length bs)

abbrev sample : Monotonic
sample = record {
  data_ = 4101;
  size_ = 1019;
  next_buffer_bytes = 2048;
  block_list = (record { ptr = 4096; size = 1024 }) ∷ [];
}

program : Unit {0}
unfolding alloc_from_buffer request_from_upstream do_allocate release
program = tt

aligned_to_eight :
    do_allocate upstream sample 10 8 ≡ ok (some 4104, record sample { data_ = 4114; size_ = 1006 })
unfolding program
aligned_to_eight = refl

given : Result Error ℕ → ℕ
given (ok p) = p
given (err e) = 0

upstream-aligned : (n : ℕ) (bs : List Block) (p : ℕ) → upstream n bs ≡ ok p → p % 16 ≡ 0
unfolding given
upstream-aligned n bs p e = let same : 4096 + 65536 * length bs ≡ p = ap given e in omega arith

do_allocate-Allocated_example :
    Allocated upstream sample 3000 8 (do_allocate upstream sample 3000 8)
do_allocate-Allocated_example =
    do_allocate-Allocated upstream sample 3000 8 (inr (inr (inr (inl refl)))) upstream-aligned
      (omega arith) (omega arith)
