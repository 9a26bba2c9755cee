-- ===== src/FlatBuffer/Refinement.antt =====
-- include/gpcl/flat_buffer.hpp as a queue of bytes: runs of operations.
use gpcl.Base.{ℕ, ◌+◌, ◌<◌, ◌^◌, ◌≡◌, Option, none, ◌⊎◌, List, [], ◌∷◌, ◌++◌, Bytes, length, drop}
use gpcl.Base.Results.{Result, ok, err, ◌>>=◌}
use gpcl.FlatBuffer.Queue.{Holds}
use gpcl.FlatBuffer.{
  FlatBuffer, Error, length_error, bad_alloc, undefined, int_max, contents, prepare, commit,
  consume, write_output,
}

-- A caller puts bytes in (`prepare`, the write, `commit`) or takes some out (`consume`).
pub data Op : Type 0 where
  put : Bytes → Op
  take_out : ℕ → Op

-- The queue that the buffer is to be
abbrev pub queue_run : List Op → Bytes → Bytes
queue_run [] q = q
queue_run (put xs ∷ ops) q = queue_run ops (q ++ xs)
queue_run (take_out n ∷ ops) q = queue_run ops (drop n q)

module _ (allocate : ℕ → Option ℕ) (memory : ℕ → Bytes) where
  unfoldable pub run : List Op → FlatBuffer → Result Error FlatBuffer
  unfolding prepare commit consume
  run [] b = ok b
  run (put xs ∷ ops) b = prepare allocate memory b (length xs) >>= λ b'.
      run ops (commit (write_output b' xs) (length xs))
  run (take_out n ∷ ops) b = run ops (consume b n)

  -- Some put would make the queue longer than int_max; the allocator denies some size.
  abbrev pub Overflows : List Op → Bytes → Type 0
  Overflows [] q = ⊥
  Overflows (put xs ∷ ops) q = (int_max < length q + length xs) ⊎ Overflows ops (q ++ xs)
  Overflows (take_out n ∷ ops) q = Overflows ops (drop n q)

  abbrev pub Runs : List Op → Bytes → Result Error FlatBuffer → Type 0
  Runs ops q (ok b) = (Holds b (queue_run ops q)) × (contents b ≡ queue_run ops q)
  Runs ops q (err length_error) = Overflows ops q
  Runs ops q (err bad_alloc) = (n : ℕ) × (allocate n ≡ none)
  Runs ops q (err undefined) = ⊥

  -- Every put and take is of fewer than 2 ^ 63 bytes.
  abbrev pub Small : List Op → Type 0
  Small [] = Unit
  Small (put xs ∷ ops) = (length xs < 2 ^ 63) × Small ops
  Small (take_out n ∷ ops) = (n < 2 ^ 63) × Small ops
