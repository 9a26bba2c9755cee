-- ===== src/FlatBuffer.antt =====
-- include/gpcl/flat_buffer.hpp: a queue of bytes in one allocation.
-- The allocation is the address `start_` and the bytes from there to `end_`; `input_` and `output_` are
-- offsets from `start_`. Sizes and addresses are of 64 bits and wrap around. The allocator is two
-- arguments: the address it gives for a size, or none, and what the memory holds.
pub mod Queue
pub mod Refinement
use gpcl.Base.{
  ℕ, suc, ◌+◌, ◌-◌, ◌%◌, ◌^◌, Bool, true, false, List, [], ◌∷◌, ◌++◌, ltb, leb, not, if◌then◌else◌,
  Bytes, length, take, drop, Option, none, some,
}
use gpcl.Base.Results.{Result, ok, err, ◌>>=◌}

pub record FlatBuffer : Type 0 where
  pub start : ℕ
  pub bytes : Bytes
  pub input : ℕ
  pub output : ℕ

-- `std::length_error`, `std::bad_alloc`, and a copy beyond the end of an allocation
pub data Error : Type 0 where
  length_error bad_alloc undefined : Error

abbrev pub int_max : ℕ
int_max = 2147483647

-- A buffer without an allocation
abbrev pub initial : FlatBuffer
initial = record { start = 0; bytes = []; input = 0; output = 0 }

unfoldable pub size : FlatBuffer → ℕ
size b = b.output - b.input

unfoldable pub capacity : FlatBuffer → ℕ
capacity b = length b.bytes - b.input

unfoldable pub contents : FlatBuffer → Bytes
unfolding size
contents b = take (size b) (drop b.input b.bytes)

-- `memmove(start_, input_, size())` inside the allocation
unfoldable pub moved : FlatBuffer → FlatBuffer
unfolding contents size
moved b = record b { bytes = contents b ++ drop (size b) b.bytes; input = 0; output = size b }

-- A new allocation of `sz` bytes at `a`, which hold `bs`: `memcpy` of the contents to its start
unfoldable pub copied : FlatBuffer → ℕ → ℕ → Bytes → Result Error FlatBuffer
unfolding contents size
copied b a sz bs =
    if ltb sz (size b)
    then err undefined
    else ok
        (record { start = a; bytes = contents b ++ drop (size b) bs; input = 0; output = size b })

-- The same with the address that the allocator gives, if it gives one
abbrev pub renewed : FlatBuffer → ℕ → Bytes → Option ℕ → Result Error FlatBuffer
unfolding copied
renewed b sz bs none = err bad_alloc
renewed b sz bs (some a) = copied b a sz bs

module _ (allocate : ℕ → Option ℕ) (memory : ℕ → Bytes) where
  -- The place for `n` bytes is at `output` of the buffer returned.
  unfoldable pub prepare : FlatBuffer → ℕ → Result Error FlatBuffer
  unfolding size moved copied
  prepare b n =
      let sum = (size b + n) % 2 ^ 64 in
      if ltb int_max sum
      then err length_error
      else if not (ltb (length b.bytes - b.output) n)
      then ok b
      else if leb n (length b.bytes - b.output + b.input)
      then ok (moved b)
      else renewed b sum (memory sum) (allocate sum)

-- An address as an offset from `start_`
abbrev pub offset_of : FlatBuffer → ℕ → ℕ
offset_of b p = (p + (2 ^ 64 - b.start)) % 2 ^ 64

unfoldable pub commit : FlatBuffer → ℕ → FlatBuffer
commit b n =
    let output = (b.start + b.output + n) % 2 ^ 64 in
    record b {
      output = if ltb (b.start + length b.bytes) output then length b.bytes else offset_of b output;
    }

unfoldable pub consume : FlatBuffer → ℕ → FlatBuffer
consume b n =
    let input = (b.start + b.input + n) % 2 ^ 64 in
    record b { input = if ltb (b.start + b.output) input then b.output else offset_of b input }

-- What a caller does with the place that `prepare` gives: the bytes are written at `output`.
abbrev pub write_output : FlatBuffer → Bytes → FlatBuffer
write_output b xs = record b {
  bytes = take b.output b.bytes ++ (xs ++ drop (b.output + length xs) b.bytes);
}
