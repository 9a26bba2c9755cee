-- ===== src/Tests/FlatBuffer.antt =====
-- include/gpcl/flat_buffer.hpp at concrete bytes.
use gpcl.Base.{
  ℕ, ◌≡◌, refl, true, Bool-cases, inl, inr, subst, if◌then◌else◌, ltb, ◌≤◌, ◌+◌, ◌^◌, Option, none,
  some, List, [], ◌∷◌, arith, Bytes, codes, replicate, length-replicate,
}
use gpcl.Base.Results.{ok}
use gpcl.FlatBuffer.Queue.{Holds, Prepares, prepare-Prepares}
use gpcl.FlatBuffer.Refinement.{Op, put, take_out, run}
use gpcl.FlatBuffer.{FlatBuffer, contents, prepare, commit, consume, size, moved, copied}

-- Memory at one address, for sizes that are not huge
abbrev allocate : ℕ → Option ℕ
allocate sz = if ltb sz (2 ^ 40) then some 4096 else none

allocate-lower : (sz a : ℕ) → allocate sz ≡ some a → a + sz ≤ 2 ^ 63
allocate-lower sz a e = elim (Bool-cases (ltb sz (2 ^ 40))) [
  | inl t ↦ given t (subst (λ b. (if b then some 4096 else none) ≡ some a) t e)
  | inr t ↦ absurd (refused (subst (λ b. (if b then some 4096 else none) ≡ some a) t e))
]
  where
    given : ltb sz (2 ^ 40) ≡ true → some 4096 ≡ some a → a + sz ≤ 2 ^ 63
    given t e = ground (arith, e)

    refused : none ≡ some a → ⊥
    refused e = ground (arith, e)

abbrev zeros : ℕ → Bytes
zeros sz = replicate sz 0

-- `xbc..`: the `x` was consumed.
abbrev sample : FlatBuffer
sample = record { start = 4096; bytes = codes "xbc.."; input = 1; output = 3 }

sample-Holds : Holds sample (codes "bc")
sample-Holds = record {
  pre = codes "x";
  post = codes "..";
  bytes_are = refl;
  input_is = refl;
  output_is = refl;
  located = omega arith;
}

program : Unit {0}
unfolding prepare commit consume contents size run moved copied
program = tt

-- Three bytes fit once the contents are moved to the start.
prepare_moves :
    prepare allocate zeros sample 3
    ≡ ok (record { start = 4096; bytes = codes "bcc.."; input = 0; output = 2 })
unfolding program
prepare_moves = refl

prepare-Prepares_example : Prepares allocate (codes "bc") 9 (prepare allocate zeros sample 9)
prepare-Prepares_example =
    prepare-Prepares allocate zeros sample (codes "bc") 9 sample-Holds (λ sz. length-replicate sz 0)
      allocate-lower (omega arith)

abbrev ops : List Op
ops = put (codes "ab") ∷ take_out 1 ∷ put (codes "cde") ∷ []
