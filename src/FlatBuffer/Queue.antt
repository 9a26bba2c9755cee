-- ===== src/FlatBuffer/Queue.antt =====
-- include/gpcl/flat_buffer.hpp: what each operation does to the bytes in the buffer.
use gpcl.Base.{
  ℕ, ◌+◌, ◌-◌, ◌≤◌, ◌<◌, ◌%◌, ◌^◌, ◌≡◌, refl, ap, sym, ◌∙◌, true, false, if◌then◌else◌, Bool-cases,
  inl, inr, [], ◌++◌, Option, none, some, Option-cases, min, append_assoc, arith, ltb, leb, not,
  Bytes, length, take, drop, length-append, length-take, length-drop, take-append_exact,
  drop-append_exact, take-append-drop,
}
use gpcl.Base.Results.{Result, ok, err}
use gpcl.FlatBuffer.{
  FlatBuffer, Error, length_error, bad_alloc, undefined, int_max, size, contents, moved, copied,
  renewed, prepare, commit, consume, write_output, initial,
}

-- The bytes `q` lie between `input_` and `output_`, in the allocation, which lies in the lower half of
-- the addresses.
pub record Holds (b : FlatBuffer) (q : Bytes) : Type 0 where
  pub pre : Bytes
  pub post : Bytes
  pub bytes_are : b.bytes ≡ pre ++ (q ++ post)
  pub input_is : b.input ≡ length pre
  pub output_is : b.output ≡ length pre + length q
  pub located : b.start + length b.bytes ≤ 2 ^ 63

pub initial-Holds : Holds initial []
initial-Holds = record {
  pre = [];
  post = [];
  bytes_are = refl;
  input_is = refl;
  output_is = omega arith;
  located = omega arith;
}

-- `start_ <= input_ <= output_ <= end_`
pub record IsValid (b : FlatBuffer) : Type 0 where
  pub ordered : b.input ≤ b.output
  pub inside : b.output ≤ length b.bytes

Holds-size : (b : FlatBuffer) (q : Bytes) → Holds b q → size b ≡ length q
unfolding size
Holds-size b q h = omega (arith, h.input_is, h.output_is)

pub Holds-contents : (b : FlatBuffer) (q : Bytes) → Holds b q → contents b ≡ q
unfolding contents
Holds-contents b q h =
    let from : drop b.input b.bytes ≡ q ++ h.post =
      rw (h.bytes_are, h.input_is) (drop-append_exact h.pre (q ++ h.post)) in
    rw (Holds-size b q h, from) (take-append_exact q h.post)

Holds-IsValid : (b : FlatBuffer) (q : Bytes) → Holds b q → IsValid b
Holds-IsValid b q h = record {
  ordered = omega (arith, h.input_is, h.output_is);
  inside = omega (
    arith,
    h.output_is,
    ap length h.bytes_are,
    length-append h.pre (q ++ h.post),
    length-append q h.post,
  );
}

-- The same bytes, with room for `n` more, all together no more than INT_MAX
pub record Prepared (b : FlatBuffer) (q : Bytes) (n : ℕ) : Type 0 where
  pub held : Holds b q
  pub room : b.output + n ≤ length b.bytes
  pub bounded : length q + n ≤ int_max

-- The contents at the start of an allocation
at_start :
    (b : FlatBuffer) (a : ℕ) (q post : Bytes) (n : ℕ)
    → Holds b q
    → a + (length q + length post) ≤ 2 ^ 63
    → n ≤ length post
    → length q + n ≤ int_max
    → Prepared (record { start = a; bytes = contents b ++ post; input = 0; output = size b }) q n
at_start b a q post n h o r l =
    rw (Holds-contents b q h, Holds-size b q h)
      (record {
        held = record {
          pre = [];
          post = post;
          bytes_are = refl;
          input_is = refl;
          output_is = omega arith;
          located = omega (arith, length-append q post);
        };
        room = omega (arith, length-append q post);
        bounded = l;
      })

-- The outcome of `prepare` on a buffer of the bytes `q`
abbrev pub Prepares : (ℕ → Option ℕ) → Bytes → ℕ → Result Error FlatBuffer → Type 0
Prepares allocate q n (ok b) = Prepared b q n
Prepares allocate q n (err length_error) = int_max < length q + n
Prepares allocate q n (err bad_alloc) = allocate (length q + n) ≡ none
Prepares allocate q n (err undefined) = ⊥

-- `prepare` keeps the bytes and makes room for `n` more, in place, after a move to the start, or in a
-- new allocation; or it throws `std::length_error`, where there would be more than INT_MAX bytes, or
-- what the allocator throws. It is so where the size and `n` add up to a size, and the allocator gives
-- memory of the size asked for, in the lower half of the addresses.
pub prepare-Prepares :
    (allocate : ℕ → Option ℕ) (memory : ℕ → Bytes) (b : FlatBuffer) (q : Bytes) (n : ℕ)
    → Holds b q
    → ((sz : ℕ) → length (memory sz) ≡ sz)
    → ((sz a : ℕ) → allocate sz ≡ some a → a + sz ≤ 2 ^ 63)
    → length q + n < 2 ^ 64
    → Prepares allocate q n (prepare allocate memory b n)
unfolding prepare copied moved
prepare-Prepares allocate memory b q n h m p u =
    let s = Holds-size b q h in
    let v = Holds-IsValid b q h in
    let sum : (size b + n) % 2 ^ 64 ≡ length q + n = omega (arith, s, u) in rw sum (within s v)
  where
    copied_lem :
        (a : ℕ)
        → allocate (length q + n) ≡ some a
        → size b ≡ length q
        → length q + n ≤ int_max
        → Prepares allocate q n (copied b a (length q + n) (memory (length q + n)))
    copied_lem a e s l =
        let fits : ltb (length q + n) (size b) ≡ false = ground (arith, s) in
        rw (copied, fits)
          (at_start b a q (drop (size b) (memory (length q + n))) n h
            (omega (
              arith,
              length-drop (size b) (memory (length q + n)),
              m (length q + n),
              s,
              p (length q + n) a e,
            ))
            (omega (arith, length-drop (size b) (memory (length q + n)), m (length q + n), s)) l)

    within :
        size b ≡ length q
        → IsValid b
        → Prepares allocate q n (
            if ltb int_max (length q + n)
            then err length_error
            else if not (ltb (length b.bytes - b.output) n)
            then ok b
            else if leb n (length b.bytes - b.output + b.input)
            then ok (moved b)
            else renewed b (length q + n) (memory (length q + n)) (allocate (length q + n)))
    within s v = elim (Bool-cases (ltb int_max (length q + n))) [
      | inl t ↦ rw t (ground arith)
      | inr t ↦ elim (Bool-cases (ltb (length b.bytes - b.output) n)) [
        | inr t' ↦
            rw (t, t')
              (record { held = h; room = ground (arith, v.inside); bounded = ground arith })
        | inl t' ↦ elim (Bool-cases (leb n (length b.bytes - b.output + b.input))) [
          | inl t″ ↦
              rw (t, t', t″)
                (at_start b b.start q (drop (size b) b.bytes) n h
                  (omega (arith, length-drop (size b) b.bytes, s, h.located, h.output_is, v.inside))
                  (ground (arith, length-drop (size b) b.bytes, s, h.input_is, h.output_is, t″))
                  (ground arith))
          | inr t″ ↦ elim (Option-cases (allocate (length q + n))) [
            | inl g ↦ rw (t, t', t″, g) g
            | inr (a, g) ↦ rw (t, t', t″, g) (copied_lem a g s (ground arith))
          ]
        ]
      ]
    ]

-- A size that wraps around passes the guard, and the copy overruns the small allocation: `prepare`
-- of an amount that, with the size, is beyond 64 bits is undefined where the allocator gives the
-- memory, on a buffer of more bytes than the wrapped sum and at most INT_MAX.
prepare-wraps :
    (allocate : ℕ → Option ℕ) (memory : ℕ → Bytes) (b : FlatBuffer) (q : Bytes) (n : ℕ)
    → Holds b q
    → n < 2 ^ 64
    → 2 ^ 64 ≤ length q + n
    → length b.bytes ≤ int_max
    → (a : ℕ) → allocate (length q + n - 2 ^ 64) ≡ some a
    → prepare allocate memory b n ≡ err undefined
unfolding prepare copied moved
prepare-wraps allocate memory b q n h w o m a g =
    let s = Holds-size b q h in
    let v = Holds-IsValid b q h in
    let held : length q ≤ length b.bytes = omega (arith, v.inside, h.output_is) in
    let sum : (size b + n) % 2 ^ 64 ≡ length q + n - 2 ^ 64 = omega (arith, s) in
    let passes : ltb int_max (length q + n - 2 ^ 64) ≡ false = ground arith in
    let short : ltb (length b.bytes - b.output) n ≡ true = ground arith in
    let no_move : leb n (length b.bytes - b.output + b.input) ≡ false =
      ground (arith, v.inside, v.ordered) in
    let overrun : ltb (length q + n - 2 ^ 64) (size b) ≡ true = ground (arith, s) in
    rw (sum, passes, short, no_move, g, copied, overrun) refl

-- An address in the lower half of the addresses, moved on by less than that, is no smaller.
consume_lem :
    (b : FlatBuffer) (q : Bytes) (n : ℕ)
    → Holds b q
    → n < 2 ^ 63
    → consume b n ≡ record b { input = min (b.input + n) b.output }
unfolding consume
consume_lem b q n h u =
    let v = Holds-IsValid b q h in
    let l = h.located in
    let within : (b.start + b.input + n) % 2 ^ 64 ≡ b.start + b.input + n =
      omega (arith, v.ordered, v.inside) in
    elim (Bool-cases (ltb (b.start + b.output) (b.start + b.input + n))) [
      | inl t ↦
          rw (within, t) (ap (λ i. record b { input = i }) (ground (arith, v.ordered, v.inside)))
      | inr t ↦
          rw (within, t) (ap (λ i. record b { input = i }) (ground (arith, v.ordered, v.inside)))
    ]

commit_lem :
    (b : FlatBuffer) (n : ℕ)
    → b.start + length b.bytes ≤ 2 ^ 63
    → b.output + n ≤ length b.bytes
    → commit b n ≡ record b { output = b.output + n }
unfolding commit
commit_lem b n l r =
    let within : (b.start + b.output + n) % 2 ^ 64 ≡ b.start + b.output + n = omega arith in
    let inside : ltb (b.start + length b.bytes) (b.start + b.output + n) ≡ false = ground arith in
    rw (within, inside) (ap (λ o. record b { output = o }) (omega arith))

-- `consume` takes the first `n` bytes away, or all there are, for an `n` below 2 ^ 63.
pub consume-Holds :
    (b : FlatBuffer) (q : Bytes) (n : ℕ) → Holds b q → n < 2 ^ 63 → Holds (consume b n) (drop n q)
consume-Holds b q n h u = rw (consume_lem b q n h u) (
    let l = length-take n q in
    let r = length-drop n q in
    record {
      pre = h.pre ++ take n q;
      post = h.post;
      bytes_are =
          h.bytes_are
          ∙ ap (λ l. h.pre ++ (l ++ h.post)) (sym (take-append-drop n q))
          ∙ ap (◌++◌ h.pre) (append_assoc (take n q) (drop n q) h.post)
          ∙ sym (append_assoc h.pre (take n q) (drop n q ++ h.post));
      input_is = omega (arith, l, h.input_is, h.output_is, length-append h.pre (take n q));
      output_is = omega (arith, l, r, h.input_is, h.output_is, length-append h.pre (take n q));
      located = h.located;
    })

written_length :
    (b : FlatBuffer) (q xs : Bytes)
    → Prepared b q (length xs)
    → length (write_output b xs).bytes ≡ length b.bytes
written_length b q xs p = omega (
  arith,
  p.room,
  length-append (take b.output b.bytes) (xs ++ drop (b.output + length xs) b.bytes),
  length-append xs (drop (b.output + length xs) b.bytes),
  length-take b.output b.bytes,
  length-drop (b.output + length xs) b.bytes,
)

-- What is written behind the bytes and committed is behind them.
pub commit-Holds :
    (b : FlatBuffer) (q xs : Bytes)
    → Prepared b q (length xs)
    → Holds (commit (write_output b xs) (length xs)) (q ++ xs)
commit-Holds b q xs p =
    let h = p.held in
    let rest = drop (b.output + length xs) b.bytes in
    let front : take b.output b.bytes ≡ h.pre ++ q =
      ap (take b.output) (h.bytes_are ∙ sym (append_assoc h.pre q h.post))
      ∙ ap (λ k. take k ((h.pre ++ q) ++ h.post))
          (omega (arith, h.output_is, length-append h.pre q))
      ∙ take-append_exact (h.pre ++ q) h.post in
    let e = length-append (h.pre ++ q) (xs ++ rest) in
    let e' = length-append xs rest in
    let e″ = length-append h.pre q in
    let e‴ = length-append q xs in
    let there = write_output b xs in
    let long : length there.bytes ≡ length b.bytes = written_length b q xs p in
    let moved_on =
      commit_lem there (length xs) (omega (arith, h.located)) (omega (arith, p.room)) in
    rw moved_on (record {
      pre = h.pre;
      post = rest;
      bytes_are =
          ap (λ l. l ++ (xs ++ rest)) front
          ∙ append_assoc h.pre q (xs ++ rest)
          ∙ ap (◌++◌ h.pre) (sym (append_assoc q xs rest));
      input_is = h.input_is;
      output_is = omega (arith, h.output_is);
      located = omega (arith, h.located);
    })
