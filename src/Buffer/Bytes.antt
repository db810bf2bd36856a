-- ===== src/Buffer/Bytes.antt =====
-- buffer/bytes_buffer.go: reads and writes of bytes. A byte is any number: bytes are only moved.
-- `WriteString` is `Write` of the text's bytes, and `Bytes` and `String` are `Slice`.
use go_data_structures.Base.{
  ℕ, ◌+◌, ◌-◌, ◌^◌, ◌≤◌, ◌<◌, ◌≡◌, ◌≢◌, refl, sym, ap, ◌∙◌, List, [], ◌∷◌, ◌++◌, Option, none, some,
  arith, length, length-take, take_all, take-nil, drop-nil, drop-min, zero, suc, take, drop,
  lt_or_le, inl, inr, lt_int, ltb, ◌==◌, if◌then◌else◌, min,
}
use native.Mathlib.Decide.{ℕ_discrete}
use go_data_structures.Base.Go.{Go, Outcome, returns, panics, ◌>>=◌, ◌>>◌, pure}
use go_data_structures.Base.Go
use go_data_structures.Buffer.Defs.{
  Buffer, span, read_span, live, capacity, available, append, consume,
}
use go_data_structures.Buffer.Spec
use go_data_structures.Buffer.Inv.{IsValid, contents, length-contents}
use go_data_structures.Buffer.Append.{append-Refines}
use go_data_structures.Buffer.Removals.{consume-Refines}

-- `ErrFull`, and `io.EOF`.
pub data Error : Type 0 where
  full eof : Error

-- `Write`
unfoldable pub write : List ℕ → Go (Buffer ℕ) (ℕ × Option Error)
write p = do
  b ← Go.read
  let n = available b
  if lt_int n (length p)
      then (append (take n p) >> pure (n, some full))
      else (append p >> pure (length p, none))

-- `WriteByte`
unfoldable pub write_byte : ℕ → Go (Buffer ℕ) (Option Error)
write_byte value = do
  b ← Go.read
  if available b == 0 then pure (some full) else (append (value ∷ []) >> pure none)

-- The end of `Read`: the copy out of the live bytes, and their removal.
unfoldable pub read_live : ℕ → Go (Buffer ℕ) (List ℕ × ℕ × Option Error)
read_live n = do
  s ← live
  b ← Go.read
  consume (min n s.len)
  pure (take n (read_span s b), min n s.len, none)

-- `Read` into a slice of `n` bytes: the bytes copied to its front, how many they are, the error.
unfoldable pub read : ℕ → Go (Buffer ℕ) (List ℕ × ℕ × Option Error)
read n = do
  b ← Go.read
  if n == 0
      then pure ([], 0, none)
      else (if b.count == 0 then pure ([], 0, some eof) else read_live n)

module _ {b : Buffer ℕ} (v : IsValid 0 b) where
  pub available_lem : available b ≡ capacity b - b.count
  unfolding available
  available_lem = omega arith

  appended :
      (vs : List ℕ)
      → b.count + length vs ≤ capacity b
      → (append vs b ≡ (returns tt, (append vs b).1))
        × IsValid 0 (append vs b).1
        × (contents (append vs b).1 ≡ contents b ++ vs)
  unfolding Spec.append
  appended vs h =
      let r = append-Refines v vs (omega arith) in
      (
        ground (arith, r.answer, length-contents v),
        r.valid,
        ground (arith, r.answer, length-contents v),
      )

  write_short :
      (p : List ℕ)
      → length p < 2 ^ 63
      → capacity b - b.count < length p
      → write p b
        ≡ (returns (capacity b - b.count, some full), (append (take (capacity b - b.count) p) b).1)
  unfolding write
  write_short p h k =
      let (e, _, _) =
        appended (take (capacity b - b.count) p)
          (omega (arith, length-take (capacity b - b.count) p)) in
      ground (arith, available_lem, e)

  write_fits :
      (p : List ℕ)
      → length p < 2 ^ 63
      → length p ≤ capacity b - b.count
      → write p b ≡ (returns (length p, none), (append p b).1)
  unfolding write
  write_fits p h k = let (e, _, _) = appended p (omega arith) in ground (arith, available_lem, e)

  -- `Write` of fewer than 2 ^ 63 bytes to a valid buffer appends the bytes that fit, says how many
  -- they are, returns `ErrFull` exactly when some did not fit, and keeps the buffer valid.
  pub write_lem :
      (p : List ℕ)
      → length p < 2 ^ 63
      → let (o, b') = write p b in
        (o
          ≡ returns (
            min (length p) (capacity b - b.count),
            if ltb (capacity b - b.count) (length p) then some full else none,
          ))
        × (contents b' ≡ contents b ++ take (capacity b - b.count) p)
        × IsValid 0 b'
  write_lem p h = elim (lt_or_le (capacity b - b.count) (length p)) [
    | inl k ↦
        let (_, valid, held) =
          appended (take (capacity b - b.count) p)
            (omega (arith, length-take (capacity b - b.count) p)) in
        rw (write_short p h k) (ground arith, held, valid)
    | inr k ↦
        let (_, valid, held) = appended p (omega arith) in
        rw (write_fits p h k) (
          ground arith,
          held ∙ ap (◌++◌ (contents b)) (sym (take_all (capacity b - b.count) p k)),
          valid,
        )
  ]

  -- `Slice` shows the live elements, and its capacity is its length.
  pub live_lem : live b ≡ (returns (record { from = b.start; len = b.count; room = b.count }), b)
  unfolding live span
  live_lem = ground arith

  consumed :
      (k : ℕ)
      → k ≤ b.count
      → (consume k b ≡ (returns tt, (consume k b).1))
        × IsValid 0 (consume k b).1
        × (contents (consume k b).1 ≡ drop k (contents b))
  unfolding Spec.consume
  consumed k h =
      let r = consume-Refines v k (omega arith) in
      (
        ground (arith, r.answer, length-contents v),
        r.valid,
        ground (arith, r.answer, length-contents v),
      )

  read_live_lem :
      (n : ℕ)
      → read_live n b
        ≡ (returns (take n (contents b), min n b.count, none), (consume (min n b.count) b).1)
  unfolding read_live read_span contents
  read_live_lem n = let (e, _, _) = consumed (min n b.count) (omega arith) in rw (live_lem, e)

  read_none :
      (n : ℕ) → b.count ≡ 0 → (take n (contents b) ≡ []) × (drop n (contents b) ≡ contents b)
  read_none n e = nothing n (contents b) (length-contents v ∙ e)
    where
      nothing : (k : ℕ) (xs : List ℕ) → length xs ≡ 0 → (take k xs ≡ []) × (drop k xs ≡ xs)
      nothing k [] h = (take-nil k, drop-nil k)
      nothing k (x ∷ xs) h = absurd (omega arith)

  read_zero : read 0 b ≡ (returns ([], 0, none), b)
  unfolding read
  read_zero = ground arith

  read_eof : (n : ℕ) → n ≢ 0 → b.count ≡ 0 → read n b ≡ (returns ([], 0, some eof), b)
  unfolding read
  read_eof n h e = ground arith

  read_some : (n : ℕ) → n ≢ 0 → b.count ≢ 0 → read n b ≡ read_live n b
  unfolding read
  read_some n h e = ground arith

  -- `Read` from a valid buffer removes and returns as many bytes as there are and fit, from the
  -- front, in order, and keeps the buffer valid. It returns `io.EOF` exactly when bytes are asked
  -- for and there are none.
  pub read_lem :
      (n : ℕ)
      → let (o, b') = read n b in
        (o
          ≡ returns (
            take n (contents b),
            min n b.count,
            if n == 0 then none else if b.count == 0 then some eof else none,
          ))
        × (contents b' ≡ drop n (contents b))
        × IsValid 0 b'
  read_lem zero = rw read_zero (ground arith, refl, v)
  read_lem (suc n) = elim (ℕ_discrete b.count 0) [
    | yes e ↦
        let (t, d) = read_none (suc n) e in
        rw (read_eof (suc n) (omega arith) e) (ground (arith, t), sym d, v)
    | no e ↦
        let (_, valid, held) = consumed (min (suc n) b.count) (omega arith) in
        rw (read_some (suc n) (omega arith) e, read_live_lem (suc n))
          (
            ground arith,
            held ∙ drop-min (suc n) b.count (contents b) (sym (length-contents v)),
            valid,
          )
  ]
