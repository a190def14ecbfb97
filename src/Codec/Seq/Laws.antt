-- ===== src/Codec/Seq/Laws.antt =====
-- The wire format of byte slices and vectors, and that they are read back.
use onion_network.Base.{
  ℕ, zero, suc, ◌+◌, ◌^◌, ◌<◌, ◌≤◌, ◌≡◌, refl, Option, none, some, false, List, [], ◌∷◌, ◌++◌,
  append_assoc, length, length-append, take-length-append, drop-length-append, All, arith, ltb,
  le→ltb, lt→ltb, if◌then◌else◌, sym, Bool-cases, inl, inr,
}
use mathlib.Core.Option
use mathlib.Core.Path.{fun_ext}
use onion_network.Base.Opt
use onion_network.Codec.Buffer.{Buffer, IsBuffer, push_all}
use onion_network.Codec.Buffer.Laws.{push_all-append}
use onion_network.Codec.Reader.{Decode}
use onion_network.Codec.Traits.{Encode, IsEncoder, IsDecoder}
use onion_network.Codec.Int.{usize_decode}
use onion_network.Codec.Int.Laws.{int_bytes, int_encode-IsEncoder, int_decode-IsDecoder}
use onion_network.Codec.Seq.{
  bytes_encode, split_at, bytes_decode, each_encode, times_decode, vec_encode, vec_decode,
  array_vec_decode, reminder_vec_decode,
}

-- The bytes of the items, one after the other.
abbrev pub concat_map {ℓ} : {A : Type ℓ} → (A → List ℕ) → List A → List ℕ
concat_map bytes [] = []
concat_map bytes (x ∷ xs) = bytes x ++ concat_map bytes xs

-- Two writes in a row write the bytes of both.
pub then-writes :
    (B : Buffer) (s : B.State) (o : Option B.State) (f : B.State → Option B.State) (xs ys : List ℕ)
    → o ≡ push_all B.push s xs
    → ((s' : B.State) → f s' ≡ push_all B.push s' ys)
    → Opt.◌>>=◌ o f ≡ push_all B.push s (xs ++ ys)
then-writes B s o f xs ys first second =
    rw (first, fun_ext second) (sym (push_all-append B.push s xs ys))

abbrev pub slice_bytes : List ℕ → List ℕ
slice_bytes bs = int_bytes (length bs) ++ bs

pub bytes_encode-IsEncoder : IsEncoder bytes_encode slice_bytes
unfolding bytes_encode
bytes_encode-IsEncoder = record {
  writes = λ B lawful bs s.
      then-writes B s _ _ (int_bytes (length bs)) bs
        (int_encode-IsEncoder.writes B lawful (length bs) s) (λ s'. lawful.extend_bytes s' bs);
}

pub usize-reads :
    (v : ℕ) (rest : List ℕ) → v < 2 ^ 64 → usize_decode (int_bytes v ++ rest) ≡ (some v, rest)
unfolding usize_decode
usize-reads v rest h = (int_decode-IsDecoder 64 (omega arith)).reads v rest h

split_at-append : (bs rest : List ℕ) → split_at (length bs) (bs ++ rest) ≡ (some bs, rest)
unfolding split_at
split_at-append bs rest =
    let enough : ltb (length (bs ++ rest)) (length bs) ≡ false =
      le→ltb _ _ (omega (arith, length-append bs rest)) in
    rw (enough, take-length-append bs rest, drop-length-append bs rest)

pub bytes_decode-IsDecoder : IsDecoder bytes_decode slice_bytes (λ bs. length bs < 2 ^ 64)
unfolding bytes_decode
bytes_decode-IsDecoder = record {
  reads = λ bs rest h.
      rw (append_assoc (int_bytes (length bs)) bs rest, usize-reads (length bs) (bs ++ rest) h)
        (split_at-append bs rest);
}

module _ {A : Type 0} {encode : Encode A} {bytes : A → List ℕ} (e : IsEncoder encode bytes) where
  each-writes :
      (B : Buffer)
      → IsBuffer B
      → (xs : List A) (s : B.State)
      → each_encode encode B xs s ≡ push_all B.push s (concat_map bytes xs)
  unfolding each_encode push_all
  each-writes B lawful [] s = refl
  each-writes B lawful (x ∷ xs) s =
      then-writes B s _ _ (bytes x) (concat_map bytes xs) (e.writes B lawful x s)
        (λ s'. each-writes B lawful xs s')

  pub each_encode-IsEncoder : IsEncoder (each_encode encode) (concat_map bytes)
  each_encode-IsEncoder = record { writes = each-writes }

  pub vec_encode-IsEncoder :
      IsEncoder (vec_encode encode) (λ xs. int_bytes (length xs) ++ concat_map bytes xs)
  unfolding vec_encode
  vec_encode-IsEncoder = record {
    writes = λ B lawful xs s.
        then-writes B s _ _ (int_bytes (length xs)) (concat_map bytes xs)
          (int_encode-IsEncoder.writes B lawful (length xs) s) (λ s'. each-writes B lawful xs s');
  }

-- One round of `reminder_vec_decode` on a value that is there.
reminder_vec_step :
    {A : Type 0} (decode : Decode A) (fuel : ℕ) (buffer : List ℕ) {x : A} {rest : List ℕ}
    → 1 ≤ length buffer
    → decode buffer ≡ (some x, rest)
    → reminder_vec_decode (suc fuel) decode buffer
      ≡ Opt.◌>>=◌
          (reminder_vec_decode fuel decode rest)
          (λ t. some (Option.map (λ xs. x ∷ xs) t.0, t.1))
unfolding reminder_vec_decode
reminder_vec_step decode fuel [] h e = absurd (omega arith)
reminder_vec_step decode fuel (b ∷ bs) h e = rw (e, reminder_vec_decode) (rw e)

module _ {A : Type 0} {decode : Decode A} {bytes : A → List ℕ} {Valid : A → Type 0}
    (d : IsDecoder decode bytes Valid) where
  pub times-reads :
      (xs : List A) (rest : List ℕ)
      → All Valid xs
      → times_decode decode (length xs) (concat_map bytes xs ++ rest) ≡ (some xs, rest)
  unfolding times_decode
  times-reads [] rest v = refl
  times-reads (x ∷ xs) rest (vx, vxs) = rw (
    append_assoc (bytes x) (concat_map bytes xs) rest,
    d.reads x (concat_map bytes xs ++ rest) vx,
    times-reads xs rest vxs,
  )

  -- `ArrayVec` refuses more items than its capacity, and reads all others back.
  pub array_vec_decode-reads :
      (cap : ℕ) (xs : List A) (rest : List ℕ)
      → All Valid xs
      → length xs < 2 ^ 64
      → array_vec_decode cap decode (int_bytes (length xs) ++ concat_map bytes xs ++ rest)
        ≡ (if ltb cap (length xs) then (none, concat_map bytes xs ++ rest) else (some xs, rest))
  unfolding array_vec_decode
  array_vec_decode-reads cap xs rest v h =
      rw
        (
          append_assoc (int_bytes (length xs)) (concat_map bytes xs) rest,
          usize-reads (length xs) (concat_map bytes xs ++ rest) h,
        )
        (elim (Bool-cases (ltb cap (length xs))) [
          | inl over ↦ rw over
          | inr fits ↦ rw fits (times-reads xs rest v)
        ])

  -- No value is written as nothing.
  abbrev pub TakesBytes : Type 0
  TakesBytes = (a : A) → Valid a → 1 ≤ length (bytes a)

  pub length-concat_map :
      TakesBytes → (xs : List A) → All Valid xs → length xs ≤ length (concat_map bytes xs)
  length-concat_map t [] v = omega arith
  length-concat_map t (x ∷ xs) (vx, vxs) =
      omega
        (arith, length-append (bytes x) (concat_map bytes xs), t x vx, length-concat_map t xs vxs)

  pub vec_decode-reads :
      TakesBytes
      → (xs : List A) (rest : List ℕ) → All Valid xs × (length xs < 2 ^ 64)
      → vec_decode decode (int_bytes (length xs) ++ concat_map bytes xs ++ rest) ≡ (some xs, rest)
  unfolding vec_decode
  vec_decode-reads t xs rest (v, h) =
      let enough : ltb (length (concat_map bytes xs ++ rest)) (length xs) ≡ false =
        le→ltb _ _
          (omega (arith, length-append (concat_map bytes xs) rest, length-concat_map t xs v)) in
      rw
        (
          append_assoc (int_bytes (length xs)) (concat_map bytes xs) rest,
          usize-reads (length xs) (concat_map bytes xs ++ rest) h,
          enough,
        )
        (times-reads xs rest v)

  pub vec_decode-IsDecoder :
      TakesBytes
      → IsDecoder
          (vec_decode decode)
          (λ xs. int_bytes (length xs) ++ concat_map bytes xs)
          (λ xs. All Valid xs × (length xs < 2 ^ 64))
  vec_decode-IsDecoder t = record { reads = vec_decode-reads t }

  -- With fuel for each byte, a `ReminderVec` reads a whole buffer of items back.
  pub reminder_vec_decode-reads :
      TakesBytes
      → (fuel : ℕ) (xs : List A) → All Valid xs
      → length (concat_map bytes xs) ≤ fuel
      → reminder_vec_decode fuel decode (concat_map bytes xs) ≡ some (some xs, [])
  reminder_vec_decode-reads t fuel [] v h = unfold reminder_vec_decode in refl
  reminder_vec_decode-reads t zero (x ∷ xs) (vx, vxs) h =
      absurd (omega (arith, length-append (bytes x) (concat_map bytes xs), t x vx))
  reminder_vec_decode-reads t (suc fuel) (x ∷ xs) (vx, vxs) h =
      let room : length (bytes x) + length (concat_map bytes xs) ≤ suc fuel =
        omega (arith, length-append (bytes x) (concat_map bytes xs)) in
      rw (
        reminder_vec_step decode fuel (bytes x ++ concat_map bytes xs)
            (omega (arith, length-append (bytes x) (concat_map bytes xs), t x vx))
            (d.reads x (concat_map bytes xs) vx),
        reminder_vec_decode-reads t fuel xs vxs (omega (arith, t x vx)),
      )

-- A length above the bytes that are left is refused: no vector of values without bytes, such as
-- `()`, can be read back from its own encoding.
pub vec_decode-short :
    {A : Type 0} (decode : Decode A) (len : ℕ) (rest : List ℕ)
    → len < 2 ^ 64
    → length rest < len
    → vec_decode decode (int_bytes len ++ rest) ≡ (none, rest)
unfolding vec_decode
vec_decode-short decode len rest h short = rw (usize-reads len rest h, lt→ltb _ _ short)
