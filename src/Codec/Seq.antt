-- ===== src/Codec/Seq.antt =====
-- utils/codec/src/impls.rs and std_impls.rs: byte slices, vectors and arrays.
-- A `usize` has 64 bits.
pub mod Laws
use mathlib.Core.Option
use onion_network.Base.{
  ℕ, zero, suc, Option, none, some, Bool, true, false, List, [], ◌∷◌, ◌++◌, length, take, drop, ltb,
  if◌then◌else◌,
}
use onion_network.Base.Opt
use onion_network.Codec.Buffer.{Buffer}
use onion_network.Codec.Reader.{Decode, pure, fail, ◌>>=◌}
use onion_network.Codec.Traits.{Encode}
use onion_network.Codec.Int.{int_encode, usize_decode}

-- `impl Encode for [u8]`, and for `Box<[u8]>`, `&str`, `String` and `ArrayString` by their bytes.
unfoldable pub bytes_encode : Encode (List ℕ)
bytes_encode B bs s = Opt.◌>>=◌ (int_encode B (length bs) s) (λ s'. B.extend_from_slice s' bs)

-- `buffer.split_at(len)` behind its length check.
split_at : ℕ → Decode (List ℕ)
split_at len buffer =
    if ltb (length buffer) len then (none, buffer) else (some (take len buffer), drop len buffer)

-- `impl Decode for &[u8]`, and for `Box<[u8]>`.
unfoldable pub bytes_decode : Decode (List ℕ)
unfolding split_at
bytes_decode = do len ← usize_decode; split_at len

-- `impl Encode for Reminder` and `ReminderOwned`: bytes without their length, which take all the
-- buffer when read.
unfoldable pub reminder_encode : Encode (List ℕ)
reminder_encode B bs s = B.extend_from_slice s bs

unfoldable pub reminder_decode : Decode (List ℕ)
reminder_decode buffer = (some buffer, [])

module _ {A : Type 0} where
  -- `for i in self { i.encode(buffer)?; }`, which is `impl Encode for [T; LEN]`.
  unfoldable pub each_encode : Encode A → Encode (List A)
  each_encode encode B [] s = some s
  each_encode encode B (x ∷ xs) s = Opt.◌>>=◌ (encode B x s) (λ s'. each_encode encode B xs s')

  -- `for _ in 0..len { s.push(T::decode(buffer)?); }`, which is `impl Decode for [T; LEN]`.
  unfoldable pub times_decode : Decode A → ℕ → Decode (List A)
  times_decode decode zero = pure []
  times_decode decode (suc len) = do x ← decode; xs ← times_decode decode len; pure (x ∷ xs)

  -- `impl Encode for Vec<T>`, and for `VecDeque`, `Arc<[T]>`, `ArrayVec` and the sets.
  unfoldable pub vec_encode : Encode A → Encode (List A)
  vec_encode encode B xs s =
      Opt.◌>>=◌ (int_encode B (length xs) s) (λ s'. each_encode encode B xs s')

  -- Refuses a length above the number of bytes that are left.
  unfoldable pub vec_decode : Decode A → Decode (List A)
  vec_decode decode = do
    len ← usize_decode
    λ buffer. if ltb (length buffer) len then (none, buffer) else times_decode decode len buffer

  -- `impl Decode for ArrayVec<T, LEN>`: refuses a length above the capacity.
  unfoldable pub array_vec_decode : ℕ → Decode A → Decode (List A)
  array_vec_decode cap decode = do
    len ← usize_decode
    if ltb cap len then fail else times_decode decode len

  -- `impl Decode for ReminderVec<T>`: values until the buffer is used up, with fuel, since a decoder
  -- that takes no bytes would loop for ever; `none` outside the pair is that loop.
  unfoldable pub reminder_vec_decode : ℕ → Decode A → List ℕ → Option (Option (List A) × List ℕ)
  reminder_vec_decode fuel decode [] = some (some [], [])
  reminder_vec_decode zero decode (b ∷ bs) = none
  reminder_vec_decode (suc fuel) decode (b ∷ bs) =
      let (value, rest) = decode (b ∷ bs) in
      elim value [
        | none ↦ some (none, rest)
        | some x ↦
            Opt.◌>>=◌ (reminder_vec_decode fuel decode rest)
              (λ t. some (Option.map (λ xs. x ∷ xs) t.0, t.1))
      ]
