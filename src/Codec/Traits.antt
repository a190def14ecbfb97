-- ===== src/Codec/Traits.antt =====
-- utils/codec/src/lib.rs: the `Encode` and `Decode` traits with their provided methods, and what it
-- is for a type to have a codec.
pub mod Laws
use onion_network.Base.{
  ℕ, zero, suc, ◌≡◌, Option, none, some, Bool, true, false, List, [], ◌∷◌, ◌++◌,
}
use onion_network.Base.Opt.{◌>>=◌, then_some}
use onion_network.Codec.Buffer.{
  Buffer, IsBuffer, push_all, vec_buffer, Slice, slice_buffer, len_counter,
}
use onion_network.Codec.Reader.{Decode}

-- An encoder works on every buffer.
abbrev pub Encode : Type 0 → Type 1
Encode A = (B : Buffer) → A → B.State → Option B.State

-- `to_bytes`; `none` stands for its panic.
unfoldable pub to_bytes : {A : Type 0} → Encode A → A → Option (List ℕ)
to_bytes encode a = encode vec_buffer a []

-- `encoded_len`
unfoldable pub encoded_len : {A : Type 0} → Encode A → A → Option ℕ
encoded_len encode a = encode len_counter a 0

-- `encode_to_slice`, into a slice of `len` bytes: the part of the slice that was written.
unfoldable pub encode_to_slice : {A : Type 0} → Encode A → ℕ → A → Option (List ℕ)
encode_to_slice encode len a = do
  buffer ← encode slice_buffer a (record { written = []; left = len })
  some buffer.written

is_empty : List ℕ → Bool
is_empty [] = true
is_empty (b ∷ bs) = false

finish : {A : Type 0} → Option A × List ℕ → Option A
unfolding is_empty
finish (none, rest) = none
finish (some value, rest) = then_some (is_empty rest) value

-- `decode_exact`, as the release build has it, without the `debug_assert`.
unfoldable pub decode_exact : {A : Type 0} → Decode A → List ℕ → Option A
unfolding finish
decode_exact decode buffer = finish (decode buffer)

-- `find_decode_reminder`, with fuel: a decoder that takes no bytes would loop for ever.
unfoldable pub find_decode_reminder : {A : Type 0} → Decode A → ℕ → List ℕ → Option (List ℕ)
find_decode_reminder decode zero buffer = none
find_decode_reminder decode (suc fuel) buffer =
    let (value, rest) = decode buffer in
    elim value [ none ↦ some rest | some v ↦ find_decode_reminder decode fuel rest ]

-- `encode` writes `bytes a` for `a`, into every buffer.
pub record IsEncoder {A : Type 0} (encode : Encode A) (bytes : A → List ℕ) : Type 1 where
  pub writes :
      (B : Buffer) → IsBuffer B → (a : A) (s : B.State) → encode B a s ≡ push_all B.push s (bytes a)

-- `decode` reads the valid values back, and leaves what follows them.
pub record IsDecoder {A : Type 0} (decode : Decode A) (bytes : A → List ℕ) (Valid : A → Type 0)
    : Type 0 where
  pub reads : (a : A) (rest : List ℕ) → Valid a → decode (bytes a ++ rest) ≡ (some a, rest)
