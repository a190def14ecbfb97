-- ===== src/Codec/Traits/Laws.antt =====
-- What the provided methods of `Encode` and `Decode` return for a type with a codec.
use onion_network.Base.{
  ℕ, ◌≡◌, sym, ◌∙◌, none, some, List, [], ◌∷◌, ◌++◌, append-nil, length, leb, if◌then◌else◌, arith,
}
use onion_network.Base.Opt.{◌>>=◌}
use onion_network.Codec.Buffer.{vec_buffer, slice_buffer, len_counter}
use onion_network.Codec.Buffer.Laws.{IsBuffer-vec, IsBuffer-slice, IsBuffer-len_counter}
use onion_network.Codec.Reader.{Decode}
use onion_network.Codec.Traits.{
  Encode, to_bytes, encoded_len, encode_to_slice, decode_exact, IsEncoder, IsDecoder,
}

module _ {A : Type 0} {encode : Encode A} {bytes : A → List ℕ} (e : IsEncoder encode bytes) where
  pub to_bytes-eq : (a : A) → to_bytes encode a ≡ some (bytes a)
  unfolding to_bytes
  to_bytes-eq a =
      e.writes vec_buffer IsBuffer-vec a [] ∙ sym (IsBuffer-vec.extend_bytes [] (bytes a))

  -- The provided methods agree: `encoded_len` is the number of bytes that `to_bytes` returns, and
  -- `encode_to_slice` writes those bytes exactly when they fit.
  pub encode_methods :
      (a : A) (len : ℕ)
      → (to_bytes encode a ≡ some (bytes a))
        × (encoded_len encode a ≡ some (length (bytes a)))
        × (encode_to_slice encode len a
            ≡ (if leb (length (bytes a)) len then some (bytes a) else none))
  unfolding encoded_len encode_to_slice
  encode_methods a len = (
    to_bytes-eq a,
    e.writes len_counter IsBuffer-len_counter a 0
        ∙ sym (IsBuffer-len_counter.extend_bytes 0 (bytes a))
        ∙ ground arith,
    rw
        (
          e.writes slice_buffer IsBuffer-slice a (record { written = []; left = len }),
          ← IsBuffer-slice.extend_bytes (record { written = []; left = len }) (bytes a),
        )
        (ground arith),
  )

  module _ {decode : Decode A} {Valid : A → Type 0} (d : IsDecoder decode bytes Valid) where
    -- `decode_exact` of `to_bytes` is the value.
    pub decode_exact-to_bytes :
        (a : A) → Valid a → (to_bytes encode a >>= decode_exact decode) ≡ some a
    unfolding decode_exact
    decode_exact-to_bytes a v = rw to_bytes-eq (rw (append-nil, decode_exact) at (ap_finish a v))
      where
        ap_finish : (a : A) → Valid a → decode_exact decode (bytes a ++ []) ≡ some a
        ap_finish a v = rw (d.reads a [] v)

    -- `decode_exact` refuses bytes behind the value.
    pub decode_exact-more :
        (a : A) (b : ℕ) (bs : List ℕ) → Valid a → decode_exact decode (bytes a ++ (b ∷ bs)) ≡ none
    unfolding decode_exact
    decode_exact-more a b bs v = rw (d.reads a (b ∷ bs) v)
