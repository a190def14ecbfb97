-- ===== src/Chat/Topics.antt =====
-- chat/spec/src/lib.rs, crypto/crypto/src/proof.rs: topics in the 32 bytes of a request's header,
-- and constant contexts of proofs.
use onion_network.Base.{
  ℕ, zero, suc, ◌-◌, ◌^◌, ◌<◌, ◌≤◌, ◌≡◌, ◌≢◌, refl, Option, none, some, Bool, true, false, List, [],
  ◌∷◌, ◌++◌, length, length-append, length-replicate, take, replicate, All, take-length-append, ltb,
  leb, le→leb, ◌==◌, Bool-cases, inl, inr, arith, if◌then◌else◌,
}
use onion_network.Codec.Reader.{Decode, pure, fail, ◌>>=◌}
use onion_network.Codec.Traits.{Encode, to_bytes}
use onion_network.Codec.Traits.Laws.{to_bytes-eq}
use onion_network.Codec.Int.{int_encode, int_decode}
use onion_network.Codec.Int.Laws.{int_bytes, int_encode-IsEncoder, int_decode-IsDecoder}
use onion_network.Codec.Text.{is_utf8}
use onion_network.Codec.Text.Laws.{is_utf8-clean}

-- A profile by the 32 bytes of its identity, or a chat by the bytes of its name.
pub data Topic : Type 0 where
  profile : List ℕ → Topic
  chat : List ℕ → Topic

abbrev pub topic_bytes : Topic → List ℕ
topic_bytes (profile i) = i
topic_bytes (chat c) = c

-- `compress`; `none` is the panic on more than 32 bytes.
unfoldable pub compress : Topic → Option (List ℕ)
compress topic =
    let bts = topic_bytes topic in
    if leb (length bts) 32 then some (bts ++ replicate (32 - length bts) 255) else none

-- The number of bytes in front of the run of 0xff that ends the slice.
unfoldable pub trimmed_len : List ℕ → ℕ
trimmed_len [] = 0
trimmed_len (b ∷ bs) =
    let rest = trimmed_len bs in if rest == 0 then (if b == 255 then 0 else 1) else suc rest

-- `decompress`; a slice of at most 32 bytes always fits in a name.
unfoldable pub decompress : List ℕ → Topic
unfolding trimmed_len
decompress bytes =
    let bts = take (trimmed_len bytes) bytes in if is_utf8 bts then chat bts else profile bytes

trimmed_len-replicate : (n : ℕ) → trimmed_len (replicate n 255) ≡ 0
unfolding trimmed_len
trimmed_len-replicate zero = refl
trimmed_len-replicate (suc n) = rw (trimmed_len-replicate n) refl

-- Bytes without 0xff end where they end.
trimmed_len-clean : (bs : List ℕ) → All (λ b. b ≢ 255) bs → trimmed_len bs ≡ length bs
unfolding trimmed_len
trimmed_len-clean [] clean = refl
trimmed_len-clean (b ∷ []) (other, clean) = rw differs refl
  where
    differs : (b == 255) ≡ false
    differs = ground (arith, other)
trimmed_len-clean (b ∷ c ∷ bs) (other, clean) =
    rw (trimmed_len-clean (c ∷ bs) clean, some_left) refl
  where
    some_left : (suc (length bs) == 0) ≡ false
    some_left = ground arith

trimmed_len-append : (bs : List ℕ) (n : ℕ) → trimmed_len (bs ++ replicate n 255) ≡ trimmed_len bs
unfolding trimmed_len
trimmed_len-append [] n = trimmed_len-replicate n
trimmed_len-append (b ∷ bs) n = rw (trimmed_len-append bs n) refl

-- A name of at most 32 bytes that is valid UTF-8 comes back from its header: the byte 0xff that fills
-- the header is none of the name.
pub decompress-compress :
    (name : List ℕ)
    → length name ≤ 32
    → is_utf8 name ≡ true
    → (bytes : List ℕ) × (compress (chat name) ≡ some bytes)
      × (length bytes ≡ 32)
      × (decompress bytes ≡ chat name)
unfolding compress decompress
decompress-compress name short text =
    let bytes = name ++ replicate (32 - length name) 255 in
    let fits : leb (length name) 32 ≡ true = le→leb _ _ short in
    (
      bytes,
      rw fits refl,
      omega (
        arith,
        length-append name (replicate (32 - length name) 255),
        length-replicate {A = ℕ} (32 - length name) 255,
      ),
      rw
          (
            trimmed_len-append name (32 - length name),
            trimmed_len-clean name (is_utf8-clean name text),
            take-length-append name (replicate (32 - length name) 255),
            text,
          )
          refl,
    )

-- `advance_nonce` of the specification, on the client's side: the nonce that it leaves, and its result.
unfoldable pub advance_current : ℕ → ℕ → ℕ × Bool
advance_current current new = if ltb current new then (new, true) else (current, false)

-- `ConstContext<N>`
unfoldable pub const_context_encode : ℕ → Encode (Unit {0})
const_context_encode n B u s = int_encode B n s

unfoldable pub const_context_decode : ℕ → Decode (Unit {0})
const_context_decode n = do v ← int_decode 64; if v == n then pure tt else fail

check_lem :
    (n m : ℕ) (rest : List ℕ)
    → int_decode 64 (int_bytes m ++ rest) ≡ (some m, rest)
    → const_context_decode n (int_bytes m ++ rest) ≡ (if m == n then some tt else none, rest)
unfolding const_context_decode
check_lem n m rest e = elim (Bool-cases (m == n)) [
  | inl same ↦ rw (e, same) refl
  | inr other ↦ rw (e, other) refl
]

-- A context of `m` is accepted where `n` is demanded exactly when they are equal.
pub const_context-checks :
    (n m : ℕ) (rest : List ℕ)
    → m < 2 ^ 64
    → (bs : List ℕ) × (to_bytes (const_context_encode m) tt ≡ some bs)
      × (const_context_decode n (bs ++ rest) ≡ (if m == n then some tt else none, rest))
unfolding const_context_encode const_context_decode to_bytes
const_context-checks n m rest small = (
  int_bytes m,
  to_bytes-eq int_encode-IsEncoder m,
  check_lem n m rest ((int_decode-IsDecoder 64 (omega arith)).reads m rest small),
)
