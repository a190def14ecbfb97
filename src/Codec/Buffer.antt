-- ===== src/Codec/Buffer.antt =====
-- utils/codec/src/lib.rs, impls.rs and std_impls.rs: the `Buffer` trait and its implementations.
-- A buffer is a state with two writes, each of which may refuse. No caller reads a buffer that has
-- refused a write, so a refusal is `none` and drops the state.
pub mod Laws
use onion_network.Base.{
  ℕ, ◌+◌, ◌-◌, ◌≡◌, Option, none, some, List, [], ◌∷◌, ◌++◌, length, ltb, leb, if◌then◌else◌,
}
use onion_network.Base.Opt.{◌>>=◌}

pub record Buffer : Type 1 where
  pub State : Type 0
  pub push : State → ℕ → Option State
  pub extend_from_slice : State → List ℕ → Option State

-- The default body of `Buffer::extend_from_slice`: `slice.iter().try_for_each(|&b| self.push(b))`.
unfoldable pub push_all {ℓ} : {S : Type ℓ} → (S → ℕ → Option S) → S → List ℕ → Option S
push_all push s [] = some s
push_all push s (b ∷ bs) = do s' ← push s b; push_all push s' bs

-- What the encoders rely on: a slice is written as its bytes are, one after the other.
pub record IsBuffer (B : Buffer) : Type 0 where
  pub extend_bytes : (s : B.State) (bs : List ℕ) → B.extend_from_slice s bs ≡ push_all B.push s bs

-- `impl Buffer for Vec<u8>` and for `SmallVec`, which never refuse.
abbrev pub vec_buffer : Buffer
vec_buffer = record {
  State = List ℕ;
  push = λ s b. some (s ++ (b ∷ []));
  extend_from_slice = λ s bs. some (s ++ bs);
}

-- `impl Buffer for ArrayVec<u8, SIZE>`: `try_push` and `try_extend_from_slice` refuse what is
-- longer than `remaining_capacity()`.
abbrev pub array_buffer : ℕ → Buffer
array_buffer size = record {
  State = List ℕ;
  push = λ s b. if ltb (length s) size then some (s ++ (b ∷ [])) else none;
  extend_from_slice = λ s bs. if leb (length bs) (size - length s) then some (s ++ bs) else none;
}

-- `impl Buffer for &mut [u8]`: what is written so far, and how many bytes are left.
pub record Slice : Type 0 where
  pub written : List ℕ
  pub left : ℕ

abbrev pub slice_buffer : Buffer
slice_buffer = record {
  State = Slice;
  push = λ s b.
      if ltb 0 s.left
      then some (record { written = s.written ++ (b ∷ []); left = s.left - 1 })
      else none;
  extend_from_slice = λ s bs.
      if leb (length bs) s.left
      then some (record { written = s.written ++ bs; left = s.left - length bs })
      else none;
}

-- `LenCounter` of `encoded_len`.
abbrev pub len_counter : Buffer
len_counter = record {
  State = ℕ;
  push = λ n b. some (n + 1);
  extend_from_slice = λ n bs. some (n + length bs);
}
