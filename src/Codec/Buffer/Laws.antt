-- ===== src/Codec/Buffer/Laws.antt =====
-- The four buffers write a slice as its bytes, and a write distributes over appended bytes.
use onion_network.Base.{
  ℕ, ◌+◌, ◌-◌, ◌≡◌, refl, sym, Option, none, some, List, [], ◌∷◌, ◌++◌, append_assoc, append-nil,
  length, length-append, arith, ◌∙◌,
}
use onion_network.Base.Opt.{◌>>=◌}
use onion_network.Codec.Buffer.{
  IsBuffer, push_all, vec_buffer, array_buffer, Slice, slice_buffer, len_counter,
}

bind-push_all-append {ℓ} :
    {S : Type ℓ} (push : S → ℕ → Option S) (xs ys : List ℕ) (o : Option S)
    → ((s : S) → push_all push s (xs ++ ys) ≡ (push_all push s xs >>= λ s'. push_all push s' ys))
    → (o >>= λ s. push_all push s (xs ++ ys))
      ≡ ((o >>= λ s. push_all push s xs) >>= λ s'. push_all push s' ys)
bind-push_all-append push xs ys none h = refl
bind-push_all-append push xs ys (some s) h = h s

-- Writing `xs ++ ys` is writing `xs`, and then `ys` if that was not refused.
pub push_all-append {ℓ} :
    {S : Type ℓ} (push : S → ℕ → Option S) (s : S) (xs ys : List ℕ)
    → push_all push s (xs ++ ys) ≡ (push_all push s xs >>= λ s'. push_all push s' ys)
unfolding push_all
push_all-append push s [] ys = refl
push_all-append push s (x ∷ xs) ys =
    bind-push_all-append push xs ys (push s x) (λ s'. push_all-append push s' xs ys)

pub vec_pushes : (s bs : List ℕ) → push_all vec_buffer.push s bs ≡ some (s ++ bs)
unfolding push_all
vec_pushes s [] = rw append-nil
vec_pushes s (b ∷ bs) = vec_pushes (s ++ (b ∷ [])) bs ∙ rw append_assoc

array_pushes :
    (size : ℕ) (s bs : List ℕ)
    → push_all (array_buffer size).push s bs ≡ (array_buffer size).extend_from_slice s bs
unfolding push_all
array_pushes size s [] = rw append-nil (ground arith)
array_pushes size s (b ∷ bs) = ground (
  arith,
  append_assoc s (b ∷ []) bs,
  length-append s (b ∷ []),
  array_pushes size (s ++ (b ∷ [])) bs,
)

slice_pushes :
    (s : Slice) (bs : List ℕ)
    → push_all slice_buffer.push s bs ≡ slice_buffer.extend_from_slice s bs
unfolding push_all
slice_pushes s [] = rw append-nil (ground arith)
slice_pushes s (b ∷ bs) = ground (
  arith,
  append_assoc s.written (b ∷ []) bs,
  slice_pushes (record { written = s.written ++ (b ∷ []); left = s.left - 1 }) bs,
)

len_pushes : (n : ℕ) (bs : List ℕ) → push_all len_counter.push n bs ≡ some (n + length bs)
unfolding push_all
len_pushes n [] = ground arith
len_pushes n (b ∷ bs) = ground (arith, len_pushes (n + 1) bs)

pub IsBuffer-vec : IsBuffer vec_buffer
IsBuffer-vec = record { extend_bytes = λ s bs. sym (vec_pushes s bs) }

pub IsBuffer-array : (size : ℕ) → IsBuffer (array_buffer size)
IsBuffer-array size = record { extend_bytes = λ s bs. sym (array_pushes size s bs) }

pub IsBuffer-slice : IsBuffer slice_buffer
IsBuffer-slice = record { extend_bytes = λ s bs. sym (slice_pushes s bs) }

pub IsBuffer-len_counter : IsBuffer len_counter
IsBuffer-len_counter = record { extend_bytes = λ s bs. sym (len_pushes s bs) }
