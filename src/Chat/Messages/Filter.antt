-- ===== src/Chat/Messages/Filter.antt =====
-- `retain_messages` against `unpack_messages`: filtering the packed bytes and reading them is
-- reading them and filtering the messages.
use onion_network.Base.{
  ℕ, zero, suc, ◌+◌, ◌^◌, ◌<◌, ◌≤◌, ◌≡◌, refl, ◌∙◌, none, some, Bool, List, [], ◌∷◌, ◌++◌, length,
  drop-length-append, filter, Bool-cases, inl, inr, arith, if◌then◌else◌,
}
use mathlib.Core.Path.{ap}
use onion_network.Chat.Messages.{next_message, unpack_loop, unpack_messages, retain_messages}
use onion_network.Chat.Messages.Unpack.{
  IsLength, stop, more, next_message-Ending, next_message-append, IsLength-append,
}
use onion_network.Chat.Messages.Retain.{
  retained, retained_stop, retained_more, retain_messages-retained,
}

unpack_loop-stop : (fuel : ℕ) (b : List ℕ) → next_message b ≡ none → unpack_loop fuel b ≡ []
unfolding unpack_loop
unpack_loop-stop zero b e = refl
unpack_loop-stop (suc fuel) b e = rw (e, unpack_loop)

unpack_loop-more :
    (fuel : ℕ) (b : List ℕ) {m rest : List ℕ}
    → next_message b ≡ some (m, rest)
    → unpack_loop (suc fuel) b ≡ m ∷ unpack_loop fuel rest
unfolding unpack_loop
unpack_loop-more fuel b e = rw (e, unpack_loop)

enough_more :
    (f g : ℕ) (b : List ℕ) {rest m : List ℕ}
    → length b ≡ length rest + length m + 2
    → next_message b ≡ some (m, rest)
    → length b ≤ f
    → length b ≤ g
    → ((f' g' : ℕ)
        → length rest ≤ f'
        → length rest ≤ g'
        → unpack_loop f' rest ≡ unpack_loop g' rest)
    → unpack_loop f b ≡ unpack_loop g b
enough_more zero g b size e h h' again = absurd (omega arith)
enough_more (suc f) zero b size e h h' again = absurd (omega arith)
enough_more (suc f) (suc g) b {rest} {m} size e h h' again =
    rw (unpack_loop-more f b e, unpack_loop-more g b e)
      (ap (λ r. m ∷ r) (again f g (omega arith) (omega arith)))

-- Fuel for every byte is enough.
enough_within :
    (bound f g : ℕ) (b : List ℕ)
    → length b < bound
    → length b ≤ f
    → length b ≤ g
    → length b < 2 ^ 63
    → unpack_loop f b ≡ unpack_loop g b
enough_within zero f g b s h h' k = absurd (omega arith)
enough_within (suc bound) f g b s h h' k = elim (next_message-Ending b k) [
  | stop e _ ↦ unpack_loop-stop f b e ∙ rw (unpack_loop-stop g b e) refl
  | more rest m lb split l e ↦
      let size : length b ≡ length rest + length m + 2 = rw split (IsLength-append rest m lb l) in
      enough_more f g b size e h h'
        (λ f' g' i i'. enough_within bound f' g' rest (omega arith) i i' (omega arith))
]

-- A message at the end of the buffer is the first one of the iterator.
pub unpack_messages-append :
    (pre m lb : List ℕ)
    → IsLength m lb
    → length (pre ++ (m ++ lb)) < 2 ^ 63
    → unpack_messages (pre ++ (m ++ lb)) ≡ m ∷ unpack_messages pre
unfolding unpack_messages
unpack_messages-append pre m lb l k =
    let size : length (pre ++ (m ++ lb)) ≡ suc (length pre + length m + 1) =
      omega (arith, IsLength-append pre m lb l) in
    rw
      (
        size,
        unpack_loop-more (length pre + length m + 1) (pre ++ (m ++ lb))
            (next_message-append pre m lb l k),
      )
      (ap (λ r. m ∷ r)
        (enough_within (suc (length pre)) (length pre + length m + 1) (length pre) pre (omega arith)
          (omega arith) (omega arith) (omega arith)))

module _ (p : List ℕ → Bool) where
  abbrev Filters : List ℕ → List ℕ → Type 0
  Filters kept b = (length kept ≤ length b) × (unpack_messages kept ≡ filter p (unpack_messages b))

  Filters-more :
      (rest kept m lb : List ℕ)
      → IsLength m lb
      → length (rest ++ (m ++ lb)) < 2 ^ 63
      → Filters kept rest
      → Filters (if p m then kept ++ (m ++ lb) else kept) (rest ++ (m ++ lb))
  Filters-more rest kept m lb l k (small, same) =
      let size = IsLength-append rest m lb l in
      let size' = IsLength-append kept m lb l in
      rw (unpack_messages-append rest m lb l k) (elim (Bool-cases (p m)) [
        | inl e ↦
            rw e
              (omega arith, unpack_messages-append kept m lb l (omega arith) ∙ ap (λ r. m ∷ r) same)
        | inr e ↦ rw e (omega arith, same)
      ])

  retained-Filters :
      (fuel : ℕ) (b : List ℕ) → length b < fuel → length b < 2 ^ 63 → Filters (retained p fuel b) b
  retained-Filters zero b h k = absurd (omega arith)
  retained-Filters (suc fuel) b h k = elim (next_message-Ending b k) [
    | stop e _ ↦
        rw (retained_stop p fuel b e)
          (omega arith, unfold unpack_messages in rw (unpack_loop-stop (length b) b e) refl)
    | more rest m lb split l e ↦
        let size : length b ≡ length rest + length m + 2 = rw split (IsLength-append rest m lb l) in
        rw (retained_more p fuel b e, split, drop-length-append rest (m ++ lb))
          (Filters-more rest (retained p fuel rest) m lb l (rw (← split) k)
            (retained-Filters fuel rest (omega arith) (omega arith)))
  ]

  -- On a buffer of less than 2 ^ 63 bytes `retain_messages` ends and returns a buffer that is not
  -- longer, from which `unpack_messages` reads those messages of the old one that pass, in order.
  pub retain_messages-unpack_messages :
      (buffer : List ℕ)
      → length buffer < 2 ^ 63
      → (kept : List ℕ) × (retain_messages p buffer ≡ some kept)
        × (length kept ≤ length buffer)
        × (unpack_messages kept ≡ filter p (unpack_messages buffer))
  retain_messages-unpack_messages buffer h =
      let kept = retained p (suc (length buffer)) buffer in
      let (small, same) = retained-Filters (suc (length buffer)) buffer (omega arith) h in
      (kept, retain_messages-retained p buffer h, small, same)
