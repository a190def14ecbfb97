-- ===== src/Ratchet/Kept.antt =====
-- crypto/double-ratchet/src/lib.rs: the secrets that are kept for the messages of a chain that
-- are skipped.
use onion_network.Base.{
  ℕ, zero, suc, ◌+◌, ◌^◌, ◌<◌, ◌≤◌, ◌≡◌, ◌≢◌, refl, sym, ap, ◌∙◌, Bool, none, some, true, false,
  List, [], ◌∷◌, ◌++◌, length, any, Bool-cases, inl, inr, if◌then◌else◌, append_assoc, append-nil,
  length-append, ==_refl, ◌==◌, lt→leb, arith,
}
use onion_network.Ratchet.Chain.{Primitives, Chain, next_sc}
use onion_network.Ratchet.Session.{
  MessageId, DoubleRatchet, keep_one, keep_missing, take_missing, same_id,
  max_kept_missing_messages,
}

abbrev pub came_already : ℕ → List ℕ → Bool
came_already x xs = any (λ y. y == x) xs

module _ (prim : Primitives) where
  abbrev pub after_keys : ℕ → Chain → Chain
  after_keys zero c = c
  after_keys (suc n) c = after_keys n ((next_sc prim c).1)

  abbrev pub key_of : ℕ → Chain → ℕ
  key_of n c = (next_sc prim (after_keys n c)).0

  -- The entries for so many messages of a chain.
  abbrev pub skipped : ℕ → ℕ → ℕ → Chain → List (MessageId × ℕ)
  skipped r zero sub c = []
  skipped r (suc n) sub c =
      (record { step = r; sub_step = sub }, (next_sc prim c).0)
      ∷ skipped r n (sub + 1) ((next_sc prim c).1)

  -- The same entries without those of the messages that came already.
  abbrev pub left_over : ℕ → ℕ → ℕ → Chain → List ℕ → List (MessageId × ℕ)
  left_over r zero sub c came = []
  left_over r (suc n) sub c came =
      let rest = left_over r n (sub + 1) ((next_sc prim c).1) came in
      if came_already sub came
      then rest
      else (record { step = r; sub_step = sub }, (next_sc prim c).0) ∷ rest

  pub left_over-skipped : (r n sub : ℕ) (c : Chain) → left_over r n sub c [] ≡ skipped r n sub c
  left_over-skipped r zero sub c = refl
  left_over-skipped r (suc n) sub c =
      ap (λ l. (record { step = r; sub_step = sub }, (next_sc prim c).0) ∷ l)
        (left_over-skipped r n (sub + 1) ((next_sc prim c).1))

  pub step-after_keys :
      (n : ℕ) (c : Chain) → c.step + n < 2 ^ 32 → (after_keys n c).step ≡ c.step + n
  step-after_keys zero c h = omega arith
  step-after_keys (suc n) c h =
      let rest = step-after_keys n ((next_sc prim c).1) (omega (arith, h)) in omega (arith, rest, h)

  pub next-after_keys :
      (n : ℕ) (c : Chain) → (next_sc prim (after_keys n c)).1 ≡ after_keys n ((next_sc prim c).1)
  next-after_keys zero c = refl
  next-after_keys (suc n) c = next-after_keys n ((next_sc prim c).1)

  abbrev entry : ℕ → DoubleRatchet → MessageId × ℕ
  entry sub d = (record { step = (d.root).step; sub_step = sub }, (next_sc prim d.receiver).0)

  abbrev kept : ℕ → DoubleRatchet → DoubleRatchet
  kept sub d = record d {
    receiver = (next_sc prim d.receiver).1;
    missing_messages = d.missing_messages ++ (entry sub d ∷ []);
  }

  keep_one-room :
      (sub : ℕ) (d : DoubleRatchet)
      → length d.missing_messages < max_kept_missing_messages
      → keep_one prim sub d ≡ kept sub d
  unfolding keep_one
  keep_one-room sub d room =
      rw (lt→leb max_kept_missing_messages (length d.missing_messages) room) refl

  pub keep_missing-skipped :
      (n sub : ℕ) (d : DoubleRatchet)
      → length d.missing_messages + n ≤ max_kept_missing_messages
      → keep_missing prim n sub d ≡ record d {
        receiver = after_keys n d.receiver;
        missing_messages = d.missing_messages ++ skipped (d.root).step n sub d.receiver;
      }
  unfolding keep_missing
  keep_missing-skipped zero sub d room =
      ap (λ l. record d { missing_messages = l }) (sym (append-nil d.missing_messages))
  keep_missing-skipped (suc n) sub d room =
      rw
        (
          keep_one-room sub d (omega (arith, room)),
          keep_missing-skipped n (sub + 1) (kept sub d) (omega (arith, room, longer)),
          append_assoc d.missing_messages (entry sub d ∷ [])
              (skipped (d.root).step n (sub + 1) ((next_sc prim d.receiver).1)),
        )
        refl
    where
      longer : length (d.missing_messages ++ (entry sub d ∷ [])) ≡ length d.missing_messages + 1
      longer = length-append d.missing_messages (entry sub d ∷ [])

  same_id_self :
      (r s : ℕ) (id : MessageId)
      → id.step ≡ r
      → id.sub_step ≡ s
      → same_id (record { step = r; sub_step = s }) id ≡ true
  same_id_self r s id root sub = rw (root, sub, ==_refl r, ==_refl s) refl

  same_id_other :
      (r s : ℕ) (id : MessageId)
      → id.step ≡ r
      → s ≢ id.sub_step
      → same_id (record { step = r; sub_step = s }) id ≡ false
  same_id_other r s id root sub = rw (root, ==_refl r, differs) refl
    where
      differs : (s == id.sub_step) ≡ false
      differs = ground arith

  take_missing-earlier :
      (r n sub : ℕ) (c : Chain) (id : MessageId) (came : List ℕ)
      → id.step ≡ r
      → id.sub_step < sub
      → take_missing id (left_over r n sub c came) ≡ none
  take_missing-earlier r zero sub c id came root h = refl
  take_missing-earlier r (suc n) sub c id came root h =
      let rest : take_missing id (left_over r n (sub + 1) ((next_sc prim c).1) came) ≡ none =
        take_missing-earlier r n (sub + 1) ((next_sc prim c).1) id came root (omega (arith, h)) in
      elim (Bool-cases (came_already sub came)) [
        | inl gone ↦ rw gone rest
        | inr there ↦ rw (there, same_id_other r sub id root (omega (arith, h)), rest) refl
      ]

  -- A message from before the entries takes none of them.
  left_over-earlier :
      (r n sub s : ℕ) (c : Chain) (came : List ℕ)
      → s < sub
      → left_over r n sub c (s ∷ came) ≡ left_over r n sub c came
  left_over-earlier r zero sub s c came h = refl
  left_over-earlier r (suc n) sub s c came h =
      rw (differs, left_over-earlier r n (sub + 1) s ((next_sc prim c).1) came (omega (arith, h)))
        refl
    where
      differs : (s == sub) ≡ false
      differs = ground (arith, h)

  -- The entry of a message that came already is not found.
  pub take_missing-came :
      (r n sub : ℕ) (c : Chain) (id : MessageId) (came : List ℕ)
      → id.step ≡ r
      → came_already id.sub_step came ≡ true
      → take_missing id (left_over r n sub c came) ≡ none
  take_missing-came r zero sub c id came root h = refl
  take_missing-came r (suc n) sub c id came root h =
      let rest : take_missing id (left_over r n (sub + 1) ((next_sc prim c).1) came) ≡ none =
        take_missing-came r n (sub + 1) ((next_sc prim c).1) id came root h in
      elim (Bool-cases (came_already sub came)) [
        | inl gone ↦ rw gone rest
        | inr there ↦ rw (there, same_id_other r sub id root (other there), rest) refl
      ]
    where
      other : came_already sub came ≡ false → sub ≢ id.sub_step
      other there e =
          absurd
            (let both = sym there ∙ ap (λ x. came_already x came) e ∙ h in ground (arith, both))

  -- The entry of one that did not is found, and the others are left.
  pub take_missing-left_over :
      (r n sub j : ℕ) (c : Chain) (id : MessageId) (came : List ℕ)
      → id.step ≡ r
      → id.sub_step ≡ sub + j
      → j < n
      → came_already id.sub_step came ≡ false
      → take_missing id (left_over r n sub c came)
        ≡ some (key_of j c, left_over r n sub c (id.sub_step ∷ came))
  take_missing-left_over r zero sub j c id came root e h new = absurd (omega (arith, h))
  take_missing-left_over r (suc n) sub zero c id came root e h new =
      rw (there, here, same_id_self r sub id root at, earlier) refl
    where
      at : id.sub_step ≡ sub
      at = omega (arith, e)

      there : came_already sub came ≡ false
      there = ap (λ x. came_already x came) (sym at) ∙ new

      here : (id.sub_step == sub) ≡ true
      here = ground (arith, at)

      earlier :
          left_over r n (sub + 1) ((next_sc prim c).1) (id.sub_step ∷ came)
          ≡ left_over r n (sub + 1) ((next_sc prim c).1) came
      earlier =
          left_over-earlier r n (sub + 1) id.sub_step ((next_sc prim c).1) came (omega (arith, at))
  take_missing-left_over r (suc n) sub (suc j) c id came root e h new =
      let rest : take_missing id (left_over r n (sub + 1) ((next_sc prim c).1) came)
          ≡ some (
            key_of j ((next_sc prim c).1),
            left_over r n (sub + 1) ((next_sc prim c).1) (id.sub_step ∷ came),
          ) =
        take_missing-left_over r n (sub + 1) j ((next_sc prim c).1) id came root (omega (arith, e))
          (omega (arith, h)) new in
      elim (Bool-cases (came_already sub came)) [
        | inl gone ↦ rw (gone, differs, rest) refl
        | inr there ↦ rw (there, differs, same_id_other r sub id root (omega (arith, e)), rest) refl
      ]
    where
      differs : (id.sub_step == sub) ≡ false
      differs = ground (arith, e)
