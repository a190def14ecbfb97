-- ===== src/Chat/Messages/Move.antt =====
-- `move_mem`: the pending bytes go over the hole, to the front of what is kept.
use onion_network.Base.{
  ℕ, ◌+◌, ◌-◌, ◌≡◌, refl, true, false, List, [], ◌∷◌, ◌++◌, length, length-append, length-take,
  take, ◌==◌, ==_iff, Bool-cases, inl, inr, arith,
}
use onion_network.Chat.Messages.{Cursors, move_mem}
use onion_network.Chat.Messages.Slices.{Cursors-eq, copy_lem}

-- The buffer with the pending bytes at the end of `base`, and the same with them moved.
abbrev pub before : ℕ → List ℕ → List ℕ → List ℕ → List ℕ → Cursors
before c base pend hole out = record {
  mem = base ++ (pend ++ (hole ++ out));
  write_cursor = length base + length pend + length hole;
  cursor = c;
  hole_end = length base + length pend;
}

abbrev pub after : ℕ → List ℕ → List ℕ → List ℕ → List ℕ → Cursors
after c base pend hole out = record {
  mem = base ++ (hole ++ (pend ++ out));
  write_cursor = length base + length hole;
  cursor = c;
  hole_end = length base + length pend;
}

abbrev pub Moved : ℕ → ℕ → List ℕ → List ℕ → List ℕ → List ℕ → Type 0
Moved len c base pend hole out =
    (hole' : List ℕ) × (length hole' ≡ length hole)
    × (move_mem len (before c base pend hole out) ≡ after c base pend hole' out)

move_mem-still :
    (len c : ℕ) (base pend hole out : List ℕ)
    → c + len ≡ length base
    → (length base + length pend == c) ≡ true
    → Moved len c base pend hole out
unfolding move_mem
move_mem-still len c base [] hole out h e =
    (hole, refl, rw e (Cursors-eq refl (omega arith) refl refl))
move_mem-still len c base (x ∷ pend) hole out h e = absurd (omega (arith, (==_iff _ _).0 e))

move_mem-no_hole :
    (len c : ℕ) (base pend hole out : List ℕ)
    → c + len ≡ length base
    → (length base + length pend == c) ≡ false
    → (length base + length pend == length base + length pend + length hole) ≡ true
    → Moved len c base pend hole out
unfolding move_mem
move_mem-no_hole len c base pend [] out h e t =
    ([], refl, rw (e, t) (Cursors-eq refl (omega arith) refl refl))
move_mem-no_hole len c base pend (x ∷ hole) out h e t = absurd (omega (arith, (==_iff _ _).0 t))

move_mem-copy :
    (len c : ℕ) (base pend hole out : List ℕ)
    → c + len ≡ length base
    → (length base + length pend == c) ≡ false
    → (length base + length pend == length base + length pend + length hole) ≡ false
    → Moved len c base pend hole out
unfolding move_mem
move_mem-copy len c base pend hole out h e t =
    let hole' = take (length hole) (pend ++ (hole ++ out)) in
    let size : length hole' ≡ length hole = omega (
      arith,
      length-take (length hole) (pend ++ (hole ++ out)),
      length-append pend (hole ++ out),
      length-append hole out,
    ) in
    let write_len : length base + length pend - c - len ≡ length pend = omega arith in
    let src : length base + length pend - length pend ≡ length base = omega arith in
    let dst : length base + length pend + length hole - length pend ≡ length base + length hole =
      omega arith in
    (
      hole',
      size,
      rw (e, t, write_len, src, dst)
          (Cursors-eq (copy_lem base pend hole out) (omega arith) refl refl),
    )

pub move_mem_lem :
    (len c : ℕ) (base pend hole out : List ℕ)
    → c + len ≡ length base
    → Moved len c base pend hole out
move_mem_lem len c base pend hole out h = elim (Bool-cases (length base + length pend == c)) [
  | inl e ↦ move_mem-still len c base pend hole out h e
  | inr e ↦
      elim (Bool-cases (length base + length pend == length base + length pend + length hole)) [
        | inl t ↦ move_mem-no_hole len c base pend hole out h e t
        | inr t ↦ move_mem-copy len c base pend hole out h e t
      ]
]
