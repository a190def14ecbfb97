-- ===== src/Chat/Messages/Retain.antt =====
-- `retain_messages` keeps exactly the messages that pass, in their order and unchanged.
use onion_network.Base.{
  ℕ, zero, suc, ◌+◌, ◌-◌, ◌^◌, ◌<◌, ◌≡◌, refl, ap, ◌∙◌, Option, none, some, Bool, true, false, List,
  [], ◌++◌, append_assoc, append-nil, length, length-append, drop, drop-length-append, ltb, ltb→le,
  le→ltb, Bool-cases, inl, inr, arith, if◌then◌else◌,
}
use onion_network.Base.Opt.{◌>>=◌}
use onion_network.Chat.Messages.{
  next_message, Cursors, sub_slice, move_mem, visit, retain_loop, retain_messages,
}
use onion_network.Chat.Messages.Unpack.{
  IsLength, IsShort, stop, more, next_message-Ending, next_message-append, IsLength-append,
}
use onion_network.Chat.Messages.Slices.{Cursors-eq, drop-add, sub_slice_tail, sub_slice_at}
use onion_network.Chat.Messages.Move.{before, Moved, move_mem_lem}

-- The records of the messages that pass, in the order of the buffer.
pub retained : (List ℕ → Bool) → ℕ → List ℕ → List ℕ
retained p zero b = []
retained p (suc fuel) b = elim (next_message b) [
  | none ↦ []
  | some (m, rest) ↦
      let kept = retained p fuel rest in if p m then kept ++ drop (length rest) b else kept
]

pub retained_stop :
    (p : List ℕ → Bool) (fuel : ℕ) (b : List ℕ)
    → next_message b ≡ none
    → retained p (suc fuel) b ≡ []
unfolding retained
retained_stop p fuel b e = rw (e, retained)

pub retained_more :
    (p : List ℕ → Bool) (fuel : ℕ) (b : List ℕ) {m rest : List ℕ}
    → next_message b ≡ some (m, rest)
    → retained p (suc fuel) b
      ≡ (if p m then retained p fuel rest ++ drop (length rest) b else retained p fuel rest)
unfolding retained
retained_more p fuel b e = rw (e, retained)

-- What the code does behind its loop.
abbrev region : Cursors → List ℕ
region st = drop st.write_cursor st.mem

abbrev finish : Option Cursors → Option (List ℕ)
finish o = o >>= λ st. some (region (move_mem 0 st))

finish_lem :
    (base pend hole out : List ℕ)
    → region (move_mem 0 (before (length base) base pend hole out)) ≡ pend ++ out
finish_lem base pend hole out =
    let (hole', size, e) = move_mem_lem 0 (length base) base pend hole out (omega arith) in
    rw (e, drop-add base (hole' ++ (pend ++ out)) (length hole'))
      (drop-length-append hole' (pend ++ out))

visit_slice :
    (base m lb back : List ℕ) → sub_slice (length base) (length m) ((base ++ (m ++ lb)) ++ back) ≡ m
visit_slice base m lb back =
    let regroup : (base ++ (m ++ lb)) ++ back ≡ base ++ (m ++ (lb ++ back)) = simp append_assoc in
    rw regroup (sub_slice_at base m (lb ++ back))

module _ (p : List ℕ → Bool) where
  loop_stop :
      (fuel : ℕ) (base pend hole out : List ℕ)
      → IsShort base
      → retain_loop (suc fuel) p (before (length base) base pend hole out)
        ≡ some (before (length base) base pend hole out)
  unfolding retain_loop
  loop_stop fuel base pend hole out (inl few) = rw few
  loop_stop fuel base pend hole out (inr (many, short)) =
      rw (many, sub_slice_tail 2 base (pend ++ (hole ++ out)) (ltb→le _ _ many), short)

  loop_step :
      (fuel : ℕ) (base m lb pend hole out : List ℕ)
      → IsLength m lb
      → (let whole = base ++ (m ++ lb) in
          retain_loop (suc fuel) p (before (length whole) whole pend hole out)
          ≡ retain_loop fuel p (visit p (length m) (before (length whole) whole pend hole out)))
  unfolding retain_loop
  loop_step fuel base m lb pend hole out l =
      let whole = base ++ (m ++ lb) in
      let back = pend ++ (hole ++ out) in
      let size : length whole ≡ length base + length m + 2 = IsLength-append base m lb l in
      let many : ltb (length whole) 2 ≡ false = le→ltb _ _ (omega arith) in
      let at : length whole - 2 ≡ length (base ++ m) = omega (arith, length-append base m) in
      let regroup : whole ++ back ≡ (base ++ m) ++ (lb ++ back) = simp append_assoc in
      let read : sub_slice (length whole - 2) 2 (whole ++ back) ≡ lb =
        rw (at, regroup, ← l.two) (sub_slice_at (base ++ m) lb back) in
      let fits : ltb (length whole) (length m + 2) ≡ false = le→ltb _ _ (omega arith) in
      rw (many, read, l.value, fits)

  visit_keep :
      (base m lb pend hole out : List ℕ)
      → IsLength m lb
      → p m ≡ true
      → (let whole = base ++ (m ++ lb) in
          visit p (length m) (before (length whole) whole pend hole out)
          ≡ before (length base) base ((m ++ lb) ++ pend) hole out)
  unfolding visit
  visit_keep base m lb pend hole out l e =
      let whole = base ++ (m ++ lb) in
      let size : length whole ≡ length base + length m + 2 = IsLength-append base m lb l in
      let at : length whole - (length m + 2) ≡ length base = omega arith in
      rw (at, visit_slice base m lb (pend ++ (hole ++ out)), e)
        (Cursors-eq (simp append_assoc)
          (omega (arith, length-append (m ++ lb) pend, length-append m lb, l.two)) refl
          (omega (arith, length-append (m ++ lb) pend, length-append m lb, l.two)))

  visit_drop-Moved :
      (base m lb pend hole out : List ℕ)
      → IsLength m lb
      → p m ≡ false
      → Moved (length m + 2) (length base) (base ++ (m ++ lb)) pend hole out
      → (hole' : List ℕ) × (visit p
            (length m)
            (before (length (base ++ (m ++ lb))) (base ++ (m ++ lb)) pend hole out)
          ≡ before (length base) base [] ((m ++ lb) ++ hole') (pend ++ out))
  unfolding visit
  visit_drop-Moved base m lb pend hole out l e (hole', same, moved) =
      let whole = base ++ (m ++ lb) in
      let size : length whole ≡ length base + length m + 2 = IsLength-append base m lb l in
      let at : length whole - (length m + 2) ≡ length base = omega arith in
      (
        hole',
        rw (at, visit_slice base m lb (pend ++ (hole ++ out)), e, moved)
            (Cursors-eq (simp append_assoc)
              (omega (arith, length-append (m ++ lb) hole', length-append m lb, l.two)) refl
              (omega arith)),
      )

  Finishes : ℕ → List ℕ → List ℕ → List ℕ → List ℕ → Type 0
  Finishes fuel base pend hole out =
      finish (retain_loop fuel p (before (length base) base pend hole out))
      ≡ some (retained p fuel base ++ (pend ++ out))

  loop_more :
      (fuel : ℕ) (rest m lb pend hole out : List ℕ)
      → IsLength m lb
      → length (rest ++ (m ++ lb)) < 2 ^ 63
      → ((pend hole out : List ℕ) → Finishes fuel rest pend hole out)
      → Finishes (suc fuel) (rest ++ (m ++ lb)) pend hole out
  unfolding Finishes
  loop_more fuel rest m lb pend hole out l k again =
      rw
        (
          loop_step fuel rest m lb pend hole out l,
          retained_more p fuel (rest ++ (m ++ lb)) (next_message-append rest m lb l k),
          drop-length-append rest (m ++ lb),
        )
        (elim (Bool-cases (p m)) [
          | inl keep ↦
              rw
                (
                  visit_keep rest m lb pend hole out l keep,
                  keep,
                  again ((m ++ lb) ++ pend) hole out,
                )
                (ap some (simp append_assoc))
          | inr cut ↦
              let (hole', e) = visit_drop-Moved rest m lb pend hole out l cut (
                move_mem_lem (length m + 2) (length rest) (rest ++ (m ++ lb)) pend hole out
                  (omega (arith, IsLength-append rest m lb l))) in
              rw (e, cut) (again [] ((m ++ lb) ++ hole') (pend ++ out))
        ])

  loop_lem :
      (fuel : ℕ) (base : List ℕ)
      → length base < fuel
      → length base < 2 ^ 63
      → (pend hole out : List ℕ) → Finishes fuel base pend hole out
  loop_lem zero base h k = absurd (omega arith)
  loop_lem (suc fuel) base h k = elim (next_message-Ending base k) [
    | stop none_left short ↦ λ pend hole out.
        unfold Finishes in
        rw (loop_stop fuel base pend hole out short, retained_stop p fuel base none_left)
          (ap some (finish_lem base pend hole out))
    | more rest m lb split l next ↦ λ pend hole out.
        let size : length base ≡ length rest + length m + 2 =
          rw split (IsLength-append rest m lb l) in
        rw split (
          loop_more fuel rest m lb pend hole out l (rw (← split) k)
            (loop_lem fuel rest (omega arith) (omega arith)))
  ]

-- The loop ends, and what it keeps are the records of the messages that pass.
pub retain_messages-retained :
    (p : List ℕ → Bool) (buffer : List ℕ)
    → length buffer < 2 ^ 63
    → retain_messages p buffer ≡ some (retained p (suc (length buffer)) buffer)
unfolding retain_messages Finishes
retain_messages-retained p buffer h =
    let start : before (length buffer) buffer [] [] [] ≡ record {
      mem = buffer;
      write_cursor = length buffer;
      cursor = length buffer;
      hole_end = length buffer;
    } =
      Cursors-eq (append-nil buffer) (omega arith) refl (omega arith) in
    rw (← start) (loop_lem p (suc (length buffer)) buffer (omega arith) h [] [] [])
    ∙ ap some (append-nil (retained p (suc (length buffer)) buffer))
