-- ===== src/Chat/Messages/Slices.antt =====
-- Slices of a buffer that is written as parts put together, and `copy` on them.
use onion_network.Base.{
  ℕ, zero, suc, ◌+◌, ◌-◌, ◌≤◌, ◌≡◌, refl, ap, List, [], ◌∷◌, ◌++◌, append_assoc, length,
  length-drop, take, drop, take-length-append, drop-length-append, arith,
}
use mathlib.Core.Path.{subst}
use onion_network.Chat.Messages.{Cursors, copy, sub_slice}

pub Cursors-eq :
    {m m' : List ℕ} {w w' c c' h h' : ℕ}
    → m ≡ m'
    → w ≡ w'
    → c ≡ c'
    → h ≡ h'
    → ◌≡◌ {A = Cursors}
        (record { mem = m; write_cursor = w; cursor = c; hole_end = h })
        (record { mem = m'; write_cursor = w'; cursor = c'; hole_end = h' })
Cursors-eq p q r s = cc

pub drop-append_le : (n : ℕ) (xs ys : List ℕ) → n ≤ length xs → drop n (xs ++ ys) ≡ drop n xs ++ ys
drop-append_le zero xs ys h = refl
drop-append_le (suc n) [] ys h = absurd (omega arith)
drop-append_le (suc n) (x ∷ xs) ys h = drop-append_le n xs ys (omega arith)

pub sub_slice_tail :
    (k : ℕ) (base back : List ℕ)
    → k ≤ length base
    → sub_slice (length base - k) k (base ++ back) ≡ drop (length base - k) base
unfolding sub_slice
sub_slice_tail k base back h =
    let n = length base - k in
    let size : length (drop n base) ≡ k = omega (arith, length-drop n base) in
    rw (drop-append_le n base back (omega arith)) (
      subst (λ (t : ℕ). take t (drop n base ++ back) ≡ drop n base) size
        (take-length-append (drop n base) back))

pub sub_slice_at :
    (front mid back : List ℕ) → sub_slice (length front) (length mid) (front ++ (mid ++ back)) ≡ mid
unfolding sub_slice
sub_slice_at front mid back =
    rw (drop-length-append front (mid ++ back)) (take-length-append mid back)

nil_of_length : (xs : List ℕ) → length xs ≡ 0 → xs ≡ []
nil_of_length [] h = refl
nil_of_length (x ∷ xs) h = absurd (omega arith)

take-add : {A : Type 0} (xs ys : List A) (n : ℕ) → take (length xs + n) (xs ++ ys) ≡ xs ++ take n ys
take-add [] ys n = let e : 0 + n ≡ n = omega arith in rw e
take-add (x ∷ xs) ys n =
    let e : suc (length xs) + n ≡ suc (length xs + n) = omega arith in
    rw e (ap (λ r. x ∷ r) (take-add xs ys n))

pub drop-add : {A : Type 0} (xs ys : List A) (n : ℕ) → drop (length xs + n) (xs ++ ys) ≡ drop n ys
drop-add [] ys n = let e : 0 + n ≡ n = omega arith in rw e
drop-add (x ∷ xs) ys n =
    let e : suc (length xs) + n ≡ suc (length xs + n) = omega arith in rw e (drop-add xs ys n)

-- The copy moves `pend` over the hole, to the front of `out`.
pub copy_lem :
    (base pend hole out : List ℕ)
    → copy (length base) (length base + length hole) (length pend) (base ++ (pend ++ (hole ++ out)))
      ≡ base ++ (take (length hole) (pend ++ (hole ++ out)) ++ (pend ++ out))
unfolding copy
copy_lem base pend hole out =
    let back : drop (length base + length hole + length pend) (base ++ (pend ++ (hole ++ out)))
        ≡ out =
      let e : length base + length hole + length pend ≡ length base + (length pend + length hole) =
        omega arith in
      rw
        (
          e,
          drop-add base (pend ++ (hole ++ out)) (length pend + length hole),
          drop-add pend (hole ++ out) (length hole),
        )
        (drop-length-append hole out) in
    rw (
      take-add base (pend ++ (hole ++ out)) (length hole),
      drop-length-append base (pend ++ (hole ++ out)),
      take-length-append pend (hole ++ out),
      back,
      append_assoc base (take (length hole) (pend ++ (hole ++ out))) (pend ++ out),
    )
