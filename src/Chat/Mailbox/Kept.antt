-- ===== src/Chat/Mailbox/Kept.antt =====
-- chat/server/src/storage/profile.rs and chat/spec/src/profile.rs: what a mailbox takes is what is
-- read from it, until it has been read once.
use onion_network.Base.{
  ℕ, zero, suc, ◌+◌, ◌-◌, ◌/◌, ◌%◌, ◌^◌, ◌<◌, ◌≤◌, ◌≡◌, refl, sym, ap, ◌∙◌, true, false, some, List,
  [], ◌∷◌, ◌++◌, append_assoc, append-nil, length, length-append, take, drop, take-length-append,
  drop-length-append, replicate, length-replicate, All, leb, Bool-cases, inl, inr, arith,
}
use onion_network.Codec.Sum.{ok, err}
use onion_network.Chat.Errors.{mailbox_full}
use onion_network.Chat.Profiles.{MailFile, mail_box_cap, write_all, append_mail}
use onion_network.Chat.Mailbox.{take_bytes, next_mail, mail_loop, append_all}

-- A mail as it is written.
abbrev pub frame : List ℕ → List ℕ
frame mail = let len = length mail % 2 ^ 16 in (len / 256 ∷ len % 256 ∷ []) ++ mail

abbrev pub frames : List (List ℕ) → List ℕ
frames [] = []
frames (mail ∷ mails) = frame mail ++ frames mails

abbrev pub IsAtEnd : MailFile → Type 0
IsAtEnd f = f.cursor ≡ length f.bytes

take_bytes-append :
    (xs ys : List ℕ) (n : ℕ) → n ≡ length xs → take_bytes n (xs ++ ys) ≡ some (xs, ys)
take_bytes-append xs ys n e =
    rw (e, enough, take-length-append xs ys, drop-length-append xs ys) refl
  where
    enough : leb (length xs) (length (xs ++ ys)) ≡ true
    enough = ground (arith, length-append xs ys)

next_mail-frame :
    (mail rest : List ℕ) → length mail < 2 ^ 16 → next_mail (frame mail ++ rest) ≡ some (mail, rest)
unfolding next_mail
next_mail-frame mail rest short = take_bytes-append mail rest _ (omega (arith, short))

pub mail_loop-frames :
    (mails : List (List ℕ)) (fuel : ℕ)
    → All (λ mail. length mail < 2 ^ 16) mails
    → length (frames mails) ≤ fuel
    → mail_loop fuel (frames mails) ≡ mails
unfolding mail_loop next_mail
mail_loop-frames [] zero short enough = refl
mail_loop-frames [] (suc fuel) short enough = refl
mail_loop-frames (mail ∷ mails) zero (first, short) enough = absurd (omega (arith, enough))
mail_loop-frames (mail ∷ mails) (suc fuel) (first, short) enough =
    rw (mail_loop, next_mail-frame mail (frames mails) first)
      (ap (λ r. mail ∷ r)
        (mail_loop-frames mails fuel short
          (omega (arith, enough, length-append mail (frames mails)))))

-- A write at the end of the file, or behind it, which fills the gap.
take-behind : (n : ℕ) (xs : List ℕ) → length xs ≤ n → take n xs ≡ xs
take-behind zero [] short = refl
take-behind (suc n) [] short = refl
take-behind zero (x ∷ xs) short = absurd (omega (arith, short))
take-behind (suc n) (x ∷ xs) short = ap (λ r. x ∷ r) (take-behind n xs (omega (arith, short)))

drop-behind : (n : ℕ) (xs : List ℕ) → length xs ≤ n → drop n xs ≡ []
drop-behind zero [] short = refl
drop-behind (suc n) [] short = refl
drop-behind zero (x ∷ xs) short = absurd (omega (arith, short))
drop-behind (suc n) (x ∷ xs) short = drop-behind n xs (omega (arith, short))

abbrev pub file : List ℕ → MailFile
file bytes = record { bytes = bytes; cursor = length bytes }

abbrev pub padded : ℕ → List ℕ → List ℕ
padded gap bytes = bytes ++ replicate gap 0

length-padded : (gap : ℕ) (bytes : List ℕ) → length (padded gap bytes) ≡ length bytes + gap
length-padded gap bytes = omega (arith, length-append bytes (replicate gap 0), zeros)
  where
    zeros : length {A = ℕ} (replicate gap 0) ≡ gap
    zeros = length-replicate gap 0

write_all-behind :
    (written bytes : List ℕ) (gap cursor : ℕ)
    → cursor ≡ length bytes + gap
    → write_all written (record { bytes = bytes; cursor = cursor })
      ≡ file (padded gap bytes ++ written)
unfolding write_all
write_all-behind written bytes gap cursor e =
    rw
      (
        take-behind cursor bytes (omega (arith, e)),
        drop-behind (cursor + length written) bytes (omega (arith, e)),
        gap_is,
        append-nil written,
        all,
      )
      refl
  where
    gap_is : cursor - length bytes ≡ gap
    gap_is = omega (arith, e)

    all : cursor + length written ≡ length (padded gap bytes ++ written)
    all = omega (arith, e, length-append (padded gap bytes) written, length-padded gap bytes)

pub append_mail-frame :
    (b : ℕ) (bs bytes : List ℕ) (gap cursor : ℕ)
    → cursor ≡ length bytes + gap
    → leb (length bytes + length (b ∷ bs)) mail_box_cap ≡ true
    → append_mail (b ∷ bs) (record { bytes = bytes; cursor = cursor })
      ≡ (file (padded gap bytes ++ frame (b ∷ bs)), ok tt)
unfolding append_mail
append_mail-frame b bs bytes gap cursor e room =
    rw (append_mail, room)
      (ap (λ f. (f, ok tt))
        (ap (write_all (b ∷ bs)) (write_all-behind head bytes gap cursor e)
          ∙ write_all-behind (b ∷ bs) (padded gap bytes ++ head) 0 _ (omega arith)
          ∙ ap file (
              ap (λ r. r ++ (b ∷ bs)) (append-nil (padded gap bytes ++ head))
              ∙ append_assoc (padded gap bytes) head (b ∷ bs))))
  where
    head : List ℕ
    head = let len = length (b ∷ bs) % 2 ^ 16 in (len / 256 ∷ len % 256 ∷ [])

append_mail-full :
    (b : ℕ) (bs : List ℕ) (f : MailFile)
    → leb (length f.bytes + length (b ∷ bs)) mail_box_cap ≡ false
    → append_mail (b ∷ bs) f ≡ (f, err mailbox_full)
unfolding append_mail
append_mail-full b bs f full = rw (append_mail, full) refl

pub frames-append : (xs ys : List (List ℕ)) → frames (xs ++ ys) ≡ frames xs ++ frames ys
frames-append [] ys = refl
frames-append (x ∷ xs) ys =
    ap (λ r. frame x ++ r) (frames-append xs ys)
    ∙ sym (append_assoc (frame x) (frames xs) (frames ys))

-- What is in the file is what was in it and then the mails that were taken.
pub append_all-frames :
    (mails : List (List ℕ)) (bytes : List ℕ)
    → (append_all mails (file bytes)).0 ≡ file (bytes ++ frames ((append_all mails (file bytes)).1))
unfolding append_mail
append_all-frames [] bytes = ap file (sym (append-nil bytes))
append_all-frames ([] ∷ mails) bytes = append_all-frames mails bytes
append_all-frames ((b ∷ bs) ∷ mails) bytes =
    elim (Bool-cases (leb (length bytes + length (b ∷ bs)) mail_box_cap)) [
      | inr full ↦ rw (append_mail-full b bs (file bytes) full) (append_all-frames mails bytes)
      | inl room ↦
          rw (append_mail-frame b bs bytes 0 (length bytes) (omega arith) room, append-nil bytes)
            (append_all-frames mails (bytes ++ frame (b ∷ bs))
              ∙ ap file (append_assoc bytes (frame (b ∷ bs)) _))
    ]
