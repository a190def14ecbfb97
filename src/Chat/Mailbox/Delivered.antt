-- ===== src/Chat/Mailbox/Delivered.antt =====
-- chat/server/src/storage/profile.rs and chat/spec/src/profile.rs: which mails come out of a
-- mailbox.
use onion_network.Base.{
  ℕ, zero, suc, ◌+◌, ◌*◌, ◌/◌, ◌%◌, ◌^◌, ◌<◌, ◌≡◌, refl, sym, ap, ◌∙◌, true, false, List, [], ◌∷◌,
  ◌++◌, length, length-append, replicate, length-replicate, All, leb, arith,
}
use mathlib.Core.Path.{subst}
use onion_network.Codec.Sum.{Result, ok, err}
use onion_network.Chat.Errors.{ChatError}
use onion_network.Chat.Profiles.{MailFile, append_mail, read_mail}
use onion_network.Chat.Mailbox.{next_mail, mail_loop, unpack_mail, append_all, accepted}
use onion_network.Chat.Mailbox.Kept.{
  frame, frames, frames-append, file, mail_loop-frames, append_mail-frame, append_all-frames,
}

abbrev pub IsShort : List ℕ → Type 0
IsShort mail = length mail < 2 ^ 16

All-append : (xs ys : List (List ℕ)) → All IsShort xs → All IsShort ys → All IsShort (xs ++ ys)
All-append [] ys all_xs all_ys = all_ys
All-append (x ∷ xs) ys (short, all_xs) all_ys = (short, All-append xs ys all_xs all_ys)

accepted-IsShort :
    (r : Result (Unit {0}) ChatError) (mail : List ℕ) (mails : List (List ℕ))
    → IsShort mail
    → All IsShort mails
    → All IsShort (accepted r mail mails)
accepted-IsShort (ok x) mail mails short all = (short, all)
accepted-IsShort (err e) mail mails short all = all

append_all-IsShort :
    (mails : List (List ℕ)) (f : MailFile)
    → All IsShort mails
    → All IsShort ((append_all mails f).1)
append_all-IsShort [] f all = tt
append_all-IsShort (mail ∷ mails) f (short, all) =
    accepted-IsShort _ mail _ short (append_all-IsShort mails _ all)

-- The mails that a mailbox takes, of which each is shorter than the two bytes of its length can
-- say, are read in their order behind those that were in it, and no other mail is: the mailbox is
-- one that was opened, so its cursor is at its end.
pub unpack_mail-read_mail-append_all :
    (before mails : List (List ℕ)) (f : MailFile)
    → All IsShort before
    → All IsShort mails
    → f.bytes ≡ frames before
    → f.cursor ≡ length f.bytes
    → unpack_mail ((read_mail ((append_all mails f).0)).1) ≡ before ++ (append_all mails f).1
unfolding unpack_mail read_mail
unpack_mail-read_mail-append_all before mails f short_before short holds at_end =
    subst
      (λ g. unpack_mail ((read_mail ((append_all mails g).0)).1) ≡ before ++ (append_all mails g).1)
      (sym opened)
      (ap unpack_mail written
        ∙ mail_loop-frames all _
            (All-append before _ short_before
              (append_all-IsShort mails (file (frames before)) short))
            (omega arith))
  where
    opened : f ≡ file (frames before)
    opened = ap (λ c. record { bytes = f.bytes; cursor = c }) at_end ∙ ap file holds

    all : List (List ℕ)
    all = before ++ (append_all mails (file (frames before))).1

    written : ((append_all mails (file (frames before))).0).bytes ≡ frames all
    written =
        ap (λ g. g.bytes) (append_all-frames mails (frames before))
        ∙ sym (frames-append before ((append_all mails (file (frames before))).1))

-- Two bytes that are zero are an empty mail.
abbrev pub no_mails : ℕ → List (List ℕ)
no_mails k = replicate k []

mail_loop-zeros :
    (fuel : ℕ) (rest : List ℕ) → mail_loop (suc fuel) (0 ∷ 0 ∷ rest) ≡ [] ∷ mail_loop fuel rest
unfolding mail_loop next_mail
mail_loop-zeros fuel rest = rw (mail_loop, enough) refl
  where
    enough : leb 0 (length rest) ≡ true
    enough = ground arith

-- The length of a mail, one byte to the left of where it is looked for.
mail_loop-shifted : (fuel b : ℕ) (bs : List ℕ) → mail_loop fuel (suc (length bs) ∷ b ∷ bs) ≡ []
unfolding mail_loop next_mail
mail_loop-shifted zero b bs = refl
mail_loop-shifted (suc fuel) b bs = rw (mail_loop, too_long) refl
  where
    too_long : leb (suc (length bs) * 256 + b) (length bs) ≡ false
    too_long = ground arith

mail_loop-odd :
    (k fuel b : ℕ) (bs : List ℕ)
    → suc (length bs) < 256
    → k < fuel
    → mail_loop fuel (replicate (k * 2 + 1) 0 ++ frame (b ∷ bs)) ≡ no_mails (suc k)
mail_loop-odd k zero b bs small enough = absurd (omega (arith, enough))
mail_loop-odd zero (suc fuel) b bs small enough =
    rw (high, low)
      (mail_loop-zeros fuel (suc (length bs) ∷ b ∷ bs)
        ∙ ap (λ r. [] ∷ r) (mail_loop-shifted fuel b bs))
  where
    high : suc (length bs) % 2 ^ 16 / 256 ≡ 0
    high = omega (arith, small)

    low : suc (length bs) % 2 ^ 16 % 256 ≡ suc (length bs)
    low = omega (arith, small)
mail_loop-odd (suc k) (suc fuel) b bs small enough =
    ap (λ n. mail_loop (suc fuel) (replicate n 0 ++ frame (b ∷ bs))) two_more
    ∙ mail_loop-zeros fuel (replicate (k * 2 + 1) 0 ++ frame (b ∷ bs))
    ∙ ap (λ r. [] ∷ r) (mail_loop-odd k fuel b bs small (omega (arith, enough)))
  where
    two_more : suc k * 2 + 1 ≡ suc (suc (k * 2 + 1))
    two_more = omega arith

-- After a mailbox of an odd number of bytes was read, the next mail, of fewer than 256 bytes, is
-- taken and is lost: what is read then are empty mails alone, one for each two of the bytes that
-- were read before, and one more.
pub append_mail-read_mail-loses :
    (k b : ℕ) (bs : List ℕ) (f : MailFile)
    → length f.bytes ≡ k * 2 + 1
    → suc (length bs) < 256
    → let sent = append_mail (b ∷ bs) ((read_mail f).0) in
      (sent.1 ≡ ok tt) × (unpack_mail ((read_mail (sent.0)).1) ≡ no_mails (suc k))
unfolding unpack_mail read_mail
append_mail-read_mail-loses k b bs f odd small = (
  ap (λ r. r.1) taken,
  ap (λ r. unpack_mail ((r.0).bytes)) taken ∙ mail_loop-odd k _ b bs small (omega (arith, long)),
)
  where
    taken :
        append_mail (b ∷ bs) ((read_mail f).0)
        ≡ (file (replicate (k * 2 + 1) 0 ++ frame (b ∷ bs)), ok tt)
    taken =
        append_mail-frame b bs [] (k * 2 + 1) (length f.bytes) (omega (arith, odd))
          (ground (arith, small))

    long : length (replicate (k * 2 + 1) 0 ++ frame (b ∷ bs)) ≡ k * 2 + 1 + length (frame (b ∷ bs))
    long = omega (
      arith,
      length-append {A = ℕ} (replicate (k * 2 + 1) 0) (frame (b ∷ bs)),
      length-replicate {A = ℕ} (k * 2 + 1) 0,
    )
