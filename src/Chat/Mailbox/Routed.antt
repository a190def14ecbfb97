-- ===== src/Chat/Mailbox/Routed.antt =====
-- chat/server/src/api/profile.rs: a mail that is sent ends in one place.
use onion_network.Base.{
  ℕ, ◌≡◌, ◌⊎◌, refl, sym, ap, ◌∙◌, Bool, true, ◌&&◌, not, some, List, [], ◌∷◌, ◌++◌, length, leb,
  ◌+◌, ◌==◌, ==_iff, Bool-cases, Option-cases, inl, inr, arith,
}
use mathlib.Core.Path.{subst}
use onion_network.Base.Entries.{
  find_key, insert_key, remove_key, find_key-insert_key, find_key-insert_key_other,
}
use onion_network.Codec.Sum.{Result, ok, err}
use onion_network.Chat.Errors.{ChatError, sent_directly, mailbox_full, please_dont}
use onion_network.Chat.Profiles.{MailFile, mail_box_cap, append_mail}
use onion_network.Chat.Mailbox.Routing.{
  OnlineLocation, at_path, at_node, ClientEvent, Node, Reply, is_sent, same_location, push_mail,
  push_profile_event, pushed, is_at_node, send_online, send_mail,
}

append_mail-cases :
    (mail : List ℕ) (f : MailFile)
    → (((append_mail mail f).1 ≡ ok tt)
        ⊎ (((append_mail mail f).0 ≡ f) × ((append_mail mail f).1 ≡ err mailbox_full)))
      ⊎ (((append_mail mail f).0 ≡ f) × ((append_mail mail f).1 ≡ err please_dont))
unfolding append_mail
append_mail-cases [] f = inr (refl, refl)
append_mail-cases (b ∷ bs) f =
    elim (Bool-cases (leb (length f.bytes + length (b ∷ bs)) mail_box_cap)) [
      | inl room ↦ rw (append_mail, room) (inl (inl refl))
      | inr full ↦ rw (append_mail, full) (inl (inr (refl, refl)))
    ]

module _ (send_rpc : ℕ → ℕ → List ℕ → Reply) (for_who : ℕ) (mail : List ℕ) (s : Node) where
  -- The mail is in the mailbox of this node, behind those that were there, and no client of it was
  -- sent the mail.
  abbrev pub IsKept : Node → Type 0
  IsKept after =
      (f : MailFile) × (find_key for_who s.mailboxes ≡ some f)
      × ((append_mail mail f).1 ≡ ok tt)
      × (after.mailboxes ≡ insert_key for_who ((append_mail mail f).0) s.mailboxes)
      × (after.clients ≡ s.clients)

  -- It waits as the last event of the client that subscribed.
  abbrev pub IsQueued : Node → Type 0
  IsQueued after =
      (path : ℕ) × (call : ℕ) × (events : List ClientEvent) × (find_key for_who s.profile_subs
        ≡ some (path, call))
      × (find_key path s.clients ≡ some events)
      × (after.clients ≡ insert_key path (events ++ ((call, mail) ∷ [])) s.clients)

  -- The node where its reader is online answered that it sent it.
  abbrev pub IsSent : Node → Type 0
  IsSent after =
      (peer : ℕ) × (find_key for_who s.online ≡ some (at_node peer))
      × (is_sent (send_rpc for_who peer mail) ≡ true)
      × (after.clients ≡ s.clients)

  -- No mailbox has changed and no event was sent.
  abbrev pub IsRefused : Node → Type 0
  IsRefused after =
      ((who : ℕ) → find_key who after.mailboxes ≡ find_key who s.mailboxes)
      × (after.clients ≡ s.clients)

  abbrev pub IsRouted : Node × Result (Unit {0}) ChatError → Type 0
  IsRouted (after, ok x) = IsKept after
  IsRouted (after, err sent_directly) =
      (after.mailboxes ≡ s.mailboxes) × (IsQueued after ⊎ IsSent after)
  IsRouted (after, err e) = IsRefused after

  -- What an append that fails writes back.
  unchanged :
      (f : MailFile)
      → find_key for_who s.mailboxes ≡ some f
      → (who : ℕ) → find_key who (insert_key for_who f s.mailboxes) ≡ find_key who s.mailboxes
  unchanged f found who = elim (Bool-cases (for_who == who)) [
    | inl same ↦
        subst (λ k. find_key k (insert_key for_who f s.mailboxes) ≡ find_key k s.mailboxes)
          ((==_iff for_who who).0 same) (find_key-insert_key for_who f s.mailboxes ∙ sym found)
    | inr other ↦ find_key-insert_key_other for_who who f s.mailboxes (ground (arith, other))
  ]

  module _ (now : Node) (same_boxes : now.mailboxes ≡ s.mailboxes)
      (same_clients : now.clients ≡ s.clients) where
    refused :
        (f : MailFile)
        → find_key for_who s.mailboxes ≡ some f
        → (r : MailFile × Result (Unit {0}) ChatError) → r.0 ≡ f
        → (who : ℕ)
        → find_key who (insert_key for_who (r.0) now.mailboxes) ≡ find_key who s.mailboxes
    refused f found r same who =
        ap (λ m. find_key who (insert_key for_who (r.0) m)) same_boxes
        ∙ ap (λ g. find_key who (insert_key for_who g s.mailboxes)) same
        ∙ unchanged f found who

    appended-IsRouted :
        (f : MailFile)
        → find_key for_who s.mailboxes ≡ some f
        → (r : MailFile × Result (Unit {0}) ChatError) → append_mail mail f ≡ r
        → ((r.1 ≡ ok tt) ⊎ ((r.0 ≡ f) × (r.1 ≡ err mailbox_full)))
          ⊎ ((r.0 ≡ f) × (r.1 ≡ err please_dont))
        → IsRouted (record now { mailboxes = insert_key for_who (r.0) now.mailboxes }, r.1)
    appended-IsRouted f found r e (inl (inl taken)) =
        subst (λ x. IsRouted (record now { mailboxes = insert_key for_who (r.0) now.mailboxes }, x))
          (sym taken)
          (
            f,
            found,
            ap (λ x. x.1) e ∙ taken,
            ap (λ m. insert_key for_who (r.0) m) same_boxes
                ∙ ap (λ x. insert_key for_who (x.0) s.mailboxes) (sym e),
            same_clients,
          )
    appended-IsRouted f found r e (inl (inr (same, full))) =
        subst (λ x. IsRouted (record now { mailboxes = insert_key for_who (r.0) now.mailboxes }, x))
          (sym full) (refused f found r same, same_clients)
    appended-IsRouted f found r e (inr (same, empty)) =
        subst (λ x. IsRouted (record now { mailboxes = insert_key for_who (r.0) now.mailboxes }, x))
          (sym empty) (refused f found r same, same_clients)

    push_mail-IsRouted : IsRouted (push_mail for_who mail now)
    push_mail-IsRouted = elim (Option-cases (find_key for_who now.mailboxes)) [
      | inl missing ↦ rw (push_mail, missing) (λ who. ap (find_key who) same_boxes, same_clients)
      | inr (f, found) ↦
          rw (push_mail, found)
            (appended-IsRouted f (sym (ap (find_key for_who) same_boxes) ∙ found)
              (append_mail mail f) refl (append_mail-cases mail f))
    ]

  keep_mail-IsRouted :
      (now : Node)
      → now.mailboxes ≡ s.mailboxes
      → now.clients ≡ s.clients
      → IsRouted (push_mail for_who mail (record now { online = remove_key for_who now.online }))
  keep_mail-IsRouted now same_boxes same_clients =
      push_mail-IsRouted (record now { online = remove_key for_who now.online }) same_boxes
        same_clients

  module _ (takes : ℕ → List ClientEvent → Bool) where
    pushed-IsRouted : IsRouted (pushed takes for_who mail (push_profile_event takes for_who mail s))
    unfolding push_profile_event
    pushed-IsRouted = elim (Option-cases (find_key for_who s.profile_subs)) [
      | inl missing ↦ rw (push_profile_event, missing) (keep_mail-IsRouted s refl refl)
      | inr ((path, call), found) ↦ elim (Option-cases (find_key path s.clients)) [
        | inl gone ↦ rw (push_profile_event, found, gone) (keep_mail-IsRouted s refl refl)
        | inr (events, there) ↦ elim (Bool-cases (takes path events)) [
          | inl room ↦
              rw (push_profile_event, found, there, room)
                (refl, inl (path, call, events, found, there, refl))
          | inr full ↦
              rw (push_profile_event, found, there, full)
                (keep_mail-IsRouted (record s { profile_subs = remove_key for_who s.profile_subs })
                  refl refl)
        ]
      ]
    ]

    send_online-IsRouted :
        (online_in origin : OnlineLocation)
        → find_key for_who s.online ≡ some online_in
        → IsRouted (send_online takes send_rpc online_in origin for_who mail s)
    send_online-IsRouted (at_path p) origin online =
        elim (Bool-cases (same_location (at_path p) origin)) [
          | inl itself ↦ rw itself (λ who. refl, refl)
          | inr other ↦ rw other pushed-IsRouted
        ]
    send_online-IsRouted (at_node peer) origin online =
        elim (Bool-cases (not (is_at_node origin) && is_sent (send_rpc for_who peer mail))) [
          | inl direct ↦ rw direct (refl, inr (peer, online, ground (arith, direct), refl))
          | inr kept ↦ rw kept (keep_mail-IsRouted s refl refl)
        ]

    -- What `send_mail` answers tells what this node did with the mail. On success it is behind the
    -- mails in the mailbox of its reader here, and no client of this node is sent an event. Where the
    -- answer is that it was sent directly, no mailbox here has changed, and either the mail is the
    -- last event of the client that subscribed to the reader, or the node where the reader is online
    -- answered that it had sent it. On every other error the mailboxes and the events of this node are
    -- what they were. What the other node did with a mail where it answered something else, or where
    -- its answer was lost, is not stated.
    pub send_mail-IsRouted :
        (origin : OnlineLocation) → IsRouted (send_mail takes send_rpc origin for_who mail s)
    unfolding send_mail
    send_mail-IsRouted origin = elim (Option-cases (find_key for_who s.online)) [
      | inl offline ↦ rw (send_mail, offline) (push_mail-IsRouted s refl refl)
      | inr (online_in, online) ↦
          rw (send_mail, online) (send_online-IsRouted online_in origin online)
    ]
