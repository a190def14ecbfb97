-- ===== src/Chat/Mailbox/Routing.antt =====
-- chat/server/src/api/profile.rs: `send_mail`, with `push_profile_event` of chat/server/src/main.rs:
-- a mail goes to its reader where that one is, or into the mailbox; and the subscriptions of
-- chat/server/src/api.rs, with `push_chat_event`.
use onion_network.Base.{
  ℕ, Bool, true, false, ◌&&◌, not, none, some, List, [], ◌∷◌, ◌++◌, ◌==◌, if◌then◌else◌,
}
use onion_network.Base.Entries.{find_key, insert_key, remove_key}
use onion_network.Codec.Sum.{Result, ok, err}
use onion_network.Chat.Errors.{ChatError, not_found, sending_to_self, sent_directly}
use onion_network.Chat.Profiles.{MailFile, append_mail}

pub data OnlineLocation : Type 0 where
  at_path : ℕ → OnlineLocation
  at_node : ℕ → OnlineLocation

-- `ClientEvent::Sub`, by the call that is subscribed.
abbrev pub ClientEvent : Type 0
ClientEvent = ℕ × List ℕ

-- The part of `OwnedContext` that mails and events touch: where users are, the subscriptions to
-- profiles, the events that wait for the clients, the subscriptions to chats, and the mailboxes.
pub record Node : Type 0 where
  pub online : List (ℕ × OnlineLocation)
  pub profile_subs : List (ℕ × (ℕ × ℕ))
  pub clients : List (ℕ × List ClientEvent)
  pub chat_subs : List (ℕ × List (ℕ × ℕ))
  pub mailboxes : List (ℕ × MailFile)

abbrev pub same_location : OnlineLocation → OnlineLocation → Bool
same_location (at_path p) (at_path q) = p == q
same_location (at_node p) (at_node q) = p == q
same_location (at_path p) (at_node q) = false
same_location (at_node p) (at_path q) = false

abbrev pub is_at_node : OnlineLocation → Bool
is_at_node (at_node p) = true
is_at_node (at_path p) = false

abbrev pub Reply : Type 0
Reply = Result (Result (Unit {0}) ChatError) ChatError

-- `Ok(Err(ChatError::SentDirectly))`
abbrev pub is_sent : Reply → Bool
is_sent (ok (ok x)) = false
is_sent (ok (err sent_directly)) = true
is_sent (ok (err e)) = false
is_sent (err e) = false

-- `get_profile(for_who)?.append_mail(&mail)`
abbrev pub push_mail : ℕ → List ℕ → Node → Node × Result (Unit {0}) ChatError
push_mail for_who mail s = elim (find_key for_who s.mailboxes) [
  | none ↦ (s, err not_found)
  | some f ↦
      let after = append_mail mail f in
      (record s { mailboxes = insert_key for_who (after.0) s.mailboxes }, after.1)
]

-- The channel of a client takes an event, or refuses it since it is full or closed.
module _ (takes : ℕ → List ClientEvent → Bool) where
  unfoldable pub push_profile_event : ℕ → List ℕ → Node → Bool × Node
  push_profile_event for_who mail s = elim (find_key for_who s.profile_subs) [
    | none ↦ (false, s)
    | some (path, call) ↦ elim (find_key path s.clients) [
      | none ↦ (false, s)
      | some events ↦
          if takes path events
          then (
            true,
            record s { clients = insert_key path (events ++ ((call, mail) ∷ [])) s.clients },
          )
          else (false, record s { profile_subs = remove_key for_who s.profile_subs })
    ]
  ]

  -- Nobody who is online took the mail.
  abbrev pub keep_mail : ℕ → List ℕ → Node → Node × Result (Unit {0}) ChatError
  keep_mail for_who mail s =
      push_mail for_who mail (record s { online = remove_key for_who s.online })

  -- What follows a push to a client of this node.
  abbrev pub pushed : ℕ → List ℕ → Bool × Node → Node × Result (Unit {0}) ChatError
  pushed for_who mail (true, s) = (s, err sent_directly)
  pushed for_who mail (false, s) = keep_mail for_who mail s

  -- `send_rpc` of the mail to a node: what that one answers, or that it could not be asked.
  module _ (send_rpc : ℕ → ℕ → List ℕ → Reply) where
    abbrev pub send_online :
        OnlineLocation → OnlineLocation → ℕ → List ℕ → Node → Node × Result (Unit {0}) ChatError
    send_online (at_path p) origin for_who mail s =
        if same_location (at_path p) origin
        then (s, err sending_to_self)
        else pushed for_who mail (push_profile_event for_who mail s)
    send_online (at_node peer) origin for_who mail s =
        if not (is_at_node origin) && is_sent (send_rpc for_who peer mail)
        then (s, err sent_directly)
        else keep_mail for_who mail s

    unfoldable pub send_mail :
        OnlineLocation → ℕ → List ℕ → Node → Node × Result (Unit {0}) ChatError
    send_mail origin for_who mail s = elim (find_key for_who s.online) [
      | none ↦ push_mail for_who mail s
      | some online_in ↦ send_online online_in origin for_who mail s
    ]

-- `retain` of `push_chat_event`: the subscribers that are gone or too slow are dropped.
abbrev pub push_to_subs :
    (ℕ → List ClientEvent → Bool)
    → List ℕ
    → List (ℕ × ℕ)
    → List (ℕ × List ClientEvent)
    → List (ℕ × ℕ) × List (ℕ × List ClientEvent)
push_to_subs takes ev [] clients = ([], clients)
push_to_subs takes ev ((path, call) ∷ subs) clients =
    let skip = push_to_subs takes ev subs clients in
    elim (find_key path clients) [
      | none ↦ skip
      | some events ↦
          let pushed =
            push_to_subs takes ev subs (insert_key path (events ++ ((call, ev) ∷ [])) clients) in
          if takes path events then ((path, call) ∷ pushed.0, pushed.1) else skip
    ]

unfoldable pub push_chat_event : (ℕ → List ClientEvent → Bool) → ℕ → List ℕ → Node → Node
push_chat_event takes topic ev s = elim (find_key topic s.chat_subs) [
  | none ↦ s
  | some subs ↦
      let after = push_to_subs takes ev subs s.clients in
      record s { chat_subs = insert_key topic (after.0) s.chat_subs; clients = after.1 }
]

pub data TopicKey : Type 0 where
  of_chat : ℕ → TopicKey
  of_profile : ℕ → TopicKey

abbrev subs_of : ℕ → Node → List (ℕ × ℕ)
subs_of name s = elim (find_key name s.chat_subs) [ none ↦ [] | some subs ↦ subs ]

-- `has` tells whether the storage has a chat or a profile.
unfoldable pub subscribe :
    (TopicKey → Bool) → TopicKey → ℕ → ℕ → Node → Node × Result (Unit {0}) ChatError
subscribe has (of_chat name) user cid s =
    if has (of_chat name)
    then (
      record s { chat_subs = insert_key name (insert_key user cid (subs_of name s)) s.chat_subs },
      ok tt,
    )
    else (s, err not_found)
subscribe has (of_profile id) user cid s =
    if has (of_profile id)
    then (record s { profile_subs = insert_key id (user, cid) s.profile_subs }, ok tt)
    else (s, err not_found)

unfoldable pub unsubscribe : TopicKey → ℕ → Node → Node × Result (Unit {0}) ChatError
unsubscribe (of_chat name) user s = elim (find_key name s.chat_subs) [
  | none ↦ (s, err not_found)
  | some subs ↦ elim (find_key user subs) [
    | none ↦ (s, err not_found)
    | some call ↦
        (record s { chat_subs = insert_key name (remove_key user subs) s.chat_subs }, ok tt)
  ]
]
unsubscribe (of_profile id) user s = elim (find_key id s.profile_subs) [
  | none ↦ (s, err not_found)
  | some sub ↦
      let rest = record s { profile_subs = remove_key id s.profile_subs } in
      elim (find_key id s.online) [
        | none ↦ (rest, err not_found)
        | some location ↦ (record rest { online = remove_key id s.online }, ok tt)
      ]
]
