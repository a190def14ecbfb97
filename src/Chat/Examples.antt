-- ===== src/Chat/Examples.antt =====
-- The theorems of the chat at concrete values: a database as a function, and a chat of three members.
use onion_network.Base.{
  ℕ, ◌≤◌, ◌≡◌, ◌≢◌, refl, Option, none, some, Bool, true, List, [], ◌∷◌, length, filter, leb, ◌==◌,
  ==_refl, ==_iff, Bool-cases, inl, inr, arith, if◌then◌else◌,
}
use mathlib.Core.Path.{subst}
use onion_network.Codec.Sum.{ok, err}
use onion_network.Chat.Errors.{ChatError, rate_limited}
use onion_network.Chat.Messages.{unpack_messages, retain_messages}
use onion_network.Chat.Messages.Filter.{retain_messages-unpack_messages}
use onion_network.Chat.Members.{
  all_flags, Member, Proof, allocate_action, advance_to, advance_nonce, limited, put_new,
  begin_action, charge_sender, add_member, kick_other, kick_member, update_member,
}
use onion_network.Chat.Members.Database.{Store}
use onion_network.Chat.Members.Actions.{advanced}
use onion_network.Chat.Members.Rights.{Within, put_cases, here, adds, Reaches-Within}
use onion_network.Chat.Members.Replay.{Refused, proof_serves_once, send_waits}
use onion_network.Chat.Members.Ranks.{kick_member-update_member, update_member-resets}

module _ {V : Type 0} where
  at : ℕ → (ℕ → Option V) → Option V
  at k db = db k

  unfoldable pub set_at : ℕ → Option V → (ℕ → Option V) → ℕ → Option V
  set_at k v db j = if k == j then v else db j

  pub set_at-same : (k : ℕ) (v : Option V) (db : ℕ → Option V) → set_at k v db k ≡ v
  unfolding set_at
  set_at-same k v db = rw (==_refl k) refl

  pub set_at-other : (k j : ℕ) (v : Option V) (db : ℕ → Option V) → k ≢ j → set_at k v db j ≡ db j
  unfolding set_at
  set_at-other k j v db apart = elim (Bool-cases (k == j)) [
    | inl same ↦ absurd (apart ((==_iff k j).0 same))
    | inr other ↦ rw other refl
  ]

abbrev pub function_store : (V : Type 0) → Store V
function_store V = record {
  Db = ℕ → Option V;
  get = λ k db. db k;
  put = λ k v db. set_at k (some v) db;
  del = λ k db. set_at k none db;
  clear = λ db k. none;
  get-clear = λ k db. refl;
  get-put = λ k v db. set_at-same k (some v) db;
  get-put_other = λ k j v db apart. set_at-other k j (some v) db apart;
  get-del = λ k db. set_at-same k none db;
  get-del_other = λ k j db apart. set_at-other k j none db apart;
}

abbrev pub S : Store Member
S = function_store Member

-- Every proof is valid, and a key is its own hash.
abbrev pub verified : Proof → Bool
verified p = true

abbrev pub same : ℕ → ℕ
same k = k

abbrev member : ℕ → Member
member rank = record {
  action = 0;
  permissions = all_flags;
  rank = rank;
  action_cooldown_ms = 50;
  frozen_until = 0;
}

abbrev by : ℕ → ℕ → Proof
by pk nonce = record { pk = pk; nonce = nonce; signature = 0; context = 0 }

-- Member 1 has rank 3, member 2 rank 5, member 4 rank 1.
abbrev chat : S.Db
chat =
    set_at 1 (some (member 3)) (set_at 2 (some (member 5)) (set_at 4 (some (member 1)) (λ _. none)))

abbrev invited : S.Db
invited =
    set_at 6 (some (limited (member 3) (member 0)))
      (set_at 1 (some (record (member 3) { action = 9; frozen_until = 150 })) chat)

invites : add_member S verified same 100 (by 1 9) 6 (member 0) chat ≡ ok invited
unfolding add_member begin_action advance_nonce advance_to allocate_action put_new limited set_at
invites = refl

abbrev top : Member
top = member 1

Within-top : (rank : ℕ) → 1 ≤ rank → Within top (member rank)
Within-top rank h = record { below = h; subset = refl; slower = omega arith }

chat-Within : (id : ℕ) (m : Member) → S.get id chat ≡ some m → Within top m
chat-Within id m e =
    elim (put_cases S verified same 1 id (member 3)
      (set_at 2 (some (member 5)) (set_at 4 (some (member 1)) (λ _. none))) e) [
        | inl (_, is) ↦ subst (Within top) is (Within-top 3 (omega arith))
        | inr e2 ↦
            elim (put_cases S verified same 2 id (member 5) (set_at 4 (some (member 1)) (λ _. none))
              e2) [
                | inl (_, is) ↦ subst (Within top) is (Within-top 5 (omega arith))
                | inr e4 ↦ elim (put_cases S verified same 4 id (member 1) (λ _. none) e4) [
                  | inl (_, is) ↦ subst (Within top) is (Within-top 1 (omega arith))
                  | inr nobody ↦ absurd (ground arith)
                ]
              ]
      ]

new_member : S.get 6 invited ≡ some (limited (member 3) (member 0))
unfolding set_at
new_member = refl

Reaches-Within_example : Within top (limited (member 3) (member 0))
Reaches-Within_example =
    Reaches-Within S verified same top chat invited chat-Within
      (adds 100 (by 1 9) 6 (member 0) here invites) 6 (limited (member 3) (member 0)) new_member

proof_serves_once_example : (x : ChatError) × Refused S verified same (by 1 9) invited x
proof_serves_once_example =
    proof_serves_once S verified same 100 6 (member 0) (by 1 9) chat invited (inr (inl invites))

abbrev sent : S.Db
sent = set_at 1 (some (record (member 3) { action = 9; frozen_until = 150 })) chat

sends : charge_sender S verified same 100 (by 1 9) chat ≡ ok sent
unfolding charge_sender begin_action advance_nonce advance_to allocate_action set_at
sends = refl

send_waits_example : charge_sender S verified same 120 (by 1 10) sent ≡ err (rate_limited 30)
send_waits_example =
    send_waits S verified same 100 120 (by 1 9) (by 1 10) (member 3) chat sent
      (set_at-same 1 (some (member 3))
        (set_at 2 (some (member 5)) (set_at 4 (some (member 1)) (λ _. none))))
      sends (omega arith) (omega arith) refl refl (omega arith)

abbrev kicked : S.Db
kicked = set_at 1 none (set_at 2 (some (record (member 5) { action = 9; frozen_until = 150 })) chat)

kicks : kick_member S verified same 100 (by 2 9) 1 chat ≡ ok kicked
unfolding kick_member kick_other begin_action advance_nonce advance_to allocate_action set_at
kicks = refl

kick_member-update_member_example :
    (x : ChatError) × (update_member S verified same (by 2 9) 1 (member 7) chat ≡ err x)
kick_member-update_member_example =
    kick_member-update_member S verified same 100 1 (by 2 9) (by 2 9) (member 7) chat kicked refl
      kicks (λ e. omega arith)

abbrev updated : S.Db
updated =
    set_at 2 (some (limited (member 3) (member 7)))
      (set_at 1 (some (record (member 3) { action = 9 })) chat)

updates : update_member S verified same (by 1 9) 2 (member 7) chat ≡ ok updated
unfolding update_member begin_action advance_nonce advance_to limited set_at
updates = refl

update_member-resets_example :
    (m : Member) × (begin_action S verified same (by 2 1) updated ≡ ok (advanced (by 2 1) m))
update_member-resets_example =
    update_member-resets S verified same 2 (by 1 9) (by 2 1) (member 7) chat updated updates refl
      refl (omega arith)

abbrev packed : List ℕ
packed = 7 ∷ 0 ∷ 1 ∷ 0 ∷ 0 ∷ 8 ∷ 9 ∷ 0 ∷ 2 ∷ []

abbrev is_long : List ℕ → Bool
is_long m = leb 1 (length m)

retain_messages-unpack_messages_example :
    (kept : List ℕ) × (retain_messages is_long packed ≡ some kept)
    × (length kept ≤ 9)
    × (unpack_messages kept ≡ filter is_long (unpack_messages packed))
retain_messages-unpack_messages_example =
    retain_messages-unpack_messages is_long packed (omega arith)
