-- ===== src/Chat/Members.antt =====
-- chat/spec/src/chat.rs, chat/server/src/storage/chat.rs: the members of a chat.
-- An identity is a number. A write that ends in an error changes nothing: its transaction is
-- dropped. The database, the check of a proof and the hash of a key are parameters, and the time
-- is an argument.
pub mod Database
mod Inversion
pub mod Actions
pub mod Rights
pub mod Replay
pub mod Ranks
pub mod PermissionText
pub mod Recovery
pub mod Combine
use onion_network.Base.{
  ℕ, ◌+◌, ◌-◌, ◌*◌, ◌%◌, ◌^◌, max, Option, none, some, Bool, true, false, ◌&&◌, ◌||◌, not, ltb, leb,
  ◌==◌, if◌then◌else◌,
}
use onion_network.Codec.Sum.{Result, ok, err}
use onion_network.Chat.Errors.{
  ChatError, ise, invalid_proof, invalid_action, no_permission, rate_limited, already_exists, ◌>>=◌,
  ◌>>◌, ensure, context,
}
use onion_network.Chat.Members.Database.{Store}

-- The flags of `Permissions`; also the permission that an action asks for.
pub record Permissions : Type 0 where
  pub send : Bool
  pub invite : Bool
  pub kick : Bool

abbrev pub send_flag : Permissions
send_flag = record { send = true; invite = false; kick = false }

abbrev pub invite_flag : Permissions
invite_flag = record { send = false; invite = true; kick = false }

abbrev pub kick_flag : Permissions
kick_flag = record { send = false; invite = false; kick = true }

abbrev pub all_flags : Permissions
all_flags = record { send = true; invite = true; kick = true }

abbrev pub no_flags : Permissions
no_flags = record { send = false; invite = false; kick = false }

-- `contains`
abbrev pub contains : Permissions → Permissions → Bool
contains p q = (p.send || not q.send) && ((p.invite || not q.invite) && (p.kick || not q.kick))

-- `&`
abbrev pub meet : Permissions → Permissions → Permissions
meet p q = record {
  send = p.send && q.send;
  invite = p.invite && q.invite;
  kick = p.kick && q.kick;
}

pub record Member : Type 0 where
  pub action : ℕ
  pub permissions : Permissions
  pub rank : ℕ
  pub action_cooldown_ms : ℕ
  pub frozen_until : ℕ

abbrev pub best : Member
best = record {
  action = 0;
  permissions = all_flags;
  rank = 0;
  action_cooldown_ms = 0;
  frozen_until = 0;
}

abbrev pub worst : Member
worst = record {
  action = 0;
  permissions = no_flags;
  rank = 2 ^ 32 - 1;
  action_cooldown_ms = 10000;
  frozen_until = 0;
}

-- `allocate_action` at the time `now`: the member that it leaves, and its result.
unfoldable pub allocate_action : ℕ → Permissions → Member → Member × Result (Unit {0}) ChatError
allocate_action now permission m =
    if leb now m.frozen_until then (m, err (rate_limited (m.frozen_until - now))) else (
      record m { frozen_until = (now + m.action_cooldown_ms) % 2 ^ 64 },
      ensure (contains m.permissions permission) no_permission,
    )

-- `NonceInt::advance_to`: the nonce that it leaves, and its result.
unfoldable pub advance_to : ℕ → ℕ → ℕ × Bool
advance_to nonce to = if ltb nonce to then (to, true) else (nonce, false)

unfoldable pub advance_nonce : ℕ → ℕ → Result ℕ ChatError
unfolding advance_to
advance_nonce nonce new_nonce =
    let (at, advanced) = advance_to nonce new_nonce in
    if advanced then ok at else err (invalid_action ((at + 1) % 2 ^ 64))

pub record Proof : Type 0 where
  pub pk : ℕ
  pub nonce : ℕ
  pub signature : ℕ
  pub context : ℕ

-- The member that `add_member` and `update_member` write: never above the one who writes it.
unfoldable pub limited : Member → Member → Member
limited by_member member = record {
  action = 0;
  permissions = meet member.permissions by_member.permissions;
  rank = max by_member.rank member.rank;
  action_cooldown_ms = max by_member.action_cooldown_ms member.action_cooldown_ms;
  frozen_until = 0;
}

abbrev pub settle : Member × Result (Unit {0}) ChatError → Result Member ChatError
settle (m, ok _) = ok m
settle (m, err e) = err e

-- `.ignore_exists(Err(ChatError::AlreadyExists))`
abbrev pub ignore_exists : {A : Type 0} → Option A → Result A ChatError
ignore_exists (some a) = ok a
ignore_exists none = err already_exists

module _ (S : Store Member) (verify : Proof → Bool) (hash : ℕ → ℕ) where
  -- `put` with `NOOVERWRITE`
  unfoldable pub put_new : ℕ → Member → S.Db → Option S.Db
  put_new id member db = elim (S.get id db) [ some _ ↦ none | none ↦ some (S.put id member db) ]

  unfoldable pub create_member : ℕ → Member → S.Db → Result S.Db ChatError
  create_member id member db = context (put_new id member db)

  -- The member of a proof with its nonce advanced, which begins every action.
  unfoldable pub begin_action : Proof → S.Db → Result Member ChatError
  unfolding advance_nonce
  begin_action by db = do
    ensure (verify by) invalid_proof
    by_member ← context (S.get (hash by.pk) db)
    action ← advance_nonce by_member.action by.nonce
    ok (record by_member { action = action })

  -- The part of `send_message` that writes the sender.
  unfoldable pub charge_sender : ℕ → Proof → S.Db → Result S.Db ChatError
  unfolding begin_action
  charge_sender now by db = do
    by_member ← begin_action by db
    charged ← settle (allocate_action now send_flag by_member)
    ok (S.put (hash by.pk) charged db)

  unfoldable pub add_member : ℕ → Proof → ℕ → Member → S.Db → Result S.Db ChatError
  unfolding begin_action
  add_member now by id member db = do
    by_member ← begin_action by db
    charged ← settle (allocate_action now invite_flag by_member)
    ignore_exists (put_new id (limited charged member) (S.put (hash by.pk) charged db))

  -- The part of `kick_member` for another member.
  unfoldable pub kick_other : ℕ → Proof → ℕ → Member → S.Db → Result S.Db ChatError
  unfolding allocate_action
  kick_other now by id by_member db = do
    charged ← settle (allocate_action now kick_flag by_member)
    let charged_db = S.put (hash by.pk) charged db
    member ← context (S.get id charged_db)
    ensure (ltb member.rank charged.rank) no_permission
    ok (S.del id charged_db)

  -- Whoever leaves by itself needs no permission.
  unfoldable pub kick_member : ℕ → Proof → ℕ → S.Db → Result S.Db ChatError
  unfolding begin_action
  kick_member now by id db = do
    by_member ← begin_action by db
    if hash by.pk == id
        then ok (S.del id (S.put (hash by.pk) by_member db))
        else kick_other now by id by_member db

  unfoldable pub update_member : Proof → ℕ → Member → S.Db → Result S.Db ChatError
  unfolding begin_action
  update_member by id member db = do
    by_member ← begin_action by db
    let advanced = S.put (hash by.pk) by_member db
    dest ← context (S.get id advanced)
    ensure (ltb by_member.rank dest.rank) no_permission
    ok (S.put id (limited by_member member) advanced)
