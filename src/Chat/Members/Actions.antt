-- ===== src/Chat/Members/Actions.antt =====
-- What the actions on the members do where they succeed.
use onion_network.Base.{
  ℕ, ◌+◌, ◌%◌, ◌^◌, ◌<◌, ◌≡◌, refl, none, some, Bool, true, ltb, ◌==◌, ==_iff, ltb→lt, Bool-cases,
  Option-cases, inl, inr, arith,
}
use mathlib.Core.Path.{subst, ap}
use onion_network.Codec.Sum.{ok}
use onion_network.Chat.Errors.{ensure, context}
use onion_network.Chat.Members.{
  Permissions, send_flag, invite_flag, kick_flag, contains, Member, Proof, allocate_action, limited,
  settle, ignore_exists, put_new, begin_action, charge_sender, add_member, kick_other, kick_member,
  update_member,
}
use onion_network.Chat.Members.Database.{Store}
use onion_network.Chat.Members.Inversion.{bind_ok, ensure_ok, context_ok, began, settle_ok}

-- The member with the nonce of the proof, and the one that is frozen for its cooldown too.
abbrev pub advanced : Proof → Member → Member
advanced by m = record m { action = by.nonce }

abbrev pub charged : ℕ → Proof → Member → Member
charged now by m = record m {
  action = by.nonce;
  frozen_until = (now + m.action_cooldown_ms) % 2 ^ 64;
}

-- `m` may act at the time `now`.
pub record MayAct (now : ℕ) (p : Permissions) (m : Member) : Type 0 where
  pub thawed : m.frozen_until < now
  pub allowed : contains m.permissions p ≡ true

module _ (S : Store Member) (verify : Proof → Bool) (hash : ℕ → ℕ) where
  -- The proof is valid, newer than the last one, and its signer is the member `m`.
  pub record Signs (by : Proof) (db : S.Db) (m : Member) : Type 0 where
    pub verified : verify by ≡ true
    pub found : S.get (hash by.pk) db ≡ some m
    pub newer : m.action < by.nonce

  -- Every action that succeeds, and the database that it leaves.
  pub data Acted (by : Proof) (db : S.Db) : S.Db → Type 0 where
    sent :
        (now : ℕ) (m : Member)
        → Signs by db m
        → MayAct now send_flag m
        → Acted by db (S.put (hash by.pk) (charged now by m) db)
    added :
        (now : ℕ) (m : Member) (id : ℕ) (asked : Member)
        → Signs by db m
        → MayAct now invite_flag m
        → S.get id (S.put (hash by.pk) (charged now by m) db) ≡ none
        → Acted by db (S.put id (limited m asked) (S.put (hash by.pk) (charged now by m) db))
    left :
        (m : Member)
        → Signs by db m
        → Acted by db (S.del (hash by.pk) (S.put (hash by.pk) (advanced by m) db))
    kicked :
        (now : ℕ) (m : Member) (id : ℕ) (victim : Member)
        → Signs by db m
        → MayAct now kick_flag m
        → S.get id (S.put (hash by.pk) (charged now by m) db) ≡ some victim
        → victim.rank < m.rank
        → Acted by db (S.del id (S.put (hash by.pk) (charged now by m) db))
    updated :
        (m : Member) (id : ℕ) (old asked : Member)
        → Signs by db m
        → S.get id (S.put (hash by.pk) (advanced by m) db) ≡ some old
        → m.rank < old.rank
        → Acted by db (S.put id (limited m asked) (S.put (hash by.pk) (advanced by m) db))

  began_ok {ℓ} :
      {C : Type ℓ} (by : Proof) (db : S.Db) {m : Member}
      → begin_action S verify hash by db ≡ ok m
      → ((old : Member) → Signs by db old → m ≡ advanced by old → C)
      → C
  began_ok by db e k =
      let b = began S verify hash by db e in
      k b.old (record { verified = b.verified; found = b.found; newer = b.newer }) b.advanced

  charged_ok {ℓ} :
      {C : Type ℓ} (now : ℕ) (p : Permissions) (by : Proof) (old m : Member) {c : Member}
      → m ≡ advanced by old
      → settle (allocate_action now p m) ≡ ok c
      → (MayAct now p old → c ≡ charged now by old → C)
      → C
  charged_ok now p by old m at s k =
      let (thawed, allowed, c_is) = settle_ok now p (advanced by old) (rw (← at) s) in
      k (record { thawed = thawed; allowed = allowed }) c_is

  pub charge_sender_ok {ℓ} :
      {C : Type ℓ} (now : ℕ) (by : Proof) (db : S.Db) {db' : S.Db}
      → charge_sender S verify hash now by db ≡ ok db'
      → ((m : Member)
          → Signs by db m
          → MayAct now send_flag m
          → S.put (hash by.pk) (charged now by m) db ≡ db'
          → C)
      → C
  unfolding charge_sender
  charge_sender_ok now by db {db'} e k = bind_ok (begin_action S verify hash by db) _ e (λ m b e1.
      bind_ok (settle (allocate_action now send_flag m)) _ e1 (λ c s e2.
        began_ok by db b (λ old signs at.
          charged_ok now send_flag by old m at s (λ may c_is. k old signs may cc))))

  pub charge_sender-Acted :
      (now : ℕ) (by : Proof) (db : S.Db) {db' : S.Db}
      → charge_sender S verify hash now by db ≡ ok db'
      → Acted by db db'
  charge_sender-Acted now by db e =
      charge_sender_ok now by db e (λ m signs may to. subst (Acted by db) to (sent now m signs may))

  put_new-none :
      (id : ℕ) (m : Member) (db : S.Db)
      → S.get id db ≡ none
      → put_new S verify hash id m db ≡ some (S.put id m db)
  unfolding put_new
  put_new-none id m db e = rw (e, put_new)

  put_new-some :
      (id : ℕ) (m : Member) (db : S.Db) {v : Member}
      → S.get id db ≡ some v
      → put_new S verify hash id m db ≡ none
  unfolding put_new
  put_new-some id m db e = rw (e, put_new)

  put_new_ok :
      (id : ℕ) (m : Member) (db : S.Db) {db' : S.Db}
      → ignore_exists (put_new S verify hash id m db) ≡ ok db'
      → (S.get id db ≡ none) × (db' ≡ S.put id m db)
  put_new_ok id m db e = elim (Option-cases (S.get id db)) [
    | inl absent ↦ (absent, let at = rw (put_new-none id m db absent) at e in cc)
    | inr (a, present) ↦ absurd (let at = rw (put_new-some id m db present) at e in ground arith)
  ]

  limited-charged :
      (now : ℕ) (by : Proof) (m asked : Member) → limited (charged now by m) asked ≡ limited m asked
  unfolding limited
  limited-charged now by m asked = refl

  limited_advanced :
      (by : Proof) (m asked : Member) → limited (advanced by m) asked ≡ limited m asked
  unfolding limited
  limited_advanced by m asked = refl

  pub add_member-Acted :
      (now : ℕ) (by : Proof) (id : ℕ) (asked : Member) (db : S.Db) {db' : S.Db}
      → add_member S verify hash now by id asked db ≡ ok db'
      → Acted by db db'
  unfolding add_member
  add_member-Acted now by id asked db {db'} e =
      bind_ok (begin_action S verify hash by db) _ e (λ m b e1.
        bind_ok (settle (allocate_action now invite_flag m)) _ e1 (λ c s e2.
          began_ok by db b (λ old signs at. charged_ok now invite_flag by old m at s (λ may c_is.
            let (absent, to) = put_new_ok id (limited c asked) (S.put (hash by.pk) c db) e2 in
            let limits = limited-charged now by old asked in
            let to' : S.put id (limited old asked) (S.put (hash by.pk) (charged now by old) db)
                ≡ db' =
              cc in
            let at_c : S.get id (S.put (hash by.pk) (charged now by old) db) ≡ none =
              rw (← c_is) absent in
            subst (Acted by db) to' (added now old id asked signs may at_c)))))

  pub update_member_ok {ℓ} :
      {C : Type ℓ} (by : Proof) (id : ℕ) (asked : Member) (db : S.Db) {db' : S.Db}
      → update_member S verify hash by id asked db ≡ ok db'
      → ((m old : Member)
          → Signs by db m
          → S.get id (S.put (hash by.pk) (advanced by m) db) ≡ some old
          → m.rank < old.rank
          → S.put id (limited m asked) (S.put (hash by.pk) (advanced by m) db) ≡ db'
          → C)
      → C
  unfolding update_member
  update_member_ok by id asked db {db'} e k =
      bind_ok (begin_action S verify hash by db) _ e (λ m b e1.
        bind_ok (context (S.get id (S.put (hash by.pk) m db))) _ e1 (λ dest g e2.
          bind_ok (ensure (ltb m.rank dest.rank) _) _ e2 (λ u r e3.
            began_ok by db b (λ old signs at.
              let rank_is : m.rank ≡ old.rank = ap (λ (t : Member). t.rank) at in
              let lower : old.rank < dest.rank = rw (← rank_is) (ltb→lt _ _ (ensure_ok _ _ r)) in
              let limits : limited m asked ≡ limited old asked =
                rw at (limited_advanced by old asked) in
              let present : S.get id (S.put (hash by.pk) (advanced by old) db) ≡ some dest =
                rw (← at) (context_ok _ g) in
              k old dest signs present lower cc))))

  pub update_member-Acted :
      (by : Proof) (id : ℕ) (asked : Member) (db : S.Db) {db' : S.Db}
      → update_member S verify hash by id asked db ≡ ok db'
      → Acted by db db'
  update_member-Acted by id asked db e =
      update_member_ok by id asked db e (λ m old signs present lower to.
        subst (Acted by db) to (updated m id old asked signs present lower))

  kick_other_ok {ℓ} :
      {C : Type ℓ} (now : ℕ) (by : Proof) (id : ℕ) (old : Member) (db : S.Db) {db' : S.Db}
      → kick_other S verify hash now by id (advanced by old) db ≡ ok db'
      → ((victim : Member)
          → MayAct now kick_flag old
          → S.get id (S.put (hash by.pk) (charged now by old) db) ≡ some victim
          → victim.rank < old.rank
          → S.del id (S.put (hash by.pk) (charged now by old) db) ≡ db'
          → C)
      → C
  unfolding kick_other
  kick_other_ok now by id old db {db'} e k =
      bind_ok (settle (allocate_action now kick_flag (advanced by old))) _ e (λ c s e1.
        charged_ok now kick_flag by old (advanced by old) refl s (λ may c_is.
          bind_ok (context (S.get id (S.put (hash by.pk) c db))) _ e1 (λ victim g e2.
            bind_ok (ensure (ltb victim.rank c.rank) _) _ e2 (λ u r e3.
              let rank_is : c.rank ≡ old.rank = ap (λ (t : Member). t.rank) c_is in
              let lower : victim.rank < old.rank = rw (← rank_is) (ltb→lt _ _ (ensure_ok _ _ r)) in
              let present : S.get id (S.put (hash by.pk) (charged now by old) db) ≡ some victim =
                rw (← c_is) (context_ok _ g) in
              k victim may present lower cc))))

  -- Either the member leaves, or it kicks another one.
  pub kick_member_ok {ℓ} :
      {C : Type ℓ} (now : ℕ) (by : Proof) (id : ℕ) (db : S.Db) {db' : S.Db}
      → kick_member S verify hash now by id db ≡ ok db'
      → ((m : Member)
          → Signs by db m
          → hash by.pk ≡ id
          → S.del (hash by.pk) (S.put (hash by.pk) (advanced by m) db) ≡ db'
          → C)
      → ((m victim : Member)
          → Signs by db m
          → MayAct now kick_flag m
          → S.get id (S.put (hash by.pk) (charged now by m) db) ≡ some victim
          → victim.rank < m.rank
          → S.del id (S.put (hash by.pk) (charged now by m) db) ≡ db'
          → C)
      → C
  unfolding kick_member
  kick_member_ok now by id db {db'} e leave kick =
      bind_ok (begin_action S verify hash by db) _ e (λ m b e1. began_ok by db b (λ old signs at.
        elim (Bool-cases (hash by.pk == id)) [
          | inl self ↦
              let who : hash by.pk ≡ id = (==_iff _ _).0 self in
              let done = rw self at e1 in leave old signs who cc
          | inr other ↦
              kick_other_ok now by id old db (let done = rw other at e1 in rw (← at) done)
                (λ victim may present lower to. kick old victim signs may present lower to)
        ]))

  pub kick_member-Acted :
      (now : ℕ) (by : Proof) (id : ℕ) (db : S.Db) {db' : S.Db}
      → kick_member S verify hash now by id db ≡ ok db'
      → Acted by db db'
  kick_member-Acted now by id db e =
      kick_member_ok now by id db e (λ m signs self to. subst (Acted by db) to (left m signs))
        (λ m victim signs may present lower to.
          subst (Acted by db) to (kicked now m id victim signs may present lower))
