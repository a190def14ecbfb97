-- ===== src/Chat/Members/Ranks.antt =====
-- The ranks that `kick_member` and `update_member` ask for, and what an update resets.
use onion_network.Base.{ℕ, ◌<◌, ◌≡◌, ◌≢◌, refl, sym, ◌∙◌, some, Bool, true, arith, ◌⊎◌, inl, inr}
use mathlib.Core.Path.{ap}
use onion_network.Codec.Sum.{Result, ok, err}
use onion_network.Chat.Errors.{ChatError}
use onion_network.Chat.Members.{Member, Proof, limited, begin_action, kick_member, update_member}
use onion_network.Chat.Members.Database.{Store}
use onion_network.Chat.Members.Actions.{charged, advanced, kick_member_ok, update_member_ok}
use onion_network.Chat.Members.Rights.{put_cases}
use onion_network.Chat.Members.Replay.{begin_action_newer}

limited_fresh : (m asked : Member) → (limited m asked).action ≡ 0
unfolding limited
limited_fresh m asked = refl

Result-cases :
    {A : Type 0} (r : Result A ChatError) → ((x : ChatError) × (r ≡ err x)) ⊎ ((a : A) × (r ≡ ok a))
Result-cases (ok a) = inr (a, refl)
Result-cases (err x) = inl (x, refl)

module _ (S : Store Member) (verify : Proof → Bool) (hash : ℕ → ℕ) where
  old_rank :
      (k id : ℕ) (v m w : Member) (db : S.Db)
      → S.get k db ≡ some m
      → v.rank ≡ m.rank
      → S.get id (S.put k v db) ≡ some w
      → (t : Member) × (S.get id db ≡ some t) × (t.rank ≡ w.rank)
  old_rank k id v m w db at same e = elim (put_cases S verify hash k id v db e) [
    | inl (key, is) ↦ (m, rw (← key) at, sym same ∙ ap (λ (t : Member). t.rank) is)
    | inr old ↦ (w, old, refl)
  ]

  both_self :
      (now id : ℕ) (by by' : Proof) (asked : Member) (db kicked_db updated_db : S.Db)
      → by'.pk ≡ by.pk
      → kick_member S verify hash now by id db ≡ ok kicked_db
      → update_member S verify hash by' id asked db ≡ ok updated_db
      → hash by.pk ≡ id
  both_self now id by by' asked db kicked_db updated_db key e f =
      kick_member_ok S verify hash now by id db e (λ m signs self to. self)
        (λ m victim signs may present lower to.
          update_member_ok S verify hash by' id asked db f (λ m' old signs' present' higher to'.
            let same : m ≡ m' = (let a = signs.found in let b = rw key at signs'.found in cc) in
            let rank_is : m.rank ≡ m'.rank = ap (λ (t : Member). t.rank) same in
            let (t, t_at, t_rank) =
              old_rank (hash by.pk) id (charged now by m) m victim db signs.found refl present in
            let (t', t'_at, t'_rank) =
              old_rank (hash by'.pk) id (advanced by' m') m' old db signs'.found refl present' in
            let one : t ≡ t' = cc in
            let one_rank : t.rank ≡ t'.rank = ap (λ (t : Member). t.rank) one in
            absurd (omega arith)))

  -- Whom a member can kick, other than itself, it cannot update: the update by the same key on the
  -- same database is an error, as the two ask for opposite orders of the ranks.
  pub kick_member-update_member :
      (now id : ℕ) (by by' : Proof) (asked : Member) (db kicked_db : S.Db)
      → by'.pk ≡ by.pk
      → kick_member S verify hash now by id db ≡ ok kicked_db
      → hash by.pk ≢ id
      → (x : ChatError) × (update_member S verify hash by' id asked db ≡ err x)
  kick_member-update_member now id by by' asked db kicked_db key e other =
      elim (Result-cases (update_member S verify hash by' id asked db)) [
        | inl (x, f) ↦ (x, f)
        | inr (updated_db, f) ↦
            absurd (other (both_self now id by by' asked db kicked_db updated_db key e f))
      ]

  -- An update that succeeds sets the nonce of the member to 0: any valid proof of the member with
  -- a nonce above 0 is accepted again, also one that was used before.
  pub update_member-resets :
      (id : ℕ) (by used : Proof) (asked : Member) (db db' : S.Db)
      → update_member S verify hash by id asked db ≡ ok db'
      → hash used.pk ≡ id
      → verify used ≡ true
      → 0 < used.nonce
      → (m : Member) × (begin_action S verify hash used db' ≡ ok (advanced used m))
  update_member-resets id by used asked db db' e key good positive =
      update_member_ok S verify hash by id asked db e (λ m old signs present lower to.
        let there : S.get (hash used.pk) db' ≡ some (limited m asked) =
          rw (← to, key) (S.get-put id (limited m asked) _) in
        (
          limited m asked,
          begin_action_newer S verify hash used (limited m asked) db' there good
              (rw (limited_fresh m asked) positive),
        ))
