-- ===== src/Chat/Members/Replay.antt =====
-- A proof serves once, and a member waits for its cooldown.
use onion_network.Base.{
  ℕ, ◌+◌, ◌-◌, ◌%◌, ◌^◌, ◌<◌, ◌≤◌, ◌≡◌, ◌≢◌, refl, none, some, Bool, true, le→ltb, lt→ltb, le→leb,
  Bool-cases, ◌⊎◌, inl, inr, arith,
}
use mathlib.Core.Path.{ap}
use onion_network.Codec.Sum.{ok, err}
use onion_network.Chat.Errors.{ChatError, ise, invalid_proof, invalid_action, rate_limited}
use onion_network.Chat.Members.{
  allocate_action, Member, Proof, limited, advance_to, advance_nonce, begin_action, charge_sender,
  add_member, kick_member, update_member,
}
use onion_network.Chat.Members.Database.{Store}
use onion_network.Chat.Members.Actions.{
  Acted, sent, added, left, kicked, updated, charged, advanced, charge_sender_ok,
  charge_sender-Acted, add_member-Acted, kick_member-Acted, update_member-Acted,
}

advance_nonce_old : (old to : ℕ) → to ≤ old → (x : ChatError) × (advance_nonce old to ≡ err x)
unfolding advance_nonce advance_to
advance_nonce_old old to h = (invalid_action ((old + 1) % 2 ^ 64), rw (le→ltb old to h) refl)

module _ (S : Store Member) (verify : Proof → Bool) (hash : ℕ → ℕ) where
  -- The signer of `by` has used the nonce, or is no member.
  Spent : Proof → S.Db → Type 0
  Spent by db =
      (S.get (hash by.pk) db ≡ none)
      ⊎ ((m : Member) × (S.get (hash by.pk) db ≡ some m) × (by.nonce ≤ m.action))

  Spent-put_other :
      (by : Proof) (k : ℕ) (v : Member) (db : S.Db)
      → k ≢ hash by.pk
      → Spent by db
      → Spent by (S.put k v db)
  unfolding Spent
  Spent-put_other by k v db apart s = rw (S.get-put_other k (hash by.pk) v db apart) s

  Spent-del_other :
      (by : Proof) (k : ℕ) (db : S.Db) → k ≢ hash by.pk → Spent by db → Spent by (S.del k db)
  unfolding Spent
  Spent-del_other by k db apart s = rw (S.get-del_other k (hash by.pk) db apart) s

  Spent-put :
      (by : Proof) (v : Member) (db : S.Db)
      → by.nonce ≤ v.action
      → Spent by (S.put (hash by.pk) v db)
  unfolding Spent
  Spent-put by v db h = inr (v, S.get-put (hash by.pk) v db, h)

  Acted-Spent : (by : Proof) (db : S.Db) {db' : S.Db} → Acted S verify hash by db db' → Spent by db'
  Acted-Spent by db (sent now m s may) = Spent-put by (charged now by m) db (omega arith)
  Acted-Spent by db (added now m id asked s may absent) =
      Spent-put_other by id (limited m asked) _
        (λ at.
          absurd (
            let e = rw (at, S.get-put (hash by.pk) (charged now by m) db) at absent in
            ground arith))
        (Spent-put by (charged now by m) db (omega arith))
  Acted-Spent by db (left m s) = unfold Spent in inl (S.get-del (hash by.pk) _)
  Acted-Spent by db (kicked now m id victim s may present lower) =
      Spent-del_other by id _
        (λ at. absurd (
          let e = rw (at, S.get-put (hash by.pk) (charged now by m) db) at present in
          let same : m.rank ≡ victim.rank =
            (let is : charged now by m ≡ victim = cc in ap (λ (t : Member). t.rank) is) in
          omega arith))
        (Spent-put by (charged now by m) db (omega arith))
  Acted-Spent by db (updated m id old asked s present lower) =
      Spent-put_other by id (limited m asked) _
        (λ at. absurd (
          let e = rw (at, S.get-put (hash by.pk) (advanced by m) db) at present in
          let same : m.rank ≡ old.rank =
            (let is : advanced by m ≡ old = cc in ap (λ (t : Member). t.rank) is) in
          omega arith))
        (Spent-put by (advanced by m) db (omega arith))

  begin_action-Spent :
      (by : Proof) (db : S.Db)
      → Spent by db
      → (x : ChatError) × (begin_action S verify hash by db ≡ err x)
  unfolding Spent begin_action
  begin_action-Spent by db s = elim (Bool-cases (verify by)) [
    | inr bad ↦ (invalid_proof, rw (bad, begin_action))
    | inl good ↦ elim s [
      | inl gone ↦ (ise, rw (good, gone, begin_action))
      | inr (m, found, used) ↦
          let (x, e) = advance_nonce_old m.action by.nonce used in
          (x, rw (good, found, e, begin_action))
    ]
  ]

  -- Every action that the proof signs ends in the error `x`.
  abbrev pub Refused : Proof → S.Db → ChatError → Type 0
  Refused by db x =
      ((now : ℕ) → charge_sender S verify hash now by db ≡ err x)
      × ((now id : ℕ) (asked : Member) → add_member S verify hash now by id asked db ≡ err x)
      × ((now id : ℕ) → kick_member S verify hash now by id db ≡ err x)
      × ((id : ℕ) (asked : Member) → update_member S verify hash by id asked db ≡ err x)

  refused :
      (by : Proof) (db : S.Db) (x : ChatError)
      → begin_action S verify hash by db ≡ err x
      → Refused by db x
  unfolding charge_sender add_member kick_member update_member
  refused by db x e = (
    (λ now. rw (e, charge_sender)),
    (λ now id asked. rw (e, add_member)),
    (λ now id. rw (e, kick_member)),
    (λ id asked. rw (e, update_member)),
  )

  pub Acted-refused :
      (by : Proof) (db : S.Db) {db' : S.Db}
      → Acted S verify hash by db db'
      → (x : ChatError) × Refused by db' x
  Acted-refused by db {db'} a =
      let (x, e) = begin_action-Spent by db' (Acted-Spent by db a) in (x, refused by db' x e)

  -- On the database that a send, an addition, a kick or an update leaves where it succeeds,
  -- the proof of that action is refused with an error, for whichever action it is shown again.
  pub proof_serves_once :
      (now id : ℕ) (asked : Member) (by : Proof) (db db' : S.Db)
      → (charge_sender S verify hash now by db ≡ ok db')
        ⊎ ((add_member S verify hash now by id asked db ≡ ok db')
            ⊎ ((kick_member S verify hash now by id db ≡ ok db')
                ⊎ (update_member S verify hash by id asked db ≡ ok db')))
      → (x : ChatError) × Refused by db' x
  proof_serves_once now id asked by db db' (inl e) =
      Acted-refused by db (charge_sender-Acted S verify hash now by db e)
  proof_serves_once now id asked by db db' (inr (inl e)) =
      Acted-refused by db (add_member-Acted S verify hash now by id asked db e)
  proof_serves_once now id asked by db db' (inr (inr (inl e))) =
      Acted-refused by db (kick_member-Acted S verify hash now by id db e)
  proof_serves_once now id asked by db db' (inr (inr (inr e))) =
      Acted-refused by db (update_member-Acted S verify hash by id asked db e)

  pub begin_action_newer :
      (by : Proof) (m : Member) (db : S.Db)
      → S.get (hash by.pk) db ≡ some m
      → verify by ≡ true
      → m.action < by.nonce
      → begin_action S verify hash by db ≡ ok (advanced by m)
  unfolding begin_action advance_nonce advance_to
  begin_action_newer by m db found good newer =
      rw (good, found, lt→ltb _ _ newer, begin_action, advance_nonce, advance_to)

  send_frozen :
      (later : ℕ) (by : Proof) (m : Member) (db : S.Db)
      → S.get (hash by.pk) db ≡ some m
      → verify by ≡ true
      → m.action < by.nonce
      → later ≤ m.frozen_until
      → charge_sender S verify hash later by db ≡ err (rate_limited (m.frozen_until - later))
  unfolding charge_sender allocate_action
  send_frozen later by m db found good newer frozen =
      rw (begin_action_newer by m db found good newer, le→leb _ _ frozen, charge_sender)

  -- After a send at the time `now` that succeeds, and whose end of the cooldown does not
  -- overflow, a send of the same member with a valid and newer proof is refused up to that end,
  -- with the time that is left.
  pub send_waits :
      (now later : ℕ) (by again : Proof) (m : Member) (db db' : S.Db)
      → S.get (hash by.pk) db ≡ some m
      → charge_sender S verify hash now by db ≡ ok db'
      → now + m.action_cooldown_ms < 2 ^ 64
      → later ≤ now + m.action_cooldown_ms
      → verify again ≡ true
      → again.pk ≡ by.pk
      → by.nonce < again.nonce
      → charge_sender S verify hash later again db'
        ≡ err (rate_limited (now + m.action_cooldown_ms - later))
  send_waits now later by again m db db' found e small soon good key newer =
      charge_sender_ok S verify hash now by db e (λ old signs may to.
        let same : old ≡ m = (let at = signs.found in cc) in
        let there : S.get (hash again.pk) db' ≡ some (charged now by m) =
          rw (← to, same, key) (S.get-put (hash by.pk) (charged now by m) db) in
        let end : (now + m.action_cooldown_ms) % 2 ^ 64 ≡ now + m.action_cooldown_ms =
          omega arith in
        rw (← end) (send_frozen later again (charged now by m) db' there good newer (omega arith)))
